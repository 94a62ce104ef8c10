-- ===== src/Nebula/Protocols/Laws.antt =====
-- The bars that `chart_autonat_protocols` draws.
use autonat_project.Base.{
  ℕ, suc, ◌≤◌, ◌≡◌, ◌≢◌, refl, ap, some, Option, String, List, [], ◌∷◌, ltb, arith,
}
use autonat_project.Base.Int.{ℤ, pos, negsuc, pos_part, neg_part}
use autonat_project.Base.Always.{Always, Always-bind, Always-some}
use autonat_project.Base.Dict.{lookup}
use autonat_project.Base.Sort.Laws.{IsSortedBy, sort_by-IsSortedBy}
use autonat_project.Trace.Attrs.{traverse}
use autonat_project.Nebula.{Row, int_field, column}
use autonat_project.Nebula.Protocols.{
  category_key, sorted_categories, bar_colors, sum, percents, non_empty, ProtocolChart,
  chart_autonat_protocols,
}

non_empty-same : {A : Type 0} (xs : List A) → Always (λ ys. ys ≡ xs) (non_empty xs)
non_empty-same [] = λ x e. absurd (cc)
non_empty-same (x ∷ xs) = Always-some _ _ refl

module _ (percentage : ℤ → ℤ → Option String) where
  -- What the chart shows.
  pub record IsProtocolChart (rows : List Row) (c : ProtocolChart) : Type 0 where
    pub sorted : List Row
    pub by_order : IsSortedBy category_key ◌≤◌ rows sorted
    pub cats : column (lookup "category") sorted ≡ some c.cats
    pub cnts : column (int_field "cnt") sorted ≡ some c.cnts
    pub colored : bar_colors c.cats ≡ some c.bar_colors
    pub total : sum c.cnts ≢ pos 0
    pub pcts : traverse (λ n. percentage n (sum c.cnts)) c.cnts ≡ some c.pcts

  -- A list of percentages is that of its numbers, by the total, which is not 0 where there is a number.
  percents-some_lem :
      (cnts : List ℤ) (total : ℤ)
      → Always
          (λ pcts. (traverse (λ n. percentage n total) cnts ≡ some pcts))
          (percents percentage cnts total)
  unfolding percents traverse
  percents-some_lem [] total = Always-some _ [] refl
  percents-some_lem (c ∷ cnts) (pos ℕ.zero) = λ x e. absurd (cc)
  percents-some_lem (c ∷ cnts) (pos (suc n)) = Always-bind _ (percentage c (pos (suc n))) _ (λ p ep.
      Always-bind _ (percents percentage cnts (pos (suc n))) _
        (λ rest e. Always-some _ _ (rw (ep, percents-some_lem cnts (pos (suc n)) rest e) refl)))
  percents-some_lem (c ∷ cnts) (negsuc n) = Always-bind _ (percentage c (negsuc n)) _ (λ p ep.
      Always-bind _ (percents percentage cnts (negsuc n)) _
        (λ rest e. Always-some _ _ (rw (ep, percents-some_lem cnts (negsuc n) rest e) refl)))

  percents-total :
      (cnts bars : List ℤ) (total : ℤ)
      → non_empty cnts ≡ some bars
      → Always (λ pcts. total ≢ pos 0) (percents percentage cnts total)
  unfolding percents
  percents-total [] bars total h = absurd (cc h)
  percents-total (c ∷ cnts) bars (pos ℕ.zero) h = λ x e. absurd (cc)
  percents-total (c ∷ cnts) bars (pos (suc n)) h = λ x e z. absurd (omega (arith, ap pos_part z))
  percents-total (c ∷ cnts) bars (negsuc n) h = λ x e z. absurd (omega (arith, ap neg_part z))

  -- When `chart_autonat_protocols` raises no exception, its bars are those of one rearrangement of the
  -- rows, in the order of the four categories, each with its category's colour; the total of their
  -- numbers is not 0, and their percentages are over that total.
  pub chart-IsProtocolChart :
      (rows : List Row) → Always (IsProtocolChart rows) (chart_autonat_protocols percentage rows)
  unfolding chart_autonat_protocols sorted_categories
  chart-IsProtocolChart rows = Always-bind _ (sorted_categories rows) _ (λ sorted e.
      Always-bind _ (column (lookup "category") sorted) _ (λ cats ec.
        Always-bind _ (column (int_field "cnt") sorted) _ (λ cnts en.
          Always-bind _ (bar_colors cats) _ (λ drawn ed.
            Always-bind _ (percents percentage cnts (sum cnts)) _ (λ pcts ep.
              Always-bind _ (non_empty cnts) _ (λ bars eb.
                let same = non_empty-same cnts bars eb in
                Always-some _ _ (record {
                  sorted = sorted;
                  by_order =
                      sort_by-IsSortedBy category_key ltb ◌≤◌ (λ j k h. ground arith)
                        (λ j k h. ground arith) (λ i j k g h. omega arith) rows sorted e;
                  cats = ec;
                  cnts = rw same en;
                  colored = ed;
                  total = rw same (percents-total cnts bars (sum cnts) eb pcts ep);
                  pcts = rw same (percents-some_lem cnts (sum cnts) pcts ep);
                })))))))
