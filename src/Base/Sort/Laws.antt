-- ===== src/Base/Sort/Laws.antt =====
-- What sorting by a key keeps, and the order that it makes.
use mathlib.Core.Path.{◌≡◌, refl, ap}
use mathlib.Core.Logic.{inl, inr, ◌↔◌}
use mathlib.Core.Bool.{Bool, true, false}
use mathlib.Core.Option.{Option, some}
use mathlib.Core.List.{List, [], ◌∷◌, map, Perm}
use mathlib.Core.List.Perm
use autonat_project.Base.{All, Bool-cases}
use autonat_project.Base.Always.{Always, Always-bind, Always-some}
use autonat_project.Base.Sort.{insert, sort, with_keys, less_key, sort_by}

-- Each item is related to all behind it.
abbrev pub AllPairs {ℓ κ} : {A : Type ℓ} → (A → A → Type κ) → List A → Type (ℓ ⊔ κ)
AllPairs R [] = Unit
AllPairs R (x ∷ xs) = All (R x) xs × AllPairs R xs

module _ {ℓ} {A : Type ℓ} (less : A → A → Bool) where
  insert-perm : (v : A) (ws : List A) → Perm (insert less v ws) (v ∷ ws)
  unfolding insert
  insert-perm v [] = Perm.rfl
  insert-perm v (w ∷ ws) = elim (Bool-cases (less w v)) [
    | inl e ↦ rw e (Perm.trans (Perm.cons w (insert-perm v ws)) (Perm.swap v w ws))
    | inr e ↦ rw e Perm.rfl
  ]

  pub sort-perm : (vs : List A) → Perm (sort less vs) vs
  unfolding sort
  sort-perm [] = Perm.rfl
  sort-perm (v ∷ vs) = Perm.trans (insert-perm v (sort less vs)) (Perm.cons v (sort-perm vs))

  module _ {κ} (P : A → Type κ) where
    All-insert : (v : A) (ws : List A) → P v → All P ws → All P (insert less v ws)
    unfolding insert
    All-insert v [] h hs = (h, tt)
    All-insert v (w ∷ ws) h (k, ks) = elim (Bool-cases (less w v)) [
      | inl e ↦ rw e (k, All-insert v ws h ks)
      | inr e ↦ rw e (h, (k, ks))
    ]

    pub All-sort : (vs : List A) → All P vs → All P (sort less vs)
    unfolding sort
    All-sort [] h = tt
    All-sort (v ∷ vs) (h, hs) = All-insert v (sort less vs) h (All-sort vs hs)

  -- `R` is an order that the test decides.
  module _ {κ} (R : A → A → Type κ) (front : (v w : A) → less w v ≡ true → R w v)
      (stay : (v w : A) → less w v ≡ false → R v w)
      (trans : (u v w : A) → R u v → R v w → R u w) where
    All-before : (v w : A) (ws : List A) → R v w → All (R w) ws → All (R v) ws
    All-before v w [] h hs = tt
    All-before v w (x ∷ xs) h (k, ks) = (trans v w x h k, All-before v w xs h ks)

    insert-AllPairs : (v : A) (ws : List A) → AllPairs R ws → AllPairs R (insert less v ws)
    unfolding insert
    insert-AllPairs v [] h = (tt, tt)
    insert-AllPairs v (w ∷ ws) (h, hs) = elim (Bool-cases (less w v)) [
      | inl e ↦ rw e (All-insert (R w) v ws (front v w e) h, insert-AllPairs v ws hs)
      | inr e ↦ rw e ((stay v w e, All-before v w ws (stay v w e) h), (h, hs))
    ]

    pub sort-AllPairs : (vs : List A) → AllPairs R (sort less vs)
    unfolding sort
    sort-AllPairs [] = tt
    sort-AllPairs (v ∷ vs) = insert-AllPairs v (sort less vs) (sort-AllPairs vs)

module _ {A : Type 0} {K : Type 0} (key : A → Option K) where
  abbrev IsKeyed : K × A → Type 0
  IsKeyed p = key p.1 ≡ some p.0

  with_keys-IsKeyed :
      (xs : List A)
      → Always (λ keyed. (map (λ p. p.1) keyed ≡ xs) × All IsKeyed keyed) (with_keys key xs)
  unfolding with_keys
  with_keys-IsKeyed [] = Always-some _ [] (refl, tt)
  with_keys-IsKeyed (x ∷ xs) = Always-bind _ (key x) _ (λ k e.
      Always-bind _ (with_keys key xs) _ (λ rest f.
        let (same, keyed) = with_keys-IsKeyed xs rest f in
        Always-some _ ((k, x) ∷ rest) (ap (◌∷◌ x) same, (e, keyed))))

  -- What sorting by a key returns: a list in the order of the keys, of the same items.
  pub record IsSortedBy (R : K → K → Type 0) (xs out : List A) : Type 0 where
    pub keyed : List (K × A)
    pub items : out ≡ map (λ p. p.1) keyed
    pub keys : All IsKeyed keyed
    pub order : AllPairs (λ p q. R p.0 q.0) keyed
    pub same : Perm out xs

  pub sort_by-IsSortedBy :
      (less : K → K → Bool) (R : K → K → Type 0)
      → ((j k : K) → less k j ≡ true → R k j)
      → ((j k : K) → less k j ≡ false → R j k)
      → ((i j k : K) → R i j → R j k → R i k)
      → (xs : List A) → Always (IsSortedBy R xs) (sort_by less key xs)
  unfolding sort_by
  sort_by-IsSortedBy less R front stay trans xs = Always-bind _ (with_keys key xs) _ (λ keyed e.
      let (same, keys) = with_keys-IsKeyed xs keyed e in
      Always-some _ _ (record {
        keyed = sort (less_key less) keyed;
        items = refl;
        keys = All-sort (less_key less) IsKeyed keyed keys;
        order =
            sort-AllPairs (less_key less) (λ p q. R p.0 q.0) (λ p q. front p.0 q.0)
              (λ p q. stay p.0 q.0) (λ p q r. trans p.0 q.0 r.0) keyed;
        same = rw (← same) (Perm.map (λ p. p.1) (sort-perm (less_key less) keyed));
      }))

module _ {A : Type 0} {K : Type 0} (less : K → K → Bool) (key : A → Option K) where
  with_keys-some :
      (xs : List A)
      → All (λ x. (k : K) × (key x ≡ some k)) xs
      → (keyed : List (K × A)) × (with_keys key xs ≡ some keyed)
  unfolding with_keys
  with_keys-some [] h = ([], refl)
  with_keys-some (x ∷ xs) ((k, e), hs) =
      let (keyed, f) = with_keys-some xs hs in ((k, x) ∷ keyed, rw (e, f) refl)

  -- Sorting raises no exception when the key function raises none on the items.
  pub sort_by-some :
      (xs : List A)
      → All (λ x. (k : K) × (key x ≡ some k)) xs
      → (out : List A) × (sort_by less key xs ≡ some out)
  unfolding sort_by
  sort_by-some xs h =
      let (keyed, e) = with_keys-some xs h in
      (map (λ p. p.1) (sort (less_key less) keyed), rw e refl)

  module _ (P : A → Type 0) where
    pub All-keyed : (keyed : List (K × A)) → All P (map (λ p. p.1) keyed) ↔ All (λ p. P p.1) keyed
    All-keyed [] = (λ h. h, λ h. h)
    All-keyed (p ∷ keyed) =
        (λ (h, hs). (h, (All-keyed keyed).0 hs), λ (h, hs). (h, (All-keyed keyed).1 hs))

    pub All-sort_by : (xs : List A) → All P xs → Always (All P) (sort_by less key xs)
    unfolding sort_by
    All-sort_by xs h = Always-bind _ (with_keys key xs) _ (λ keyed e.
        let (same, _) = with_keys-IsKeyed key xs keyed e in
        let all : All P (map (λ p. p.1) keyed) = rw same h in
        Always-some _ _
          ((All-keyed _).1 (All-sort (less_key less) (λ p. P p.1) keyed ((All-keyed keyed).0 all))))
