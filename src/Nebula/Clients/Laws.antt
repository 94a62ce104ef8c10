-- ===== src/Nebula/Clients/Laws.antt =====
-- The bars that `chart_clients` draws.
use mathlib.Core.Path.{subst, sym}
use mathlib.Core.List.{Perm}
use autonat_project.Base.{suc, String, ◌≡◌, refl, Bool, some, List, [], ◌∷◌, map, ap, All, length}
use autonat_project.Base.Int.{ℤ}
use autonat_project.Base.Dict.{lookup}
use autonat_project.Base.Sort.{sort_by}
use autonat_project.Base.Sort.Laws.{
  AllPairs, sort_by-IsSortedBy, sort_by-some, All-sort_by, All-keyed,
}
use autonat_project.Nebula.{Row, int_field, column}
use autonat_project.Nebula.Clients.{
  client_key, less_pair, sorted_clients, ClientChart, bar_labels, chart_clients,
}
use autonat_project.Nebula.Clients.Order.{
  Precedes, KeyOrder, key_of, front, stay, KeyOrder-trans, Precedes-KeyOrder,
}

-- A row with a client's name and two integers.
pub record IsClientRow (r : Row) : Type 0 where
  pub client : String
  pub total : ℤ
  pub dialable : ℤ
  pub has_client : lookup "client" r ≡ some client
  pub has_total : int_field "total" r ≡ some total
  pub has_dialable : int_field "dialable" r ≡ some dialable

abbrev pub zip : List String → List ℤ → List (String × ℤ)
zip (c ∷ cs) (t ∷ ts) = (c, t) ∷ zip cs ts
zip _ _ = []

client_key_lem : (r : Row) (h : IsClientRow r) → client_key r ≡ some (key_of h.client h.total)
unfolding client_key
client_key_lem r h = rw h.has_client (rw h.has_total refl)

key-eq :
    (r : Row) (h : IsClientRow r) (k : Bool × ℤ)
    → client_key r ≡ some k
    → k ≡ key_of h.client h.total
key-eq r h k e = cc (client_key_lem r h)

abbrev Keyed : Type 0
Keyed = List ((Bool × ℤ) × Row)

abbrev AllRows : Keyed → Type 0
AllRows keyed = All (λ p. IsClientRow p.1) keyed

-- What the rows hold.
abbrev names : (keyed : Keyed) → AllRows keyed → List String
names [] h = []
names (p ∷ keyed) (h, hs) = h.client ∷ names keyed hs

abbrev totals : (keyed : Keyed) → AllRows keyed → List ℤ
totals [] h = []
totals (p ∷ keyed) (h, hs) = h.total ∷ totals keyed hs

abbrev dials : (keyed : Keyed) → AllRows keyed → List ℤ
dials [] h = []
dials (p ∷ keyed) (h, hs) = h.dialable ∷ dials keyed hs

abbrev rows_of : Keyed → List Row
rows_of keyed = map (λ p. p.1) keyed

column-names :
    (keyed : Keyed) (h : AllRows keyed)
    → column (lookup "client") (rows_of keyed) ≡ some (names keyed h)
unfolding column
column-names [] h = refl
column-names (p ∷ keyed) (h, hs) = rw h.has_client (rw (column-names keyed hs) refl)

column-totals :
    (keyed : Keyed) (h : AllRows keyed)
    → column (int_field "total") (rows_of keyed) ≡ some (totals keyed h)
unfolding column
column-totals [] h = refl
column-totals (p ∷ keyed) (h, hs) = rw h.has_total (rw (column-totals keyed hs) refl)

column-dials :
    (keyed : Keyed) (h : AllRows keyed)
    → column (int_field "dialable") (rows_of keyed) ≡ some (dials keyed h)
unfolding column
column-dials [] h = refl
column-dials (p ∷ keyed) (h, hs) = rw h.has_dialable (rw (column-dials keyed hs) refl)

length-bar_labels :
    (keyed : Keyed) (h : AllRows keyed)
    → length (bar_labels (totals keyed h) (dials keyed h)) ≡ length (rows_of keyed)
unfolding bar_labels
length-bar_labels [] h = refl
length-bar_labels (p ∷ keyed) (h, hs) = ap suc (length-bar_labels keyed hs)

abbrev AllKeys : Keyed → Type 0
AllKeys keyed = All (λ p. client_key p.1 ≡ some p.0) keyed

All-Precedes :
    (c : String) (t : ℤ) (keyed : Keyed) (h : AllRows keyed)
    → AllKeys keyed
    → All (λ q. KeyOrder (key_of c t) q.0) keyed
    → All (Precedes (c, t)) (zip (names keyed h) (totals keyed h))
All-Precedes c t [] h k o = tt
All-Precedes c t ((j, r) ∷ keyed) (h, hs) (k, ks) (o, os) = (
  Precedes-KeyOrder c h.client t h.total (rw (key-eq r h j k) at o),
  All-Precedes c t keyed hs ks os,
)

AllPairs-Precedes :
    (keyed : Keyed) (h : AllRows keyed)
    → AllKeys keyed
    → AllPairs (λ p q. KeyOrder p.0 q.0) keyed
    → AllPairs Precedes (zip (names keyed h) (totals keyed h))
AllPairs-Precedes [] h k o = tt
AllPairs-Precedes ((j, r) ∷ keyed) (h, hs) (k, ks) (o, os) = (
  All-Precedes h.client h.total keyed hs ks
      (subst (λ (i : Bool × ℤ). All (λ q. KeyOrder i q.0) keyed) (key-eq r h j k) o),
  AllPairs-Precedes keyed hs ks os,
)

-- What the chart shows: the bars of all rows, the clients' names beside their totals in this order.
pub record IsClientChart (rows : List Row) (c : ClientChart) : Type 0 where
  pub sorted : List Row
  pub same : Perm sorted rows
  pub clients : column (lookup "client") sorted ≡ some c.clients
  pub totals : column (int_field "total") sorted ≡ some c.totals
  pub dialable : column (int_field "dialable") sorted ≡ some c.dialable
  pub order : AllPairs Precedes (zip c.clients c.totals)
  pub labelled : length c.labels ≡ length sorted

client_keys :
    (rows : List Row)
    → All IsClientRow rows
    → All (λ r. (k : Bool × ℤ) × (client_key r ≡ some k)) rows
client_keys [] h = tt
client_keys (r ∷ rows) (h, hs) = ((_, client_key_lem r h), client_keys rows hs)

chart-IsClientChart :
    (rows : List Row) (keyed : Keyed) (h : AllRows keyed)
    → AllKeys keyed
    → AllPairs (λ p q. KeyOrder p.0 q.0) keyed
    → Perm (rows_of keyed) rows
    → IsClientChart rows (record {
      clients = names keyed h;
      totals = totals keyed h;
      dialable = dials keyed h;
      labels = bar_labels (totals keyed h) (dials keyed h);
    })
chart-IsClientChart rows keyed h ks os same = record {
  sorted = rows_of keyed;
  same = same;
  clients = column-names keyed h;
  totals = column-totals keyed h;
  dialable = column-dials keyed h;
  order = AllPairs-Precedes keyed h ks os;
  labelled = length-bar_labels keyed h;
}

chart_clients-columns :
    (rows sorted : List Row) (cs : List String) (ts ds : List ℤ)
    → sort_by less_pair client_key rows ≡ some sorted
    → column (lookup "client") sorted ≡ some cs
    → column (int_field "total") sorted ≡ some ts
    → column (int_field "dialable") sorted ≡ some ds
    → chart_clients rows
      ≡ some (record { clients = cs; totals = ts; dialable = ds; labels = bar_labels ts ds })
unfolding chart_clients sorted_clients
chart_clients-columns rows sorted cs ts ds e ec et ed = rw e (rw ec (rw et (rw ed refl)))

-- On rows with a client's name and two integers `chart_clients` raises no exception. It draws a
-- bar with a label for each row, from the columns of one rearrangement of the rows, in which the
-- bars of kubo stand before all others and otherwise a larger total before a smaller one.
pub chart_clients_lem :
    (rows : List Row)
    → All IsClientRow rows
    → (c : ClientChart) × (chart_clients rows ≡ some c) × IsClientChart rows c
chart_clients_lem rows h =
    let (sorted, e) = sort_by-some less_pair client_key rows (client_keys rows h) in
    let s =
      sort_by-IsSortedBy client_key less_pair KeyOrder front stay KeyOrder-trans rows sorted e in
    let all : AllRows s.keyed =
      (All-keyed less_pair client_key IsClientRow s.keyed).0
        (rw s.items at (All-sort_by less_pair client_key IsClientRow rows h sorted e)) in
    let cs = names s.keyed all in
    let ts = totals s.keyed all in
    let ds = dials s.keyed all in
    (
      record { clients = cs; totals = ts; dialable = ds; labels = bar_labels ts ds },
      chart_clients-columns rows sorted cs ts ds e
          (subst (λ (l : List Row). column (lookup "client") l ≡ some cs) (sym s.items)
            (column-names s.keyed all))
          (subst (λ (l : List Row). column (int_field "total") l ≡ some ts) (sym s.items)
            (column-totals s.keyed all))
          (subst (λ (l : List Row). column (int_field "dialable") l ≡ some ds) (sym s.items)
            (column-dials s.keyed all)),
      chart-IsClientChart rows s.keyed all s.keys s.order (rw s.items at s.same),
    )
