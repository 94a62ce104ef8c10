-- ===== src/Figures.antt =====
-- The trace helpers of results/generate_figures.py. `none` is an exception.
pub mod Names
pub mod Overhead
pub mod Detection
pub mod Timeline
pub mod Conditions
pub mod Rates
pub mod Gap
pub mod Impact
pub mod Bars
pub mod Palette
pub mod Program
use Prim.Native.Char.{code}
use autonat_project.Base.{
  ℕ, String, Bool, false, Option, none, some, List, [], ◌∷◌, ◌++◌, length, eqb, ltb, ◌||◌,
  if◌then◌else◌, ◌>>=◌,
}
use autonat_project.Base.Int.{pos}
use autonat_project.Base.Dict.{lookup, insert}
use autonat_project.Base.Text.{strip, is_empty}
use autonat_project.Json.{
  Json, Fields, Python, int, str, list, dict, nil, elements, default, field?, truthy, iterate,
  is_text, coerce_int,
}
use autonat_project.Trace.Attrs.{Attrs}

pub record FigureSpan : Type 0 where
  pub name : Json
  pub attrs : Attrs

-- An entry of `v1`.
pub record Reachability : Type 0 where
  pub elapsed : Json
  pub reachability : Json

-- An entry of `v2`: how many addresses each list has.
pub record AddrCounts : Type 0 where
  pub elapsed : Json
  pub reachable : ℕ
  pub unreachable : ℕ

unfoldable pub fields_of : Json → Option Fields
fields_of (dict fs) = some fs
fields_of _ = none

unfoldable pub key_text : Json → Option String
key_text (str k) = some k
key_text _ = none

unfoldable pub begins_list : String → Bool
begins_list String.[] = false
begins_list (String.◌∷◌ c s) = eqb (code c) b'['

unfoldable pub decoded_list : Option Json → List Json
decoded_list (some (list vs)) = elements vs
decoded_list _ = []

-- `float(v)` is a parameter.
module _ (py : Python) (to_float : Json → Option Json) where
  -- `_parse_list`
  unfoldable pub parse_list : Json → List Json
  unfolding begins_list decoded_list
  parse_list (list vs) = elements vs
  parse_list (str s) = if begins_list s then decoded_list (py.loads s) else []
  parse_list _ = []

  -- The value of an attribute, by its type.
  unfoldable pub attr_value : Json → Json → Option Json
  attr_value type v =
      if is_text "INT64" type
      then (do n ← coerce_int py v; some (int n))
      else if is_text "FLOAT64" type
      then to_float v
      else some v

  unfoldable pub figure_attr : Json → Attrs → Option Attrs
  unfolding attr_value fields_of key_text
  figure_attr a out = do
    fs ← fields_of a
    v ← field? "Value" fs
    typed ← fields_of v
    type ← field? "Type" typed
    raw ← field? "Value" typed
    value ← attr_value type raw
    key ← field? "Key" fs
    k ← key_text key
    some (insert k value out)

  unfoldable pub figure_attrs : List Json → Attrs → Option Attrs
  unfolding figure_attr
  figure_attrs [] out = some out
  figure_attrs (a ∷ rest) out = do attrs ← figure_attr a out; figure_attrs rest attrs

  unfoldable pub figure_span : Json → Option FigureSpan
  unfolding figure_attrs fields_of
  figure_span span = do
    fs ← fields_of span
    let given = default (list nil) (field? "Attributes" fs)
    listed ← iterate (if truthy given then given else list nil)
    attrs ← figure_attrs listed []
    name ← field? "Name" fs
    some (record { name = name; attrs = attrs })

  -- `parse_spans` of a file with these lines. A line that does not decode is an exception here.
  unfoldable pub parse_spans : List String → Option (List FigureSpan)
  unfolding figure_span
  parse_spans [] = some []
  parse_spans (line ∷ lines) =
      let rest = parse_spans lines in
      if is_empty (strip line)
      then rest
      else (do v ← py.loads (strip line); s ← figure_span v; ss ← rest; some (s ∷ ss))

  unfoldable pub addr_counts : FigureSpan → AddrCounts
  unfolding parse_list
  addr_counts s = record {
    elapsed = default (int (pos 0)) (lookup "elapsed_ms" s.attrs);
    reachable = length (parse_list (default (str "[]") (lookup "reachable" s.attrs)));
    unreachable = length (parse_list (default (str "[]") (lookup "unreachable" s.attrs)));
  }

  unfoldable pub reachability_of : FigureSpan → Reachability
  reachability_of s = record {
    elapsed = default (int (pos 0)) (lookup "elapsed_ms" s.attrs);
    reachability = default (str "?") (lookup "reachability" s.attrs);
  }

  -- `get_convergence`: the lists `v1` and `v2`.
  unfoldable pub get_convergence : List FigureSpan → List Reachability × List AddrCounts
  unfolding addr_counts reachability_of
  get_convergence [] = ([], [])
  get_convergence (s ∷ spans) =
      let (v1, v2) = get_convergence spans in
      if is_text "reachability_changed" s.name
      then (reachability_of s ∷ v1, v2)
      else if is_text "reachable_addrs_changed" s.name
      then (v1, addr_counts s ∷ v2)
      else (v1, v2)

  -- The first entry with an address.
  unfoldable pub first_counted : List AddrCounts → List Json
  first_counted [] = []
  first_counted (c ∷ cs) =
      let rest = first_counted cs in
      if ltb 0 c.reachable || ltb 0 c.unreachable then c.elapsed ∷ [] else rest

  first_elapsed : List Reachability → List Json
  first_elapsed [] = []
  first_elapsed (r ∷ rs) = r.elapsed ∷ []

-- `less` is the order that `min` uses.
module _ (py : Python) (to_float : Json → Option Json) (less : Json → Json → Bool) where
  -- `min(times) if times else None`
  unfoldable pub least : List Json → Option Json
  least [] = none
  least (t ∷ ts) = elim (least ts) [ some u ↦ some (if less u t then u else t) | none ↦ some t ]

  unfoldable pub first_convergence_ms : List FigureSpan → Option Json
  unfolding get_convergence first_counted first_elapsed least
  first_convergence_ms spans =
      let (v1, v2) = get_convergence py to_float spans in
      least (first_elapsed py to_float v1 ++ first_counted py to_float v2)
