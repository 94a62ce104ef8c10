-- ===== src/Figures/Overhead.antt =====
-- The bytes of the overhead figure of results/generate_figures.py: `_probe_byte_estimate`, which is
-- called there without events, and the sums for a file. `none` is an exception.
pub mod Laws
use Prim.Native.String.{count as char_count}
use autonat_project.Base.{
  ℕ, ◌+◌, any, String, ◌<>◌, Bool, Option, none, some, List, [], ◌∷◌, if◌then◌else◌, ◌>>=◌,
}
use autonat_project.Base.Int.{ℤ, pos, ◌+ℤ◌, ◌-ℤ◌, ltb_ℤ}
use autonat_project.Base.Dict.{Dict, lookup, insert}
use autonat_project.Base.Split.{ends_with}
use autonat_project.Scenario.Defs.{is_one_of}
use autonat_project.Figures.Names.{Extra, parse_scenario_name}
use autonat_project.Figures.Detection.{nat_order}
use autonat_project.Json.{
  Json, Fields, int, list, dict, str, nil, end, field, field?, default, is_text, iterate,
  coerce_int, Python,
}
use autonat_project.Trace.Attrs.{Attrs}
use autonat_project.Metrics.Events.{says_public}
use autonat_project.Metrics.Overhead.{addrs_of, int_or_zero}
use autonat_project.Figures.{FigureSpan, parse_spans}

-- What is collected for a file.
pub record SessionBytes : Type 0 where
  pub protocol_bytes : ℤ
  pub amplification_bytes : ℤ
  pub probe_count : ℕ

abbrev pub add_figure_probe : ℤ × ℤ → SessionBytes → SessionBytes
add_figure_probe (total, amp) t = record {
  protocol_bytes = t.protocol_bytes +ℤ (total -ℤ amp);
  amplification_bytes = t.amplification_bytes +ℤ amp;
  probe_count = t.probe_count + 1;
}

-- `e.get("Name", e.get("name", ""))`
unfoldable pub figure_event_name : Json → Option Json
figure_event_name (dict e) = some (default (default (str "") (field? "name" e)) (field? "Name" e))
figure_event_name _ = none

-- An item of a set; `none` is the TypeError for a list or a dict.
unfoldable pub set_item : Json → Option Json
set_item (list vs) = none
set_item (dict fs) = none
set_item v = some v

-- `event_names`, for events that are not None.
unfoldable pub event_names : List Json → Option (List Json)
unfolding figure_event_name set_item
event_names [] = some []
event_names (e ∷ events) = do
  name ← figure_event_name e
  item ← set_item name
  names ← event_names events
  some (item ∷ names)

abbrev pub events_or_none : Option (List Json) → List Json
events_or_none none = []
events_or_none (some events) = events

-- `ea[key] = value`. Only the key "num_bytes" is read, so a key that is no text is left out.
unfoldable pub put_attr : Json → Json → Attrs → Option Attrs
put_attr (str k) v ea = some (insert k v ea)
put_attr (list vs) v ea = none
put_attr (dict fs) v ea = none
put_attr key v ea = some ea

-- `ea.update(a)`
unfoldable pub update_attrs : Fields → Attrs → Attrs
update_attrs end ea = ea
update_attrs (field k v fs) ea = update_attrs fs (insert k v ea)

-- `a["Value"].get("Value", a["Value"]) if isinstance(a["Value"], dict) else a["Value"]`
unfoldable pub inner_value : Json → Json
inner_value (dict fs) = default (dict fs) (field? "Value" fs)
inner_value v = v

-- The body of the loop over an event's attributes.
unfoldable pub figure_event_attr : Json → Attrs → Option Attrs
unfolding put_attr update_attrs inner_value
figure_event_attr (dict a) ea = elim (field? "Key" a) [
  | some key ↦ (do v ← field? "Value" a; put_attr key (inner_value v) ea)
  | none ↦ some (update_attrs a ea)
]
figure_event_attr _ ea = some ea

unfoldable pub figure_event_attrs : List Json → Attrs → Option Attrs
unfolding figure_event_attr
figure_event_attrs [] ea = some ea
figure_event_attrs (a ∷ rest) ea = do next ← figure_event_attr a ea; figure_event_attrs rest next

module _ (py : Python) where
  char_len : Json → ℕ
  char_len (str s) = char_count s
  char_len v = char_count (py.to_str v)

  -- The sum of the addresses' lengths, in characters.
  unfoldable pub char_bytes : List Json → ℕ
  unfolding char_len
  char_bytes [] = 0
  char_bytes (a ∷ addrs) = char_len a + char_bytes addrs

  -- The announced number of bytes of an event: 0 when it is no number.
  unfoldable pub announced : Json → Option ℤ
  unfolding figure_event_attrs
  announced (dict e) = do
    listed ← iterate (default (default (list nil) (field? "attrs" e)) (field? "Attributes" e))
    ea ← figure_event_attrs listed []
    some (int_or_zero (coerce_int py (default (int (pos 0)) (lookup "num_bytes" ea))))
  announced _ = none

  -- The loop that looks for the first event "dial_data_requested".
  unfoldable pub first_announced : List Json → Option ℤ
  unfolding announced figure_event_name
  first_announced [] = some (pos 0)
  first_announced (e ∷ events) =
      let rest = first_announced events in
      do
        name ← figure_event_name e
        if is_text "dial_data_requested" name then announced e else rest

  abbrev figure_dial_back : Attrs → List Json → List Json → ℤ
  figure_dial_back attrs [] names = if says_public attrs then pos 12 else pos 0
  figure_dial_back attrs (e ∷ events) names =
      if any (is_text "dial_back_received") names then pos 12 else pos 0

  -- `_probe_byte_estimate(attrs, events)`: the total, and the response with the dial data.
  unfoldable pub figure_estimate : Attrs → Option (List Json) → Option (ℤ × ℤ)
  unfolding char_bytes event_names first_announced any
  figure_estimate attrs events = do
    addrs ← addrs_of py (default (str "[]") (lookup "autonat.addrs" attrs))
    let dial_request = pos (12 + char_bytes addrs)
    let given = events_or_none events
    names ← event_names given
    dial_data_response ←
        (if any (is_text "dial_data_requested") names then first_announced given else some (pos 0))
    let dial_back = figure_dial_back attrs given names
    let request = if ltb_ℤ (pos 0) dial_data_response then pos 16 else pos 0
    some (dial_request +ℤ request +ℤ dial_data_response +ℤ pos 12 +ℤ dial_back, dial_data_response)

  unfoldable pub session_bytes : List FigureSpan → SessionBytes → Option SessionBytes
  unfolding figure_estimate ◌+ℤ◌
  session_bytes [] t = some t
  session_bytes (s ∷ spans) t =
      if is_text "autonatv2.probe" s.name
      then (do e ← figure_estimate s.attrs none; session_bytes spans (add_figure_probe e t))
      else session_bytes spans t

abbrev pub no_bytes : SessionBytes
no_bytes = record { protocol_bytes = pos 0; amplification_bytes = pos 0; probe_count = 0 }

-- `data`, whose keys are the pairs of a NAT type and a transport.
module _ (py : Python) (to_float : Json → Option Json) where
  unfoldable pub collect_parsed :
      List String
      → Dict SessionBytes
      → Option (String × String × Extra)
      → Option (Dict SessionBytes)
  collect_parsed lines data_so_far none = some data_so_far
  collect_parsed lines data_so_far (some (nat, transport, extra)) =
      if is_one_of nat nat_order
      then (do
        spans ← parse_spans py to_float lines
        bytes ← session_bytes py spans no_bytes
        some (insert (nat <> " " <> transport) bytes data_so_far))
      else some data_so_far

  unfoldable pub collect :
      List (String × List String) → Dict SessionBytes → Option (Dict SessionBytes)
  unfolding collect_parsed
  collect [] data_so_far = some data_so_far
  collect ((name, lines) ∷ files) data_so_far = do
    next ←
        (if ends_with name ".json"
          then (do parsed ← parse_scenario_name name; collect_parsed lines data_so_far parsed)
          else some data_so_far)
    collect files next
