-- ===== src/Figures/Palette.antt =====
-- The constants of results/generate_figures.py, and the texts and colours that its figures take from
-- them.
use autonat_project.Base.{
  String, ◌≡◌, refl, Bool, true, false, Option, none, some, List, [], ◌∷◌, ◌++◌, map, if◌then◌else◌,
}
use autonat_project.Base.Dict.{Dict, lookup}
use autonat_project.Json.{Json}
use autonat_project.Figures.Detection.{
  Cell, no_data, not_triggered, correct, false_positive, false_negative, nat_order, transports,
}

abbrev pub nat_colors : Dict String
nat_colors =
    ("none", "#4CAF50")
    ∷ ("full-cone", "#2196F3")
    ∷ ("address-restricted", "#FF9800")
    ∷ ("port-restricted", "#F44336")
    ∷ ("symmetric", "#9C27B0")
    ∷ []

abbrev pub transport_hatches : Dict String
transport_hatches = ("tcp", "") ∷ ("quic", "//") ∷ []

abbrev pub nat_labels : Dict String
nat_labels =
    ("none", "none")
    ∷ ("full-cone", "full-cone\n(DMZ / port-forward)")
    ∷ ("address-restricted", "address-\nrestricted")
    ∷ ("port-restricted", "port-\nrestricted")
    ∷ ("symmetric", "symmetric\n(CGNAT / mobile)")
    ∷ []

abbrev pub nat_legend : Dict String
nat_legend =
    ("none", "none")
    ∷ ("full-cone", "full-cone (DMZ)")
    ∷ ("address-restricted", "address-restricted")
    ∷ ("port-restricted", "port-restricted")
    ∷ ("symmetric", "symmetric (CGNAT/mobile)")
    ∷ []

-- `d.get(k, v)`
abbrev pub get : Dict String → String → String → String
get d k v = elim (lookup k d) [ some w ↦ w | none ↦ v ]

-- The labels of an axis of NAT types.
abbrev pub tick_labels : List String → List String
tick_labels nats = map (λ n. get nat_labels n n) nats

-- A line's colour, where `none` is the KeyError, and its label.
unfoldable pub line_style : String → Option (String × String)
unfolding lookup
line_style nat = elim (lookup nat nat_colors) [
  | none ↦ none
  | some color ↦ some (color, get nat_legend nat nat)
]

-- The colour and the hatch of a transport's bars in `fig_protocol_overhead`.
unfoldable pub bar_style : String → String × String
unfolding lookup
bar_style transport = (get nat_colors transport "#888", get transport_hatches transport "")

-- The label of a cell in `fig_detection_correctness`.
unfoldable pub cell_label : Cell → String
cell_label no_data = "NO DATA"
cell_label not_triggered = "NOT TRIGGERED\n(v2 never ran)"
cell_label (correct true) = "CORRECT\n(reachable)"
cell_label (correct false) = "CORRECT\n(unreachable)"
cell_label false_positive = "FALSE POSITIVE\n(detected reachable)"
cell_label false_negative = "FALSE NEGATIVE\n(detected unreachable)"

-- The colour of its text: of the numbers 1.0, 0.5 and 0.0, the first two are above 0.3.
unfoldable pub cell_color : Cell → String
cell_color false_positive = "white"
cell_color false_negative = "white"
cell_color _ = "black"

-- The greatest entry, by the order of the numbers.
unfoldable pub greatest_of : (Json → Json → Bool) → List Json → Json → Json
greatest_of less [] m = m
greatest_of less (v ∷ vs) m = greatest_of less vs (if less m v then v else m)

unfoldable pub entries : List (List Json) → List Json
entries [] = []
entries (row ∷ rows) = row ++ entries rows

-- The colours of the texts of the heat map; `above v m` is `v > m * 0.6`. `none` is the ValueError of
-- `max`.
unfoldable pub heat_colors :
    (Json → Json → Bool) → (Json → Json → Bool) → List (List Json) → Option (List (List String))
unfolding greatest_of entries
heat_colors less above mat = elim (entries mat) [
  | [] ↦ none
  | v ∷ vs ↦
      some (map (map (λ w. if above w (greatest_of less vs v) then "white" else "black")) mat)
]

-- Every NAT type has a colour of its own; a transport has none.
styles_run :
    (map line_style nat_order
      ≡ some ("#4CAF50", "none")
        ∷ some ("#2196F3", "full-cone (DMZ)")
        ∷ some ("#FF9800", "address-restricted")
        ∷ some ("#F44336", "port-restricted")
        ∷ some ("#9C27B0", "symmetric (CGNAT/mobile)")
        ∷ [])
    × (map bar_style transports ≡ ("#888", "") ∷ ("#888", "//") ∷ [])
unfolding line_style bar_style
styles_run = (refl, refl)
