-- ===== src/Tests/Nebula.antt =====
-- The charts of small tables.
use autonat_project.Base.Int.{◌-ℤ◌}
use autonat_project.Base.{◌≡◌, refl, String, some, List, [], ◌∷◌, All}
use autonat_project.Base.Int.{ℤ, pos}
use autonat_project.Base.Dict.{lookup}
use autonat_project.Base.Text.{int_of_text}
use autonat_project.Nebula.{Row, int_field}
use autonat_project.Nebula.Clients.{ClientChart, chart_clients}
use autonat_project.Nebula.Clients.Laws.{IsClientRow, IsClientChart, chart_clients_lem}
use autonat_project.Base.{Option, ◌*◌, ◌/◌}
use autonat_project.Base.Int.{ℤ, pos_part}
use autonat_project.Base.Show.{show_ℕ}
use autonat_project.Nebula.Protocols.{chart_autonat_protocols}
use autonat_project.Nebula.Grid.Cells.{Cell}

abbrev client_row : String → String → String → Row
client_row client total dialable =
    ("client", client) ∷ ("total", total) ∷ ("dialable", dialable) ∷ []

abbrev client_rows : List Row
client_rows =
    client_row "storm" "90" "4" ∷ client_row "kubo" "50" "30" ∷ client_row "go" "95" "1" ∷ []

client_rows-IsClientRow : All IsClientRow client_rows
unfolding lookup int_field int_of_text
client_rows-IsClientRow = (
  record {
    client = "storm";
    total = pos 90;
    dialable = pos 4;
    has_client = refl;
    has_total = refl;
    has_dialable = refl;
  },
  (
    record {
      client = "kubo";
      total = pos 50;
      dialable = pos 30;
      has_client = refl;
      has_total = refl;
      has_dialable = refl;
    },
    (
      record {
        client = "go";
        total = pos 95;
        dialable = pos 1;
        has_client = refl;
        has_total = refl;
        has_dialable = refl;
      },
      tt,
    ),
  ),
)

chart_clients_lem_example :
    (c : ClientChart) × (chart_clients client_rows ≡ some c) × IsClientChart client_rows c
chart_clients_lem_example = chart_clients_lem client_rows client_rows-IsClientRow

clients_run :
    chart_clients client_rows
    ≡ some (record {
      clients = "kubo" ∷ "go" ∷ "storm" ∷ [];
      totals = pos 50 ∷ pos 95 ∷ pos 90 ∷ [];
      dialable = pos 30 ∷ pos 1 ∷ pos 4 ∷ [];
      labels = "50 (30 dialable)" ∷ "95 (1 dialable)" ∷ "90 (4 dialable)" ∷ [];
    })
unfolding chart_clients lookup int_of_text ◌-ℤ◌
clients_run = refl

abbrev category_rows : List Row
category_rows =
    (("category", "neither") ∷ ("cnt", "10") ∷ [])
    ∷ (("category", "v1 + v2") ∷ ("cnt", "30") ∷ [])
    ∷ []

-- Percentages without a fraction.
abbrev whole_percent : ℤ → ℤ → Option String
whole_percent c total = some (show_ℕ (100 * pos_part c / pos_part total))

protocols_run :
    chart_autonat_protocols whole_percent category_rows
    ≡ some (record {
      cats = "v1 + v2" ∷ "neither" ∷ [];
      cnts = pos 30 ∷ pos 10 ∷ [];
      bar_colors = "#3b82f6" ∷ "#ef4444" ∷ [];
      pcts = "75" ∷ "25" ∷ [];
    })
unfolding chart_autonat_protocols int_of_text show_ℕ
protocols_run = refl

abbrev grid_row : String → String → String → Row
grid_row d p peers = ("dial_decile", d) ∷ ("public_decile", p) ∷ ("peers", peers) ∷ []

abbrev grid_rows : List Row
grid_rows = grid_row "10" "3" "7" ∷ grid_row "0" "0" "500" ∷ grid_row "10" "3" "120" ∷ []

abbrev grid_cells : List Cell
grid_cells =
    record { d = 10; p = 3; peers = pos 7 }
    ∷ record { d = 0; p = 0; peers = pos 500 }
    ∷ record { d = 10; p = 3; peers = pos 120 }
    ∷ []

-- The logarithm is any function.
abbrev log : ℤ → ℤ
log v = v
