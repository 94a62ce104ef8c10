-- ===== src/Json.antt =====
-- The values that `json.loads` gives: Python's null, booleans, integers, floats, texts, lists and
-- dicts. A float is carried as its `repr`.
use Prim.Native.String.{String}
use autonat_project.Base.{
  zero, suc, Bool, true, false, Option, none, some, List, [], ◌∷◌, ◌==◌, ◌||◌,
}
use autonat_project.Base.{if◌then◌else◌}
use autonat_project.Base.Int.{ℤ, pos, negsuc}
use autonat_project.Base.Text.{int_of_text}

mutual
  pub data Json : Type 0 where
    null : Json
    bool : Bool → Json
    int : ℤ → Json
    float : String → Json
    str : String → Json
    list : Items → Json
    dict : Fields → Json

  pub data Items : Type 0 where
    nil : Items
    cons : Json → Items → Items

  pub data Fields : Type 0 where
    end : Fields
    field : String → Json → Fields → Fields

-- The elements of a list.
abbrev pub elements : Items → List Json
elements nil = []
elements (cons v vs) = v ∷ elements vs

abbrev pub items : List Json → Items
items [] = nil
items (v ∷ vs) = cons v (items vs)

-- What a `for` loop over a value runs through: a list's items, a dict's keys, a text's characters.
-- `none` is the TypeError for any other value.
unfoldable pub key_items : Fields → List Json
key_items end = []
key_items (field k v fs) = str k ∷ key_items fs

unfoldable pub char_items : String → List Json
char_items String.[] = []
char_items (String.◌∷◌ c s) = str (String.◌∷◌ c String.[]) ∷ char_items s

unfoldable pub iterate : Json → Option (List Json)
unfolding key_items char_items
iterate (list vs) = some (elements vs)
iterate (dict fs) = some (key_items fs)
iterate (str s) = some (char_items s)
iterate _ = none

-- `d.get(k)`. A text with the same key twice is read as its last value.
unfoldable pub field? : String → Fields → Option Json
field? k end = none
field? k (field j v fs) = elim (field? k fs) [
  | some w ↦ some w
  | none ↦ if j == k then some v else none
]

abbrev pub default : Json → Option Json → Json
default v none = v
default v (some w) = w

-- `bool(v)`
unfoldable pub truthy : Json → Bool
truthy null = false
truthy (bool b) = b
truthy (int (pos zero)) = false
truthy (int (pos (suc n))) = true
truthy (int (negsuc n)) = true
truthy (float r) = if r == "0.0" || r == "-0.0" then false else true
truthy (str s) = if s == "" then false else true
truthy (list nil) = false
truthy (list (cons v vs)) = true
truthy (dict end) = false
truthy (dict (field k v fs)) = true

-- `v == s` for a text `s`
unfoldable pub is_text : String → Json → Bool
is_text s (str t) = t == s
is_text s _ = false

-- What the source takes from Python's libraries for JSON and statistics and from its float type.
pub record Python : Type 0 where
  -- `json.loads(s)`; `none` is the JSONDecodeError.
  pub loads : String → Option Json
  -- `int(f)` of a float, by its `repr`; `none` is a ValueError.
  pub int_of_float : String → Option ℤ
  -- `str(v)`
  pub to_str : Json → String
  -- `json.dumps(v)`
  pub dumps : Json → String
  -- `v == w`
  pub equal : Json → Json → Bool
  -- `round(statistics.mean(vs))` and `round(statistics.median(vs))`. Both divide floats; `none` is the
  -- OverflowError of a number that is too large for one.
  pub round_mean : List ℤ → Option ℤ
  pub round_median : List ℤ → Option ℤ
  -- `round(statistics.mean(vs), 1)` and `statistics.median(vs)`, likewise.
  pub mean_1 : List ℤ → Option Json
  pub median : List ℤ → Option Json

module _ (py : Python) where
  -- `_coerce_int(v)` of testbed/analyze.py. A boolean is an integer in Python.
  unfoldable pub coerce_int : Json → Option ℤ
  coerce_int null = none
  coerce_int (bool b) = some (if b then pos 1 else pos 0)
  coerce_int (int n) = some n
  coerce_int (float r) = py.int_of_float r
  coerce_int (str s) = int_of_text s
  coerce_int (list vs) = none
  coerce_int (dict fs) = none

-- What a list that may be written as a text holds: `_list_attr`, `_as_list`, `_parse_list_attr`.
abbrev pub parsed_list : Option Json → List Json
parsed_list (some (list vs)) = elements vs
parsed_list _ = []
