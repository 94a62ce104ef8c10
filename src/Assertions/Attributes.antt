-- ===== src/Assertions/Attributes.antt =====
-- `extract_attr_value` and `flatten_attributes` of testbed/eval-assertions.py.
use autonat_project.Base.{Option, none, some, List, [], ◌∷◌, ◌>>=◌}
use autonat_project.Base.Dict.{insert}
use autonat_project.Json.{Json, str, dict, end, field?, default}
use autonat_project.Trace.Attrs.{key_of, Attrs, rounds}

unfoldable pub extract_attr_value : Json → Json
extract_attr_value (dict fs) = default (dict fs) (field? "Value" fs)
extract_attr_value v = v

-- One round of the loop.
unfoldable pub attribute : Json → Attrs → Option Attrs
unfolding key_of extract_attr_value
attribute (dict fs) result = do
  key ← key_of (default (str "") (field? "Key" fs))
  some (insert key (extract_attr_value (default (dict end) (field? "Value" fs))) result)
attribute v result = none

unfoldable pub attributes_loop : List Json → Attrs → Option Attrs
unfolding attribute
attributes_loop [] result = some result
attributes_loop (attr ∷ attrs) result = do next ← attribute attr result; attributes_loop attrs next

unfoldable pub flatten_attributes : Json → Option Attrs
unfolding attributes_loop rounds
flatten_attributes attrs = do listed ← rounds attrs; attributes_loop listed []
