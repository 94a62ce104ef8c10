-- ===== src/Tests/Assertions.antt =====
-- Assertions on two events.
use autonat_project.Base.{String, ◌≡◌, refl, true, none, some, [], ◌∷◌}
use autonat_project.Base.Dict.{lookup}
use autonat_project.Json.{str, is_text}
use autonat_project.Assertions.Load.{Flat, with_int_time, mark}
use autonat_project.Assertions.Evaluate.{Assertion, evaluate}
use autonat_project.Assertions.Laws.{result}
use autonat_project.Tests.Fixtures.{python}

abbrev reached : Flat
reached = ("type", str "reachability_changed") ∷ ("reachability", str "public") ∷ []

abbrev started : Flat
started = ("type", str "started") ∷ []

abbrev is_public : String → Assertion
is_public type = record {
  type = type;
  event = "reachability_changed";
  filter = ("reachability", str "public") ∷ [];
  message = "must become public";
  extract = "";
  select = "first";
  label = none;
}

found : result python (is_public "has_event") (reached ∷ []) ≡ some true
unfolding evaluate lookup is_text
found = refl

abbrev marked : Flat
marked = with_int_time python (mark (str "a") (str "b") (str "c") (("elapsed_ms", str "12") ∷ []))
