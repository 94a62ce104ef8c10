-- ===== src/Metrics/Options/Laws.antt =====
-- What a request that is read asks for.
use autonat_project.Base.{
  String, ◌≡◌, refl, ◌⊎◌, ◌==◌, eq_iff, true, List, [], ◌∷◌, ◌++◌, map, All, Bool-cases, inl, inr,
  starts_with,
}
use autonat_project.Base.Always.{Always, Always-bind, Always-some}
use autonat_project.Base.Text.{strip}
use autonat_project.Base.Split.{split}
use autonat_project.Json.{Python}
use autonat_project.Metrics.Request.{
  metric_names, all_metrics, is_in, requested, unique_from, unique_metrics, load_traces, IsUnique,
  unique_metrics-IsUnique,
}
use autonat_project.Metrics.Options.{
  Options, no_options, with_metric, with_output, with_file, parse_options, Request, if_any,
  read_request,
}

-- The names of metrics that there are.
abbrev pub AllKnown : List String → Type 0
AllKnown ms = All (λ m. is_in m metric_names ≡ true) ms

AllKnown-snoc :
    (ms : List String) (m : String)
    → AllKnown ms
    → is_in m metric_names ≡ true
    → AllKnown (ms ++ m ∷ [])
AllKnown-snoc [] m h k = (k, tt)
AllKnown-snoc (n ∷ ms) m (h, hs) k = (h, AllKnown-snoc ms m hs k)

all_metrics-AllKnown : AllKnown all_metrics
unfolding is_in
all_metrics-AllKnown = (refl, (refl, (refl, (refl, (refl, tt)))))

requested-AllKnown :
    (names chosen : List String) → AllKnown chosen → Always AllKnown (requested names chosen)
unfolding requested
requested-AllKnown [] chosen h = Always-some _ chosen h
requested-AllKnown (n ∷ names) chosen h = elim (Bool-cases (n == "all")) [
  | inl e ↦ rw e (Always-some _ all_metrics all_metrics-AllKnown)
  | inr e ↦ elim (Bool-cases (is_in n metric_names)) [
    | inl k ↦ rw (e, k) (requested-AllKnown names (chosen ++ n ∷ []) (AllKnown-snoc chosen n h k))
    | inr k ↦ rw (e, k) (λ x q. absurd (cc))
  ]
]

unique_from-AllKnown : (seen ms : List String) → AllKnown ms → AllKnown (unique_from seen ms)
unfolding unique_from
unique_from-AllKnown seen [] h = tt
unique_from-AllKnown seen (m ∷ ms) (h, hs) = elim (Bool-cases (is_in m seen)) [
  | inl e ↦ rw e (unique_from-AllKnown seen ms hs)
  | inr e ↦ rw e (h, unique_from-AllKnown (m ∷ seen) ms hs)
]

abbrev pub IsFormat : String → Type 0
IsFormat f = (f ≡ "text") ⊎ (f ≡ "json")

record IsKnown (o : Options) : Type 0 where
  metrics : AllKnown o.requested_metrics
  format : IsFormat o.output_format

with_metric-IsKnown : (arg : String) (o : Options) → IsKnown o → Always IsKnown (with_metric arg o)
unfolding with_metric
with_metric-IsKnown arg o k = Always-bind _ (requested (map strip (split b',' arg)) []) _ (λ ms e.
    Always-some _ _ (record { metrics = requested-AllKnown _ [] tt ms e; format = k.format }))

with_output-IsKnown : (arg : String) (o : Options) → IsKnown o → Always IsKnown (with_output arg o)
unfolding with_output
with_output-IsKnown arg o k = elim (Bool-cases (arg == "text")) [
  | inl e ↦
      rw e
        (Always-some _ _ (record { metrics = k.metrics; format = inl ((eq_iff arg "text").0 e) }))
  | inr e ↦ elim (Bool-cases (arg == "json")) [
    | inl f ↦
        rw (e, f)
          (Always-some _ _ (record { metrics = k.metrics; format = inr ((eq_iff arg "json").0 f) }))
    | inr f ↦ rw (e, f) (λ x q. absurd (cc))
  ]
]

with_file-IsKnown : (arg : String) (o : Options) → IsKnown o → Always IsKnown (with_file arg o)
unfolding with_file
with_file-IsKnown arg o k = elim (Bool-cases (starts_with arg "--")) [
  | inl e ↦ rw e (λ x q. absurd (cc))
  | inr e ↦ rw e (Always-some _ _ (record { metrics = k.metrics; format = k.format }))
]

parse_options-IsKnown :
    (args : List String) (o : Options) → IsKnown o → Always IsKnown (parse_options args o)
unfolding parse_options
parse_options-IsKnown [] o k = Always-some _ o k
parse_options-IsKnown (arg ∷ []) o k = with_file-IsKnown arg o k
parse_options-IsKnown (arg ∷ next ∷ args) o k = elim (Bool-cases (arg == "--metric")) [
  | inl e ↦
      rw (parse_options, e)
        (Always-bind _ (with_metric next o) _
          (λ p q. parse_options-IsKnown args p (with_metric-IsKnown next o k p q)))
  | inr e ↦ elim (Bool-cases (arg == "--output")) [
    | inl f ↦
        rw (parse_options, e, f)
          (Always-bind _ (with_output next o) _
            (λ p q. parse_options-IsKnown args p (with_output-IsKnown next o k p q)))
    | inr f ↦
        rw (parse_options, e, f)
          (Always-bind _ (with_file arg o) _
            (λ p q. parse_options-IsKnown (next ∷ args) p (with_file-IsKnown arg o k p q)))
  ]
]

-- What `main` relies on when it computes the metrics.
pub record IsComputable (r : Request) : Type 0 where
  pub known : AllKnown r.unique
  pub once : IsUnique [] r.unique
  pub format : IsFormat r.format

-- Whatever the arguments and the files are: when `main` does not exit before it, each metric that it
-- computes is a key of METRIC_FUNCS, none is computed twice under one name, and the output's format
-- is "text" or "json".
pub read_request-IsComputable :
    (py : Python) (lines_of : String → List String) (args : List String)
    → Always IsComputable (read_request py lines_of args)
unfolding read_request unique_metrics
read_request-IsComputable py lines_of args = Always-bind _ (parse_options args no_options) _ (λ o e.
    Always-bind _ (if_any o.files) _ (λ files _.
      Always-bind _ (if_any (load_traces py lines_of files)) _ (λ traces _.
        let k =
          parse_options-IsKnown args no_options
            (record { metrics = all_metrics-AllKnown; format = inl refl }) o e in
        Always-some _ _ (record {
          known = unique_from-AllKnown [] o.requested_metrics k.metrics;
          once = unique_metrics-IsUnique o.requested_metrics;
          format = k.format;
        }))))
