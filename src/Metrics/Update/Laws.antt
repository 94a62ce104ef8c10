-- ===== src/Metrics/Update/Laws.antt =====
-- The change that `compute_time_to_update` finds in a trace, and how the traces are shared out.
use autonat_project.Base.{
  ◌+◌, ◌≡◌, refl, ◌∙◌, ◌≢◌, ◌⊎◌, Option, none, some, List, [], ◌∷◌, ◌++◌, length, length-append,
  if◌then◌else◌, arith, Bool-cases, Option-cases, inl, inr,
}
use mathlib.Core.Path.{subst}
use autonat_project.Json.{Python}
use autonat_project.Trace.Attrs.{Event}
use autonat_project.Trace.Parse.{Trace}
use autonat_project.Metrics.Events.{Traces, elapsed_ms, session_events}
use autonat_project.Metrics.Update.{
  lost, gained, Flip, Update, differs, is_reachable, note_flip, flip_of, flip_loop, update_loop,
  compute_time_to_update,
}

module _ (py : Python) where
  -- No change of status between two neighbours at an integer time.
  abbrev pub AreSteady : Event → Event → Type 0
  AreSteady a b = (is_reachable py a ≡ is_reachable py b) ⊎ (elapsed_ms py b ≡ none)

  -- No two neighbours whose status differs have an integer time.
  abbrev pub IsSteady : List Event → Type 0
  IsSteady [] = Unit {0}
  IsSteady (a ∷ []) = Unit {0}
  IsSteady (a ∷ b ∷ es) = AreSteady a b × IsSteady (b ∷ es)

  -- The first change of status between two neighbours whose second has an integer time.
  pub record IsFlip (es : List Event) (f : Flip) : Type 0 where
    pub before : List Event
    pub old : Event
    pub new : Event
    pub after : List Event
    pub neighbours : es ≡ before ++ old ∷ new ∷ after
    pub first : IsSteady (before ++ old ∷ [])
    pub changed : is_reachable py old ≢ is_reachable py new
    pub at : elapsed_ms py new ≡ some f.elapsed_ms
    pub towards : f.direction ≡ (if is_reachable py old then lost else gained)

  steady-cons :
      (a b : Event) (es before : List Event) (old new : Event) (after : List Event)
      → AreSteady a b
      → b ∷ es ≡ before ++ old ∷ new ∷ after
      → IsSteady (before ++ old ∷ [])
      → IsSteady (a ∷ before ++ old ∷ [])
  steady-cons a b es [] old new after ab e h = (subst (AreSteady a) (cc e) ab, tt)
  steady-cons a b es (c ∷ []) old new after ab e h = (subst (AreSteady a) (cc e) ab, h)
  steady-cons a b es (c ∷ d ∷ before) old new after ab e h = (subst (AreSteady a) (cc e) ab, h)

  IsFlip-cons :
      {b : Event} {es : List Event} {f : Flip} (a : Event)
      → AreSteady a b
      → IsFlip (b ∷ es) f
      → IsFlip (a ∷ b ∷ es) f
  IsFlip-cons {b} {es} a ab h = record {
    before = a ∷ h.before;
    old = h.old;
    new = h.new;
    after = h.after;
    neighbours = rw h.neighbours;
    first = steady-cons a b es h.before h.old h.new h.after ab h.neighbours h.first;
    changed = h.changed;
    at = h.at;
    towards = h.towards;
  }

  flip_loop-IsFlip :
      (a : Event) (es : List Event) (f : Flip)
      → flip_loop py es (some (is_reachable py a)) ≡ some f
      → IsFlip (a ∷ es) f
  unfolding flip_loop
  flip_loop-IsFlip a [] f h = cc
  flip_loop-IsFlip a (b ∷ es) f h =
      elim (Bool-cases (differs (some (is_reachable py a)) (is_reachable py b))) [
        | inl d ↦ elim (Option-cases (elapsed_ms py b)) [
          | inl e ↦ IsFlip-cons a (inr e) (flip_loop-IsFlip b es f (ground arith))
          | inr (t, e) ↦ record {
            before = [];
            old = a;
            new = b;
            after = es;
            neighbours = refl;
            first = tt;
            changed = ground arith;
            at = ground arith;
            towards = ground arith;
          }
        ]
        | inr d ↦ IsFlip-cons a (inl (ground arith)) (flip_loop-IsFlip b es f (ground arith))
      ]

  steady :
      (a b : Event) (es : List Event)
      → flip_loop py (b ∷ es) (some (is_reachable py a)) ≡ none
      → (is_reachable py a ≡ is_reachable py b) ⊎ (elapsed_ms py b ≡ none)
  unfolding flip_loop
  steady a b es h = elim (Option-cases (elapsed_ms py b)) [
    | inl e ↦ inr e
    | inr (t, e) ↦ inl (ground arith)
  ]

  flip_loop-IsSteady :
      (a : Event) (es : List Event)
      → flip_loop py es (some (is_reachable py a)) ≡ none
      → IsSteady (a ∷ es)
  unfolding flip_loop
  flip_loop-IsSteady a [] h = tt
  flip_loop-IsSteady a (b ∷ es) h = (steady a b es h, flip_loop-IsSteady b es (ground arith))

  flip_events-IsFlip : (es : List Event) (f : Flip) → flip_loop py es none ≡ some f → IsFlip es f
  unfolding flip_loop
  flip_events-IsFlip [] f h = cc
  flip_events-IsFlip (a ∷ es) f h = flip_loop-IsFlip a es f h

  flip_events-IsSteady : (es : List Event) → flip_loop py es none ≡ none → IsSteady es
  unfolding flip_loop
  flip_events-IsSteady [] h = tt
  flip_events-IsSteady (a ∷ es) h = flip_loop-IsSteady a es h

  -- In every trace `compute_time_to_update` either finds a flip, or none. A flip is the first change
  -- of status between two neighbouring events of which the second has an integer time: it has that
  -- time, and the status of the first event gives its direction. If none is found, then any two
  -- neighbouring events have the same status, or the second has no integer time.
  pub flip_of_lem :
      (t : Trace)
      → let es = session_events t "reachable_addrs_changed" in
        ((flip_of py t ≡ none) × IsSteady es) ⊎ ((f : Flip) × (flip_of py t ≡ some f) × IsFlip es f)
  flip_of_lem t =
      let es = session_events t "reachable_addrs_changed" in
      elim (Option-cases (flip_of py t)) [
        | inl e ↦ inl (e, flip_events-IsSteady es e)
        | inr (f, e) ↦ inr (f, e, flip_events-IsFlip es f e)
      ]

  note_flip-total :
      (o : Option Flip) (u : Update)
      → let v = note_flip o u in
        (v.total ≡ u.total)
        × (v.no_flip_detected + length v.flips ≡ u.no_flip_detected + length u.flips + 1)
  note_flip-total none u = (refl, omega arith)
  note_flip-total (some f) u = (refl, omega (arith, length-append u.flips (f ∷ [])))

  update_loop-total :
      (ts : Traces) (u : Update)
      → let v = update_loop py ts u in
        (v.total ≡ u.total)
        × (v.no_flip_detected + length v.flips ≡ length ts + u.no_flip_detected + length u.flips)
  unfolding update_loop
  update_loop-total [] u = (refl, omega arith)
  update_loop-total ((path, t) ∷ rest) u =
      let a = note_flip-total (flip_of py t) u in
      let b = update_loop-total rest (note_flip (flip_of py t) u) in (b.0 ∙ a.0, omega arith)

  -- Every trace either has one flip in the list or counts as one without.
  pub time_to_update_partition :
      (ts : Traces)
      → let u = compute_time_to_update py ts in
        (u.total ≡ length ts) × (u.no_flip_detected + length u.flips ≡ length ts)
  unfolding compute_time_to_update
  time_to_update_partition ts =
      let h =
        update_loop-total ts (record { total = length ts; no_flip_detected = 0; flips = [] }) in
      (h.0, omega arith)
