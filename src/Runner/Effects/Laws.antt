-- ===== src/Runner/Effects/Laws.antt =====
-- The life of the containers under a run's effects, as a state machine.
use mathlib.Core.Path.{subst}
use mathlib.Core.List.{append-nil, append_assoc}
use autonat_project.Base.{
  String, Bool, true, false, ◌≡◌, refl, sym, ◌∙◌, Option, none, some, List, [], ◌∷◌, ◌++◌,
}
use autonat_project.Base.Dict.{Dict}
use autonat_project.Runner.Effects.{
  Effect, set_env, down, up, toggle, save, World, Result, done, raised, stuck, M, ◌>>=◌, ◌>>◌,
  bind_result, return, throw, all_files, emit, write_file, lift, fuelled, succeeds,
}

pub data Containers : Type 0 where
  absent : Containers
  running : List String → Containers

-- Which effects may happen in which state: containers are started only when there are none and
-- removed with the profiles that they were started with, and the router is changed only while they
-- run.
pub data Step : Containers → Effect → Containers → Type 0 where
  sets_env : (c : Containers) (env : Dict String) → Step c (set_env env) c
  stops : (profiles : List String) → Step (running profiles) (down profiles) absent
  clears : (profiles : List String) → Step absent (down profiles) absent
  starts : (profiles : List String) → Step absent (up profiles) (running profiles)
  toggles :
      (profiles : List String) (action : String)
      → Step (running profiles) (toggle action) (running profiles)
  saves : (c : Containers) (path : String) → Step c (save path) c

-- A run of the state machine.
abbrev pub Steps : Containers → List Effect → Containers → Type 0
Steps c [] d = c ≡ d
Steps c (e ∷ es) d = (b : Containers) × Step c e b × Steps b es d

Steps-append :
    (es fs : List Effect) (c d f : Containers) → Steps c es d → Steps d fs f → Steps c (es ++ fs) f
Steps-append [] fs c d f p q = subst (λ (x : Containers). Steps x fs f) (sym p) q
Steps-append (e ∷ es) fs c d f (b, s, p) q = (b, s, Steps-append es fs b d f p q)

-- From some world on, the log has grown by a run from one state to another.
abbrev Grows : Containers → List Effect → Containers → List Effect → Type 0
Grows c before d after = (es : List Effect) × (after ≡ before ++ es) × Steps c es d

Grows-refl : (c : Containers) (log : List Effect) → Grows c log c log
Grows-refl c log = ([], sym (append-nil log), refl)

Grows-trans :
    (c d f : Containers) (a b z : List Effect) → Grows c a d b → Grows d b f z → Grows c a f z
Grows-trans c d f a b z (es, e, p) (fs, g, q) =
    (es ++ fs, g ∙ rw e (append_assoc a es fs), Steps-append es fs c d f p q)

-- How a step from one state of the containers ends: in another, or early in any.
abbrev Ends : {A : Type 0} → Containers → List Effect → Containers → Result A × World → Type 0
Ends c before d (done a, w) = Grows c before d w.log
Ends c before d (raised, w) = (f : Containers) × Grows c before f w.log
Ends c before d (stuck, w) = (f : Containers) × Grows c before f w.log

-- Its effects are a run of the state machine, to the given state if it comes to its end.
pub record Leads (c : Containers) {A : Type 0} (m : M A) (d : Containers) : Type 0 where
  pub ends : (w : World) → Ends c w.log d (m w)

module _ {A B : Type 0} (c d f : Containers) (k : A → M B) (h : (a : A) → Leads d (k a) f)
    (log : List Effect) where
  Ends-bind_result : (r : Result A × World) → Ends c log d r → Ends c log f (bind_result k r)
  Ends-bind_result (done a, w) g = extended (k a w) ((h a).ends w)
    where
      extended : (r : Result B × World) → Ends d w.log f r → Ends c log f r
      extended (done b, v) p = Grows-trans c d f log w.log v.log g p
      extended (raised, v) (x, p) = (x, Grows-trans c d x log w.log v.log g p)
      extended (stuck, v) (x, p) = (x, Grows-trans c d x log w.log v.log g p)
  Ends-bind_result (raised, w) g = g
  Ends-bind_result (stuck, w) g = g

pub Leads-bind :
    {c : Containers} {A B : Type 0} {m : M A} (d : Containers) {k : A → M B} {f : Containers}
    → Leads c m d
    → ((a : A) → Leads d (k a) f)
    → Leads c (m >>= k) f
unfolding ◌>>=◌
Leads-bind {c} {m = m} d {k} {f} g h = record {
  ends = λ w. Ends-bind_result c d f k h w.log (m w) (g.ends w);
}

pub Leads-then :
    {c : Containers} {B : Type 0} {m : M (Unit {0})} (d : Containers) {k : M B} {f : Containers}
    → Leads c m d
    → Leads d k f
    → Leads c (m >> k) f
unfolding ◌>>◌
Leads-then d g h = Leads-bind d g (λ _. h)

pub Leads-return : {A : Type 0} (c : Containers) (a : A) → Leads c (return a) c
unfolding return
Leads-return c a = record { ends = λ w. Grows-refl c w.log }

pub Leads-throw : {A : Type 0} (c d : Containers) → Leads c (throw {A = A}) d
unfolding throw
Leads-throw c d = record { ends = λ w. (c, Grows-refl c w.log) }

pub Leads-all_files : (c : Containers) → Leads c all_files c
unfolding all_files
Leads-all_files c = record { ends = λ w. Grows-refl c w.log }

pub Leads-emit : {c d : Containers} {e : Effect} → Step c e d → Leads c (emit e) d
unfolding emit
Leads-emit {d = d} {e} s = record { ends = λ w. (e ∷ [], refl, (d, s, refl)) }

pub Leads-write_file :
    (c : Containers) (path : String) (lines : List String) → Leads c (write_file path lines) c
unfolding write_file
Leads-write_file c path lines = record {
  ends = λ w. (save path ∷ [], refl, (c, saves c path, refl));
}

pub Leads-lift : {A : Type 0} (c : Containers) (o : Option A) → Leads c (lift o) c
unfolding lift
Leads-lift c none = record { ends = λ w. (c, Grows-refl c w.log) }
Leads-lift c (some a) = record { ends = λ w. Grows-refl c w.log }

pub Leads-fuelled : {A : Type 0} (c : Containers) (o : Option A) → Leads c (fuelled o) c
unfolding fuelled
Leads-fuelled c none = record { ends = λ w. (c, Grows-refl c w.log) }
Leads-fuelled c (some a) = record { ends = λ w. Grows-refl c w.log }

pub Leads-succeeds : (c : Containers) (b : Bool) → Leads c (succeeds b) c
unfolding succeeds
Leads-succeeds c true = Leads-return c tt
Leads-succeeds c false = Leads-throw c c
