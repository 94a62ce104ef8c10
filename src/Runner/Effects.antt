-- ===== src/Runner/Effects.antt =====
-- What a run does to the world: the commands that it runs, the files that it writes, and the
-- exceptions that end it early.
pub mod Laws
use autonat_project.Base.{String, Bool, true, false, Option, none, some, List, [], ◌∷◌, ◌++◌}
use autonat_project.Base.Dict.{Dict, insert}

pub data Effect : Type 0 where
  -- `os.environ.update(env)`
  set_env : Dict String → Effect
  -- `dc.down` and `dc.up`, with their profiles
  down : List String → Effect
  up : List String → Effect
  -- `exec_toggle`
  toggle : String → Effect
  -- a file that is written
  save : String → Effect

-- The files by their paths, each as its lines, and the effects so far.
pub record World : Type 0 where
  pub files : Dict (List String)
  pub log : List Effect

-- How a run ends: with a value, with an exception, or out of the fuel of one of its loops.
pub data Result {ℓ} (A : Type ℓ) : Type ℓ where
  done : A → Result A
  raised : Result A
  stuck : Result A

abbrev pub M : Type 0 → Type 0
M A = World → Result A × World

abbrev pub bind_result : {A B : Type 0} → (A → M B) → Result A × World → Result B × World
bind_result f (done a, w) = f a w
bind_result f (raised, w) = (raised, w)
bind_result f (stuck, w) = (stuck, w)

infixl 5 ◌>>=◌ ◌>>◌
unfoldable pub ◌>>=◌ : {A B : Type 0} → M A → (A → M B) → M B
◌>>=◌ m f w = bind_result f (m w)

unfoldable pub ◌>>◌ : {B : Type 0} → M (Unit {0}) → M B → M B
unfolding ◌>>=◌
m >> k = m >>= λ _. k

unfoldable pub return : {A : Type 0} → A → M A
return a w = (done a, w)

unfoldable pub throw : {A : Type 0} → M A
throw w = (raised, w)

-- A command that raises when it fails.
unfoldable pub succeeds : Bool → M (Unit {0})
unfolding return throw
succeeds true = return tt
succeeds false = throw

unfoldable pub emit : Effect → M (Unit {0})
emit e w = (done tt, record w { log = w.log ++ e ∷ [] })

unfoldable pub write_file : String → List String → M (Unit {0})
write_file path lines w =
    (done tt, record w { files = insert path lines w.files; log = w.log ++ save path ∷ [] })

unfoldable pub all_files : M (Dict (List String))
all_files w = (done w.files, w)

-- A step that may raise, and a loop that may run out of fuel.
unfoldable pub lift : {A : Type 0} → Option A → M A
lift none w = (raised, w)
lift (some a) w = (done a, w)

unfoldable pub fuelled : {A : Type 0} → Option A → M A
fuelled none w = (stuck, w)
fuelled (some a) w = (done a, w)
