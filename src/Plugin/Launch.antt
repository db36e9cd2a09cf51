-- ===== src/Plugin/Launch.antt =====
-- What a launch does to the system, in order: the handles that it opens and closes, and the process.
use plugo.Prelude.{ℕ, Bool, true, false, List, [], ◌∷◌, Option, String, if◌then◌else◌, ◌==◌, nat_eq}

-- An entry of a process's environment; the handles go in as `NAME=%d`.
pub data EnvEntry : Type 0 where
  entry : String → EnvEntry
  handle : String → ℕ → EnvEntry

-- The command line, the environment (`none`: the parent's), and the handles that the process inherits.
pub record Launch : Type 0 where
  pub path : String
  pub args : List String
  pub env : Option (List EnvEntry)
  pub inherited : List ℕ

pub data Effect : Type 0 where
  opens : ℕ → Effect
  closes : ℕ → Effect
  starts : Launch → Effect
  kills : Effect
  waits : Effect

abbrev pub without : ℕ → List ℕ → List ℕ
without h [] = []
without h (x ∷ xs) = if x == h then without h xs else x ∷ without h xs

abbrev pub open_from : List ℕ → List Effect → List ℕ
open_from hs [] = hs
open_from hs (opens h ∷ es) = open_from (h ∷ hs) es
open_from hs (closes h ∷ es) = open_from (without h hs) es
open_from hs (starts l ∷ es) = open_from hs es
open_from hs (kills ∷ es) = open_from hs es
open_from hs (waits ∷ es) = open_from hs es

-- The handles that are open at the end.
abbrev pub open_after : List Effect → List ℕ
open_after es = open_from [] es

abbrev pub running_from : Bool → List Effect → Bool
running_from b [] = b
running_from b (starts l ∷ es) = running_from true es
running_from b (waits ∷ es) = running_from false es
running_from b (opens h ∷ es) = running_from b es
running_from b (closes h ∷ es) = running_from b es
running_from b (kills ∷ es) = running_from b es

-- A process was started and has not been waited for.
abbrev pub is_running : List Effect → Bool
is_running es = running_from false es

abbrev pub entries : List String → List EnvEntry
entries [] = []
entries (s ∷ ss) = entry s ∷ entries ss
