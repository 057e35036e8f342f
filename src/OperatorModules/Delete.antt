-- ===== src/OperatorModules/Delete.antt =====
-- The operator `delete` (libs/operator_modules_collection/delete/src/main.cpp).
use mapit.Base.{Str, ℕ, List, [], ◌∷◌, Option, none, some, not, if◌then◌else◌}
use mapit.Messages.{Tree, Codec}
use mapit.Operators.{Environment, get_parameters}
use mapit.Workspace.{Workspace, get_tree, get_entity}
use mapit.Workspace.Delete.{delete_entity, delete_tree}
use mapit.Outcome.{Outcome, returned, ◌>>=◌}
use mapit.Status

-- What the parameter `target` is: a string, an array, whose elements are read as strings, or neither.
pub data Target : Type 0 where
  string : Str → Target
  array : List Str → Target
  neither : Target

module _ (codec : Codec) (fuel : ℕ) where
  -- The status of a call that failed, or success.
  abbrev pub checked : ℕ × Workspace → Outcome (ℕ × Workspace)
  checked (s, w) = if not (Status.is_ok s) then returned (s, w) else returned (Status.ok, w)

  unfoldable pub delete_tree_at : Str → Option Tree → Workspace → Outcome (ℕ × Workspace)
  unfolding delete_tree
  delete_tree_at entity_name none w = returned (Status.ok, w)
  delete_tree_at entity_name (some t) w = delete_tree codec fuel entity_name w >>= checked

  unfoldable pub delete_entity_or_tree : Str → Workspace → Outcome (ℕ × Workspace)
  unfolding delete_tree_at delete_entity
  delete_entity_or_tree entity_name w = elim (get_entity codec entity_name w) [
    | some e ↦ delete_entity codec entity_name w >>= checked
    | none ↦ delete_tree_at entity_name (get_tree codec entity_name w) w
  ]

  -- The loop over the array, which ends at the first error.
  unfoldable pub delete_all : List Str → Workspace → Outcome (ℕ × Workspace)
  unfolding delete_entity_or_tree
  delete_all [] w = returned (Status.ok, w)
  delete_all (entity_name ∷ names) w = delete_entity_or_tree entity_name w >>= λ (s, w').
      (if not (Status.is_ok s) then returned (s, w') else delete_all names w')

  unfoldable pub delete_target : Target → Workspace → Outcome (ℕ × Workspace)
  unfolding delete_all
  delete_target (string entity_name) w = delete_entity_or_tree entity_name w >>= checked
  delete_target (array names) w = delete_all names w
  delete_target neither w = returned (Status.invalid_argument, w)

  -- The JSON of the parameters is read by a library.
  unfoldable pub operate_delete : (Str → Target) → Environment Workspace → Outcome (ℕ × Workspace)
  unfolding delete_target
  operate_delete target_of env = delete_target (target_of (get_parameters env)) env.workspace
