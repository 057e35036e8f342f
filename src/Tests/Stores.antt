-- ===== src/Tests/Stores.antt =====
-- Storing and reading in a fresh workspace.
use mapit.Base.{ℕ, codes, [], ◌∷◌, ◌≡◌, refl, Option, none, some}
use mapit.Messages.{Entity, Tree, insert, erase}
use mapit.Paths.Canonical.{components}
use mapit.Serializer.Disk.{path_eq, objectid_to_workspace_fs_path}
use mapit.Serializer.Transient.{get_tree_transient, get_entity_transient, type_of_object_transient}
use mapit.Outcome.{Outcome, returned, ◌>>=◌}
use mapit.Workspace.{get_entity, get_root}
use mapit.Workspace.Delete.{store_entity, delete_tree}
use mapit.Tests.Data.{codec, cloud, pose, fresh}

after_store : Outcome (Option Entity)
unfolding store_entity get_entity
after_store = do
  (s, w) ← store_entity codec (codes "/a//b") cloud fresh
  (t, w') ← store_entity codec (codes "a/c") pose w
  returned (get_entity codec (codes "a/b/") w')

after_store_lem : after_store ≡ returned (some cloud)
unfolding after_store get_tree_transient path_eq objectid_to_workspace_fs_path components insert
    erase get_entity_transient
after_store_lem = refl

after_delete : Outcome (Option Entity)
unfolding store_entity get_entity delete_tree
after_delete = do
  (s, w) ← store_entity codec (codes "/a//b") cloud fresh
  (t, w') ← store_entity codec (codes "a/c") pose w
  (u, w'') ← delete_tree codec 5 (codes "a") w'
  returned (get_entity codec (codes "a/b/") w'')

after_delete_lem : after_delete ≡ returned none
unfolding after_delete get_tree_transient path_eq objectid_to_workspace_fs_path components insert
    erase type_of_object_transient get_entity_transient
after_delete_lem = refl

-- An entity stored below another entity: the walk ends early, and the tree that it had reached is stored
-- as the root, where the name `x` is found no more.
after_overwrite : Outcome (ℕ × Option Entity × Option Tree)
unfolding store_entity get_entity get_root
after_overwrite = do
  (s, w) ← store_entity codec (codes "x/a") cloud fresh
  (t, w') ← store_entity codec (codes "x/a/b") pose w
  returned (t, get_entity codec (codes "x/a/b") w', get_root codec w')

after_overwrite_lem :
    after_overwrite
    ≡ returned (
      0,
      none,
      some (record { refs = (codes "a", record { id = []; path = codes "ws/x/a" }) ∷ [] }),
    )
unfolding after_overwrite get_tree_transient path_eq objectid_to_workspace_fs_path components insert
    erase get_entity_transient
after_overwrite_lem = refl
