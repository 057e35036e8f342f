-- ===== src/Tests/Commits.antt =====
-- A workspace is created, filled, committed and read.
use mapit.Base.{codes, ◌≡◌, refl, Option, some}
use mapit.Messages.{Entity, insert, erase, lookup}
use mapit.Paths.Canonical.{components}
use mapit.TreeHash.{hash_tree, hash_entity, hash_commit}
use mapit.Serializer.Objects
use mapit.Serializer.Transient
use mapit.Serializer.Disk.{path_eq, objectid_to_workspace_fs_path}
use mapit.Serializer.Transient.{get_tree_transient, get_entity_transient, type_of_object_transient}
use mapit.Outcome.{Outcome, returned, ◌>>=◌}
use mapit.Workspace.{get_entity, get_tree, type_of_object}
use mapit.Workspace.Delete.{store_entity}
use mapit.Repository.Commit.{commit}
use mapit.Tests.Data.{codec, cloud, pose, fresh}

after_commit : Outcome (Option Entity)
unfolding store_entity get_entity commit
after_commit = do
  (s, w) ← store_entity codec (codes "/a//b") cloud fresh
  (t, w') ← store_entity codec (codes "a/c") pose w
  (id, w'') ← commit codec 5 w' (codes "first") (codes "me") (codes "me@x") 17
  returned (get_entity codec (codes "a/c/") w'')

after_commit_lem : after_commit ≡ returned (some pose)
unfolding after_commit get_tree_transient path_eq objectid_to_workspace_fs_path components insert
    erase type_of_object type_of_object_transient get_tree get_entity_transient hash_entity
    hash_tree hash_commit lookup Objects.get_tree Objects.get_entity Objects.get_commit
    Objects.type_of_object Transient.exists_stream_provider_transient
after_commit_lem = refl
