-- ===== src/Repository.antt =====
-- RepositoryImpl (libs/core/src/versioning/repositoryimpl.cpp) over FSSerializer: workspaces are
-- created from a branch or a commit, found and deleted.
pub mod Commit
pub mod Operations
pub mod Lifecycle
pub mod References
pub mod Returns
use mapit.Base.{
  Str, codes, ℕ, List, [], ◌∷◌, ◌++◌, Option, none, some, Bool, true, false, ◌&&◌, ◌||◌, not, ◌+◌,
}
use mapit.Base.{if◌then◌else◌, str_eq, ◌==◌}
use mapit.Messages.{
  ObjectReference, null_ref, root_of, Refs, Tree, Entity, new_commit, Branch, WorkspaceObj,
  MessageType, Codec, lookup, insert, message_empty,
}
use mapit.Paths.{slash, drop_trailing}
use mapit.Search.{Visitor, Source, all, depth_first_search, is_empty}
use mapit.Serializer.Disk.{Disk, split_slash, is_some}
use mapit.Serializer.Objects
use mapit.Serializer.Transient
use mapit.Workspace
use mapit.Workspace.{Workspace, get_root}
use mapit.Outcome.{Outcome, returned, thrown, running, ◌>>=◌}
use mapit.Time.{Stamp, to_msg}
use mapit.Status

module _ (codec : Codec) where
  -- The commit that a workspace starts from, with the name of the branch if there is one.
  unfoldable pub resolve : Str → Disk → Option (Str × Str)
  unfolding Objects.get_branch Objects.get_commit
  resolve commit_id_or_branchname d = elim (Objects.get_branch codec commit_id_or_branchname d) [
    | some branch ↦ some (branch.commitid, commit_id_or_branchname)
    | none ↦ elim (Objects.get_commit codec commit_id_or_branchname d) [
      | some commit ↦ some (commit_id_or_branchname, [])
      | none ↦ none
    ]
  ]

  -- `new WorkspaceObj` with one parent.
  abbrev pub new_workspace_obj : Str → WorkspaceObj
  new_workspace_obj commit_id = record {
    rollingcommit = record new_commit { parentcommitids = commit_id ∷ [] };
    transientoidstoorigin = [];
  }

  unfoldable pub open_workspace : Str → Disk → Option (Str × Str) → Option Workspace × Disk
  unfolding Transient.create_workspace_commit
  open_workspace name d none = (none, d)
  open_workspace name d (some (commit_id, branchname)) =
      let obj = new_workspace_obj commit_id in
      let d' = (Transient.create_workspace_commit obj name d).1 in
      (some (record { name = name; branchname = branchname; obj = obj; disk = d' }), d')

  unfoldable pub create_workspace : Str → Str → Disk → Option Workspace × Disk
  unfolding resolve open_workspace
  create_workspace commit_id_or_branchname name d =
      elim (Transient.get_workspace_commit codec name d) [
        | some old ↦ (none, d)
        | none ↦ open_workspace name d (resolve commit_id_or_branchname d)
      ]

  unfoldable pub get_workspace : Str → Disk → Option Workspace
  get_workspace name d = elim (Transient.get_workspace_commit codec name d) [
    | some obj ↦ some (record { name = name; branchname = []; obj = obj; disk = d })
    | none ↦ none
  ]

  unfoldable pub delete_workspace_forced : Str → Disk → ℕ × Disk
  unfolding Transient.remove_workspace
  delete_workspace_forced name d = elim (Transient.get_workspace_commit codec name d) [
    | some obj ↦ Transient.remove_workspace name d
    | none ↦ (Status.entity_not_found, d)
  ]
