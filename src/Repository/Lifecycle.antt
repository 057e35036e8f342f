-- ===== src/Repository/Lifecycle.antt =====
-- The life of a workspace: it is created, found again, and deleted.
use mapit.Base.{Str, [], none, some, false, ◌≡◌, refl, ap}
use mapit.Messages.{Codec, Content, MessageType, WorkspaceObj, of_workspace, message_workspace}
use mapit.Serializer.Disk.{Disk, FsPath, fs_write, entry_path, path_eq_refl, entry}
use mapit.Serializer.Objects
use mapit.Serializer.Transient
use mapit.Repository.{
  resolve, new_workspace_obj, open_workspace, create_workspace, get_workspace,
  delete_workspace_forced,
}
use mapit.Status

pub fs_write-free :
    (d : Disk) (p : FsPath) (c : Content) (m : MessageType)
    → d p ≡ none
    → fs_write p c m false d p ≡ some (entry (record { type = m; content = c }))
unfolding fs_write
fs_write-free d p c m h = rw (fs_write, h, path_eq_refl p) refl

module _ (codec : Codec) (name : Str) (d : Disk) where
  free_name : d (entry_path name) ≡ none → Transient.get_workspace_commit codec name d ≡ none
  unfolding Transient.get_workspace_commit Objects.read_as
  free_name h = rw h refl

  created_name :
      (obj : WorkspaceObj)
      → d (entry_path name) ≡ none
      → Transient.get_workspace_commit codec name (Transient.create_workspace_commit obj name d).1
        ≡ some obj
  unfolding Transient.get_workspace_commit Transient.create_workspace_commit Objects.read_as
      Objects.workspace_of
  created_name obj h =
      ap (Objects.read_as codec Objects.workspace_of)
        (fs_write-free d (entry_path name) (of_workspace obj) message_workspace h)

  deleted_name :
      Transient.get_workspace_commit codec name (Transient.remove_workspace name d).1 ≡ none
  unfolding Transient.get_workspace_commit Transient.remove_workspace Objects.read_as
  deleted_name = rw (path_eq_refl (entry_path name)) refl

  create_free :
      (key commit_id branchname : Str)
      → Transient.get_workspace_commit codec name d ≡ none
      → resolve codec key d ≡ some (commit_id, branchname)
      → let obj = new_workspace_obj codec commit_id in
        let d' = (Transient.create_workspace_commit obj name d).1 in
        create_workspace codec key name d
        ≡ (some (record { name = name; branchname = branchname; obj = obj; disk = d' }), d')
  unfolding create_workspace open_workspace
  create_free key commit_id branchname h k = rw (create_workspace, h, k) refl

  create_taken :
      (key : Str) (obj : WorkspaceObj)
      → Transient.get_workspace_commit codec name d ≡ some obj
      → create_workspace codec key name d ≡ (none, d)
  unfolding create_workspace
  create_taken key obj h = rw (create_workspace, h) refl

  get_some :
      (obj : WorkspaceObj)
      → Transient.get_workspace_commit codec name d ≡ some obj
      → get_workspace codec name d
        ≡ some (record { name = name; branchname = []; obj = obj; disk = d })
  unfolding get_workspace
  get_some obj h = rw (get_workspace, h) refl

  get_none : Transient.get_workspace_commit codec name d ≡ none → get_workspace codec name d ≡ none
  unfolding get_workspace
  get_none h = rw (get_workspace, h) refl

  delete_some :
      (obj : WorkspaceObj)
      → Transient.get_workspace_commit codec name d ≡ some obj
      → delete_workspace_forced codec name d ≡ Transient.remove_workspace name d
  unfolding delete_workspace_forced
  delete_some obj h = rw (delete_workspace_forced, h) refl

-- Creating a workspace under a name whose file is free, from what is a branch or a commit, gives a
-- workspace of this name and branch, with the one parent commit and nothing else. It is found again
-- under its name, without the name of the branch; a second one of this name is not created, from
-- whatever commit or branch; and once it is deleted it is found no more.
pub create_workspace-get :
    (codec : Codec) (key other name commit_id branchname : Str) (d : Disk)
    → d (entry_path name) ≡ none
    → resolve codec key d ≡ some (commit_id, branchname)
    → let d' = (create_workspace codec key name d).1 in
      let obj = new_workspace_obj codec commit_id in
      ((create_workspace codec key name d).0
        ≡ some (record { name = name; branchname = branchname; obj = obj; disk = d' }))
      × (get_workspace codec name d'
          ≡ some (record { name = name; branchname = []; obj = obj; disk = d' }))
      × (create_workspace codec other name d' ≡ (none, d'))
      × ((delete_workspace_forced codec name d').0 ≡ Status.ok)
      × (get_workspace codec name (delete_workspace_forced codec name d').1 ≡ none)
create_workspace-get codec key other name commit_id branchname d h k =
    let obj = new_workspace_obj codec commit_id in
    let d' = (Transient.create_workspace_commit obj name d).1 in
    let found = created_name codec name d obj h in
    rw (create_free codec name d key commit_id branchname (free_name codec name d h) k) (
      rw (delete_some codec name d' obj found) (
        refl,
        get_some codec name d' obj found,
        create_taken codec name d' other obj found,
        unfold Transient.remove_workspace in refl,
        get_none codec name _ (deleted_name codec name d'),
      ))
