-- ===== src/Serializer/RoundTrip.antt =====
-- What FSSerializer returns from the files of a workspace after it has stored or removed one.
use mapit.Base.{Str, Option, none, some, Bool, true, if◌then◌else◌, ◌≡◌, ◌∙◌}
use mapit.Base.{arith, Bool-cases, inl, inr}
use mapit.Messages.{
  Tree, Entity, WorkspaceObj, Content, MessageType, Codec, message_tree, message_entity,
  message_workspace, of_tree, of_entity, of_workspace,
}
use mapit.Serializer.Disk.{
  Disk, FsPath, entry, path_eq, path_eq_refl, fs_write, fs_delete, entry_path,
}
use mapit.Serializer.Objects.{read_as, tree_of, entity_of, workspace_of}
use mapit.Serializer.Transient.{
  without_slash, store_tree_transient, store_entity_transient, store_workspace_commit,
  get_tree_transient, get_entity_transient, get_workspace_commit,
}

pub fs_write-overwrites :
    (p q : FsPath) (c : Content) (m : MessageType) (d : Disk)
    → fs_write p c m true d q
      ≡ (if path_eq p q then some (entry (record { type = m; content = c })) else d q)
unfolding fs_write
fs_write-overwrites p q c m d = ground arith

read_as-write {ℓ} :
    {A : Type ℓ} (codec : Codec) (of : MessageType → Content → Option A) (p q : FsPath)
    (c : Content) (m : MessageType) (d : Disk)
    → read_as codec of (fs_write p c m true d q)
      ≡ (if path_eq p q then of m c else read_as codec of (d q))
unfolding read_as
read_as-write codec of p q c m d = elim (Bool-cases (path_eq p q)) [
  | inl e ↦ rw (fs_write-overwrites p q c m d, e)
  | inr e ↦ rw (fs_write-overwrites p q c m d, e)
]

read_as-delete {ℓ} :
    {A : Type ℓ} (codec : Codec) (of : MessageType → Content → Option A) (p q : FsPath) (d : Disk)
    → read_as codec of (fs_delete p d q) ≡ (if path_eq p q then none else read_as codec of (d q))
unfolding read_as fs_delete
read_as-delete codec of p q d = elim (Bool-cases (path_eq p q)) [ inl e ↦ rw e | inr e ↦ rw e ]

-- The file of an object of a workspace, and of the workspace itself.
abbrev pub same_file : Str → Str → Bool
same_file i j = path_eq (entry_path i) (entry_path j)

-- A transient tree that is stored is read back from every id that names its file, where no entity is
-- read any more; all other trees and entities stay, and so do the workspaces of other files.
pub store_tree_transient-reads :
    (codec : Codec) (t : Tree) (i j : Str) (d : Disk)
    → let d' = (store_tree_transient t i d).1 in
      (get_tree_transient codec j d'
        ≡ (if same_file i j then some t else get_tree_transient codec j d))
      × (get_entity_transient codec j d'
          ≡ (if same_file i (without_slash j) then none else get_entity_transient codec j d))
      × (get_workspace_commit codec j d'
          ≡ (if same_file i j then none else get_workspace_commit codec j d))
unfolding store_tree_transient get_tree_transient get_entity_transient get_workspace_commit
store_tree_transient-reads codec t i j d = (
  read_as-write codec tree_of (entry_path i) (entry_path j) (of_tree t) message_tree d,
  read_as-write codec entity_of (entry_path i) (entry_path (without_slash j)) (of_tree t)
      message_tree d,
  read_as-write codec workspace_of (entry_path i) (entry_path j) (of_tree t) message_tree d,
)

-- The same of a transient entity.
pub store_entity_transient-reads :
    (codec : Codec) (e : Entity) (i j : Str) (d : Disk)
    → let d' = (store_entity_transient e i d).1 in
      (get_tree_transient codec j d'
        ≡ (if same_file i j then none else get_tree_transient codec j d))
      × (get_entity_transient codec j d'
          ≡ (if same_file i (without_slash j) then some e else get_entity_transient codec j d))
      × (get_workspace_commit codec j d'
          ≡ (if same_file i j then none else get_workspace_commit codec j d))
unfolding store_entity_transient get_tree_transient get_entity_transient get_workspace_commit
store_entity_transient-reads codec e i j d = (
  read_as-write codec tree_of (entry_path i) (entry_path j) (of_entity e) message_entity d,
  read_as-write codec entity_of (entry_path i) (entry_path (without_slash j)) (of_entity e)
      message_entity d,
  read_as-write codec workspace_of (entry_path i) (entry_path j) (of_entity e) message_entity d,
)

-- A workspace object that is stored is read back, whatever the file held before.
pub get_workspace_commit-store :
    (codec : Codec) (w : WorkspaceObj) (name : Str) (d : Disk)
    → get_workspace_commit codec name (store_workspace_commit w name d).1 ≡ some w
unfolding store_workspace_commit get_workspace_commit
get_workspace_commit-store codec w name d =
    read_as-write codec workspace_of (entry_path name) (entry_path name) (of_workspace w)
      message_workspace d
    ∙ rw (path_eq_refl (entry_path name))
