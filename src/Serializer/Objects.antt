-- ===== src/Serializer/Objects.antt =====
-- Trees, entities, commits and branches of
-- libs/core/src/serialization/file_system/fs_serializer.cpp, stored under their hash or name.
use mapit.Base.{Str, ℕ, List, [], ◌∷◌, Option, none, some, Bool, false, if◌then◌else◌}
use mapit.Messages.{
  Tree, Entity, Commit, Branch, WorkspaceObj, MessageType, Content, Codec, message_empty,
  message_tree, message_entity, message_commit, message_branch, message_workspace, of_tree,
  of_entity, of_commit, of_branch, of_workspace,
}
use mapit.TreeHash.{hash_tree, hash_entity, hash_commit}
use mapit.Serializer.Prefix
use mapit.Serializer.Disk.{Disk, File, exists, fs_read, fs_write, object_path}
use mapit.Status

-- The two tests of each getter: the type of the entry, and whether it has the message.
unfoldable pub tree_of : MessageType → Content → Option Tree
tree_of message_tree (of_tree t) = some t
tree_of _ _ = none

unfoldable pub entity_of : MessageType → Content → Option Entity
entity_of message_entity (of_entity e) = some e
entity_of _ _ = none

unfoldable pub commit_of : MessageType → Content → Option Commit
commit_of message_commit (of_commit c) = some c
commit_of _ _ = none

unfoldable pub branch_of : MessageType → Content → Option Branch
branch_of message_branch (of_branch b) = some b
branch_of _ _ = none

unfoldable pub workspace_of : MessageType → Content → Option WorkspaceObj
workspace_of message_workspace (of_workspace w) = some w
workspace_of _ _ = none

module _ (codec : Codec) where
  -- `fs::exists`, `fs_read` and the two tests.
  unfoldable pub read_as {ℓ} :
      {A : Type ℓ} → (MessageType → Content → Option A) → Option File → Option A
  unfolding fs_read
  read_as of none = none
  read_as of (some f) = let ge = fs_read codec f in of ge.type ge.content

  unfoldable pub get_tree : Str → Disk → Option Tree
  unfolding read_as tree_of
  get_tree oid d = read_as tree_of (d (object_path Prefix.trees oid))

  unfoldable pub get_entity : Str → Disk → Option Entity
  unfolding read_as entity_of
  get_entity oid d = read_as entity_of (d (object_path Prefix.entities oid))

  unfoldable pub get_commit : Str → Disk → Option Commit
  unfolding read_as commit_of
  get_commit oid d = read_as commit_of (d (object_path Prefix.commits oid))

  unfoldable pub get_branch : Str → Disk → Option Branch
  unfolding read_as branch_of
  get_branch name d = read_as branch_of (d (object_path Prefix.branches name))

  unfoldable pub store_tree : Tree → Disk → (ℕ × Str) × Disk
  unfolding fs_write
  store_tree t d =
      let oid = hash_tree codec t in
      ((Status.ok, oid), fs_write (object_path Prefix.trees oid) (of_tree t) message_tree false d)

  unfoldable pub store_entity : Entity → Disk → (ℕ × Str) × Disk
  unfolding fs_write
  store_entity e d =
      let oid = hash_entity codec e in
      (
        (Status.ok, oid),
        fs_write (object_path Prefix.entities oid) (of_entity e) message_entity false d,
      )

  unfoldable pub create_commit : Commit → Disk → (ℕ × Str) × Disk
  unfolding fs_write
  create_commit c d =
      let oid = hash_commit codec c in
      (
        (Status.ok, oid),
        fs_write (object_path Prefix.commits oid) (of_commit c) message_commit false d,
      )

  unfoldable pub create_branch : Branch → Str → Disk → ℕ × Disk
  unfolding fs_write exists
  create_branch b name d =
      let p = object_path Prefix.branches name in
      if exists p d
      then (Status.branch_already_exists, d)
      else (Status.ok, fs_write p (of_branch b) message_branch false d)

  -- The loop over `places` ends at the first that has the file.
  unfoldable pub first_file : List Str → Str → Disk → Option File
  first_file [] oid d = none
  first_file (place ∷ places) oid d =
      let rest = first_file places oid d in
      elim (d (object_path place oid)) [ none ↦ rest | some f ↦ some f ]

  abbrev pub places : List Str
  places =
      Prefix.commits ∷ Prefix.branches ∷ Prefix.trees ∷ Prefix.entities ∷ Prefix.entities_data ∷ []

  -- `MessageEmpty` where no file is found.
  unfoldable pub type_in : Option File → MessageType
  unfolding fs_read
  type_in none = message_empty
  type_in (some f) = (fs_read codec f).type

  unfoldable pub type_of_object : Str → Disk → MessageType
  unfolding type_in first_file
  type_of_object oid d = type_in (first_file places oid d)

unfoldable pub exists_stream_provider : Str → Disk → Bool
unfolding exists
exists_stream_provider entity_id d = exists (object_path Prefix.entities entity_id) d

-- `removeCommit`, `storeBranch`, `removeBranch` and `cleanUp` are not implemented: they return this
-- status and change nothing.
unfoldable pub not_implemented : Disk → ℕ × Disk
not_implemented d = (Status.db_io_error, d)
