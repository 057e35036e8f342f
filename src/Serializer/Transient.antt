-- ===== src/Serializer/Transient.antt =====
-- What belongs to a workspace in libs/core/src/serialization/file_system/fs_serializer.cpp: the
-- transient trees and entities, the workspace object, and entity data on its way to the repository.
use mapit.Base.{Str, ℕ, zero, suc, [], ◌∷◌, ◌++◌, Option, none, some, Bool, true, false}
use mapit.Base.{if◌then◌else◌, leb, ltb, length, ◌==◌}
use mapit.Paths.{slash}
use mapit.Messages.{
  Tree, Entity, WorkspaceObj, MessageType, Codec, message_tree, message_entity, message_workspace,
  of_tree, of_entity, of_workspace,
}
use mapit.TreeHash.{hash_string}
use mapit.Serializer.Prefix
use mapit.Serializer.Disk.{
  Disk, File, entry, raw, exists, fs_write, fs_delete, update, object_path, entry_path, data_path,
}
use mapit.Serializer.Objects.{tree_of, entity_of, workspace_of, read_as, type_in}
use mapit.Status
use mapit.Outcome.{Outcome, returned, thrown, running}

-- `oid.substr(0, oid.length() - (oid[oid.length()-1] == '/'))`
unfoldable pub without_slash : Str → Str
without_slash [] = []
without_slash (c ∷ []) = if c == slash then [] else c ∷ []
without_slash (c ∷ d ∷ r) = c ∷ without_slash (d ∷ r)

-- The files of a workspace.
unfoldable pub store_tree_transient : Tree → Str → Disk → (ℕ × Str) × Disk
unfolding fs_write
store_tree_transient t id d =
    ((Status.ok, id), fs_write (entry_path id) (of_tree t) message_tree true d)

unfoldable pub store_entity_transient : Entity → Str → Disk → (ℕ × Str) × Disk
unfolding fs_write
store_entity_transient e id d =
    ((Status.ok, id), fs_write (entry_path id) (of_entity e) message_entity true d)

unfoldable pub remove_tree_transient : Str → Disk → ℕ × Disk
unfolding fs_delete
remove_tree_transient id d = (Status.ok, fs_delete (entry_path id) d)

unfoldable pub remove_entity_transient : Str → Disk → ℕ × Disk
unfolding fs_delete
remove_entity_transient id d = (Status.ok, fs_delete (data_path id) (fs_delete (entry_path id) d))

unfoldable pub store_workspace_commit : WorkspaceObj → Str → Disk → ℕ × Disk
unfolding fs_write
store_workspace_commit w name d =
    (Status.ok, fs_write (entry_path name) (of_workspace w) message_workspace true d)

unfoldable pub create_workspace_commit : WorkspaceObj → Str → Disk → ℕ × Disk
unfolding fs_write
create_workspace_commit w name d =
    (Status.ok, fs_write (entry_path name) (of_workspace w) message_workspace false d)

unfoldable pub remove_workspace : Str → Disk → ℕ × Disk
unfolding fs_delete
remove_workspace name d = (Status.ok, fs_delete (entry_path name) d)

unfoldable pub exists_stream_provider_transient : Str → Disk → Bool
unfolding exists
exists_stream_provider_transient path d = exists (data_path path) d

-- `take` and `drop` in one pass over the buffer.
unfoldable pub split_at : ℕ → Str → Str × Str
split_at zero s = ([], s)
split_at (suc n) [] = ([], [])
split_at (suc n) (c ∷ s) = let (front, back) = split_at n s in (c ∷ front, back)

-- The loop that reads the file in chunks of `step` bytes. `read` succeeds if `step` bytes are left.
unfoldable pub read_chunks : ℕ → ℕ → Str → Str → Outcome Str
read_chunks zero step rest file_hash = running
read_chunks (suc fuel) step rest file_hash = elim (leb step (length rest)) [
  | true ↦ let (front, back) = split_at step rest in read_chunks fuel step back (file_hash ++ front)
  | false ↦ returned (file_hash ++ rest)
]

-- `offsetMax`, 4 MB
abbrev pub offset_max : ℕ
offset_max = 4194304

abbrev pub offset_step : ℕ → ℕ
offset_step size = if ltb offset_max size then offset_max else size

module _ (codec : Codec) where
  unfoldable pub get_tree_transient : Str → Disk → Option Tree
  unfolding read_as tree_of
  get_tree_transient id d = read_as codec tree_of (d (entry_path id))

  unfoldable pub get_entity_transient : Str → Disk → Option Entity
  unfolding read_as entity_of without_slash
  get_entity_transient id d = read_as codec entity_of (d (entry_path (without_slash id)))

  unfoldable pub get_workspace_commit : Str → Disk → Option WorkspaceObj
  unfolding read_as workspace_of
  get_workspace_commit name d = read_as codec workspace_of (d (entry_path name))

  unfoldable pub type_of_object_transient : Str → Disk → MessageType
  unfolding type_in
  type_of_object_transient id d = type_in codec (d (entry_path id))

  abbrev pub bytes_of : File → Str
  bytes_of (entry ge) = codec.serialize_entry ge
  bytes_of (raw bytes) = bytes

  -- The file is moved to the hash of what was read.
  unfoldable pub move_file : Str → File → Disk → Outcome Str → Outcome ((ℕ × Str) × Disk)
  move_file path f d (returned file_hash) =
      let id = hash_string codec file_hash in
      returned (
        (Status.ok, id),
        update (update d (data_path path) none) (object_path Prefix.entities_data id) (some f),
      )
  move_file path f d thrown = thrown
  move_file path f d running = running

  unfoldable pub persist_bytes : ℕ → Str → File → Disk → Outcome ((ℕ × Str) × Disk)
  unfolding read_chunks move_file
  persist_bytes fuel path f d =
      move_file path f d (read_chunks fuel (offset_step (length (bytes_of f))) (bytes_of f) [])

  unfoldable pub persist_file : ℕ → Str → Option File → Disk → Outcome ((ℕ × Str) × Disk)
  persist_file fuel path none d = thrown
  persist_file fuel path (some f) d = persist_bytes fuel path f d

  unfoldable pub persist_transient_entitydata : ℕ → Str → Disk → Outcome ((ℕ × Str) × Disk)
  unfolding persist_file
  persist_transient_entitydata fuel [] d = returned ((Status.ok, []), d)
  persist_transient_entitydata fuel (c ∷ path) d =
      persist_file fuel (c ∷ path) (d (data_path (c ∷ path))) d
