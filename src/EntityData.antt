-- ===== src/EntityData.antt =====
-- libs/core/src/serialization/file_system/fs_entitydatastreamprovider.cpp: how entity data is read from
-- and written to files, and which file a provider of FSSerializer and of WorkspaceImpl stands for.
pub mod Streams
pub mod Access
pub mod History
use mapit.Base.{
  Str, ℕ, zero, suc, ◌-◌, ◌^◌, List, [], ◌∷◌, ◌++◌, Option, none, some, Bool, true, false, length,
  if◌then◌else◌,
}
use mapit.Messages.{Entity, Codec}
use mapit.Paths.{prepare_path_filename}
use mapit.Search.{is_empty}
use mapit.Serializer.Prefix
use mapit.Serializer.Disk.{Disk, FsPath, File, raw, update, object_path, data_path}
use mapit.Serializer.Objects
use mapit.Serializer.Transient
use mapit.Serializer.Transient.{bytes_of}
use mapit.Workspace.{Workspace, internal, object_reference_for_path}
use mapit.Outcome.{Outcome, returned, thrown}

-- `FileSystemEntitydataStreamProvider`; an empty file name is `none`.
pub record Provider : Type 0 where
  pub filename_read : Option FsPath
  pub filename_write : Option FsPath

abbrev pub drop : ℕ → Str → Str
drop zero s = s
drop (suc n) [] = []
drop (suc n) (c ∷ s) = drop n s

-- What a file that may be missing holds.
abbrev pub content {ℓ} : {A : Type ℓ} → (File → A) → A → Option File → A
content f a none = a
content f a (some file) = f file

abbrev pub at {ℓ} : {A : Type ℓ} → Disk → Option FsPath → (Option File → A) → A
at d none k = k none
at d (some p) k = k (d p)

module _ (codec : Codec) where
  -- What the stream of `startRead` delivers: everything from `start` on, since `len` is not looked at.
  unfoldable pub start_read : Provider → ℕ → ℕ → Disk → Str
  start_read provider start len d =
      at d provider.filename_read (content (λ f. drop start (bytes_of codec f)) [])

  -- `getStreamSize`; `tellg` on a file that is not there is `-1`, as 64 bits.
  unfoldable pub get_stream_size : Provider → Disk → ℕ
  get_stream_size provider d =
      at d provider.filename_read (content (λ f. length (bytes_of codec f)) (2 ^ 64 - 1))

-- `startWrite` opens the file and truncates it; `start` and `len` are not looked at.
unfoldable pub start_write : Provider → ℕ → ℕ → Disk → Option FsPath × Disk
start_write provider start len d = elim provider.filename_write [
  | none ↦ (none, d)
  | some p ↦ (some p, update d p (some (raw [])))
]

-- Bytes that are written from the beginning of a file, over what it holds; the rest of that stays. A file that is open
-- for writing is not an entry any more.
unfoldable pub written_over : Str → Option File → Str
written_over bytes (some (raw old)) = bytes ++ drop (length bytes) old
written_over bytes _ = bytes

-- What the owner of the stream writes until `endWrite`. Without a stream nothing is written.
unfoldable pub end_write : Str → Option FsPath × Disk → Disk
unfolding written_over
end_write bytes (none, d) = d
end_write bytes (some p, d) = update d p (some (raw (written_over bytes (d p))))

unfoldable pub write_stream : Provider → ℕ → ℕ → Str → Disk → Disk
unfolding start_write end_write
write_stream provider start len bytes d = end_write bytes (start_write provider start len d)

-- `setStreamSize` opens the file and so truncates it; the size is not looked at.
unfoldable pub set_stream_size : Provider → ℕ → Disk → Disk
set_stream_size provider size d = elim provider.filename_write [
  | none ↦ d
  | some p ↦ update d p (some (raw []))
]

-- `startReadFile` and `startWriteFile`: the name of the file.
abbrev pub start_read_file : Provider → Option FsPath
start_read_file provider = provider.filename_read

abbrev pub start_write_file : Provider → Option FsPath
start_write_file provider = provider.filename_write

-- `FSSerializer::getStreamProvider` and `getStreamProviderTransient`. A provider that cannot read fails
-- an assertion when it is made.
unfoldable pub get_stream_provider : Str → Bool → Outcome Provider
get_stream_provider entity_id false = thrown
get_stream_provider entity_id true =
    returned (record {
      filename_read = some (object_path Prefix.entities entity_id);
      filename_write = none;
    })

unfoldable pub get_stream_provider_transient : Str → Bool → Bool → Outcome Provider
get_stream_provider_transient oid false can_write = thrown
get_stream_provider_transient oid true can_write = returned (record {
  filename_read = some (data_path oid);
  filename_write = if can_write then some (data_path oid) else none;
})

-- What `EntityDataLibraryManager` makes of a type and a provider is given.
module _ {ℓ} {E : Type ℓ} (codec : Codec) (wrap : Str → Provider → Option E) where
  abbrev pub wrapped : Entity → Outcome Provider → Option E
  wrapped e (returned provider) = wrap e.type provider
  wrapped e o = none

  abbrev pub wrapped_stored : Str → Option Entity → Option E
  wrapped_stored oid none = none
  wrapped_stored oid (some e) = wrapped e (get_stream_provider oid true)

  -- `getEntitydataReadOnlyConflict`, and `RepositoryImpl::getEntitydataReadOnly`.
  unfoldable pub get_entitydata_by_id : Str → Disk → Option E
  unfolding get_stream_provider Objects.get_entity
  get_entitydata_by_id oid d = wrapped_stored oid (Objects.get_entity codec oid d)

  -- `getEntitydataReadOnly`: a transient entity first, then the repository.
  unfoldable pub get_entitydata_read_only : Str → Workspace → Option E
  unfolding prepare_path_filename get_stream_provider_transient get_entitydata_by_id
      object_reference_for_path
  get_entitydata_read_only path w =
      let p = prepare_path_filename path in
      let ref = object_reference_for_path codec p w in
      let stored = get_entitydata_by_id ref.id w.disk in
      if is_empty p
      then none
      else elim (Transient.get_entity_transient codec (internal w.name p) w.disk) [
        | some e ↦ wrapped e (get_stream_provider_transient (internal w.name p) true false)
        | none ↦ (if is_empty ref.id then none else stored)
      ]

  -- `getEntitydataForReadWrite`: of transient entities only.
  unfoldable pub get_entitydata_for_read_write : Str → Workspace → Option E
  unfolding prepare_path_filename get_stream_provider_transient
  get_entitydata_for_read_write path w =
      let p = prepare_path_filename path in
      if is_empty p
      then none
      else elim (Transient.get_entity_transient codec (internal w.name p) w.disk) [
        | some e ↦ wrapped e (get_stream_provider_transient (internal w.name p) true true)
        | none ↦ none
      ]
