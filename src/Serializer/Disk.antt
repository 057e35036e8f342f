-- ===== src/Serializer/Disk.antt =====
-- The files below the repository's directory, and `fs_write`, `fs_read`, `fs_delete` of
-- libs/core/src/serialization/file_system/fs_serializer.cpp.
use mapit.Base.{Str, List, [], ◌∷◌, ◌++◌, Option, none, some, Bool, true, false, ◌&&◌}
use mapit.Base.{◌≡◌, refl, arith, if◌then◌else◌, str_eq, str_eq→eq, str_eq_refl, ◌==◌}
use mapit.Paths.{slash}
use mapit.Paths.Canonical.{components}
use mapit.Serializer.Prefix
use mapit.Messages.{GenericEntry, Content, MessageType, Codec}

-- A path of the file system by its elements.
abbrev pub FsPath : Type 0
FsPath = List Str

-- A file that `fs_write` wrote holds a serialized entry, any other its bytes.
pub data File : Type 0 where
  entry : GenericEntry → File
  raw : Str → File

abbrev pub Disk : Type 0
Disk = FsPath → Option File

abbrev pub empty_disk : Disk
empty_disk p = none

unfoldable pub path_eq : FsPath → FsPath → Bool
unfolding str_eq
path_eq [] [] = true
path_eq [] (b ∷ q) = false
path_eq (a ∷ p) [] = false
path_eq (a ∷ p) (b ∷ q) = str_eq a b && path_eq p q

pub path_eq→eq : (p q : FsPath) → path_eq p q ≡ true → p ≡ q
unfolding path_eq
path_eq→eq [] [] h = refl
path_eq→eq [] (b ∷ q) h = ground arith
path_eq→eq (a ∷ p) [] h = ground arith
path_eq→eq (a ∷ p) (b ∷ q) h = ground (arith, str_eq→eq a b, path_eq→eq p q)

pub path_eq_refl : (p : FsPath) → path_eq p p ≡ true
unfolding path_eq
path_eq_refl [] = refl
path_eq_refl (a ∷ p) = ground (arith, str_eq_refl a, path_eq_refl p)

abbrev pub update : Disk → FsPath → Option File → Disk
update d p v q = if path_eq p q then v else d q

abbrev pub is_some {ℓ} : {A : Type ℓ} → Option A → Bool
is_some none = false
is_some (some a) = true

-- `fs::exists`
unfoldable pub exists : FsPath → Disk → Bool
exists p d = is_some (d p)

-- `fs_write`: a file that is there stays as it is, unless `overwrite` is set.
unfoldable pub fs_write : FsPath → Content → MessageType → Bool → Disk → Disk
fs_write p ge msg_type overwrite d =
    let d' = update d p (some (entry (record { type = msg_type; content = ge }))) in
    elim (d p) [ none ↦ d' | some old ↦ (if overwrite then d' else d) ]

-- `fs_read` of the file that is there.
unfoldable pub fs_read : Codec → File → GenericEntry
fs_read codec (entry ge) = ge
fs_read codec (raw bytes) = codec.parse_entry bytes

-- `fs_delete`
unfoldable pub fs_delete : FsPath → Disk → Disk
fs_delete p d = update d p none

-- `repo_ / prefix / oid`
abbrev pub object_path : Str → Str → FsPath
object_path prefix oid = prefix ∷ components oid

-- `oid.find("/")`, `oid.substr(0, f)` and `oid.substr(f, …)`
unfoldable pub split_slash : Str → Option (Str × Str)
split_slash [] = none
split_slash (c ∷ r) =
    let rest = split_slash r in
    if c == slash
    then some ([], c ∷ r)
    else elim rest [ none ↦ none | some (s, t) ↦ some (c ∷ s, t) ]

-- The first part of an object id is the name of the workspace, the second a path inside it.
unfoldable pub workspace_path : Str → Option (Str × Str) → FsPath
workspace_path oid none = Prefix.workspaces ∷ components oid
workspace_path oid (some (name, rest)) =
    Prefix.workspaces ∷ (components name ++ (Prefix.root ∷ components rest))

unfoldable pub objectid_to_workspace_fs_path : Str → FsPath
unfolding split_slash workspace_path
objectid_to_workspace_fs_path oid = workspace_path oid (split_slash oid)

abbrev pub entry_path : Str → FsPath
entry_path oid = objectid_to_workspace_fs_path oid ++ (Prefix.generic_entry ∷ [])

abbrev pub data_path : Str → FsPath
data_path oid = objectid_to_workspace_fs_path oid ++ (Prefix.entity_data ∷ [])
