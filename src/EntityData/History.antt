-- ===== src/EntityData/History.antt =====
-- What the calls of the core keep of the history, and the entity data of a workspace
-- (libs/core/src/serialization/file_system/fs_entitydatastreamprovider.cpp) as no part of it.
use mapit.Base.{Str, ℕ, [], Option, none, some, Bool, true, false, if◌then◌else◌, ◌≡◌, ◌∙◌}
use mapit.Messages.{Entity, Codec}
use mapit.Paths.{prepare_path_filename}
use mapit.Search.{is_empty}
use mapit.Outcome.{Outcome, Ends, Ends-map}
use mapit.Serializer.Disk.{Disk, FsPath, File, raw, update, data_path}
use mapit.Serializer.Steps.{is_stored, data_path-is_stored, update-outside}
use mapit.Serializer.History.{Kept, Reach-keeps}
use mapit.Serializer.Transient
use mapit.Workspace.{Workspace, internal}
use mapit.Workspace.History.{MovedTo}
use mapit.EntityData.{
  Provider, start_write, end_write, written_over, wrapped, get_stream_provider_transient,
  get_entitydata_for_read_write,
}

pub Kept-refl : (d : Disk) → Kept d d
Kept-refl d q f k h = h

pub Kept-trans : (d e g : Disk) → Kept d e → Kept e g → Kept d g
Kept-trans d e g h k q f s t = k q f s (h q f s t)

abbrev pub KeptFrom : Disk → ℕ × Workspace → Type 0
KeptFrom d r = Kept d r.1.disk

-- A call that moves a workspace along the steps of the serializer.
pub moved-Kept :
    (codec : Codec) (w : Workspace) (o : Outcome (ℕ × Workspace))
    → Ends (MovedTo codec w.disk) o
    → Ends (KeptFrom w.disk) o
moved-Kept codec w o =
    Ends-map (MovedTo codec w.disk) (KeptFrom w.disk) o (λ r h q f. Reach-keeps codec q f h)

-- What the core does to the files of the history.
pub update-Kept :
    (d : Disk) (p : FsPath) (v : Option File) → is_stored p ≡ false → Kept d (update d p v)
update-Kept d p v h q f k g = update-outside d p q v h k ∙ g

-- A file that is not part of the history, or none.
abbrev pub IsOutside : Option FsPath → Type 0
IsOutside none = Unit
IsOutside (some p) = is_stored p ≡ false

pub start_write-Kept :
    (p : Provider) (start len : ℕ) (d : Disk)
    → IsOutside p.filename_write
    → Kept d (start_write p start len d).1 × IsOutside (start_write p start len d).0
unfolding start_write
start_write-Kept p start len d h = started p.filename_write h
  where
    started :
        (o : Option FsPath)
        → IsOutside o
        → Kept d
            (elim o as (λ _. Option FsPath × Disk) [
              | none ↦ (none, d)
              | some q ↦ (some q, update d q (some (raw [])))
            ]).1
          × IsOutside
              (elim o as (λ _. Option FsPath × Disk) [
                | none ↦ (none, d)
                | some q ↦ (some q, update d q (some (raw [])))
              ]).0
    started none k = (Kept-refl d, tt)
    started (some q) k = (update-Kept d q (some (raw [])) k, k)

pub end_write-Kept :
    (bytes : Str) (o : Option FsPath) (d : Disk) → IsOutside o → Kept d (end_write bytes (o, d))
unfolding end_write
end_write-Kept bytes none d h = Kept-refl d
end_write-Kept bytes (some p) d h = update-Kept d p (some (raw (written_over bytes (d p)))) h

-- The data of a workspace's entities is not part of the history.
unfoldable pub IsWritable : Option Provider → Type 0
IsWritable none = Unit
IsWritable (some p) = IsOutside p.filename_write

-- Where the type of an entity has a library, its provider is handed over.
abbrev pub loaded_by : (Str → Bool) → Str → Provider → Option Provider
loaded_by loads type p = if loads type then some p else none

module _ (codec : Codec) (loads : Str → Bool) where
  wrapped-IsWritable :
      (type : Str) (p : Provider) → IsOutside p.filename_write → IsWritable (loaded_by loads type p)
  unfolding IsWritable
  wrapped-IsWritable type p h = loaded (loads type)
    where
      loaded : (b : Bool) → IsWritable (if b then some p else none)
      loaded true = h
      loaded false = tt

  pub for_write-IsWritable :
      (path : Str) (w : Workspace)
      → IsWritable (get_entitydata_for_read_write codec (loaded_by loads) path w)
  unfolding get_entitydata_for_read_write get_stream_provider_transient IsWritable
  for_write-IsWritable path w = named (is_empty (prepare_path_filename path))
    where
      oid : Str
      oid = internal w.name (prepare_path_filename path)

      there :
          (o : Option Entity)
          → IsWritable (elim o as (λ _. Option Provider) [
            | some e ↦
                wrapped codec (loaded_by loads) e (get_stream_provider_transient oid true true)
            | none ↦ none
          ])
      there none = tt
      there (some e) =
          wrapped-IsWritable e.type
            (record { filename_read = some (data_path oid); filename_write = some (data_path oid) })
            (data_path-is_stored oid)

      named :
          (b : Bool)
          → IsWritable (
              if b
              then none
              else elim (Transient.get_entity_transient codec oid w.disk)
                  as (λ _. Option Provider) [
                    | some e ↦
                        wrapped codec
                          (loaded_by loads)
                          e
                          (get_stream_provider_transient oid true true)
                    | none ↦ none
                  ])
      named true = tt
      named false = there (Transient.get_entity_transient codec oid w.disk)
