-- ===== src/EntityData/Access.antt =====
-- Which files the entity data of a workspace is read from and written to.
use mapit.Base.{
  Str, ℕ, [], Option, none, some, Bool, true, false, if◌then◌else◌, ◌≡◌, refl, sym, subst, ◌∙◌, ◌⊎◌,
  inl, inr,
}
use mapit.Messages.{Entity, GenericEntry, Codec, message_entity, of_entity}
use mapit.Paths.{prepare_path_filename}
use mapit.Search.{is_empty}
use mapit.Serializer.Prefix
use mapit.Serializer.Disk.{Disk, FsPath, entry, raw, update, object_path, data_path}
use mapit.Serializer.Steps.{is_stored, data_path-is_stored, update-outside}
use mapit.Serializer.Objects
use mapit.Serializer.Transient
use mapit.Workspace.{Workspace, internal, object_reference_for_path}
use mapit.EntityData.{
  Provider, start_read, start_write, end_write, write_stream, set_stream_size, get_stream_provider,
  written_over, get_stream_provider_transient, wrapped, wrapped_stored, get_entitydata_by_id,
  get_entitydata_read_only, get_entitydata_for_read_write,
}
use mapit.EntityData.Streams.{both}

-- The provider itself, whatever the type of the entity.
abbrev pub hand_over : Str → Provider → Option Provider
hand_over type provider = some provider

abbrev pub Option-map {ℓ κ} : {A : Type ℓ} {B : Type κ} → (A → B) → Option A → Option B
Option-map f none = none
Option-map f (some a) = some (f a)

module _ (codec : Codec) where
  for_read_write :
      (c : Bool) (o : Option Entity) (oid : Str) (p : Provider)
      → (if c then none else elim o [
        | some e ↦ wrapped codec hand_over e (get_stream_provider_transient oid true true)
        | none ↦ none
      ])
        ≡ some p
      → p ≡ both (data_path oid)
  unfolding get_stream_provider_transient
  for_read_write true o oid p h = cc
  for_read_write false none oid p h = cc
  for_read_write false (some e) oid p h = cc

  write_stream-outside :
      (oid : Str) (start len size : ℕ) (bytes : Str) (d : Disk) (q : FsPath)
      → is_stored q ≡ true
      → (write_stream (both (data_path oid)) start len bytes d q ≡ d q)
        × (set_stream_size (both (data_path oid)) size d q ≡ d q)
  unfolding write_stream set_stream_size start_write end_write
  write_stream-outside oid start len size bytes d q k =
      let cut = update-outside d (data_path oid) q (some (raw [])) (data_path-is_stored oid) k in
      (
        update-outside (update d (data_path oid) (some (raw []))) (data_path oid) q
              (some (
                raw
                  (written_over bytes (update d (data_path oid) (some (raw [])) (data_path oid)))))
              (data_path-is_stored oid) k
            ∙ cut,
        cut,
      )

-- Entity data that a workspace gives for writing is never that of a stored object: no write, and no
-- change of its size, changes a stored tree, entity, commit or branch.
pub get_entitydata_for_read_write-keeps :
    (codec : Codec) (path : Str) (w : Workspace) (p : Provider) (start len size : ℕ) (bytes : Str)
    (q : FsPath)
    → get_entitydata_for_read_write codec hand_over path w ≡ some p
    → is_stored q ≡ true
    → (write_stream p start len bytes w.disk q ≡ w.disk q)
      × (set_stream_size p size w.disk q ≡ w.disk q)
unfolding get_entitydata_for_read_write
get_entitydata_for_read_write-keeps codec path w p start len size bytes q h k =
    let oid = internal w.name (prepare_path_filename path) in
    subst
      (λ r.
        (write_stream r start len bytes w.disk q ≡ w.disk q)
        × (set_stream_size r size w.disk q ≡ w.disk q))
      (sym (
        for_read_write codec (is_empty (prepare_path_filename path))
          (Transient.get_entity_transient codec oid w.disk) oid p h))
      (write_stream-outside codec oid start len size bytes w.disk q k)

module _ (codec : Codec) where
  -- A provider that does not write.
  abbrev ReadsOnly : Provider → Type 0
  ReadsOnly p = p.filename_write ≡ none

  by_id-ReadsOnly :
      (oid : Str) (o : Option Entity) (p : Provider)
      → wrapped_stored codec hand_over oid o ≡ some p
      → ReadsOnly p
  unfolding get_stream_provider
  by_id-ReadsOnly oid none p h = cc
  by_id-ReadsOnly oid (some e) p h = subst (λ o. reads o) h refl
    where
      reads : Option Provider → Type 0
      reads none = Unit
      reads (some r) = ReadsOnly r

  read_only-ReadsOnly :
      (c b : Bool) (o : Option Entity) (oid id : Str) (stored : Option Entity) (p : Provider)
      → (if c then none else elim o [
        | some e ↦ wrapped codec hand_over e (get_stream_provider_transient oid true false)
        | none ↦ (if b then none else wrapped_stored codec hand_over id stored)
      ])
        ≡ some p
      → ReadsOnly p
  unfolding get_stream_provider_transient
  read_only-ReadsOnly true b o oid id stored p h = cc
  read_only-ReadsOnly false b (some e) oid id stored p h = subst (λ o. reads o) h refl
    where
      reads : Option Provider → Type 0
      reads none = Unit
      reads (some r) = ReadsOnly r
  read_only-ReadsOnly false true none oid id stored p h = cc
  read_only-ReadsOnly false false none oid id stored p h = by_id-ReadsOnly id stored p h

  write_stream-ReadsOnly :
      (p : Provider) (start len size : ℕ) (bytes : Str) (d : Disk)
      → ReadsOnly p
      → (write_stream p start len bytes d ≡ d) × (set_stream_size p size d ≡ d)
  unfolding write_stream start_write end_write set_stream_size
  write_stream-ReadsOnly p start len size bytes d h = (rw h refl, rw h refl)

-- Entity data that a workspace gives for reading, by a path or by an id, cannot be written through.
pub get_entitydata_read_only-keeps :
    (codec : Codec) (path oid : Str) (w : Workspace) (p : Provider) (start len size : ℕ)
    (bytes : Str) (d : Disk)
    → (get_entitydata_read_only codec hand_over path w ≡ some p)
      ⊎ (get_entitydata_by_id codec hand_over oid d ≡ some p)
    → (write_stream p start len bytes d ≡ d) × (set_stream_size p size d ≡ d)
unfolding get_entitydata_read_only get_entitydata_by_id
get_entitydata_read_only-keeps codec path oid w p start len size bytes d (inl h) =
    let q = prepare_path_filename path in
    let ref = object_reference_for_path codec q w in
    write_stream-ReadsOnly codec p start len size bytes d (
      read_only-ReadsOnly codec (is_empty q) (is_empty ref.id)
        (Transient.get_entity_transient codec (internal w.name q) w.disk) (internal w.name q) ref.id
        (Objects.get_entity codec ref.id w.disk) p h)
get_entitydata_read_only-keeps codec path oid w p start len size bytes d (inr h) =
    write_stream-ReadsOnly codec p start len size bytes d
      (by_id-ReadsOnly codec oid (Objects.get_entity codec oid d) p h)

-- What is read through the provider of a stored entity is the entity itself, as it was serialized, and
-- never its data, which stands under another directory.
pub get_entitydata_by_id-entity :
    (codec : Codec) (oid : Str) (e : Entity) (len : ℕ) (d : Disk)
    → let ge : GenericEntry = record { type = message_entity; content = of_entity e } in
      d (object_path Prefix.entities oid) ≡ some (entry ge)
      → (Objects.get_entity codec oid d ≡ some e)
        × (Option-map (λ p. start_read codec p 0 len d) (get_entitydata_by_id codec hand_over oid d)
            ≡ some (codec.serialize_entry ge))
unfolding get_entitydata_by_id start_read get_stream_provider Objects.get_entity Objects.read_as
    Objects.entity_of
get_entitydata_by_id-entity codec oid e len d h = (rw h refl, rw (h, h) refl)
