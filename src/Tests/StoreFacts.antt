-- ===== src/Tests/StoreFacts.antt =====
-- The theorems on the serializer at concrete inputs.
use mapit.Base.{codes, [], ◌∷◌, none, some, if◌then◌else◌, ◌≡◌, refl, arith}
use mapit.Messages.{new_tree, Tree, Entity, Commit, GenericEntry, message_entity, of_entity}
use mapit.Paths.Canonical.{components}
use mapit.TreeHash.{hash_tree, hash_entity, hash_commit, hash_string}
use mapit.Outcome.{returned, running}
use mapit.Serializer.Prefix
use mapit.Serializer.Disk.{
  Disk, empty_disk, update, raw, path_eq, path_eq_refl, object_path, data_path,
  objectid_to_workspace_fs_path,
}
use mapit.Serializer.Objects
use mapit.Serializer.Transient
use mapit.Serializer.Transient.{bytes_of}
use mapit.Serializer.Steps
use mapit.Serializer.Steps.{Reach, here, next}
use mapit.Serializer.History.{Preserves, history_immutable, stored_under_hash}
use mapit.Serializer.RoundTrip.{same_file, store_tree_transient-reads, store_entity_transient-reads}
use mapit.Serializer.Stream.{persist_transient_entitydata-moves, persist_transient_entitydata-empty}
use mapit.EntityData.{
  Provider, drop, start_read, get_stream_size, write_stream, set_stream_size, get_entitydata_by_id,
  get_entitydata_for_read_write,
}
use mapit.EntityData.Streams.{both, write_stream-reads}
use mapit.EntityData.Access.{
  hand_over, Option-map, get_entitydata_for_read_write-keeps, get_entitydata_by_id-entity,
}
use mapit.Workspace.Delete.{store_entity}
use mapit.Status
use mapit.Tests.Data.{codec, cloud, filled}

abbrev with_entity : Disk
with_entity = (Objects.store_entity codec cloud empty_disk).1

abbrev with_tree : Disk
with_tree = (Objects.store_tree codec new_tree with_entity).1

abbrev overwritten : Disk
overwritten = (Objects.store_entity codec cloud with_tree).1

history_immutable_example : Preserves codec with_entity overwritten
history_immutable_example =
    history_immutable codec
      (next (next here (Steps.tree new_tree with_entity)) (Steps.entity cloud with_tree))

stored_under_hash_example :
    ((t : Tree)
      → Objects.get_tree codec (codes "#") with_tree ≡ some t
      → components (codes "#") ≡ components (hash_tree codec t))
    × ((e : Entity)
        → Objects.get_entity codec (codes "#") with_tree ≡ some e
        → components (codes "#") ≡ components (hash_entity codec e))
    × ((c : Commit)
        → Objects.get_commit codec (codes "#") with_tree ≡ some c
        → components (codes "#") ≡ components (hash_commit codec c))
stored_under_hash_example =
    stored_under_hash codec with_tree (codes "#")
      (next (next here (Steps.entity cloud empty_disk)) (Steps.tree new_tree with_entity))

store_tree_transient-reads_example :
    let d' = (Transient.store_tree_transient new_tree (codes "ws/a/") with_tree).1 in
    (Transient.get_tree_transient codec (codes "ws/a") d' ≡ (
      if same_file (codes "ws/a/") (codes "ws/a")
      then some new_tree
      else Transient.get_tree_transient codec (codes "ws/a") with_tree))
    × (Transient.get_entity_transient codec (codes "ws/a") d' ≡ (
        if same_file (codes "ws/a/") (Transient.without_slash (codes "ws/a"))
        then none
        else Transient.get_entity_transient codec (codes "ws/a") with_tree))
    × (Transient.get_workspace_commit codec (codes "ws/a") d' ≡ (
        if same_file (codes "ws/a/") (codes "ws/a")
        then none
        else Transient.get_workspace_commit codec (codes "ws/a") with_tree))
store_tree_transient-reads_example =
    store_tree_transient-reads codec new_tree (codes "ws/a/") (codes "ws/a") with_tree

store_entity_transient-reads_example :
    let d' = (Transient.store_entity_transient cloud (codes "ws/a") with_tree).1 in
    (Transient.get_tree_transient codec (codes "ws/a/") d' ≡ (
      if same_file (codes "ws/a") (codes "ws/a/")
      then none
      else Transient.get_tree_transient codec (codes "ws/a/") with_tree))
    × (Transient.get_entity_transient codec (codes "ws/a/") d' ≡ (
        if same_file (codes "ws/a") (Transient.without_slash (codes "ws/a/"))
        then some cloud
        else Transient.get_entity_transient codec (codes "ws/a/") with_tree))
    × (Transient.get_workspace_commit codec (codes "ws/a/") d' ≡ (
        if same_file (codes "ws/a") (codes "ws/a/")
        then none
        else Transient.get_workspace_commit codec (codes "ws/a/") with_tree))
store_entity_transient-reads_example =
    store_entity_transient-reads codec cloud (codes "ws/a") (codes "ws/a/") with_tree

abbrev with_data : Disk
with_data = update with_entity (data_path (codes "ws/a")) (some (raw (codes "data")))

with_data_lem : with_data (data_path (codes "ws/a")) ≡ some (raw (codes "data"))
with_data_lem = rw (path_eq_refl (data_path (codes "ws/a")))

persist_transient_entitydata-moves_example :
    Transient.persist_transient_entitydata codec 5 (119 ∷ codes "s/a") with_data
    ≡ returned (
      (Status.ok, hash_string codec (codes "data")),
      update
          (update with_data (data_path (119 ∷ codes "s/a")) none)
          (object_path Prefix.entities_data (hash_string codec (codes "data")))
          (some (raw (codes "data"))),
    )
persist_transient_entitydata-moves_example =
    persist_transient_entitydata-moves codec 5 119 (codes "s/a") (raw (codes "data")) with_data
      with_data_lem (omega arith) (omega arith)

abbrev without_data : Disk
without_data = update with_entity (data_path (codes "ws/a")) (some (raw []))

without_data_lem : without_data (data_path (codes "ws/a")) ≡ some (raw [])
without_data_lem = rw (path_eq_refl (data_path (codes "ws/a")))

persist_transient_entitydata-empty_example :
    Transient.persist_transient_entitydata codec 5 (119 ∷ codes "s/a") without_data ≡ running
persist_transient_entitydata-empty_example =
    persist_transient_entitydata-empty codec 5 119 (codes "s/a") (raw []) without_data
      without_data_lem refl

write_stream-reads_example :
    let p = both (data_path (codes "ws/a")) in
    let d' = write_stream p 2 3 (codes "data") with_data in
    (start_read codec p 1 3 d' ≡ drop 1 (codes "data"))
    × (get_stream_size codec p d' ≡ 4)
    × (get_stream_size codec p (set_stream_size p 100 with_data) ≡ 0)
write_stream-reads_example =
    write_stream-reads codec (data_path (codes "ws/a")) 2 3 1 100 (codes "data") with_data

get_entitydata_for_read_write-keeps_example :
    let p = both (data_path (codes "ws/a")) in
    let q = object_path Prefix.trees (codes "1") in
    (write_stream p 0 0 (codes "x") filled.disk q ≡ filled.disk q)
    × (set_stream_size p 9 filled.disk q ≡ filled.disk q)
unfolding get_entitydata_for_read_write Transient.get_entity_transient store_entity path_eq
    objectid_to_workspace_fs_path components Steps.is_stored
get_entitydata_for_read_write-keeps_example =
    get_entitydata_for_read_write-keeps codec (codes "/a/") filled (both (data_path (codes "ws/a")))
      0 0 9 (codes "x") (object_path Prefix.trees (codes "1")) refl refl

get_entitydata_by_id-entity_example :
    let ge : GenericEntry = record { type = message_entity; content = of_entity cloud } in
    (Objects.get_entity codec (codes "#pc??w") with_entity ≡ some cloud)
    × (Option-map
          (λ p. start_read codec p 0 0 with_entity)
          (get_entitydata_by_id codec hand_over (codes "#pc??w") with_entity)
        ≡ some (codec.serialize_entry ge))
unfolding Objects.store_entity path_eq components hash_entity
get_entitydata_by_id-entity_example =
    get_entitydata_by_id-entity codec (codes "#pc??w") cloud 0 with_entity refl

abbrev readable : Provider
readable = record {
  filename_read = some (object_path Prefix.entities (codes "#pc??w"));
  filename_write = none;
}
