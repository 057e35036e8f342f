-- ===== src/Tests/NetworkFacts.antt =====
-- The theorems on a requester that is connected to a responder at concrete inputs.
use mapit.Base.{ℕ, false, codes, [], ◌∷◌, none, some, ◌≡◌, refl, arith}
use mapit.Serializer.Disk.{raw, path_eq, objectid_to_workspace_fs_path}
use mapit.Serializer.Objects
use mapit.Serializer.Transient
use mapit.Serializer.Listing
use mapit.Paths.Canonical.{components}
use mapit.Outcome.{returned}
use mapit.Repository.{get_workspace, create_workspace}
use mapit.Workspace.{Workspace, get_entity}
use mapit.Status
use mapit.Network.Responder.Store.{or_new}
use mapit.Workspace.Delete.{store_entity, delete_entity, delete_tree}
use mapit.EntityData
use mapit.EntityData.{get_entitydata_read_only, get_entitydata_for_read_write}
use mapit.Network.Exec.{ok}
use mapit.Network.Requester.{RequesterWorkspace, Provider}
use mapit.Network.Requester
use mapit.Network.Server.{wrap}
use mapit.Network.Link.Steps.{to_link, client_at}
use mapit.Network.StreamProvider
use mapit.Network.Link.Steps.{IsWorking}
use mapit.Network.Link.Changes.{
  list_workspace_names-remote, store_entity-remote, delete_entity-delete_tree-remote, remote_status,
}
use mapit.Network.Link.Remote.{get_entity-get_tree-remote, tree_in, entity_in}
use mapit.Network.Link.Reading.{start_read_buffer-remote}
use mapit.Network.Link.Writing.{write_stream-remote}
use mapit.Network.Link.Registration.{connected-IsWorking}
use mapit.Tests.Data.{codec, cloud}
use mapit.Tests.Connections.{
  opens, up, works, wire, key, wire-IsWire, host, repository, opened, data_file, left,
}

reads :
    get_entitydata_read_only codec (wrap host) (codes "a") opened
    ≡ some (record { filename_read = some data_file; filename_write = none })
unfolding get_entitydata_read_only Transient.get_entity_transient path_eq
    objectid_to_workspace_fs_path components store_entity create_workspace
    Transient.get_workspace_commit Objects.create_branch
reads = refl

file_there : repository data_file ≡ some (raw (codes "hello"))
unfolding path_eq objectid_to_workspace_fs_path components
file_there = refl

abbrev provider : Provider
provider = record { workspace_name = codes "ws"; path_or_oid = codes "a"; entity_length = 0 }

abbrev client : RequesterWorkspace
client = record { workspace_name = codes "ws"; operations_local = false }

abbrev stored_b : ℕ × Workspace
stored_b = left (
    store_entity codec (codes "b")
      (record (or_new (get_entity codec (codes "b") opened)) { type = codes "pc" }) opened)

abbrev stored_a : ℕ × Workspace
stored_a = left (store_entity codec (codes "a") cloud opened)

abbrev deleted_entity : ℕ × Workspace
deleted_entity = left (delete_entity codec (codes "a") opened)

abbrev deleted_tree : ℕ × Workspace
deleted_tree = left (delete_tree codec 5 (codes "a") opened)

abbrev writer : EntityData.Provider
writer = record { filename_read = some data_file; filename_write = some data_file }

stores_b :
    store_entity codec
      (codes "b")
      (record (or_new (get_entity codec (codes "b") opened)) { type = codes "pc" })
      opened
    ≡ returned (stored_b.0, stored_b.1)
unfolding store_entity Transient.get_tree_transient path_eq objectid_to_workspace_fs_path components
    create_workspace Transient.get_workspace_commit Objects.create_branch
stores_b = refl

stores_a : store_entity codec (codes "a") cloud opened ≡ returned (Status.ok, stored_a.1)
unfolding store_entity Transient.get_tree_transient path_eq objectid_to_workspace_fs_path components
    create_workspace Transient.get_workspace_commit Objects.create_branch
stores_a = refl

deletes_entity :
    delete_entity codec (codes "a") opened ≡ returned (deleted_entity.0, deleted_entity.1)
unfolding delete_entity store_entity Transient.get_tree_transient path_eq
    objectid_to_workspace_fs_path components create_workspace Transient.get_workspace_commit
    Objects.create_branch
deletes_entity = refl

deletes_tree : delete_tree codec 5 (codes "a") opened ≡ returned (deleted_tree.0, deleted_tree.1)
unfolding delete_tree store_entity Transient.get_tree_transient path_eq
    objectid_to_workspace_fs_path components create_workspace Transient.get_workspace_commit
    Objects.create_branch
deletes_tree = refl

has_a : get_entity codec (codes "a") opened ≡ some cloud
unfolding get_entity Transient.get_entity_transient path_eq objectid_to_workspace_fs_path
    store_entity components create_workspace Transient.get_workspace_commit Objects.create_branch
has_a = refl

writes : get_entitydata_for_read_write codec (wrap host) (codes "a") stored_a.1 ≡ some writer
unfolding get_entitydata_for_read_write Transient.get_entity_transient store_entity
    Transient.get_tree_transient path_eq objectid_to_workspace_fs_path components create_workspace
    Transient.get_workspace_commit Objects.create_branch
writes = refl

connected-IsWorking_example : IsWorking up
connected-IsWorking_example =
    connected-IsWorking wire key 9 host 80 (codes "tcp://localhost:80") wire-IsWire

get_entity-get_tree-remote_example :
    (Requester.get_tree (to_link up) client (codes "a") (client_at up repository) ≡ (
      ok (tree_in codec (codes "a") (get_workspace codec (codes "ws") repository)),
      client_at up repository,
    ))
    × (Requester.get_entity (to_link up) client (codes "a") (client_at up repository) ≡ (
      ok (entity_in codec (codes "a") (get_workspace codec (codes "ws") repository)),
      client_at up repository,
    ))
get_entity-get_tree-remote_example = get_entity-get_tree-remote up works client 97 [] repository

store_entity-remote_example :
    Requester.store_entity (to_link up) client (codes "b") cloud (client_at up repository)
    ≡ (ok (remote_status stored_b.0), client_at up stored_b.1.disk)
store_entity-remote_example =
    store_entity-remote up works client (codes "b") cloud opened stored_b.1 stored_b.0 repository
      opens refl stores_b

delete_entity-delete_tree-remote_example :
    (Requester.delete_entity (to_link up) client (codes "a") (client_at up repository)
      ≡ (ok (remote_status deleted_entity.0), client_at up deleted_entity.1.disk))
    × (Requester.delete_tree (to_link up) client (codes "a") (client_at up repository)
        ≡ (ok (remote_status deleted_tree.0), client_at up deleted_tree.1.disk))
delete_entity-delete_tree-remote_example =
    delete_entity-delete_tree-remote up works client (codes "a") opened deleted_entity.1
      deleted_tree.1 deleted_entity.0 deleted_tree.0 repository opens deletes_entity deletes_tree

list_workspace_names-remote_example :
    Requester.list_workspace_names (to_link up) (client_at up repository)
    ≡ (ok ([] ∷ codes "ws" ∷ []), client_at up repository)
unfolding Listing.list_workspace_names Listing.directories_of
list_workspace_names-remote_example = list_workspace_names-remote up works repository

start_read_buffer-remote_example :
    StreamProvider.start_read_buffer (to_link up) 1 2 provider (client_at up repository) ≡ (
      ok (
        some (record { received = codes "ello"; size = 4 }),
        record provider { entity_length = 5 },
      ),
      client_at up repository,
    )
start_read_buffer-remote_example =
    start_read_buffer-remote up works provider 1 2 opened
      (record { filename_read = some data_file; filename_write = none }) data_file
      (raw (codes "hello")) repository opens reads refl file_there (omega arith) (omega arith)
      (omega arith)

write_stream-remote_example :
    StreamProvider.write_stream (to_link up) 0 0 (codes "hi") provider (client_at up repository) ≡ (
      ok (record provider { entity_length = 2 }),
      client_at up (EntityData.write_stream writer 0 2 (codes "hi") stored_a.1.disk),
    )
write_stream-remote_example =
    write_stream-remote up works provider 0 (codes "hi") opened stored_a.1 cloud writer repository
      opens has_a refl stores_a writes (omega arith) (omega arith)
