-- ===== src/Tests/ResponderFacts.antt =====
-- The theorems on a responder in the course of time, and on where a connection halts, at concrete inputs.
use mapit.Base.{true, ℕ, codes, [], ◌∷◌, none, some, ◌≡◌, refl}
use mapit.Serializer.Disk.{path_eq, objectid_to_workspace_fs_path}
use mapit.Serializer.Objects
use mapit.Serializer.Transient
use mapit.Paths.Canonical.{components}
use mapit.Outcome.{returned}
use mapit.Repository.{get_workspace, create_workspace}
use mapit.Workspace.{get_root, type_of_object, get_entity}
use mapit.Status
use mapit.Workspace.Delete.{store_entity}
use mapit.Network.Exec.{ok, err, zmq_error, deadlock}
use mapit.Serializer.History.{Preserves}
use mapit.Operators.{no_description}
use mapit.Network.Messages.{
  Kind, ask_operator_execution, ask_delete_entity, ask_hierarchy_plain, ask_list_workspaces,
}
use mapit.Network.Node.{Net, receive_and_dispatch}
use mapit.Network.Responder.{Listing, handle, list_entities}
use mapit.EntityData.History.{Kept-refl}
use mapit.Network.Responder.Rounds.{responder_keeps_history, started, arrived, dispatched}
use mapit.Network.Client.{ask}
use mapit.Network.Mailbox.{Mailbox, to_send, to_receive}
use mapit.Network.Link.Failures.{hierarchy_plain-silent, start_read_buffer-deadlock}
use mapit.Network.Requester.{Provider}
use mapit.Network.Server.{Server, Host}
use mapit.Network.Link.Steps.{to_link, to_server, server_with, client_with, idle, client_at}
use mapit.Network.StreamProvider
use mapit.HistorySearch.{depth_first_search_workspace}
use mapit.Tests.Data.{value_of, codec}
use mapit.Tests.Connections.{Part, up, works, wire, key, host, repository, opened}
use mapit.Tests.Connections.{opens}

-- An operator that does nothing, in every library.
abbrev with_operator : Host
with_operator = record host {
  dlopen = λ name. some (record {
    info = some (record { module_name = codes "idle"; operate = λ env. (Status.ok, env) });
    closes = true;
  });
}

abbrev ready : Server (Mailbox Part)
ready = server_with up (idle up to_receive) repository

-- It is asked to run the operator, and to delete an entity.
abbrev full : Mailbox Part
full = record (idle up to_receive) {
  waiting =
      (
        wire.serialize_header (key Kind.request_operator_execution),
        wire.serialize
              (ask_operator_execution (record { workspace = codes "ws"; param = no_description }))
            ∷ [],
      )
      ∷ (
        wire.serialize_header (key Kind.request_delete_entity),
        wire.serialize (ask_delete_entity (record { workspace = codes "ws"; path = codes "a" }))
            ∷ [],
      )
      ∷ [];
}

abbrev net : Net Part (Mailbox Part)
net = to_server up

abbrev busy : Server (Mailbox Part)
busy = record ready { node = record (ready.node) { socket = full } }

abbrev after_both : Server (Mailbox Part)
after_both =
    (receive_and_dispatch net (handle net with_operator)
      (receive_and_dispatch net (handle net with_operator) busy).1).1

responder_keeps_history_example : Preserves codec repository after_both.own
responder_keeps_history_example =
    responder_keeps_history net with_operator ready after_both
      (λ name env. Kept-refl env.workspace.disk) (dispatched (dispatched (arrived full started)))

abbrev listing : ℕ × Listing
listing = value_of (0, record { workspace = opened; entities = [] }) (list_entities host opened)

lists_a : list_entities host opened ≡ returned (listing.0, listing.1)
unfolding list_entities depth_first_search_workspace get_root store_entity
    Transient.get_tree_transient path_eq objectid_to_workspace_fs_path components create_workspace
    Transient.get_workspace_commit Objects.create_branch type_of_object
    Transient.type_of_object_transient get_entity Transient.get_entity_transient
lists_a = refl

hierarchy_plain-silent_example :
    let s = server_with up (record (idle up to_send) { waiting = [] }) repository in
    (handle net host (ask_hierarchy_plain (codes "ws")) s ≡ (ok tt, s))
    × (receive_and_dispatch net (handle net host) s ≡ (err zmq_error, s))
hierarchy_plain-silent_example =
    hierarchy_plain-silent up (codes "ws") opened (listing.0, listing.1) repository [] opens lists_a

abbrev missing : Provider
missing = record { workspace_name = codes "none"; path_or_oid = codes "a"; entity_length = 0 }

no_workspace : get_workspace codec (codes "none") repository ≡ none
unfolding get_workspace Transient.get_workspace_commit path_eq objectid_to_workspace_fs_path
    components store_entity create_workspace Objects.create_branch
no_workspace = refl

start_read_buffer-deadlock_example :
    let s = client_with up (idle up to_send) true repository in
    (StreamProvider.start_read_buffer (to_link up) 0 0 missing (client_at up repository)
      ≡ (ok (none, missing), s))
    × (ask (to_link up) ask_list_workspaces Kind.reply_list_workspaces s ≡ (err deadlock, s))
start_read_buffer-deadlock_example =
    start_read_buffer-deadlock up works missing 0 0 ask_list_workspaces Kind.reply_list_workspaces
      repository no_workspace
