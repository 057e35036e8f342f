-- ===== src/Network/Responder.antt =====
-- ZmqResponderPrivate (libs/networking_node/src/zmqresponder_p.cpp): the requests that a repository answers.
pub mod Data
pub mod Store
pub mod History
pub mod Safety
pub mod Rounds
use mapit.Base.{
  Str, codes, ℕ, zero, suc, List, [], ◌∷◌, ◌++◌, Option, none, some, Bool, true, false,
  if◌then◌else◌,
}
use mapit.Messages.{
  ObjectReference, Tree, Entity, Content, MessageType, Codec, message_tree, message_entity, nothing,
  of_tree, of_entity,
}
use mapit.Search.{Visitor, Source, all}
use mapit.HistorySearch.{depth_first_search_workspace}
use mapit.Serializer.Disk.{Disk}
use mapit.Serializer.Listing.{list_workspace_names}
use mapit.Workspace.{
  Workspace, get_root, get_tree, get_entity, type_of_object, get_parent_commit_ids,
}
use mapit.Workspace.Delete.{delete_entity, delete_tree}
use mapit.Repository.{get_workspace, create_workspace}
use mapit.Operators.{Library, do_operation, no_description}
use mapit.EntityData.{Provider}
use mapit.Time.{decimal}
use mapit.Outcome.{Outcome}
use mapit.Status
use mapit.Network.Exec.{
  ok, Exec, crash, pure, raise, from_outcome, try_catch, is_exception, ◌>>=◌, ◌>>◌,
}
use mapit.Network.Messages
use mapit.Network.Messages.{
  RequestWorkspace, ReplyWorkspace, RequestOperatorExecution, ReplyOperatorExecution, RequestPath,
  ReplyGenericEntry, ReplyHierarchyPlain, WorkspaceStatus, DoneStatus, EntryStatus, Kind, Msg,
  ask_workspace, ask_entitydata, ask_hierarchy, ask_hierarchy_plain, ask_list_workspaces,
  ask_operator_execution, ask_generic_entry, ask_store_entity, ask_delete_entity, ask_delete_tree,
  say_workspace, say_hierarchy, say_hierarchy_plain, say_list_workspaces, say_operator_execution,
  say_generic_entry, say_delete_entity, say_delete_tree,
}
use mapit.Network.Node.{Net, Node, Peer, on_node, new_node, send, discard_more, add_handled, bind}
use mapit.Network.Server.{Server, Host, reply, gets_disk, with_disk, put_disk, saved, refuse}
use mapit.Network.Responder.Data.{handle_request_entitydata}
use mapit.Network.Responder.Store.{handle_request_store_entity}

-- What `depthFirstSearch` collects.
pub record Listing : Type 0 where
  pub workspace : Workspace
  pub entities : List Str

abbrev pub created : List Str → Option Workspace → ReplyWorkspace
created commit none = record { status = WorkspaceStatus.error; commit = [] }
created commit (some w) = record { status = WorkspaceStatus.success; commit = commit }

-- `rep->add_entities(path)`
abbrev pub collector : Visitor Listing
collector = record {
  before_tree = all;
  after_tree = all;
  before_entity = λ e ref path l. (true, record l { entities = l.entities ++ path ∷ [] });
  after_entity = all;
}

-- The operator's output is not put into the reply.
abbrev pub executed : ℕ → Str → ReplyOperatorExecution
executed status error_msg = record {
  status_code = status;
  error_msg = error_msg;
  result = no_description;
}

abbrev pub done : ℕ → DoneStatus
done status = if Status.is_ok status then DoneStatus.success else DoneStatus.error

abbrev pub found {ℓ} : {A : Type ℓ} → (A → Content) → Option A → ReplyGenericEntry
found of none = record { status = some EntryStatus.not_found; entry = nothing }
found of (some a) = record { status = some EntryStatus.success; entry = of a }

abbrev pub receivable : List Kind
receivable =
    Kind.request_workspace ∷ Kind.request_entitydata ∷ Kind.request_hierarchy
    ∷ Kind.request_hierarchy_plain ∷ Kind.request_list_workspaces ∷ Kind.request_operator_execution
    ∷ Kind.request_generic_entry ∷ Kind.request_store_entity ∷ Kind.request_delete_entity
    ∷ Kind.request_delete_tree ∷ []

module _ (host : Host) where
  abbrev pub listing_source : Source Listing
  listing_source = record {
    type_of_object = λ key l. type_of_object host.codec key l.workspace;
    get_tree = λ key l. get_tree host.codec key l.workspace;
    get_entity = λ key l. get_entity host.codec key l.workspace;
  }

  unfoldable pub list_entities : Workspace → Outcome (ℕ × Listing)
  list_entities w =
      depth_first_search_workspace collector listing_source (λ l. get_root host.codec l.workspace)
        host.fuel [] (record { workspace = w; entities = [] })

  -- An object that is neither a tree nor an entity leaves the reply as it was made.
  unfoldable pub entry_of : MessageType → Str → Workspace → ReplyGenericEntry
  entry_of message_tree path w = found of_tree (get_tree host.codec path w)
  entry_of message_entity path w = found of_entity (get_entity host.codec path w)
  entry_of _ path w = record { status = none; entry = nothing }

abbrev pub first_commit : List Str → Str
first_commit [] = []
first_commit (c ∷ cs) = c

module _ {F S : Type 0} (net : Net F S) (host : Host) where
  unfoldable pub answer_workspace : Option Workspace → RequestWorkspace → Exec (Server S) (Unit {0})
  answer_workspace (some w) msg = reply net (
      say_workspace (record { status = WorkspaceStatus.existed; commit = get_parent_commit_ids w }))
  answer_workspace none msg =
      if msg.createifnotexists
      then (with_disk (create_workspace host.codec (first_commit msg.commit) msg.workspace) >>= λ w.
          reply net (say_workspace (created msg.commit w)))
      else reply net (say_workspace (record { status = WorkspaceStatus.success; commit = [] }))

  unfoldable pub handle_request_workspace : RequestWorkspace → Exec (Server S) (Unit {0})
  unfolding answer_workspace
  handle_request_workspace msg = do
    workspace ← gets_disk (get_workspace host.codec msg.workspace)
    answer_workspace workspace msg

  unfoldable pub handle_request_hierarchy : Exec (Server S) (Unit {0})
  handle_request_hierarchy = reply net say_hierarchy

  -- Where the workspace is found, the entities are collected and nothing is sent.
  unfoldable pub answer_hierarchy_plain : Option Workspace → Exec (Server S) (Unit {0})
  answer_hierarchy_plain none =
      reply net (say_hierarchy_plain (record { workspace_not_found = true; entities = [] }))
  answer_hierarchy_plain (some w) = from_outcome (list_entities host w) >>= λ r. pure tt

  unfoldable pub handle_request_hierarchy_plain : Str → Exec (Server S) (Unit {0})
  unfolding answer_hierarchy_plain
  handle_request_hierarchy_plain name = do
    workspace ← gets_disk (get_workspace host.codec name)
    answer_hierarchy_plain workspace

  unfoldable pub handle_request_list_workspaces : Exec (Server S) (Unit {0})
  handle_request_list_workspaces = do
    names ← gets_disk (λ d. list_workspace_names (host.directories d))
    reply net (say_list_workspaces names)

  unfoldable pub answer_operator :
      Option Workspace → RequestOperatorExecution → Exec (Server S) (Unit {0})
  answer_operator none msg =
      reply net
        (say_operator_execution (executed Status.db_not_found (codes "Workspace does not exist")))
  answer_operator (some w) msg =
      let ((status, out), w') =
        do_operation host.install_operators host.debug host.dlopen msg.param w in
      put_disk w'.disk >> reply net (say_operator_execution (executed status []))

  unfoldable pub handle_request_operator_execution :
      RequestOperatorExecution → Exec (Server S) (Unit {0})
  unfolding answer_operator
  handle_request_operator_execution msg = do
    workspace ← gets_disk (get_workspace host.codec msg.workspace)
    answer_operator workspace msg

  unfoldable pub answer_delete :
      (Str → Workspace → Outcome (ℕ × Workspace))
      → (DoneStatus → Msg)
      → Option Workspace
      → Str
      → Exec (Server S) (Unit {0})
  answer_delete delete say none path = refuse net (say DoneStatus.error)
  answer_delete delete say (some w) path = do
    result ← from_outcome (delete path w)
    status ← saved result
    reply net (say (done status))

  unfoldable pub handle_request_delete_entity : RequestPath → Exec (Server S) (Unit {0})
  unfolding answer_delete
  handle_request_delete_entity msg = do
    workspace ← gets_disk (get_workspace host.codec msg.workspace)
    answer_delete (delete_entity host.codec) say_delete_entity workspace msg.path

  unfoldable pub handle_request_delete_tree : RequestPath → Exec (Server S) (Unit {0})
  unfolding answer_delete
  handle_request_delete_tree msg = do
    workspace ← gets_disk (get_workspace host.codec msg.workspace)
    answer_delete (delete_tree host.codec host.fuel) say_delete_tree workspace msg.path

  -- `Replier::send`; where it throws, the destructor fails its assertion.
  unfoldable pub send_by_replier : Msg → Exec (Server S) (Unit {0})
  send_by_replier msg = try_catch (reply net msg) is_exception (raise crash)

  -- `typeOfObject` asserts that the path is not empty.
  unfoldable pub answer_generic_entry : Option Workspace → Str → Exec (Server S) (Unit {0})
  unfolding entry_of send_by_replier
  answer_generic_entry none path =
      send_by_replier
        (say_generic_entry (record { status = some EntryStatus.not_found; entry = nothing }))
  answer_generic_entry (some w) [] = raise crash
  answer_generic_entry (some w) (c ∷ path) =
      let entry = entry_of host (type_of_object host.codec (c ∷ path) w) (c ∷ path) w in
      send_by_replier (say_generic_entry entry)

  unfoldable pub handle_request_generic_entry : RequestPath → Exec (Server S) (Unit {0})
  unfolding answer_generic_entry
  handle_request_generic_entry msg = do
    workspace ← gets_disk (get_workspace host.codec msg.workspace)
    answer_generic_entry workspace msg.path

  -- The handler that is registered for the type of a message. Replies have none.
  unfoldable pub handle : Msg → Exec (Server S) (Unit {0})
  unfolding handle_request_workspace handle_request_entitydata handle_request_hierarchy
      handle_request_hierarchy_plain handle_request_list_workspaces
      handle_request_operator_execution handle_request_generic_entry handle_request_store_entity
      handle_request_delete_entity handle_request_delete_tree
  handle (ask_workspace msg) = handle_request_workspace msg
  handle (ask_entitydata msg) = handle_request_entitydata net host msg
  handle ask_hierarchy = handle_request_hierarchy
  handle (ask_hierarchy_plain name) = handle_request_hierarchy_plain name
  handle ask_list_workspaces = handle_request_list_workspaces
  handle (ask_operator_execution msg) = handle_request_operator_execution msg
  handle (ask_generic_entry msg) = handle_request_generic_entry msg
  handle (ask_store_entity msg) = handle_request_store_entity net host msg
  handle (ask_delete_entity msg) = handle_request_delete_entity msg
  handle (ask_delete_tree msg) = handle_request_delete_tree msg
  handle _ = raise crash

  unfoldable pub register : List Kind → Exec (Node S) (Unit {0})
  unfolding add_handled
  register [] = pure tt
  register (kind ∷ kinds) = add_handled net kind >> register kinds

  -- The constructor.
  unfoldable pub new_responder : ℕ → Exec (Node S) (Unit {0})
  unfolding register bind
  new_responder port = register receivable >> bind net (codes "tcp://*:" ++ decimal (suc port) port)
