-- ===== src/Network/Requester.antt =====
-- ZmqRequester and ZmqRequesterWorkspace (libs/networking_node/src/zmqrequester.cpp and
-- zmqrequesterworkspace.cpp): a repository on another machine, and a workspace in it.
use mapit.Base.{
  Str, codes, ℕ, List, [], ◌∷◌, ◌++◌, Option, none, some, Bool, true, false, if◌then◌else◌,
}
use mapit.Messages.{Tree, Entity, Content, of_tree, of_entity}
use mapit.Operators.{OperationDescription, Library, do_operation, no_description}
use mapit.Status
use mapit.Network.Exec.{ok, Exec, crash, pure, raise, try_catch, is_zmq, is_runtime, ◌>>=◌, ◌>>◌}
use mapit.Network.Messages.{
  WorkspaceStatus, DoneStatus, Kind, Msg, ask_workspace, ask_list_workspaces,
  ask_operator_execution, ask_generic_entry, ask_store_entity, ask_delete_entity, ask_delete_tree,
  say_workspace, say_list_workspaces, say_operator_execution, say_generic_entry, say_store_entity,
  say_delete_entity, say_delete_tree,
}
use mapit.Network.Node.{Net}
use mapit.Network.Client.{Client, unlock, ask}

-- The name of a workspace, and whether operators run on this machine. The cache is never set.
pub record RequesterWorkspace : Type 0 where
  pub workspace_name : Str
  pub operations_local : Bool

-- Entity data that is read and written over the network.
pub record Provider : Type 0 where
  pub workspace_name : Str
  pub path_or_oid : Str
  pub entity_length : ℕ

pub data ObjectType : Type 0 where
  tree entity entitydata empty : ObjectType

abbrev pub is_usable : WorkspaceStatus → Bool
is_usable WorkspaceStatus.error = false
is_usable _ = true

abbrev pub released_tree : Content → Option Tree
released_tree (of_tree t) = some t
released_tree _ = none

abbrev pub released_entity : Content → Option Entity
released_entity (of_entity e) = some e
released_entity _ = none

abbrev pub done_status : DoneStatus → ℕ
done_status DoneStatus.success = Status.ok
done_status DoneStatus.error = Status.error

-- `ret.resize(n)` before the names are pushed.
abbrev pub resized : List Str → List Str
resized [] = []
resized (x ∷ xs) = [] ∷ resized xs

module _ {F S : Type 0} (net : Net F S) where
  abbrev pub names : Option Msg → Exec (Client S) (List Str)
  names none = pure []
  names (some (say_list_workspaces workspaces)) = pure (resized workspaces ++ workspaces)
  names (some rep) = raise crash

  unfoldable pub list_workspace_names : Exec (Client S) (List Str)
  unfolding ask
  list_workspace_names =
      try_catch (ask net ask_list_workspaces Kind.reply_list_workspaces >>= names) is_zmq
        (unlock >> pure [])

  abbrev pub opened : RequesterWorkspace → Option Msg → Exec (Client S) (Option RequesterWorkspace)
  opened w none = pure none
  opened w (some (say_workspace rep)) = pure (if is_usable rep.status then some w else none)
  opened w (some rep) = raise crash

  unfoldable pub create_workspace : Bool → Str → Str → Exec (Client S) (Option RequesterWorkspace)
  unfolding ask
  create_workspace operations_local commit_id_or_branchname name =
      let req = ask_workspace (record {
        workspace = name;
        commit = commit_id_or_branchname ∷ [];
        createifnotexists = true;
      }) in
      let w : RequesterWorkspace = record {
        workspace_name = name;
        operations_local = operations_local;
      } in
      try_catch (ask net req Kind.reply_workspace >>= opened w) is_zmq (unlock >> pure none)

  -- `getWorkspace` asks for nothing.
  abbrev pub get_workspace : Bool → Str → RequesterWorkspace
  get_workspace operations_local name = record {
    workspace_name = name;
    operations_local = operations_local;
  }

  -- What no message is defined for fails an assertion.
  abbrev pub no_message : {A : Type 0} → Exec (Client S) A
  no_message = raise crash

  abbrev pub not_implemented : {A : Type 0} → Exec (Client S) A
  not_implemented = raise crash

  -- `catch (std::runtime_error)`, which unlocks.
  abbrev pub catch_runtime : {A : Type 0} → Exec (Client S) A → A → Exec (Client S) A
  catch_runtime m a = try_catch m is_runtime (unlock >> pure a)

  abbrev pub entry_request : RequesterWorkspace → Str → Msg
  entry_request w path = ask_generic_entry (record { workspace = w.workspace_name; path = path })

  -- `rep->mutable_entry()`; the status is not looked at.
  abbrev pub entry_in :
      {A : Type 0} → (Content → Option A) → Option Msg → Exec (Client S) (Option A)
  entry_in release none = raise crash
  entry_in release (some (say_generic_entry rep)) = pure (release rep.entry)
  entry_in release (some rep) = raise crash

  unfoldable pub get_tree : RequesterWorkspace → Str → Exec (Client S) (Option Tree)
  unfolding ask
  get_tree w path =
      try_catch
        (catch_runtime
          (ask net (entry_request w path) Kind.reply_generic_entry >>= entry_in released_tree) none)
        is_zmq (unlock >> pure none)

  unfoldable pub get_root : RequesterWorkspace → Exec (Client S) (Option Tree)
  unfolding get_tree
  get_root w = get_tree w (codes "/")

  unfoldable pub get_entity : RequesterWorkspace → Str → Exec (Client S) (Option Entity)
  unfolding ask
  get_entity w path =
      catch_runtime
        (ask net (entry_request w path) Kind.reply_generic_entry >>= entry_in released_entity) none

  -- The libraries of layer types.
  module _ (loads : Str → Bool) where
    abbrev pub provided : RequesterWorkspace → Str → Option Entity → Option Provider
    provided w path none = none
    provided w path (some e) =
        if loads e.type
        then some
            (record { workspace_name = w.workspace_name; path_or_oid = path; entity_length = 0 })
        else none

    -- `getEntitydataReadOnly` and `getEntitydataForReadWrite`
    unfoldable pub get_entitydata : RequesterWorkspace → Str → Exec (Client S) (Option Provider)
    unfolding get_entity
    get_entitydata w path = do e ← get_entity w path; pure (provided w path e)

    abbrev pub or_else :
        {A : Type 0}
        → Option A
        → ObjectType
        → Exec (Client S) ObjectType
        → Exec (Client S) ObjectType
    or_else (some a) type rest = pure type
    or_else none type rest = rest

    unfoldable pub type_of_object : RequesterWorkspace → Str → Exec (Client S) ObjectType
    unfolding get_tree get_entity get_entitydata
    type_of_object w path = get_tree w path >>= λ t. or_else t tree (
        get_entity w path >>= λ e.
        or_else e entity (get_entitydata w path >>= λ ed. or_else ed entitydata (pure empty)))

  abbrev pub executed : Option Msg → Exec (Client S) (ℕ × OperationDescription)
  executed (some (say_operator_execution rep)) = pure (rep.status_code, rep.result)
  executed _ = raise crash

  -- On this machine, or on the other one.
  unfoldable pub do_operation_in :
      Str
      → Str
      → (Str → Option (Library (Client S)))
      → RequesterWorkspace
      → OperationDescription
      → Exec (Client S) (ℕ × OperationDescription)
  unfolding ask do_operation
  do_operation_in install_operators debug dlopen w desc s =
      let local = do_operation install_operators debug dlopen desc s in
      let req = ask_operator_execution (record { workspace = w.workspace_name; param = desc }) in
      if w.operations_local
      then (ok local.0, local.1)
      else catch_runtime (ask net req Kind.reply_operator_execution >>= executed)
          (Status.error, no_description) s

  abbrev pub store_tree : RequesterWorkspace → Str → Option Tree → Exec (Client S) ℕ
  store_tree w path t = pure Status.not_yet_implemented

  abbrev pub store_done : Option Msg → Exec (Client S) ℕ
  store_done (some (say_store_entity status)) = pure (done_status status)
  store_done _ = raise crash

  unfoldable pub store_entity : RequesterWorkspace → Str → Entity → Exec (Client S) ℕ
  unfolding ask
  store_entity w path e =
      let req = ask_store_entity (record {
        workspace = w.workspace_name;
        path = path;
        type = e.type;
        offset = 0;
        sendlength = 0;
        entitylength = 0;
      }) in
      catch_runtime (ask net req Kind.reply_store_entity >>= store_done) Status.error

  abbrev pub tree_done : Option Msg → Exec (Client S) ℕ
  tree_done (some (say_delete_tree status)) = pure (done_status status)
  tree_done _ = raise crash

  abbrev pub entity_done : Option Msg → Exec (Client S) ℕ
  entity_done (some (say_delete_entity status)) = pure (done_status status)
  entity_done _ = raise crash

  -- Nothing is caught here.
  unfoldable pub delete_tree : RequesterWorkspace → Str → Exec (Client S) ℕ
  unfolding ask
  delete_tree w path =
      let req = ask_delete_tree (record { workspace = w.workspace_name; path = path }) in
      ask net req Kind.reply_delete_tree >>= tree_done

  unfoldable pub delete_entity : RequesterWorkspace → Str → Exec (Client S) ℕ
  unfolding ask
  delete_entity w path =
      let req = ask_delete_entity (record { workspace = w.workspace_name; path = path }) in
      ask net req Kind.reply_delete_entity >>= entity_done
