-- ===== src/Network/Responder/Safety.antt =====
-- Whatever a responder (libs/networking_node) is sent, it keeps the history.
use mapit.Base.{Str, codes, ◌++◌, ℕ, [], ◌∷◌, Option, none, some, subst}
use mapit.Messages.{nothing}
use mapit.Serializer.Steps.{here}
use mapit.Serializer.History.{Kept}
use mapit.Workspace.{Workspace, type_of_object}
use mapit.Workspace.Delete
use mapit.Workspace.Operations.{delete_entity-Moved, delete_tree-Moved}
use mapit.Repository.{create_workspace}
use mapit.Status
use mapit.Operators.{
  no_description, new_environment, OperationDescription, OperatorDescription, Environment,
  ModuleInfo, Library, operator_library_name, load_operator_module, run_library, run_module,
  do_operation,
}
use mapit.Outcome.{Outcome, returned, thrown, running, Ends}
use mapit.Network.Exec.{err, Exec, pure, raise, crash, is_exception, ◌>>=◌}
use mapit.Network.Messages.{
  RequestWorkspace, RequestOperatorExecution, RequestPath, Msg, WorkspaceStatus, DoneStatus,
  EntryStatus, say_workspace, say_delete_entity, say_delete_tree, say_generic_entry, ask_workspace,
  ask_entitydata, ask_hierarchy, ask_hierarchy_plain, ask_list_workspaces, ask_operator_execution,
  ask_generic_entry, ask_store_entity, ask_delete_entity, ask_delete_tree, say_entitydata,
  say_hierarchy, say_hierarchy_plain, say_list_workspaces, say_operator_execution, say_store_entity,
  say_store_tree,
}
use mapit.Network.Node.{Net}
use mapit.Network.Server.{Server, Host, reply, with_disk, saved}
use mapit.Network.Responder.{
  entry_of, created, first_commit, done, answer_workspace, handle_request_workspace, list_entities,
  answer_hierarchy_plain, handle_request_hierarchy, handle_request_hierarchy_plain,
  handle_request_list_workspaces, answer_operator, handle_request_operator_execution, answer_delete,
  handle_request_delete_entity, handle_request_delete_tree, send_by_replier, answer_generic_entry,
  handle_request_generic_entry, handle,
}
use mapit.Network.Responder.Data.Safety.{entitydata-Safe}
use mapit.EntityData.History.{Kept-refl, KeptFrom, moved-Kept}
use mapit.Network.Responder.Store.Safety.{store_entity-Safe}
use mapit.Network.Responder.History.{
  Safe, SafeAt, outcome-Safe, catch-Safe, pure-Safe, with_disk-SafeAt, if-SafeAt, reply-Safe,
  refuse-Safe, saved-Safe, IsAt, found-Safe, create_workspace-Kept,
}

-- The modules of the operators, as the libraries hold them, keep the history of the workspace they run on.
abbrev pub ModuleKeeps : Option (ModuleInfo Workspace) → Type 0
ModuleKeeps none = Unit
ModuleKeeps (some info) =
    (env : Environment Workspace) → Kept env.workspace.disk (info.operate env).1.workspace.disk

abbrev pub LibraryKeeps : Option (Library Workspace) → Type 0
LibraryKeeps none = Unit
LibraryKeeps (some lib) = ModuleKeeps lib.info

abbrev pub OperatorsKeep : Host → Type 0
OperatorsKeep host = (name : Str) → LibraryKeeps (host.dlopen name)

module _ (host : Host) (operators : OperatorsKeep host) where
  load-Keeps :
      (desc : OperatorDescription)
      → LibraryKeeps (load_operator_module host.install_operators host.debug host.dlopen desc)
  unfolding load_operator_module
  load-Keeps desc =
      let filenam = operator_library_name host.install_operators host.debug desc in
      first filenam (host.dlopen (codes "./libs/" ++ filenam))
        (operators (codes "./libs/" ++ filenam))
    where
      first :
          (filenam : Str) (o : Option (Library Workspace))
          → LibraryKeeps o
          → LibraryKeeps (elim o as (λ _. Option (Library Workspace)) [
            | some lib ↦ some lib
            | none ↦ host.dlopen filenam
          ])
      first filenam none h = operators filenam
      first filenam (some lib) h = h

  run_library-Kept :
      (o : Option (Library Workspace)) (desc : OperationDescription) (w : Workspace)
      → LibraryKeeps o
      → Kept w.disk (run_library host.install_operators host.debug host.dlopen o desc w).1.disk
  unfolding run_library run_module
  run_library-Kept none desc w h = Kept-refl w.disk
  run_library-Kept (some lib) desc w h = ran lib.info h
    where
      ran :
          (o : Option (ModuleInfo Workspace))
          → ModuleKeeps o
          → Kept w.disk
              (elim o as (λ _. (ℕ × OperationDescription) × Workspace) [
                | none ↦ ((Status.operator_not_found, no_description), w)
                | some info ↦ (
                  (run_module host.install_operators host.debug host.dlopen info desc w).0,
                  (run_module host.install_operators host.debug host.dlopen info desc w).1,
                )
              ]).1.disk
      ran none k = Kept-refl w.disk
      ran (some info) k = k (new_environment desc w)

  do_operation-Kept :
      (desc : OperationDescription) (w : Workspace)
      → Kept w.disk (do_operation host.install_operators host.debug host.dlopen desc w).1.disk
  unfolding do_operation
  do_operation-Kept desc w =
      run_library-Kept
        (load_operator_module host.install_operators host.debug host.dlopen desc.operator) desc w
        (load-Keeps desc.operator)

  module _ {F S : Type 0} (net : Net F S) where
    workspace-Safe : (msg : RequestWorkspace) → Safe (handle_request_workspace net host msg)
    unfolding handle_request_workspace answer_workspace
    workspace-Safe msg =
        found-Safe host.codec msg.workspace (λ o. answer_workspace net host o msg) answer
      where
        create : Exec (Server S) (Unit {0})
        create =
            with_disk (create_workspace host.codec (first_commit msg.commit) msg.workspace) >>= λ w.
            reply net (say_workspace (created msg.commit w))

        no_reply : Exec (Server S) (Unit {0})
        no_reply =
            reply net (say_workspace (record { status = WorkspaceStatus.success; commit = [] }))

        answer :
            (o : Option Workspace) (s : Server S)
            → IsAt s.own o
            → SafeAt (answer_workspace net host o msg) s
        answer (some w) s h = Kept-refl s.own
        answer none s h =
            if-SafeAt msg.createifnotexists create no_reply s
              (with_disk-SafeAt
                (create_workspace host.codec (first_commit msg.commit) msg.workspace)
                (λ w. reply net (say_workspace (created msg.commit w))) s
                (create_workspace-Kept host.codec (first_commit msg.commit) msg.workspace s.own)
                (reply-Safe net (
                  say_workspace (
                    created msg.commit
                      (create_workspace host.codec (first_commit msg.commit) msg.workspace
                        s.own).0))))
              (Kept-refl s.own)

    hierarchy_plain-Safe : (name : Str) → Safe (handle_request_hierarchy_plain net host name)
    unfolding handle_request_hierarchy_plain answer_hierarchy_plain
    hierarchy_plain-Safe name = found-Safe host.codec name (answer_hierarchy_plain net host) answer
      where
        ends : {A : Type 0} (o : Outcome A) → Ends (λ a. Unit {0}) o
        ends (returned a) = tt
        ends thrown = tt
        ends running = tt

        answer :
            (o : Option Workspace) (s : Server S)
            → IsAt s.own o
            → SafeAt (answer_hierarchy_plain net host o) s
        answer none s h = Kept-refl s.own
        answer (some w) s h =
            outcome-Safe (λ r. Unit {0}) (list_entities host w) (λ r. pure tt) s
              (ends (list_entities host w)) (λ r k. Kept-refl s.own)

    operator-Safe :
        (msg : RequestOperatorExecution) → Safe (handle_request_operator_execution net host msg)
    unfolding handle_request_operator_execution answer_operator
    operator-Safe msg =
        found-Safe host.codec msg.workspace (λ o. answer_operator net host o msg) answer
      where
        answer :
            (o : Option Workspace) (s : Server S)
            → IsAt s.own o
            → SafeAt (answer_operator net host o msg) s
        answer none s h = Kept-refl s.own
        answer (some w) s h =
            subst
              (λ d.
                Kept d
                  (do_operation host.install_operators host.debug host.dlopen msg.param w).1.disk)
              h (do_operation-Kept msg.param w)

    answer_delete-Safe :
        (delete : Str → Workspace → Outcome (ℕ × Workspace)) (say : DoneStatus → Msg) (path : Str)
        → ((w : Workspace) → Ends (KeptFrom w.disk) (delete path w))
        → (o : Option Workspace) (s : Server S) → IsAt s.own o
        → SafeAt (answer_delete net host delete say o path) s
    unfolding answer_delete
    answer_delete-Safe delete say path keeps none s h = refuse-Safe net (say DoneStatus.error) s
    answer_delete-Safe delete say path keeps (some w) s h =
        outcome-Safe (KeptFrom s.own) (delete path w)
          (λ r. saved r >>= λ status. reply net (say (done status))) s
          (subst (λ d. Ends (KeptFrom d) (delete path w)) h (keeps w))
          (λ r k.
            saved-Safe r (λ status. reply net (say (done status))) s k
              (λ status. reply-Safe net (say (done status))))

    delete_entity-Safe : (msg : RequestPath) → Safe (handle_request_delete_entity net host msg)
    unfolding handle_request_delete_entity
    delete_entity-Safe msg =
        found-Safe host.codec msg.workspace
          (λ o.
            answer_delete net host (Delete.delete_entity host.codec) say_delete_entity o msg.path)
          (answer_delete-Safe (Delete.delete_entity host.codec) say_delete_entity msg.path (λ w.
            moved-Kept host.codec w (Delete.delete_entity host.codec msg.path w)
              (delete_entity-Moved host.codec w.disk msg.path w here)))

    delete_tree-Safe : (msg : RequestPath) → Safe (handle_request_delete_tree net host msg)
    unfolding handle_request_delete_tree
    delete_tree-Safe msg =
        found-Safe host.codec msg.workspace
          (λ o.
            answer_delete net host (Delete.delete_tree host.codec host.fuel) say_delete_tree o
              msg.path)
          (answer_delete-Safe (Delete.delete_tree host.codec host.fuel) say_delete_tree msg.path
            (λ w.
              moved-Kept host.codec w (Delete.delete_tree host.codec host.fuel msg.path w)
                (delete_tree-Moved host.codec w.disk host.fuel msg.path w here)))

    replier-Safe : (msg : Msg) → Safe (send_by_replier net host msg)
    unfolding send_by_replier
    replier-Safe msg =
        catch-Safe (reply net msg) is_exception (raise crash) (reply-Safe net msg)
          (pure-Safe {A = Unit {0}} (err crash))

    generic_entry-Safe : (msg : RequestPath) → Safe (handle_request_generic_entry net host msg)
    unfolding handle_request_generic_entry answer_generic_entry
    generic_entry-Safe msg =
        found-Safe host.codec msg.workspace (λ o. answer_generic_entry net host o msg.path)
          λ o. answer o msg.path
      where
        answer :
            (o : Option Workspace) (path : Str) (s : Server S)
            → IsAt s.own o
            → SafeAt (answer_generic_entry net host o path) s
        answer none path s h =
            replier-Safe
              (say_generic_entry (record { status = some EntryStatus.not_found; entry = nothing }))
              s
        answer (some w) [] s h = Kept-refl s.own
        answer (some w) (c ∷ path) s h =
            replier-Safe
              (say_generic_entry
                (entry_of host (type_of_object host.codec (c ∷ path) w) (c ∷ path) w))
              s

    pub handle-Safe : (msg : Msg) → Safe (handle net host msg)
    unfolding handle handle_request_hierarchy handle_request_list_workspaces
    handle-Safe (ask_workspace msg) = workspace-Safe msg
    handle-Safe (ask_entitydata msg) = entitydata-Safe net host msg
    handle-Safe ask_hierarchy = λ s. Kept-refl s.own
    handle-Safe (ask_hierarchy_plain name) = hierarchy_plain-Safe name
    handle-Safe ask_list_workspaces = λ s. Kept-refl s.own
    handle-Safe (ask_operator_execution msg) = operator-Safe msg
    handle-Safe (ask_generic_entry msg) = generic_entry-Safe msg
    handle-Safe (ask_store_entity msg) = store_entity-Safe net host msg
    handle-Safe (ask_delete_entity msg) = delete_entity-Safe msg
    handle-Safe (ask_delete_tree msg) = delete_tree-Safe msg
    handle-Safe (say_workspace rep) = λ s. Kept-refl s.own
    handle-Safe (say_entitydata rep) = λ s. Kept-refl s.own
    handle-Safe say_hierarchy = λ s. Kept-refl s.own
    handle-Safe (say_hierarchy_plain rep) = λ s. Kept-refl s.own
    handle-Safe (say_list_workspaces names) = λ s. Kept-refl s.own
    handle-Safe (say_operator_execution rep) = λ s. Kept-refl s.own
    handle-Safe (say_generic_entry rep) = λ s. Kept-refl s.own
    handle-Safe (say_store_entity status) = λ s. Kept-refl s.own
    handle-Safe (say_store_tree status) = λ s. Kept-refl s.own
    handle-Safe (say_delete_entity status) = λ s. Kept-refl s.own
    handle-Safe (say_delete_tree status) = λ s. Kept-refl s.own
