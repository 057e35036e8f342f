-- ===== src/Network/Link/Remote.antt =====
-- A workspace that is used over the network (libs/networking_node) against the workspace of the repository.
use mapit.Base.{Str, ℕ, [], ◌∷◌, Option, none, some, false, ◌≡◌, refl, ap}
use mapit.Messages.{
  Tree, Entity, MessageType, Codec, message_empty, message_tree, message_entity, message_commit,
  message_branch, message_workspace, nothing, of_tree, of_entity,
}
use mapit.Serializer.Disk.{Disk}
use mapit.Workspace
use mapit.Workspace.{Workspace, type_of_object}
use mapit.Repository
use mapit.Network.Exec.{ok}
use mapit.Network.Messages.{EntryStatus, ReplyGenericEntry, ask_generic_entry, say_generic_entry}
use mapit.Network.Server.{Host}
use mapit.Network.Responder.{
  handle, found, entry_of, answer_generic_entry, handle_request_generic_entry, send_by_replier,
}
use mapit.Network.Requester.{
  RequesterWorkspace, get_tree, get_entity, released_tree, released_entity,
}
use mapit.Network.Link.Steps.{
  Setup, IsWorking, Replies, to_server, to_link, asked, answered, client_at, head, send_lem,
  ask_lem,
}

-- The reply to a request for an entry of a workspace that is there or not.
abbrev pub entry_reply : Host → Option Workspace → Str → ReplyGenericEntry
entry_reply host none path = record { status = some EntryStatus.not_found; entry = nothing }
entry_reply host (some w) path = entry_of host (type_of_object host.codec path w) path w

-- What the repository has at a path: an object of the wanted type.
abbrev pub tree_at : Codec → Str → MessageType → Workspace → Option Tree
tree_at codec path message_tree w = Workspace.get_tree codec path w
tree_at codec path _ w = none

abbrev pub entity_at : Codec → Str → MessageType → Workspace → Option Entity
entity_at codec path message_entity w = Workspace.get_entity codec path w
entity_at codec path _ w = none

abbrev pub tree_in : Codec → Str → Option Workspace → Option Tree
tree_in codec path none = none
tree_in codec path (some w) = tree_at codec path (type_of_object codec path w) w

abbrev pub entity_in : Codec → Str → Option Workspace → Option Entity
entity_in codec path none = none
entity_in codec path (some w) = entity_at codec path (type_of_object codec path w) w

found-tree : (o : Option Tree) → released_tree (found of_tree o).entry ≡ o
found-tree none = refl
found-tree (some t) = refl

found-entity : (o : Option Entity) → released_entity (found of_entity o).entry ≡ o
found-entity none = refl
found-entity (some e) = refl

found-tree_entity : (o : Option Tree) → released_entity (found of_tree o).entry ≡ none
found-tree_entity none = refl
found-tree_entity (some t) = refl

found-entity_tree : (o : Option Entity) → released_tree (found of_entity o).entry ≡ none
found-entity_tree none = refl
found-entity_tree (some e) = refl

entry_in_reply :
    (host : Host) (path : Str) (o : Option Workspace)
    → (released_tree (entry_reply host o path).entry ≡ tree_in host.codec path o)
      × (released_entity (entry_reply host o path).entry ≡ entity_in host.codec path o)
unfolding entry_of
entry_in_reply host path none = (refl, refl)
entry_in_reply host path (some w) = by_type (type_of_object host.codec path w)
  where
    by_type :
        (m : MessageType)
        → (released_tree (entry_of host m path w).entry ≡ tree_at host.codec path m w)
          × (released_entity (entry_of host m path w).entry ≡ entity_at host.codec path m w)
    by_type message_empty = (refl, refl)
    by_type message_tree = (found-tree _, found-tree_entity _)
    by_type message_entity = (found-entity_tree _, found-entity _)
    by_type message_commit = (refl, refl)
    by_type message_branch = (refl, refl)
    by_type message_workspace = (refl, refl)

module _ {F : Type 0} (up : Setup F) (works : IsWorking up) where
  generic_entry_lem :
      (name : Str) (c : ℕ) (path : Str) (d : Disk)
      → let rep = entry_reply up.host (Repository.get_workspace up.host.codec name d) (c ∷ path) in
        Replies up
          (ask_generic_entry (record { workspace = name; path = c ∷ path }))
          []
          d
          (head up (say_generic_entry rep) false)
          d
  unfolding handle handle_request_generic_entry answer_generic_entry send_by_replier
  generic_entry_lem name c path d = answer (Repository.get_workspace up.host.codec name d)
    where
      answer :
          (o : Option Workspace)
          → answer_generic_entry (to_server up) up.host o (c ∷ path) (asked up [] d) ≡ (
            ok tt,
            answered up (head up (say_generic_entry (entry_reply up.host o (c ∷ path))) false) d,
          )
      answer none = rw (send_lem up works) refl
      answer (some v) = rw (send_lem up works) refl

-- Over the network `getTree` and `getEntity` give what the workspace of the repository has at the path, if
-- its `typeOfObject` says that it is a tree or an entity, and nothing where the repository has no such
-- workspace. The path is not empty. No file changes, and the mutex is free again.
pub get_entity-get_tree-remote :
    {F : Type 0} (up : Setup F) (works : IsWorking up) (w : RequesterWorkspace) (c : ℕ) (r : Str)
    (d : Disk)
    → let path = c ∷ r in
      let o = Repository.get_workspace up.host.codec w.workspace_name d in
      (get_tree (to_link up) w path (client_at up d)
        ≡ (ok (tree_in up.host.codec path o), client_at up d))
      × (get_entity (to_link up) w path (client_at up d)
          ≡ (ok (entity_in up.host.codec path o), client_at up d))
unfolding get_tree get_entity
get_entity-get_tree-remote up works w c r d =
    let path = c ∷ r in
    let o = Repository.get_workspace up.host.codec w.workspace_name d in
    let asks =
      ask_lem up works (ask_generic_entry (record { workspace = w.workspace_name; path = path }))
        (say_generic_entry (entry_reply up.host o path)) d d refl refl
        (generic_entry_lem up works w.workspace_name c r d) in
    let (a, b) = entry_in_reply up.host path o in
    (rw asks (ap (λ r. (ok r, client_at up d)) a), rw asks (ap (λ r. (ok r, client_at up d)) b))
