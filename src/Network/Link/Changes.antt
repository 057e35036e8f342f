-- ===== src/Network/Link/Changes.antt =====
-- Storing and deleting over the network (libs/networking_node) against the same calls of the repository.
use mapit.Base.{
  Str, ℕ, [], ◌++◌, some, Bool, true, false, ◌&&◌, if◌then◌else◌, ◌≡◌, refl, sym, ap, Bool-cases,
  inl, inr, ==_iff, str_eq, str_eq→eq, ◌∙◌,
}
use mapit.Messages.{Entity}
use mapit.Search.{is_empty}
use mapit.Serializer.Disk.{Disk}
use mapit.Serializer.Listing
use mapit.Workspace
use mapit.Workspace.{Workspace}
use mapit.Workspace.Delete
use mapit.Repository
use mapit.Outcome.{Outcome, returned}
use mapit.Status
use mapit.Network.Exec.{ok}
use mapit.Network.Messages.{
  Msg, DoneStatus, RequestStoreEntity, RequestPath, ask_store_entity, ask_delete_entity,
  ask_delete_tree, ask_list_workspaces, say_store_entity, say_delete_entity, say_delete_tree,
  say_list_workspaces,
}
use mapit.Network.Responder.{
  handle, done, answer_delete, handle_request_delete_entity, handle_request_delete_tree,
  handle_request_list_workspaces,
}
use mapit.Network.Responder.Store.{
  or_new, typed, handle_request_store_entity, store_in, store_inline, store_first, store_typed,
  end_store,
}
use mapit.Network.Requester.{
  RequesterWorkspace, store_entity, delete_entity, delete_tree, list_workspace_names, resized,
  done_status,
}
use mapit.Network.Link.Steps.{
  Setup, IsWorking, Replies, to_server, to_link, asked, answered, client_at, head, send_lem,
  ask_lem,
}

and_false : (b : Bool) → (b && false) ≡ false
and_false true = refl
and_false false = refl

-- The status that a requester returns.
abbrev pub remote_status : ℕ → ℕ
remote_status status = if Status.is_ok status then Status.ok else Status.error

done_remote : (status : ℕ) → done_status (done status) ≡ remote_status status
done_remote status = elim (Bool-cases (Status.is_ok status)) [
  | inl e ↦ rw e refl
  | inr e ↦ rw e refl
]

-- The type of a message replaces any other.
typed_some :
    (type : Str) (e : Entity) → is_empty type ≡ false → typed type e ≡ record e { type = type }
unfolding typed
typed_some type e h = elim (Bool-cases (is_empty e.type)) [
  | inl a ↦ rw (a, h) (rw a refl)
  | inr a ↦ elim (Bool-cases (str_eq e.type type)) [
    | inl b ↦ rw (a, h, b) (rw a (ap (λ t. record e { type = t }) (str_eq→eq e.type type b)))
    | inr b ↦ rw (a, h, b) (rw h refl)
  ]
]

module _ {F : Type 0} (up : Setup F) (works : IsWorking up) where
  -- What `storeEntity` of a requester sends.
  abbrev pub store_request : Str → Str → Entity → RequestStoreEntity
  store_request name path e = record {
    workspace = name;
    path = path;
    type = e.type;
    offset = 0;
    sendlength = 0;
    entitylength = 0;
  }

  end_store_lem :
      (status : ℕ) (d : Disk)
      → end_store (to_server up) up.host status (asked up [] d)
        ≡ (ok tt, answered up (head up (say_store_entity (done status)) false) d)
  unfolding end_store
  end_store_lem status d = elim (Bool-cases (Status.is_ok status)) [
    | inl e ↦ rw (e, send_lem up works) refl
    | inr e ↦ rw (e, send_lem up works) refl
  ]

  store_inline_lem :
      (name path : Str) (e : Entity) (w w' : Workspace) (status : ℕ) (d : Disk)
      → is_empty e.type ≡ false
      → Delete.store_entity up.host.codec path
          (typed e.type (or_new (Workspace.get_entity up.host.codec path w)))
          w
        ≡ returned (status, w')
      → store_inline (to_server up) up.host (store_request name path e) w (asked up [] d)
        ≡ (ok status, asked up [] w'.disk)
  unfolding store_inline store_first store_typed
  store_inline_lem name path e w w' status d h k = elim (Bool-cases (Status.is_ok status)) [
    | inl s ↦
        rw (h, and_false, k, s)
          (ap (λ n. (ok n, asked up [] w'.disk)) (sym ((==_iff status 0).0 s)))
    | inr s ↦ rw (h, and_false, k, s) refl
  ]

  store_entity-Replies :
      (name path : Str) (e : Entity) (w w' : Workspace) (status : ℕ) (d : Disk)
      → Repository.get_workspace up.host.codec name d ≡ some w
      → is_empty e.type ≡ false
      → Delete.store_entity up.host.codec path
          (typed e.type (or_new (Workspace.get_entity up.host.codec path w)))
          w
        ≡ returned (status, w')
      → Replies up
          (ask_store_entity (store_request name path e))
          []
          d
          (head up (say_store_entity (done status)) false)
          w'.disk
  unfolding handle handle_request_store_entity store_in
  store_entity-Replies name path e w w' status d g h k =
      rw (g, store_inline_lem name path e w w' status d h k) (end_store_lem status w'.disk)

  answer_delete_lem :
      (delete : Str → Workspace → Outcome (ℕ × Workspace)) (say : DoneStatus → Msg) (path : Str)
      (w w' : Workspace) (status : ℕ) (d : Disk)
      → delete path w ≡ returned (status, w')
      → answer_delete (to_server up) up.host delete say (some w) path (asked up [] d)
        ≡ (ok tt, answered up (head up (say (done status)) false) w'.disk)
  unfolding answer_delete
  answer_delete_lem delete say path w w' status d k = rw (k, send_lem up works) refl

  delete_entity-Replies :
      (name path : Str) (w w' : Workspace) (status : ℕ) (d : Disk)
      → Repository.get_workspace up.host.codec name d ≡ some w
      → Delete.delete_entity up.host.codec path w ≡ returned (status, w')
      → Replies up
          (ask_delete_entity (record { workspace = name; path = path }))
          []
          d
          (head up (say_delete_entity (done status)) false)
          w'.disk
  unfolding handle handle_request_delete_entity
  delete_entity-Replies name path w w' status d g k = rw g (
      answer_delete_lem (Delete.delete_entity up.host.codec) say_delete_entity path w w' status d k)

  delete_tree-Replies :
      (name path : Str) (w w' : Workspace) (status : ℕ) (d : Disk)
      → Repository.get_workspace up.host.codec name d ≡ some w
      → Delete.delete_tree up.host.codec up.host.fuel path w ≡ returned (status, w')
      → Replies up
          (ask_delete_tree (record { workspace = name; path = path }))
          []
          d
          (head up (say_delete_tree (done status)) false)
          w'.disk
  unfolding handle handle_request_delete_tree
  delete_tree-Replies name path w w' status d g k = rw g (
      answer_delete_lem (Delete.delete_tree up.host.codec up.host.fuel) say_delete_tree path w w'
        status d k)

  list_workspaces-Replies :
      (d : Disk)
      → Replies up ask_list_workspaces [] d
          (head up
            (say_list_workspaces (Listing.list_workspace_names (up.host.directories d)))
            false)
          d
  unfolding handle handle_request_list_workspaces
  list_workspaces-Replies d = rw (send_lem up works) refl

-- Where the workspace is found and storing the entity in it returns, `storeEntity` of a requester returns the
-- same status, with any failure as the plain error, and leaves the files as the call of the repository
-- does. What is stored is the entity that was there, or a new one, with the type that was sent, which is
-- not empty; nothing else of the entity is sent.
pub store_entity-remote :
    {F : Type 0} (up : Setup F) (works : IsWorking up) (r : RequesterWorkspace) (path : Str)
    (e : Entity) (w w' : Workspace) (status : ℕ) (d : Disk)
    → Repository.get_workspace up.host.codec r.workspace_name d ≡ some w
    → is_empty e.type ≡ false
    → Delete.store_entity up.host.codec path
        (record (or_new (Workspace.get_entity up.host.codec path w)) { type = e.type })
        w
      ≡ returned (status, w')
    → store_entity (to_link up) r path e (client_at up d)
      ≡ (ok (remote_status status), client_at up w'.disk)
unfolding store_entity
store_entity-remote up works r path e w w' status d g h k =
    rw
      (ask_lem up works (ask_store_entity (store_request up works r.workspace_name path e))
        (say_store_entity (done status)) d w'.disk refl refl
        (store_entity-Replies up works r.workspace_name path e w w' status d g h (
          ap (λ x. Delete.store_entity up.host.codec path x w)
            (typed_some e.type (or_new (Workspace.get_entity up.host.codec path w)) h)
          ∙ k)))
      (ap (λ s. (ok s, client_at up w'.disk)) (done_remote status))

-- Where the workspace is found and deleting in it returns, `deleteEntity` and `deleteTree` of a requester
-- return the same status, with any failure as the plain error, and leave the files as the calls of the
-- repository do.
pub delete_entity-delete_tree-remote :
    {F : Type 0} (up : Setup F) (works : IsWorking up) (r : RequesterWorkspace) (path : Str)
    (w v t : Workspace) (m n : ℕ) (d : Disk)
    → Repository.get_workspace up.host.codec r.workspace_name d ≡ some w
    → Delete.delete_entity up.host.codec path w ≡ returned (m, v)
    → Delete.delete_tree up.host.codec up.host.fuel path w ≡ returned (n, t)
    → (delete_entity (to_link up) r path (client_at up d)
        ≡ (ok (remote_status m), client_at up v.disk))
      × (delete_tree (to_link up) r path (client_at up d)
          ≡ (ok (remote_status n), client_at up t.disk))
unfolding delete_entity delete_tree
delete_entity-delete_tree-remote up works r path w v t m n d g k l =
    let req : RequestPath = record { workspace = r.workspace_name; path = path } in
    (
      rw
          (ask_lem up works (ask_delete_entity req) (say_delete_entity (done m)) d v.disk refl refl
            (delete_entity-Replies up works r.workspace_name path w v m d g k))
          (ap (λ s. (ok s, client_at up v.disk)) (done_remote m)),
      rw
          (ask_lem up works (ask_delete_tree req) (say_delete_tree (done n)) d t.disk refl refl
            (delete_tree-Replies up works r.workspace_name path w t n d g l))
          (ap (λ s. (ok s, client_at up t.disk)) (done_remote n)),
    )

-- `listWorkspaceNames` of a requester returns the names of the repository behind as many empty names.
pub list_workspace_names-remote :
    {F : Type 0} (up : Setup F) (works : IsWorking up) (d : Disk)
    → let names = Listing.list_workspace_names (up.host.directories d) in
      list_workspace_names (to_link up) (client_at up d)
      ≡ (ok (resized names ++ names), client_at up d)
unfolding list_workspace_names
list_workspace_names-remote up works d =
    let names = Listing.list_workspace_names (up.host.directories d) in
    rw
      (ask_lem up works ask_list_workspaces (say_list_workspaces names) d d refl refl
        (list_workspaces-Replies up works d))
      refl
