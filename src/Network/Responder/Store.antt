-- ===== src/Network/Responder/Store.antt =====
-- `handleRequestStoreEntity` of libs/networking_node/src/zmqresponder_p.cpp: an entity is stored, and its data
-- is written from the parts that follow.
pub mod Safety
use mapit.Base.{
  Str, ℕ, zero, suc, ◌+◌, [], ◌++◌, Option, none, some, Bool, true, false, ◌&&◌, not, if◌then◌else◌,
  ◌==◌, ltb, length, str_eq,
}
use mapit.Messages.{Entity}
use mapit.Search.{is_empty}
use mapit.Workspace.{Workspace, get_entity}
use mapit.Workspace.Delete.{store_entity}
use mapit.Repository.{get_workspace}
use mapit.EntityData.{Provider, start_write, end_write, get_entitydata_for_read_write}
use mapit.Status
use mapit.Network.Exec.{ok, err, Exec, unending, crash, raise, pure, from_outcome, ◌>>=◌, ◌>>◌}
use mapit.Network.Messages.{RequestStoreEntity, error, success, say_store_entity}
use mapit.Network.Node.{Net, has_more, on_node, no_more, receive_raw_body}
use mapit.Network.Server.{Server, Host, wrap, reply, refuse, gets_disk, with_disk}

abbrev pub or_new : Option Entity → Entity
or_new none = record { type = []; dataid = []; frame_id = [] }
or_new (some e) = e

-- The layer type of the message replaces that of the entity, unless it is empty.
abbrev pub changed_type : Str → Entity → Entity
changed_type type e =
    if not (is_empty e.type) && (not (is_empty type) && not (str_eq e.type type))
    then record e { type = type }
    else e

abbrev pub first_type : Str → Entity → Entity
first_type type e = if is_empty e.type && not (is_empty type) then record e { type = type } else e

unfoldable pub typed : Str → Entity → Entity
typed type e = first_type type (changed_type type e)

module _ {F S : Type 0} (net : Net F S) where
  -- The loop that reads the parts. It gives the status, and what was written to the stream.
  unfoldable pub receive_parts : ℕ → ℕ → Str → Exec (Server S) (ℕ × Str)
  unfolding receive_raw_body
  receive_parts zero sendlength bytes s = (err unending, s)
  receive_parts (suc fuel) sendlength bytes s = elim (has_more net s.node) [
    | true ↦
        (on_node (receive_raw_body net) >>= λ buf.
        (if ltb sendlength (length buf + length bytes)
          then pure (Status.invalid_argument, bytes)
          else receive_parts fuel sendlength (bytes ++ buf)))
          s
    | false ↦ (ok (if length bytes == sendlength then Status.ok else Status.invalid_data, bytes), s)
  ]

  -- Whether there is raw data to read.
  abbrev pub gets_more : Exec (Server S) Bool
  gets_more s = (ok (has_more net s.node), s)

  module _ (host : Host) where
    -- `storeEntity`, and the workspace after it.
    abbrev pub stored : ℕ × Workspace → Exec (Server S) (ℕ × Workspace)
    stored (status, w) s = (ok (status, w), record s { own = w.disk })

    -- An empty path has failed an assertion of `getEntity` before; `storeEntity` has the same one.
    unfoldable pub store_typed :
        RequestStoreEntity → Entity → Workspace → Exec (Server S) (ℕ × Workspace)
    store_typed msg e w =
        if is_empty e.type && is_empty msg.type
        then (if is_empty msg.path then raise crash else pure (Status.invalid_argument, w))
        else from_outcome (store_entity host.codec msg.path e w) >>= stored

    -- At offset 0 the entity is stored; otherwise it is taken to be there.
    unfoldable pub store_first : RequestStoreEntity → Workspace → Exec (Server S) (ℕ × Workspace)
    unfolding store_typed
    store_first msg w =
        if msg.offset == 0
        then store_typed msg (typed msg.type (or_new (get_entity host.codec msg.path w))) w
        else pure (Status.ok, w)

    unfoldable pub write_data : RequestStoreEntity → Option Provider → Exec (Server S) ℕ
    unfolding receive_parts
    write_data msg none = pure Status.operator_not_found
    write_data msg (some ed) = do
      stream ← with_disk (start_write ed msg.offset msg.sendlength)
      received ← receive_parts net.rounds msg.sendlength []
      with_disk (λ d. (received.0, end_write received.1 (stream, d)))

    unfoldable pub write_parts : RequestStoreEntity → Workspace → Exec (Server S) ℕ
    unfolding write_data
    write_parts msg w = do
      more ← gets_more
      if more
          then write_data msg (get_entitydata_for_read_write host.codec (wrap host) msg.path w)
          else pure Status.invalid_argument

    -- The function that `doUntraceableOperation` runs.
    unfoldable pub store_inline : RequestStoreEntity → Workspace → Exec (Server S) ℕ
    unfolding store_first write_parts
    store_inline msg w = do
      first ← store_first msg w
      if not (Status.is_ok first.0)
          then pure first.0
          else if msg.sendlength == 0
          then pure Status.ok
          else write_parts msg first.1

    unfoldable pub end_store : ℕ → Exec (Server S) (Unit {0})
    end_store status =
        if Status.is_ok status
        then (on_node (no_more net) >> reply net (say_store_entity success))
        else reply net (say_store_entity error)

    unfoldable pub store_in : Option Workspace → RequestStoreEntity → Exec (Server S) (Unit {0})
    unfolding store_inline end_store
    store_in none msg = refuse net (say_store_entity error)
    store_in (some w) msg = store_inline msg w >>= end_store

    unfoldable pub handle_request_store_entity : RequestStoreEntity → Exec (Server S) (Unit {0})
    unfolding store_in
    handle_request_store_entity msg =
        if ltb msg.sendlength msg.offset
        then refuse net (say_store_entity error)
        else if ltb msg.entitylength msg.sendlength
        then refuse net (say_store_entity error)
        else do
          workspace ← gets_disk (get_workspace host.codec msg.workspace)
          store_in workspace msg
