-- ===== src/Network/Link/Writing.antt =====
-- Writing entity data over the network (libs/networking_node), from the stream of the requester to the file.
use mapit.Base.{
  Str, ℕ, suc, ◌+◌, ◌-◌, ◌≤◌, ◌<◌, [], ◌∷◌, ◌++◌, some, true, false, ltb, length, ◌==◌, ◌≡◌, refl,
  arith, Bool-cases, inl, inr, ==_iff,
}
use mapit.Messages.{Entity}
use mapit.Search.{is_empty}
use mapit.Serializer.Disk.{Disk}
use mapit.Workspace.{Workspace, get_entity}
use mapit.Workspace.Delete
use mapit.Repository
use mapit.EntityData
use mapit.EntityData.{start_write, end_write, get_entitydata_for_read_write}
use mapit.Outcome.{returned}
use mapit.Status
use mapit.Network.Exec.{ok}
use mapit.Network.Messages.{
  Msg, kind_of, DoneStatus, RequestStoreEntity, ask_store_entity, say_store_entity,
}
use mapit.Network.Node.{
  Node, send, send_pb_single, send_raw_body, receive, receive_after, receive_body, receive_raw_body,
}
use mapit.Network.Server.{wrap}
use mapit.Network.Responder.{handle}
use mapit.Network.Responder.Store.{
  typed, receive_parts, handle_request_store_entity, store_in, store_inline, store_first,
  store_typed, write_data, write_parts, end_store,
}
use mapit.Network.Requester.{Provider}
use mapit.Network.StreamProvider
use mapit.Network.StreamProvider.{grown, store_request, send_data}
use mapit.Network.Mailbox.{Mailbox, to_send, to_receive}
use mapit.Network.Link.{Link, exchange}
use mapit.Network.Link.Steps.{
  Setup, IsWorking, Replies, to_server, to_link, asked, client_at, client_with, server_with, idle,
  is_request, is_reply, head, send_lem, serve_lem, key_eq_refl,
}

-- An empty type leaves the entity as it is.
typed_empty : (e : Entity) → is_empty e.type ≡ false → typed [] e ≡ e
unfolding typed
typed_empty e h = rw (h, h) refl

module _ {F : Type 0} (up : Setup F) (works : IsWorking up) where
  -- The responder reads the one part that holds the bytes.
  receive_one :
      (rounds : ℕ) (bytes : Str) (d : Disk)
      → receive_parts
          (to_server up)
          (suc (suc rounds))
          (length bytes)
          []
          (asked up (up.wire.from_bytes bytes ∷ []) d)
        ≡ (ok (Status.ok, bytes), asked up [] d)
  unfolding receive_parts receive_raw_body
  receive_one rounds bytes d =
      let fits : ltb (length bytes) (length bytes + 0) ≡ false = ground arith in
      let same : (length bytes == length bytes) ≡ true =
        (==_iff (length bytes) (length bytes)).1 refl in
      rw (works.bytes, fits, receive_parts, works.bytes, same) refl

  write_data_lem :
      (req : RequestStoreEntity) (ed : EntityData.Provider) (bytes : Str) (d : Disk)
      → 1 < up.rounds
      → req.sendlength ≡ length bytes
      → write_data (to_server up) up.host req (some ed) (asked up (up.wire.from_bytes bytes ∷ []) d)
        ≡ (ok Status.ok, asked up [] (EntityData.write_stream ed req.offset (length bytes) bytes d))
  unfolding write_data EntityData.write_stream
  write_data_lem req ed bytes d k n =
      let rounds : up.rounds ≡ suc (suc (up.rounds - 2)) = omega (arith, k) in
      rw
        (
          n,
          rounds,
          receive_one (up.rounds - 2) bytes (start_write ed req.offset (length bytes) d).1,
        )
        refl

  -- What `endWrite` of a requester sends for the whole data.
  abbrev data_write : Provider → Str → RequestStoreEntity
  data_write p bytes = record {
    workspace = p.workspace_name;
    path = p.path_or_oid;
    type = [];
    offset = 0;
    sendlength = length bytes;
    entitylength = p.entity_length;
  }

  -- The entity is stored as it is, and the part is written to its data.
  store_inline_lem :
      (p : Provider) (w w' : Workspace) (e : Entity) (ed : EntityData.Provider) (bytes : Str)
      (d : Disk)
      → get_entity up.host.codec p.path_or_oid w ≡ some e
      → is_empty e.type ≡ false
      → Delete.store_entity up.host.codec p.path_or_oid e w ≡ returned (Status.ok, w')
      → get_entitydata_for_read_write up.host.codec (wrap up.host) p.path_or_oid w' ≡ some ed
      → 0 < length bytes
      → 1 < up.rounds
      → store_inline
          (to_server up)
          up.host
          (data_write p bytes)
          w
          (asked up (up.wire.from_bytes bytes ∷ []) d)
        ≡ (ok Status.ok, asked up [] (EntityData.write_stream ed 0 (length bytes) bytes w'.disk))
  unfolding store_inline store_first store_typed write_parts
  store_inline_lem p w w' e ed bytes d g h k r m rounds =
      let some_bytes : (length bytes == 0) ≡ false = ground arith in
      rw
        (
          g,
          typed_empty e h,
          h,
          k,
          some_bytes,
          r,
          write_data_lem (data_write p bytes) ed bytes w'.disk rounds refl,
        )
        refl

  end_write-Replies :
      (p : Provider) (w w' : Workspace) (e : Entity) (ed : EntityData.Provider) (bytes : Str)
      (d : Disk)
      → Repository.get_workspace up.host.codec p.workspace_name d ≡ some w
      → get_entity up.host.codec p.path_or_oid w ≡ some e
      → is_empty e.type ≡ false
      → Delete.store_entity up.host.codec p.path_or_oid e w ≡ returned (Status.ok, w')
      → get_entitydata_for_read_write up.host.codec (wrap up.host) p.path_or_oid w' ≡ some ed
      → 0 < length bytes
      → length bytes ≤ p.entity_length
      → 1 < up.rounds
      → Replies up
          (ask_store_entity (data_write p bytes))
          (up.wire.from_bytes bytes ∷ [])
          d
          (head up (say_store_entity DoneStatus.success) false)
          (EntityData.write_stream ed 0 (length bytes) bytes w'.disk)
  unfolding handle handle_request_store_entity store_in end_store
  end_write-Replies p w w' e ed bytes d f g h k r m l rounds =
      let starts : ltb (length bytes) 0 ≡ false = ground arith in
      let fits : ltb p.entity_length (length bytes) ≡ false = ground arith in
      rw (starts, fits, f, store_inline_lem p w w' e ed bytes d g h k r m rounds, send_lem up works)
        refl

  -- The requester while it sends, and when the reply has come.
  abbrev client_node : Mailbox F → Disk → Node (Link F)
  client_node m d = (client_with up m true d).node

  send_head_lem :
      (m : Msg) (d : Disk)
      → send (to_link up) m true (client_node (idle up to_send) d)
        ≡ (ok tt, client_node (record (idle up to_send) { sent = head up m true }) d)
  unfolding send send_pb_single
  send_head_lem m d = rw (works.keyed (kind_of m)) refl

  exchange_lem :
      (m rep : Msg) (part : F) (d d' : Disk)
      → is_request (kind_of m) ≡ true
      → Replies up m (part ∷ []) d (head up rep false) d'
      → exchange up.wire up.rounds up.host (record {
        server = server_with up (idle up to_receive) d;
        client = record (idle up to_receive) { sent = head up m true ++ (part, false) ∷ [] };
      })
        ≡ (client_node
            (record (idle up to_receive) {
              waiting =
                  (up.wire.serialize_header (up.key (kind_of rep)), up.wire.serialize rep ∷ [])
                  ∷ [];
            })
            d').socket
  unfolding exchange
  exchange_lem m rep part d d' h k =
      rw (serve_lem up works m (part ∷ []) (head up rep false) d d' h k) refl

  send_part_lem :
      (m rep : Msg) (bytes : Str) (d d' : Disk)
      → is_request (kind_of m) ≡ true
      → Replies up m (up.wire.from_bytes bytes ∷ []) d (head up rep false) d'
      → send_raw_body
          (to_link up)
          bytes
          false
          (client_node (record (idle up to_send) { sent = head up m true }) d)
        ≡ (
          ok tt,
          client_node
              (record (idle up to_receive) {
                waiting =
                    (up.wire.serialize_header (up.key (kind_of rep)), up.wire.serialize rep ∷ [])
                    ∷ [];
              })
              d',
        )
  unfolding send_raw_body
  send_part_lem m rep bytes d d' h k =
      rw (exchange_lem m rep (up.wire.from_bytes bytes) d d' h k) refl

  receive_lem :
      (rep : Msg) (d : Disk)
      → is_reply (kind_of rep) ≡ true
      → receive (to_link up) (kind_of rep) (
          client_node
            (record (idle up to_receive) {
              waiting =
                  (up.wire.serialize_header (up.key (kind_of rep)), up.wire.serialize rep ∷ [])
                  ∷ [];
            })
            d)
        ≡ (ok (some rep), client_node (idle up to_send) d)
  unfolding receive receive_after receive_body
  receive_lem rep d h =
      let kind = kind_of rep in
      rw
        (
          works.keyed kind,
          works.header (up.key kind),
          key_eq_refl (up.key kind),
          works.replies kind h,
          works.body rep,
        )
        refl

  send_data_lem :
      (p : Provider) (bytes : Str) (d d' : Disk)
      → Replies up
          (ask_store_entity (data_write p bytes))
          (up.wire.from_bytes bytes ∷ [])
          d
          (head up (say_store_entity DoneStatus.success) false)
          d'
      → send_data (to_link up) bytes 0 p (client_at up d) ≡ (ok p, client_at up d')
  unfolding send_data
  send_data_lem p bytes d d' k =
      let req = ask_store_entity (data_write p bytes) in
      let rep = say_store_entity DoneStatus.success in
      rw (send_head_lem req d, send_part_lem req rep bytes d d' refl k, receive_lem rep d' refl)
        refl

-- What a write leaves as it is, and the length it makes sure of.
grown_lem :
    (p : Provider) (bytes : Str)
    → ((grown p bytes).workspace_name ≡ p.workspace_name)
      × ((grown p bytes).path_or_oid ≡ p.path_or_oid)
      × (length bytes ≤ (grown p bytes).entity_length)
grown_lem p bytes = elim (Bool-cases (ltb p.entity_length (length bytes))) [
  | inl e ↦ (rw e refl, rw e refl, rw e (omega arith))
  | inr e ↦ (rw e refl, rw e refl, rw e (ground arith))
]

-- Where the repository has the workspace with an entity of some type at the path, storing the entity again
-- succeeds, and its data can be written then, a stream that a requester writes from 0 ends as the same stream
-- written in the repository. The provider remembers the greatest length, and the mutex is free again. The
-- stream is not empty, and the loop has two rounds.
pub write_stream-remote :
    {F : Type 0} (up : Setup F) (works : IsWorking up) (p : Provider) (len : ℕ) (bytes : Str)
    (w w' : Workspace) (e : Entity) (ed : EntityData.Provider) (d : Disk)
    → Repository.get_workspace up.host.codec p.workspace_name d ≡ some w
    → get_entity up.host.codec p.path_or_oid w ≡ some e
    → is_empty e.type ≡ false
    → Delete.store_entity up.host.codec p.path_or_oid e w ≡ returned (Status.ok, w')
    → get_entitydata_for_read_write up.host.codec (wrap up.host) p.path_or_oid w' ≡ some ed
    → 0 < length bytes
    → 1 < up.rounds
    → StreamProvider.write_stream (to_link up) 0 len bytes p (client_at up d) ≡ (
      ok (grown p bytes),
      client_at up (EntityData.write_stream ed 0 (length bytes) bytes w'.disk),
    )
unfolding StreamProvider.write_stream end_write
write_stream-remote up works p len bytes w w' e ed d f g h k r m rounds =
    let (name, path, fits) = grown_lem p bytes in
    send_data_lem up works (grown p bytes) bytes d
      (EntityData.write_stream ed 0 (length bytes) bytes w'.disk)
      (end_write-Replies up works (grown p bytes) w w' e ed bytes d (rw name f) (rw path g) h
        (rw path k) (rw path r) m fits rounds)
