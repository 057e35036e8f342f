-- ===== src/Network/StreamProvider.antt =====
-- ZmqEntitydataStreamProvider (libs/networking_node/src/serialization/zmqentitydatastreamprovider.cpp): entity
-- data is read from and written to a responder.
use mapit.Base.{
  Str, ℕ, zero, suc, ◌^◌, [], ◌++◌, Option, none, some, Bool, true, false, ◌&&◌, if◌then◌else◌,
  ◌==◌, ltb, leb, length,
}
use mapit.Serializer.Transient.{split_at}
use mapit.Network.Exec.{err, Exec, unending, crash, pure, raise, try_catch, is_zmq, ◌>>=◌, ◌>>◌}
use mapit.Network.Messages.{
  DataStatus, Kind, Msg, ask_entitydata, ask_store_entity, say_entitydata, say_store_entity,
}
use mapit.Network.Node.{Net, on_node, has_more, send, send_raw_body, receive, receive_raw_body}
use mapit.Network.Client.{Client, lock, unlock, ask}
use mapit.Network.Requester.{Provider}

-- `maxBufferSize`, 2 GB
abbrev pub max_buffer_size : ℕ
max_buffer_size = 2 ^ 31

-- A buffer of `size` bytes, of which some have been received; the others hold anything.
pub record Buffer : Type 0 where
  pub received : Str
  pub size : ℕ

abbrev pub data_request : Provider → ℕ → ℕ → Msg
data_request p offset maxlength = ask_entitydata (record {
  workspace = p.workspace_name;
  entitypath = p.path_or_oid;
  offset = offset;
  maxlength = maxlength;
})

abbrev pub is_success : DataStatus → Bool
is_success DataStatus.success = true
is_success _ = false

abbrev pub with_length : Provider → ℕ → Provider
with_length p n = record p { entity_length = n }

-- The provider after a write, which remembers the greatest length.
abbrev pub grown : Provider → Str → Provider
grown p bytes = if ltb p.entity_length (length bytes) then with_length p (length bytes) else p

abbrev pub store_request : Provider → ℕ → ℕ → Msg
store_request p offset sendlength = ask_store_entity (record {
  workspace = p.workspace_name;
  path = p.path_or_oid;
  type = [];
  offset = offset;
  sendlength = sendlength;
  entitylength = p.entity_length;
})

-- At least one byte, and at most the maximum.
abbrev pub buffer_length : ℕ → ℕ
buffer_length n = if n == 0 then 1 else if ltb max_buffer_size n then max_buffer_size else n

abbrev pub buffered : ℕ → Option Str → Option Buffer
buffered size none = none
buffered size (some bytes) = some (record { received = bytes; size = size })

module _ {F S : Type 0} (net : Net F S) where
  -- The length that the reply tells, and the provider that remembers it.
  abbrev pub sized : Provider → Option Msg → Exec (Client S) (ℕ × Provider)
  sized p (some (say_entitydata rep)) = pure (
      if is_success rep.status
      then (rep.entitylength, with_length p rep.entitylength)
      else (p.entity_length, p))
  sized p _ = raise crash

  -- `getStreamSize` asks for the data too, and does not read it.
  unfoldable pub get_stream_size : Provider → Exec (Client S) (ℕ × Provider)
  unfolding ask
  get_stream_size p =
      if p.entity_length == 0
      then try_catch (ask net (data_request p 0 0) Kind.reply_entitydata >>= sized p) is_zmq
          (unlock >> pure (0, p))
      else pure (p.entity_length, p)

  -- The status is only logged.
  abbrev pub stored : Provider → Option Msg → Exec (Client S) Provider
  stored p (some (say_store_entity status)) = pure p
  stored p _ = raise crash

  unfoldable pub set_stream_size : ℕ → Provider → Exec (Client S) Provider
  unfolding ask
  set_stream_size n p =
      let p' = with_length p n in
      try_catch (ask net (store_request p' 0 0) Kind.reply_store_entity >>= stored p') is_zmq
        (unlock >> pure p')

  abbrev pub receive_part : Exec (Client S) (Option Str)
  receive_part =
      try_catch (on_node (receive_raw_body net) >>= λ part. pure (some part)) is_zmq
        (unlock >> pure none)

  abbrev pub if_received :
      (Str → Exec (Client S) (Option Str)) → Option Str → Exec (Client S) (Option Str)
  if_received k none = pure none
  if_received k (some part) = k part

  -- The loop over the parts. What does not fit into the buffer is counted and left out. An error of the
  -- network unlocks the mutex and gives no buffer; so does the end of the parts, with the buffer.
  unfoldable pub receive_parts : ℕ → ℕ → Str → Exec (Client S) (Option Str)
  unfolding receive_raw_body split_at
  receive_parts zero recvlen bytes s = (err unending, s)
  receive_parts (suc fuel) recvlen bytes s =
      elim (has_more net s.node && leb (length bytes) recvlen) [
        | true ↦
            (receive_part >>= if_received (λ part. receive_parts fuel recvlen (bytes ++ part))) s
        | false ↦ (unlock >> pure (some (split_at recvlen bytes).0)) s
      ]

  -- What is done with the reply. On an error status the mutex stays locked.
  unfoldable pub read_reply : Provider → Option Msg → Exec (Client S) (Option Buffer × Provider)
  unfolding receive_parts
  read_reply p (some (say_entitydata rep)) =
      let recvlen = buffer_length rep.receivedlength in
      let p' = with_length p rep.entitylength in
      if is_success rep.status
      then (receive_parts net.rounds recvlen [] >>= λ bytes. pure (buffered recvlen bytes, p'))
      else pure (none, p)
  read_reply p _ = raise crash

  -- The reply to the request for data, with the mutex locked and left so.
  unfoldable pub request_data : Provider → ℕ → Exec (Client S) (Option Msg)
  unfolding send receive
  request_data p start = do
    lock
    on_node (send net (data_request p start max_buffer_size) false)
    on_node (receive net Kind.reply_entitydata)

  abbrev pub replied : Option Msg → Option (Option Msg)
  replied rep = some rep

  abbrev pub if_replied :
      Provider → Option (Option Msg) → Exec (Client S) (Option Buffer × Provider)
  if_replied p none = pure (none, p)
  if_replied p (some rep) = read_reply p rep

  -- The private `startRead`. `length` is not sent, and an error of the network leaves the mutex locked.
  unfoldable pub start_read_buffer : ℕ → ℕ → Provider → Exec (Client S) (Option Buffer × Provider)
  unfolding request_data read_reply
  start_read_buffer start len p =
      try_catch (request_data p start >>= λ rep. pure (replied rep)) is_zmq (pure none)
      >>= if_replied p

  -- A string is made of the buffer, which must not be null, with the length that the other argument gives. C++ does
  -- not say which of the two is evaluated first: `unset` is what the variable of the length holds if it is read
  -- before the call has set it.
  abbrev pub from_buffer : Option ℕ → Option Buffer × Provider → Exec (Client S) (Buffer × Provider)
  from_buffer unset (none, p) = raise crash
  from_buffer none (some buffer, p) = pure (buffer, p)
  from_buffer (some length_read) (some buffer, p) = pure (record buffer { size = length_read }, p)

  -- `startRead`, and `startReadFile`, which reads from 0.
  unfoldable pub start_read : Option ℕ → ℕ → ℕ → Provider → Exec (Client S) (Buffer × Provider)
  unfolding start_read_buffer
  start_read unset start len p = start_read_buffer start len p >>= from_buffer unset

  -- The private `endWrite`, which remembers the greatest length. On an error of the network the mutex stays
  -- locked.
  unfoldable pub send_data : Str → ℕ → Provider → Exec (Client S) Provider
  send_data memory offset p =
      try_catch
        (do
          lock
          on_node (send net (store_request p offset (length memory)) true)
          on_node (send_raw_body net memory false)
          rep ← on_node (receive net Kind.reply_store_entity)
          unlock
          stored p rep)
        is_zmq (pure p)

  unfoldable pub end_write : Str → ℕ → Provider → Exec (Client S) Provider
  unfolding send_data
  end_write memory offset p = send_data memory offset (grown p memory)

  -- `startWrite` and `endWrite` of a stream: the offset, and what was written to it.
  unfoldable pub write_stream : ℕ → ℕ → Str → Provider → Exec (Client S) Provider
  unfolding end_write
  write_stream start len bytes p = end_write bytes start p

  -- `endWriteFile`, with what the file holds.
  unfoldable pub end_write_file : Str → Provider → Exec (Client S) Provider
  unfolding end_write
  end_write_file file p = end_write file 0 p
