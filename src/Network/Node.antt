-- ===== src/Network/Node.antt =====
-- ZmqProtobufNode (libs/networking_node/src/zmqprotobufnode.cpp and zmqprotobufnode.h): typed messages in parts,
-- over a socket.
use mapit.Base.{
  Str, ℕ, zero, suc, ◌-◌, ◌^◌, ◌%◌, List, [], ◌∷◌, Option, none, some, Bool, true, false, ◌&&◌, not,
  ◌==◌, if◌then◌else◌, leb,
}
use mapit.Network.Messages.{Kind, Msg, kind_of}
use mapit.Network.Exec.{
  Result, ok, err, runtime_error, logic_error, unending, Exec, pure, ◌>>=◌, ◌>>◌, try_catch,
  is_exception, is_zmq, assert,
}

-- A number of a protobuf enum, which may be negative: `below n` is `-(n + 1)`.
pub data Number : Type 0 where
  at : ℕ → Number
  below : ℕ → Number

-- What the code looks up in the descriptor of a message type.
pub record Descriptor : Type 0 where
  pub comp_type : Bool
  pub comp_id : Option Number
  pub msg_type : Option Number

-- `KeyType`, and the fields of `Header`.
abbrev pub Key : Type 0
Key = ℕ × ℕ

-- What protobuf does, with the messages `F` that ZeroMQ carries: the bytes of headers and messages.
pub record Wire (F : Type 0) : Type 0 where
  pub serialize_header : Key → F
  pub parse_header : F → Key
  pub serialize : Msg → F
  pub parse : Kind → F → Msg
  pub from_bytes : Str → F
  pub to_bytes : F → Str
  pub descriptor : Kind → Descriptor

-- What ZeroMQ does: `connect`, `bind`, `disconnect`, `recv`, which gives nothing after a timeout, `send` with
-- or without `ZMQ_SNDMORE`, and `ZMQ_RCVMORE`. The loops over parts take `rounds` as their fuel.
pub record Net (F S : Type 0) : Type 0 where
  pub wire : Wire F
  pub connect : Str → Exec S (Unit {0})
  pub bind : Str → Exec S (Unit {0})
  pub disconnect : Str → Exec S (Unit {0})
  pub recv : Exec S (Option F)
  pub send : F → Bool → Exec S (Unit {0})
  pub has_more : S → Bool
  pub rounds : ℕ

-- The members. A delegate is the handler that was registered for a type, so the type names it.
pub record Node (S : Type 0) : Type 0 where
  pub socket : S
  pub connected : Bool
  pub is_reply : Bool
  pub address : Str
  pub factories : List (Key × Kind)
  pub delegates : List (Key × Kind)

-- The constructor, on a new socket.
abbrev pub new_node : {S : Type 0} → S → Bool → Node S
new_node s reply = record {
  socket = s;
  connected = false;
  is_reply = reply;
  address = [];
  factories = [];
  delegates = [];
}

abbrev pub key_eq : Key → Key → Bool
key_eq (a, b) (c, d) = a == c && b == d

unfoldable pub find : Key → List (Key × Kind) → Option Kind
find k [] = none
find k ((j, kind) ∷ m) = if key_eq j k then some kind else find k m

-- `comp_id < 0 || comp_id > max`
abbrev pub in_16_bits : Number → Result ℕ
in_16_bits (below n) = err logic_error
in_16_bits (at n) = if leb n (2 ^ 16 - 1) then ok n else err logic_error

abbrev pub paired : Result ℕ → Result ℕ → Result Key
paired (ok a) (ok b) = ok (a, b)
paired (ok a) (err e) = err e
paired (err e) r = err e

abbrev pub numbers : Option Number → Option Number → Result Key
numbers (some a) (some b) = paired (in_16_bits a) (in_16_bits b)
numbers (some a) none = err logic_error
numbers none b = err logic_error

unfoldable pub key_from_desc : Descriptor → Result Key
key_from_desc desc = if desc.comp_type then numbers desc.comp_id desc.msg_type else err logic_error

-- The arguments of `get_handler_for_message` and `get_factory_for_message` are `uint16_t`.
abbrev pub narrow : Key → Key
narrow (a, b) = (a % 2 ^ 16, b % 2 ^ 16)

unfoldable pub registered : Key → List (Key × Kind) → Result Kind
unfolding find
registered key m = elim (find (narrow key) m) [ some kind ↦ ok kind | none ↦ err runtime_error ]

module _ {F S : Type 0} (net : Net F S) where
  abbrev pub from_result : {A : Type 0} → Result A → Exec (Node S) A
  from_result r n = (r, n)

  abbrev pub socket_call : {A : Type 0} → Exec S A → Exec (Node S) A
  socket_call m n = let (r, s) = m n.socket in (r, record n { socket = s })

  abbrev pub gets : {A : Type 0} → (Node S → A) → Exec (Node S) A
  gets f n = (ok (f n), n)

  abbrev pub has_more : Node S → Bool
  has_more n = net.has_more n.socket

  abbrev pub guard_connected : Exec (Node S) (Unit {0})
  guard_connected n = if n.connected then (ok tt, n) else (err runtime_error, n)

  abbrev pub no_more : Exec (Node S) (Unit {0})
  no_more n = assert (not (has_more n)) n

  abbrev pub set_connected : Str → Bool → Exec (Node S) (Unit {0})
  set_connected address connected n = (ok tt, record n { address = address; connected = connected })

  unfoldable pub connect : Str → Exec (Node S) (Unit {0})
  connect url n =
      let attempt =
        try_catch (socket_call (net.connect url) >> set_connected url true) is_zmq
          (λ n'. set_connected n'.address false n') in
      if n.connected then (err runtime_error, n) else attempt n

  unfoldable pub bind : Str → Exec (Node S) (Unit {0})
  bind url n =
      let attempt = socket_call (net.bind url) >> (λ n'. set_connected n'.address true n') in
      if n.connected then (err runtime_error, n) else attempt n

  unfoldable pub send_pb_single : F → Bool → Exec (Node S) (Unit {0})
  send_pb_single msg more = do guard_connected; no_more; socket_call (net.send msg more)

  -- The header goes first; `sndmore` says that parts follow the message.
  unfoldable pub send : Msg → Bool → Exec (Node S) (Unit {0})
  unfolding send_pb_single key_from_desc
  send msg sndmore = do
    guard_connected
    no_more
    key ← from_result (key_from_desc (net.wire.descriptor (kind_of msg)))
    send_pb_single (net.wire.serialize_header key) true
    send_pb_single (net.wire.serialize msg) sndmore

  unfoldable pub send_raw_body : Str → Bool → Exec (Node S) (Unit {0})
  send_raw_body bytes more = do
    guard_connected
    no_more
    socket_call (net.send (net.wire.from_bytes bytes) more)

  -- `recv` into a new message, which stays empty where nothing comes.
  abbrev pub or_empty : Option F → F
  or_empty none = net.wire.from_bytes []
  or_empty (some part) = part

  unfoldable pub receive_raw_body : Exec (Node S) Str
  receive_raw_body = do part ← socket_call net.recv; pure (net.wire.to_bytes (or_empty part))

  unfoldable pub discard_from : ℕ → Exec (Node S) (Unit {0})
  discard_from zero n = (err unending, n)
  discard_from (suc fuel) n = elim (has_more n) [
    | true ↦ (socket_call net.recv >>= λ part. discard_from fuel) n
    | false ↦ (ok tt, n)
  ]

  unfoldable pub discard_more : Exec (Node S) (Unit {0})
  unfolding discard_from
  discard_more = discard_from net.rounds

  -- The body that follows a header, as a message of a registered type.
  unfoldable pub receive_body : Key → Exec (Node S) (Option Msg)
  unfolding registered
  receive_body h = do
    body ← socket_call net.recv
    factories ← gets (λ n. n.factories)
    kind ← from_result (registered h factories)
    pure (some (net.wire.parse kind (or_empty body)))

  unfoldable pub receive_after : Key → Option F → Exec (Node S) (Option Msg)
  unfolding receive_body
  receive_after key none = do
    address ← gets (λ n. n.address)
    socket_call (net.disconnect address)
    set_connected address false
    pure none
  receive_after key (some bytes) =
      let h = net.wire.parse_header bytes in if key_eq h key then receive_body h else pure none

  -- `receive<MT>`; a null pointer is `none`.
  unfoldable pub receive : Kind → Exec (Node S) (Option Msg)
  unfolding receive_after key_from_desc
  receive kind = do
    key ← from_result (key_from_desc (net.wire.descriptor kind))
    is_connected ← gets (λ n. n.connected)
    if is_connected then (socket_call net.recv >>= receive_after key) else pure none

  abbrev pub add_factory : Key → Kind → Exec (Node S) (Unit {0})
  add_factory key kind n = (ok tt, record n { factories = (key, kind) ∷ n.factories })

  abbrev pub add_delegate : Key → Kind → Exec (Node S) (Unit {0})
  add_delegate key kind n = (ok tt, record n { delegates = (key, kind) ∷ n.delegates })

  abbrev pub if_new : Key → List (Key × Kind) → Exec (Node S) (Unit {0})
  if_new key m n = elim (find key m) [ some kind ↦ (err runtime_error, n) | none ↦ (ok tt, n) ]

  -- `add_receivable_message_type`, without a handler and with one.
  unfoldable pub add_receivable : Kind → Exec (Node S) (Unit {0})
  unfolding key_from_desc find
  add_receivable kind = do
    key ← from_result (key_from_desc (net.wire.descriptor kind))
    factories ← gets (λ n. n.factories)
    if_new key factories
    add_factory key kind

  unfoldable pub add_handled : Kind → Exec (Node S) (Unit {0})
  unfolding add_receivable find
  add_handled kind = do
    add_receivable kind
    key ← from_result (key_from_desc (net.wire.descriptor kind))
    delegates ← gets (λ n. n.delegates)
    if_new key delegates
    add_delegate key kind

-- A node, and what its owner has beside it.
pub record Peer (S D : Type 0) : Type 0 where
  pub node : Node S
  pub own : D

abbrev pub on_node : {S D A : Type 0} → Exec (Node S) A → Exec (Peer S D) A
on_node m s = let (r, n) = m s.node in (r, record s { node = n })

module _ {F S D : Type 0} (net : Net F S) (handler : Msg → Exec (Peer S D) (Unit {0})) where
  -- The handler of the type that the header names. Whatever it throws is caught, and parts that it left
  -- are discarded; parts that are left then fail an assertion.
  unfoldable pub dispatch : Key → F → Exec (Peer S D) (Unit {0})
  unfolding registered discard_more
  dispatch h body = do
    delegates ← on_node (gets net (λ n. n.delegates))
    kind ← on_node (from_result net (registered h delegates))
    try_catch (handler (net.wire.parse kind body)) is_exception
        (try_catch (on_node (discard_more net)) is_exception (pure tt))
    on_node (no_more net)

  unfoldable pub dispatch_after : Option F → Exec (Peer S D) (Unit {0})
  unfolding dispatch
  dispatch_after none = pure tt
  dispatch_after (some bytes) = do
    body ← on_node (socket_call net net.recv)
    dispatch (net.wire.parse_header bytes) (or_empty net body)

  unfoldable pub receive_and_dispatch : Exec (Peer S D) (Unit {0})
  unfolding dispatch_after
  receive_and_dispatch = do
    on_node (guard_connected net)
    is_reply ← on_node (gets net (λ n. n.is_reply))
    assert is_reply
    on_node (socket_call net net.recv) >>= dispatch_after
