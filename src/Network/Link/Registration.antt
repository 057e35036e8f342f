-- ===== src/Network/Link/Registration.antt =====
-- What the constructors of a responder and a requester register (libs/networking_node/src/zmqresponder_p.cpp and
-- zmqrequester_p.cpp), by the numbers that the types of the messages have.
use mapit.Base.{
  Str, ℕ, List, [], ◌∷◌, Option, none, some, Bool, true, false, if◌then◌else◌, ◌==◌, ◌%◌, ◌^◌, ◌≡◌,
  refl, sym, subst, ap, ◌∙◌, Bool-cases, inl, inr, arith,
}
use mapit.Network.Exec.{Result, ok, err, runtime_error, logic_error}
use mapit.Network.Messages.{Kind, Msg, kind_of}
use mapit.Network.Server.{Host}
use mapit.Network.Responder.{new_responder}
use mapit.Network.Client.{new_requester}
use mapit.Network.Mailbox.{Mailbox, Turn, to_send, to_receive, mailbox}
use mapit.Network.Node.{
  if_new, paired, Descriptor, narrow, numbers, registered, Number, at, below, in_16_bits, Wire,
  new_node, connect, bind, Key, key_eq, Net, Node, find, key_from_desc, add_receivable, add_handled,
}
use mapit.Network.Responder
use mapit.Network.Client
use mapit.Network.Link.Steps.{Setup, IsWorking, is_request, is_reply}
use mapit.Network.Link.Ranks.{
  rank, rank_injective, knows, fresh, after, handled, received, requests_known, replies_known,
}

module _ (key : Kind → Key) (own : (j k : Kind) → key_eq (key j) (key k) ≡ (rank j == rank k)) where
  abbrev pub entries : List Kind → List (Key × Kind)
  entries [] = []
  entries (k ∷ ks) = (key k, k) ∷ entries ks

  find_lem :
      (k : Kind) (js : List Kind)
      → find (key k) (entries js) ≡ (if knows k js then some k else none)
  unfolding find
  find_lem k [] = refl
  find_lem k (j ∷ js) = elim (Bool-cases (rank j == rank k)) [
    | inl e ↦ rw (own j k, e) (ap (λ i. some i) (rank_injective j k e))
    | inr e ↦ rw (own j k, e) (find_lem k js)
  ]

  pub find_request : (k : Kind) → is_request k ≡ true → find (key k) (entries handled) ≡ some k
  find_request k h = find_lem k handled ∙ rw (requests_known k h) refl

  pub find_reply : (k : Kind) → is_reply k ≡ true → find (key k) (entries received) ≡ some k
  find_reply k h = find_lem k received ∙ rw (replies_known k h) refl

  module _ {F S : Type 0} (net : Net F S)
      (keyed : (k : Kind) → key_from_desc (net.wire.descriptor k) ≡ ok (key k)) where
    abbrev pub with_handled : Node S → List Kind → Node S
    with_handled n js = record n { factories = entries js; delegates = entries js }

    abbrev pub with_received : Node S → List Kind → Node S
    with_received n js = record n { factories = entries js; delegates = [] }

    find_new : (k : Kind) (js : List Kind) → knows k js ≡ false → find (key k) (entries js) ≡ none
    find_new k js h = find_lem k js ∙ rw h refl

    if_new_lem :
        (k : Kind) (js : List Kind) (n : Node S)
        → knows k js ≡ false
        → if_new net (key k) (entries js) n ≡ (ok tt, n)
    if_new_lem k js n h = rw (find_new k js h, if_new) refl

    add_receivable_lem :
        (k : Kind) (js : List Kind) (n : Node S)
        → knows k js ≡ false
        → add_receivable net k (record n { factories = entries js })
          ≡ (ok tt, record n { factories = entries (k ∷ js) })
    unfolding add_receivable
    add_receivable_lem k js n h =
        rw (keyed k, if_new_lem k js (record n { factories = entries js }) h) refl

    add_handled_lem :
        (k : Kind) (js : List Kind) (n : Node S)
        → knows k js ≡ false
        → add_handled net k (with_handled n js) ≡ (ok tt, with_handled n (k ∷ js))
    unfolding add_handled
    add_handled_lem k js n h =
        rw
          (
            add_receivable_lem k js (with_handled n js) h,
            keyed k,
            if_new_lem k js (record (with_handled n js) { factories = entries (k ∷ js) }) h,
          )
          refl

    pub register_handled :
        (host : Host) (ks js : List Kind) (n : Node S)
        → fresh ks js ≡ true
        → Responder.register net host ks (with_handled n js) ≡ (ok tt, with_handled n (after ks js))
    unfolding Responder.register
    register_handled host [] js n h = refl
    register_handled host (k ∷ ks) js n h =
        let new : knows k js ≡ false = ground arith in
        rw (add_handled_lem k js n new) (register_handled host ks (k ∷ js) n (ground arith))

    pub register_received :
        (ks js : List Kind) (n : Node S)
        → fresh ks js ≡ true
        → Client.register net ks (with_received n js) ≡ (ok tt, with_received n (after ks js))
    unfolding Client.register
    register_received [] js n h = refl
    register_received (k ∷ ks) js n h =
        let new : knows k js ≡ false = ground arith in
        rw (add_receivable_lem k js (with_received n js) new)
          (register_received ks (k ∷ js) n (ground arith))

-- What the code relies on of protobuf: texts are read back, and every type has numbers of its own.
pub record IsWire {F : Type 0} (wire : Wire F) (key : Kind → Key) : Type 0 where
  pub header : (k : Key) → wire.parse_header (wire.serialize_header k) ≡ k
  pub body : (m : Msg) → wire.parse (kind_of m) (wire.serialize m) ≡ m
  pub bytes : (b : Str) → wire.to_bytes (wire.from_bytes b) ≡ b
  pub keyed : (k : Kind) → key_from_desc (wire.descriptor k) ≡ ok (key k)
  pub own : (j k : Kind) → key_eq (key j) (key k) ≡ (rank j == rank k)

in_16_bits_lem : (o : Number) (n : ℕ) → in_16_bits o ≡ ok n → n % 2 ^ 16 ≡ n
in_16_bits_lem (below m) n h = ground arith
in_16_bits_lem (at m) n h = ground arith

-- A new socket.
abbrev pub start : {F : Type 0} → Turn → Mailbox F
start turn = record { turn = turn; unread = []; waiting = []; sent = []; refusals = [] }

-- A connection, as the constructors make it.
abbrev pub connected : {F : Type 0} → Wire F → (Kind → Key) → ℕ → Host → ℕ → Str → Setup F
connected wire key rounds host port url = record {
  wire = wire;
  rounds = rounds;
  host = host;
  url = url;
  delegates =
      (new_responder (mailbox wire rounds) host port
        (new_node (start to_receive) true)).1.delegates;
  factories =
      (new_requester (mailbox wire rounds) url (new_node (start to_send) false)).1.factories;
  key = key;
}

paired_lem : (r s : Result ℕ) (k : Key) → paired r s ≡ ok k → (r ≡ ok k.0) × (s ≡ ok k.1)
paired_lem (ok a) (ok b) k h = (ground arith, ground arith)
paired_lem (ok a) (err e) k h = absurd (ground arith)
paired_lem (err e) s k h = absurd (ground arith)

numbers_lem : (a b : Option Number) (k : Key) → numbers a b ≡ ok k → narrow k ≡ k
numbers_lem none b k h = absurd (ground arith)
numbers_lem (some a) none k h = absurd (ground arith)
numbers_lem (some a) (some b) k h =
    let (ea, eb) = paired_lem (in_16_bits a) (in_16_bits b) k h in
    rw (in_16_bits_lem a k.0 ea, in_16_bits_lem b k.1 eb) refl

if_ok : (b : Bool) (r : Result Key) (k : Key) → (if b then r else err logic_error) ≡ ok k → r ≡ ok k
if_ok true r k h = h
if_ok false r k h = absurd (ground arith)

-- The numbers of a type fit into 16 bits.
narrow_lem : (desc : Descriptor) (k : Key) → key_from_desc desc ≡ ok k → narrow k ≡ k
unfolding key_from_desc
narrow_lem desc k h =
    numbers_lem desc.comp_id desc.msg_type k
      (if_ok desc.comp_type (numbers desc.comp_id desc.msg_type) k h)

module _ {F : Type 0} (wire : Wire F) (key : Kind → Key) (laws : IsWire wire key) where
  responder_lem :
      (rounds : ℕ) (host : Host) (port : ℕ)
      → new_responder (mailbox wire rounds) host port (new_node (start to_receive) true) ≡ (
        ok tt,
        record (new_node (start to_receive) true) {
          connected = true;
          factories = entries key laws.own handled;
          delegates = entries key laws.own handled;
        },
      )
  unfolding new_responder bind
  responder_lem rounds host port =
      rw
        (register_handled key laws.own (mailbox wire rounds) laws.keyed host Responder.receivable []
          (new_node (start to_receive) true) refl)
        refl

  requester_lem :
      (rounds : ℕ) (url : Str)
      → new_requester (mailbox wire rounds) url (new_node (start to_send) false) ≡ (
        ok tt,
        record (new_node (start to_send) false) {
          connected = true;
          address = url;
          factories = entries key laws.own received;
        },
      )
  unfolding new_requester connect
  requester_lem rounds url =
      rw
        (register_received key laws.own (mailbox wire rounds) laws.keyed
          (Client.receivable (mailbox wire rounds)) []
          (record (new_node (start to_send) false) { connected = true; address = url }) refl)
        refl

  registered_lem :
      (k : Kind) (js : List Kind)
      → find (key k) (entries key laws.own js) ≡ some k
      → registered (key k) (entries key laws.own js) ≡ ok k
  unfolding registered
  registered_lem k js h =
      let own_key : narrow (key k) ≡ key k =
        narrow_lem (wire.descriptor k) (key k) (laws.keyed k) in
      subst
        (λ j.
          (elim (find j (entries key laws.own js)) [
            | some kind ↦ ok kind
            | none ↦ err runtime_error
          ])
          ≡ ok k)
        (sym own_key) (rw h refl)

-- Where every type of message has numbers of its own in its descriptor, the constructors register all they
-- have to: a responder has a handler for every request and a requester can receive every reply (but to
-- the plain hierarchy), so the connection works.
pub connected-IsWorking :
    {F : Type 0} (wire : Wire F) (key : Kind → Key) (rounds : ℕ) (host : Host) (port : ℕ)
    (url : Str)
    → IsWire wire key
    → IsWorking (connected wire key rounds host port url)
unfolding new_responder new_requester
connected-IsWorking wire key rounds host port url laws = record {
  header = laws.header;
  body = laws.body;
  bytes = laws.bytes;
  keyed = laws.keyed;
  requests = λ k h.
      rw (connected, responder_lem wire key laws rounds host port)
        (registered_lem wire key laws k handled (find_request key laws.own k h));
  replies = λ k h.
      rw (connected, requester_lem wire key laws rounds url)
        (registered_lem wire key laws k received (find_reply key laws.own k h));
}
