-- ===== src/Network/Link/Steps.antt =====
-- One request over a connection (libs/networking_node): what the requester sends, the responder handles.
use mapit.Base.{Str, ℕ, List, [], ◌∷◌, some, Bool, true, false, not, ◌≡◌, refl, ◌∙◌, ap, ==_iff}
use mapit.Serializer.Disk.{Disk}
use mapit.Network.Exec.{Result, ok}
use mapit.Network.Messages.{Kind, Msg, kind_of}
use mapit.Network.Node.{
  Key, key_eq, Wire, Net, registered, key_from_desc, send, receive, receive_body, receive_after,
  receive_and_dispatch, dispatch, dispatch_after, send_pb_single,
}
use mapit.Network.Server.{Server, Host}
use mapit.Network.Responder.{handle}
use mapit.Network.Client.{Client, ask}
use mapit.Network.Mailbox.{Mailbox, Turn, to_send, to_receive, turn_with, turn_after}
use mapit.Network.Link.{Link, server_net, serve, exchange, link}

pub key_eq_refl : (k : Key) → key_eq k k ≡ true
key_eq_refl (a, b) = rw ((==_iff a a).1 refl, (==_iff b b).1 refl) refl

-- What a responder has handlers for, and what a requester can receive.
abbrev pub is_request : Kind → Bool
is_request Kind.request_workspace = true
is_request Kind.request_entitydata = true
is_request Kind.request_hierarchy = true
is_request Kind.request_hierarchy_plain = true
is_request Kind.request_list_workspaces = true
is_request Kind.request_operator_execution = true
is_request Kind.request_generic_entry = true
is_request Kind.request_store_entity = true
is_request Kind.request_delete_entity = true
is_request Kind.request_delete_tree = true
is_request _ = false

abbrev pub is_reply : Kind → Bool
is_reply Kind.reply_hierarchy_plain = false
is_reply k = not (is_request k)

-- A responder and a requester: what they run on, and what their constructors have registered.
pub record Setup (F : Type 0) : Type 0 where
  pub wire : Wire F
  pub rounds : ℕ
  pub host : Host
  pub url : Str
  pub delegates : List (Key × Kind)
  pub factories : List (Key × Kind)
  pub key : Kind → Key

-- What the code relies on of protobuf: texts are read back, and every type has its numbers, under which it
-- is registered.
pub record IsWorking {F : Type 0} (up : Setup F) : Type 0 where
  pub header : (k : Key) → up.wire.parse_header (up.wire.serialize_header k) ≡ k
  pub body : (m : Msg) → up.wire.parse (kind_of m) (up.wire.serialize m) ≡ m
  pub bytes : (b : Str) → up.wire.to_bytes (up.wire.from_bytes b) ≡ b
  pub keyed : (k : Kind) → key_from_desc (up.wire.descriptor k) ≡ ok (up.key k)
  pub requests : (k : Kind) → is_request k ≡ true → registered (up.key k) up.delegates ≡ ok k
  pub replies : (k : Kind) → is_reply k ≡ true → registered (up.key k) up.factories ≡ ok k

module _ {F : Type 0} (up : Setup F) where
  abbrev pub to_server : Net F (Mailbox F)
  to_server = server_net up.wire up.rounds up.host

  abbrev pub to_link : Net F (Link F)
  to_link = link up.wire up.rounds up.host

  -- The responder with its socket, and the requester between two requests.
  abbrev pub server_with : Mailbox F → Disk → Server (Mailbox F)
  server_with m d = record {
    node = record {
      socket = m;
      connected = true;
      is_reply = true;
      address = [];
      factories = up.delegates;
      delegates = up.delegates;
    };
    own = d;
  }

  abbrev pub idle : Turn → Mailbox F
  idle turn = record { turn = turn; unread = []; waiting = []; sent = []; refusals = [] }

  -- The responder has the header and the message, and some parts are left.
  abbrev pub asked : List F → Disk → Server (Mailbox F)
  asked parts d = server_with (record (idle (turn_with parts)) { unread = parts }) d

  -- It has sent a whole message.
  abbrev pub answered : List (F × Bool) → Disk → Server (Mailbox F)
  answered out d = server_with (record (idle to_receive) { sent = out }) d

  abbrev pub client_with : Mailbox F → Bool → Disk → Client (Link F)
  client_with m locked d = record {
    node = record {
      socket = record { server = server_with (idle to_receive) d; client = m };
      connected = true;
      is_reply = false;
      address = up.url;
      factories = up.factories;
      delegates = [];
    };
    own = locked;
  }

  abbrev pub client_at : Disk → Client (Link F)
  client_at d = client_with (idle to_send) false d

  -- The header and the message.
  abbrev pub head : Msg → Bool → List (F × Bool)
  head m more =
      (up.wire.serialize_header (up.key (kind_of m)), true) ∷ (up.wire.serialize m, more) ∷ []

  -- The responder handles a request, with parts behind it, by one reply.
  abbrev pub Replies : Msg → List F → Disk → List (F × Bool) → Disk → Type 0
  Replies m rest d out d' = handle to_server up.host m (asked rest d) ≡ (ok tt, answered out d')

  module _ (works : IsWorking up) where
    pub send_lem :
        (m : Msg) (more : Bool) (d : Disk)
        → send to_server m more (asked [] d).node
          ≡ (ok tt, (server_with (record (idle (turn_after more)) { sent = head m more }) d).node)
    unfolding send send_pb_single
    send_lem m more d = rw (works.keyed (kind_of m)) refl

    dispatch_lem :
        (m : Msg) (rest : List F) (out : List (F × Bool)) (d d' : Disk)
        → is_request (kind_of m) ≡ true
        → Replies m rest d out d'
        → dispatch to_server
            (handle to_server up.host)
            (up.key (kind_of m))
            (up.wire.serialize m)
            (asked rest d)
          ≡ (ok tt, answered out d')
    unfolding dispatch
    dispatch_lem m rest out d d' h k = rw (works.requests (kind_of m) h, works.body m, k) refl

    pub serve_lem :
        (m : Msg) (rest : List F) (out : List (F × Bool)) (d d' : Disk)
        → is_request (kind_of m) ≡ true
        → Replies m rest d out d'
        → serve up.wire up.rounds up.host (
            server_with
              (record (idle to_receive) {
                waiting =
                    (up.wire.serialize_header (up.key (kind_of m)), up.wire.serialize m ∷ rest)
                    ∷ [];
              })
              d)
          ≡ answered out d'
    unfolding serve receive_and_dispatch dispatch_after
    serve_lem m rest out d d' h k =
        ap
          (λ (x : Key).
            (dispatch to_server (handle to_server up.host) x (up.wire.serialize m)
              (asked rest d)).1)
          (works.header (up.key (kind_of m)))
        ∙ ap (λ (r : Result (Unit {0}) × Server (Mailbox F)). r.1)
            (dispatch_lem m rest out d d' h k)

    pub ask_lem :
        (req rep : Msg) (d d' : Disk)
        → is_request (kind_of req) ≡ true
        → is_reply (kind_of rep) ≡ true
        → Replies req [] d (head rep false) d'
        → ask to_link req (kind_of rep) (client_at d) ≡ (ok (some rep), client_at d')
    unfolding ask send send_pb_single receive receive_after receive_body exchange
    ask_lem req rep d d' h g k =
        rw
          (
            works.keyed (kind_of req),
            serve_lem req [] (head rep false) d d' h k,
            works.keyed (kind_of rep),
            works.header (up.key (kind_of rep)),
            key_eq_refl (up.key (kind_of rep)),
            works.replies (kind_of rep) g,
            works.body rep,
          )
          refl
