-- ===== src/Network/Link.antt =====
-- A requester and a responder (libs/networking_node) that are connected: what the one sends, the other handles.
pub mod Steps
pub mod Remote
pub mod Data
pub mod Writing
pub mod Reading
pub mod Changes
pub mod Failures
pub mod Ranks
pub mod Registration
use mapit.Base.{Str, ℕ, List, [], ◌∷◌, ◌++◌, Option, none, some, Bool, true, false, if◌then◌else◌}
use mapit.Serializer.Disk.{Disk}
use mapit.Network.Exec.{Result, ok, err, Exec}
use mapit.Network.Messages.{Kind}
use mapit.Network.Node.{Key, Wire, Net, Node, Peer, receive_and_dispatch}
use mapit.Network.Server.{Server, Host}
use mapit.Network.Responder.{handle}
use mapit.Network.Mailbox.{
  Mailbox, Turn, to_send, to_receive, turn_with, mailbox, send_at, recv_at, is_some_part,
}

pub record Link (F : Type 0) : Type 0 where
  pub server : Server (Mailbox F)
  pub client : Mailbox F

abbrev pub parts_of : {F : Type 0} → List (F × Bool) → List F
parts_of [] = []
parts_of ((p, more) ∷ ps) = p ∷ parts_of ps

module _ {F : Type 0} (wire : Wire F) (rounds : ℕ) (host : Host) where
  abbrev pub server_net : Net F (Mailbox F)
  server_net = mailbox wire rounds

  -- `handleRequest`
  unfoldable pub serve : Server (Mailbox F) → Server (Mailbox F)
  unfolding receive_and_dispatch
  serve s = (receive_and_dispatch server_net (handle server_net host) s).1

  -- The parts of a message, as the other side receives them.
  abbrev pub delivered : List F → List (F × List F)
  delivered [] = []
  delivered (p ∷ ps) = (p, ps) ∷ []

  abbrev pub put_socket : Mailbox F → Server (Mailbox F) → Server (Mailbox F)
  put_socket m s = record s { node = record (s.node) { socket = m } }

  -- The request goes to the server, which handles it, and the reply comes back.
  unfoldable pub exchange : Link F → Link F
  unfolding serve
  exchange l =
      let request = delivered (parts_of l.client.sent) in
      let asked = put_socket (record (l.server.node.socket) { waiting = request }) l.server in
      let s = serve asked in
      record {
        server = put_socket (record (s.node.socket) { sent = [] }) s;
        client = record (l.client) { sent = []; waiting = delivered (parts_of s.node.socket.sent) };
      }

  abbrev pub sent_part : Bool → Result (Unit {0}) × Link F → Result (Unit {0}) × Link F
  sent_part false (ok a, l) = (ok a, exchange l)
  sent_part true (ok a, l) = (ok a, l)
  sent_part more (err e, l) = (err e, l)

  abbrev pub on_client : {A : Type 0} → Exec (Mailbox F) A → Exec (Link F) A
  on_client m l = let (r, c) = m l.client in (r, record l { client = c })

  -- The socket of the requester. The server runs when the last part of a request is sent.
  abbrev pub link : Net F (Link F)
  link = record {
    wire = wire;
    connect = λ url l. (ok tt, l);
    bind = λ url l. (ok tt, l);
    disconnect = λ url l. (ok tt, l);
    recv = on_client (λ m. recv_at m.turn m);
    send = λ part more l. sent_part more (on_client (send_at l.client.turn part more) l);
    has_more = λ l. is_some_part l.client.unread;
    rounds = rounds;
  }
