-- ===== src/Network/Mailbox.antt =====
-- A socket of the request-reply pattern as ZeroMQ documents it, over which the theorems on
-- libs/networking_node are stated: a side sends and receives in turn, and a message comes whole.
use mapit.Base.{ℕ, List, [], ◌∷◌, ◌++◌, Option, none, some, Bool, true, false}
use mapit.Network.Exec.{ok, err, zmq_error, Exec}
use mapit.Network.Node.{Wire, Net}

pub data Turn : Type 0 where
  to_send to_receive : Turn

-- The parts that are left of the message being received, the messages that wait, the parts that were sent, with
-- `ZMQ_SNDMORE` or not, and whether the next calls of `send` fail.
pub record Mailbox (F : Type 0) : Type 0 where
  pub turn : Turn
  pub unread : List F
  pub waiting : List (F × List F)
  pub sent : List (F × Bool)
  pub refusals : List Bool

-- It is the side's turn to receive until it has the last part, and to send until it has sent it.
abbrev pub turn_with : {F : Type 0} → List F → Turn
turn_with [] = to_send
turn_with (p ∷ ps) = to_receive

abbrev pub turn_after : Bool → Turn
turn_after true = to_send
turn_after false = to_receive

module _ {F : Type 0} where
  abbrev pub post : F → Bool → List Bool → Exec (Mailbox F) (Unit {0})
  post part more [] m = (
    ok tt,
    record m { turn = turn_after more; sent = m.sent ++ (part, more) ∷ []; refusals = [] },
  )
  post part more (false ∷ rs) m = (
    ok tt,
    record m { turn = turn_after more; sent = m.sent ++ (part, more) ∷ []; refusals = rs },
  )
  post part more (true ∷ rs) m = (err zmq_error, record m { refusals = rs })

  abbrev pub send_at : Turn → F → Bool → Exec (Mailbox F) (Unit {0})
  send_at to_receive part more m = (err zmq_error, m)
  send_at to_send part more m = post part more m.refusals m

  abbrev pub fetch : List (F × List F) → List F → Exec (Mailbox F) (Option F)
  fetch waiting (p ∷ ps) m = (ok (some p), record m { turn = turn_with ps; unread = ps })
  fetch [] [] m = (ok none, m)
  fetch ((p, ps) ∷ rest) [] m =
      (ok (some p), record m { turn = turn_with ps; unread = ps; waiting = rest })

  abbrev pub recv_at : Turn → Exec (Mailbox F) (Option F)
  recv_at to_send m = (err zmq_error, m)
  recv_at to_receive m = fetch m.waiting m.unread m

  abbrev pub is_some_part : List F → Bool
  is_some_part [] = false
  is_some_part (p ∷ ps) = true

  abbrev pub mailbox : Wire F → ℕ → Net F (Mailbox F)
  mailbox wire rounds = record {
    wire = wire;
    connect = λ url m. (ok tt, m);
    bind = λ url m. (ok tt, m);
    disconnect = λ url m. (ok tt, m);
    recv = λ m. recv_at m.turn m;
    send = λ part more m. send_at m.turn part more m;
    has_more = λ m. is_some_part m.unread;
    rounds = rounds;
  }
