-- ===== src/Network/Responder/Rounds.antt =====
-- A responder (libs/networking_node) in the course of time, whatever it is sent.
use mapit.Base.{Option, none, some, Bool, true, false}
use mapit.Serializer.History.{Kept, Kept-Preserves, Preserves}
use mapit.Network.Exec.{assert, ok, Exec, pure, is_exception, try_catch, ◌>>=◌, ◌>>◌}
use mapit.Network.Messages.{Kind}
use mapit.Network.Node.{
  registered, from_result, socket_call, gets, or_empty, guard_connected, no_more, discard_more, Net,
  Key, on_node, dispatch, dispatch_after, receive_and_dispatch,
}
use mapit.Network.Server.{Server, Host}
use mapit.Network.Responder.{handle}
use mapit.EntityData.History.{Kept-refl, Kept-trans}
use mapit.Network.Responder.History.{Safe, bind-Safe, catch-Safe, still, pure-Safe, then-Safe}
use mapit.Network.Responder.Safety.{OperatorsKeep, handle-Safe}

-- What a responder comes to: messages arrive, or anything else happens to its socket, and it runs
-- `receive_and_dispatch`, with whatever outcome.
pub data Served {F S : Type 0} (net : Net F S) (host : Host) (s : Server S)
    : Server S → Type 0 where
  started : Served net host s s
  arrived :
      {t : Server S} (socket : S)
      → Served net host s t
      → Served net host s (record t { node = record (t.node) { socket = socket } })
  dispatched :
      {t : Server S}
      → Served net host s t
      → Served net host s (receive_and_dispatch net (handle net host) t).1

module _ {F S : Type 0} (net : Net F S) (host : Host) (operators : OperatorsKeep host) where
  abbrev handled : F → Kind → Exec (Server S) (Unit {0})
  handled body kind =
      try_catch (handle net host (net.wire.parse kind body)) is_exception
        (try_catch (on_node (discard_more net)) is_exception (pure tt))
      >> on_node (no_more net)

  handled-Safe : (body : F) (kind : Kind) → Safe (handled body kind)
  handled-Safe body kind =
      let discard = try_catch (on_node (discard_more net)) is_exception (pure tt) in
      let run = handle net host (net.wire.parse kind body) in
      then-Safe (try_catch run is_exception discard) (on_node (no_more net))
        (catch-Safe run is_exception discard
          (handle-Safe host operators net (net.wire.parse kind body))
          (catch-Safe (on_node (discard_more net)) is_exception (pure tt) (still (discard_more net))
            (pure-Safe (ok tt))))
        (still (no_more net))

  dispatch-Safe : (h : Key) (body : F) → Safe (dispatch net (handle net host) h body)
  unfolding dispatch
  dispatch-Safe h body =
      bind-Safe (on_node (gets net (λ n. n.delegates)))
        (λ ds. on_node (from_result net (registered h ds)) >>= handled body)
        (still (gets net (λ n. n.delegates)))
        (λ ds.
          bind-Safe (on_node (from_result net (registered h ds))) (handled body)
            (still (from_result net (registered h ds))) (handled-Safe body))

  dispatch_after-Safe : (part : Option F) → Safe (dispatch_after net (handle net host) part)
  unfolding dispatch_after
  dispatch_after-Safe none = pure-Safe (ok tt)
  dispatch_after-Safe (some bytes) =
      bind-Safe (on_node (socket_call net net.recv))
        (λ body. dispatch net (handle net host) (net.wire.parse_header bytes) (or_empty net body))
        (still (socket_call net net.recv))
        (λ body. dispatch-Safe (net.wire.parse_header bytes) (or_empty net body))

  assert-Safe : (b : Bool) → Safe (assert {S = Server S} b)
  assert-Safe true = λ s. Kept-refl s.own
  assert-Safe false = λ s. Kept-refl s.own

  abbrev received : Exec (Server S) (Unit {0})
  received = on_node (socket_call net net.recv) >>= dispatch_after net (handle net host)

  round-Safe : Safe (receive_and_dispatch net (handle net host))
  unfolding receive_and_dispatch
  round-Safe =
      then-Safe (on_node (guard_connected net))
        (on_node (gets net (λ n. n.is_reply)) >>= λ reply. (assert reply >> received))
        (still (guard_connected net))
        (bind-Safe (on_node (gets net (λ n. n.is_reply))) (λ reply. assert reply >> received)
          (still (gets net (λ n. n.is_reply)))
          (λ reply. then-Safe (assert reply) received (assert-Safe reply) (
            bind-Safe (on_node (socket_call net net.recv)) (dispatch_after net (handle net host))
              (still (socket_call net net.recv)) dispatch_after-Safe)))

  Served-Kept : {s t : Server S} → Served net host s t → Kept s.own t.own
  Served-Kept {s} started = Kept-refl s.own
  Served-Kept (arrived socket r) = Served-Kept r
  Served-Kept {s} (dispatched {t} r) = Kept-trans s.own t.own _ (Served-Kept r) (round-Safe t)

-- Whatever messages arrive at a responder, and however the network fails it, it leaves every stored tree,
-- entity, commit and branch as it was, if the operators do that are loaded.
pub responder_keeps_history :
    {F S : Type 0} (net : Net F S) (host : Host) (s t : Server S)
    → OperatorsKeep host
    → Served net host s t
    → Preserves host.codec s.own t.own
responder_keeps_history net host s t operators r =
    Kept-Preserves host.codec s.own t.own (Served-Kept net host operators r)
