-- ===== src/Network/Client.antt =====
-- What the requester's classes share (libs/networking_node/src/zmqrequester_p.cpp and zmqrequester_p.h): the node,
-- the mutex, and how a reply is asked for.
use mapit.Base.{Str, List, [], ◌∷◌, Option, none, some, Bool, true, false, if◌then◌else◌}
use mapit.Network.Exec.{ok, err, Exec, deadlock, crash, pure, raise, ◌>>=◌, ◌>>◌}
use mapit.Network.Messages.{Kind, Msg}
use mapit.Network.Node.{Net, Node, Peer, on_node, send, receive, connect, add_receivable}

-- `m_requestMutex` is locked, or it is not.
abbrev pub Client : Type 0 → Type 0
Client S = Peer S Bool

module _ {S : Type 0} where
  abbrev pub lock : Exec (Client S) (Unit {0})
  lock s = if s.own then (err deadlock, s) else (ok tt, record s { own = true })

  abbrev pub unlock : Exec (Client S) (Unit {0})
  unlock s = (ok tt, record s { own = false })

  module _ {F : Type 0} (net : Net F S) where
    -- A request is sent and its reply received, under the mutex.
    unfoldable pub ask : Msg → Kind → Exec (Client S) (Option Msg)
    unfolding send receive
    ask req kind = do
      lock
      on_node (send net req false)
      rep ← on_node (receive net kind)
      unlock
      pure rep

    -- `rep->`, through a null pointer or not.
    abbrev pub not_null : Option Msg → Exec (Client S) Msg
    not_null none = raise crash
    not_null (some rep) = pure rep

    abbrev pub receivable : List Kind
    receivable =
        Kind.reply_workspace ∷ Kind.reply_entitydata ∷ Kind.reply_hierarchy
        ∷ Kind.reply_list_workspaces ∷ Kind.reply_operator_execution ∷ Kind.reply_generic_entry
        ∷ Kind.reply_store_entity ∷ Kind.reply_store_tree ∷ Kind.reply_delete_entity
        ∷ Kind.reply_delete_tree ∷ []

    unfoldable pub register : List Kind → Exec (Node S) (Unit {0})
    unfolding add_receivable
    register [] = pure tt
    register (kind ∷ kinds) = add_receivable net kind >> register kinds

    -- The constructor.
    unfoldable pub new_requester : Str → Exec (Node S) (Unit {0})
    unfolding connect register
    new_requester url = connect net url >> register receivable
