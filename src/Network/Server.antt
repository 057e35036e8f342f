-- ===== src/Network/Server.antt =====
-- What the handlers of ZmqResponderPrivate (libs/networking_node/src/zmqresponder_p.cpp) share: the node and
-- the repository, the libraries, and replies.
use mapit.Base.{Str, ℕ, List, Option, none, some, Bool, false, if◌then◌else◌}
use mapit.Messages.{Codec}
use mapit.Serializer.Disk.{Disk}
use mapit.Workspace.{Workspace}
use mapit.Operators.{Library}
use mapit.EntityData.{Provider}
use mapit.Network.Exec.{ok, Exec, ◌>>◌}
use mapit.Network.Messages.{Msg}
use mapit.Network.Node.{Net, Peer, on_node, send, discard_more}

-- What the repository runs on: the codec, the libraries of layer types and of operators, what a directory
-- iterator gives below the workspaces, and the fuel of the searches.
pub record Host : Type 0 where
  pub codec : Codec
  pub loads : Str → Bool
  pub directories : Disk → Option (List (Str × Bool))
  pub install_operators : Str
  pub debug : Str
  pub dlopen : Str → Option (Library Workspace)
  pub fuel : ℕ

-- `EntityDataLibraryManager` makes entity data of a provider where it finds the library of the type.
abbrev pub wrap : Host → Str → Provider → Option Provider
wrap host type provider = if host.loads type then some provider else none

abbrev pub Server : Type 0 → Type 0
Server S = Peer S Disk

module _ {S : Type 0} where
  abbrev pub gets_disk : {A : Type 0} → (Disk → A) → Exec (Server S) A
  gets_disk f s = (ok (f s.own), s)

  -- A call of the core that changes files.
  abbrev pub with_disk : {A : Type 0} → (Disk → A × Disk) → Exec (Server S) A
  with_disk f s = let (a, d) = f s.own in (ok a, record s { own = d })

  abbrev pub put_disk : Disk → Exec (Server S) (Unit {0})
  put_disk d s = (ok tt, record s { own = d })

  -- The status of a call that changes a workspace; its files are those of the server.
  abbrev pub saved : ℕ × Workspace → Exec (Server S) ℕ
  saved (status, w) s = (ok status, record s { own = w.disk })

  module _ {F : Type 0} (net : Net F S) where
    -- `send( std::move( rep ) )`
    abbrev pub reply : Msg → Exec (Server S) (Unit {0})
    reply msg = on_node (send net msg false)

    -- The parts that are left are read, and an error is sent.
    abbrev pub refuse : Msg → Exec (Server S) (Unit {0})
    refuse msg = on_node (discard_more net) >> reply msg
