-- ===== src/Network/Link/Failures.antt =====
-- Where a connection of libs/networking_node comes to a halt.
use mapit.Base.{Str, ℕ, List, [], none, some, true, false, ◌≡◌, refl}
use mapit.Serializer.Disk.{Disk}
use mapit.Workspace.{Workspace}
use mapit.Repository
use mapit.Outcome.{returned}
use mapit.Network.Exec.{ok, err, deadlock, zmq_error}
use mapit.Network.Messages.{
  Kind, Msg, RequestEntitydata, DataStatus, ask_entitydata, ask_hierarchy_plain, say_entitydata,
}
use mapit.Network.Node.{receive_and_dispatch}
use mapit.Network.Responder.{
  Listing, handle, handle_request_hierarchy_plain, answer_hierarchy_plain, list_entities,
}
use mapit.Network.Responder.Data.{
  data_reply, refuse_data, answer_entitydata, handle_request_entitydata,
}
use mapit.Network.Client.{ask}
use mapit.Network.Requester.{Provider}
use mapit.Network.StreamProvider.{max_buffer_size, start_read_buffer, read_reply}
use mapit.Network.Mailbox.{to_send}
use mapit.Network.Link.Steps.{
  Setup, IsWorking, Replies, to_server, to_link, server_with, client_at, client_with, idle, head,
  send_lem,
}
use mapit.Network.Link.Reading.{request_data_lem}

-- A responder that is asked for the entities of a workspace that is there, and can list them, sends
-- nothing and changes nothing. It is then its turn to send, so every later `receive_and_dispatch` fails with an
-- error of ZeroMQ, whatever messages wait.
pub hierarchy_plain-silent :
    {F : Type 0} (up : Setup F) (name : Str) (w : Workspace) (r : ℕ × Listing) (d : Disk)
    (waiting : List (F × List F))
    → Repository.get_workspace up.host.codec name d ≡ some w
    → list_entities up.host w ≡ returned r
    → let s = server_with up (record (idle up to_send) { waiting = waiting }) d in
      (handle (to_server up) up.host (ask_hierarchy_plain name) s ≡ (ok tt, s))
      × (receive_and_dispatch (to_server up) (handle (to_server up) up.host) s ≡ (err zmq_error, s))
unfolding handle handle_request_hierarchy_plain answer_hierarchy_plain receive_and_dispatch
hierarchy_plain-silent up name w r d waiting h k = (rw (h, k) refl, refl)

module _ {F : Type 0} (up : Setup F) (works : IsWorking up) where
  -- The reply where there is no such workspace.
  not_found-Replies :
      (req : RequestEntitydata) (d : Disk)
      → Repository.get_workspace up.host.codec req.workspace d ≡ none
      → Replies up
          (ask_entitydata req)
          []
          d
          (head up (say_entitydata (data_reply DataStatus.not_found 0 0)) false)
          d
  unfolding handle handle_request_entitydata answer_entitydata refuse_data
  not_found-Replies req d h = rw (h, send_lem up works) refl

-- Where the repository has no such workspace, the reading of entity data ends with no buffer, and the
-- mutex of the requester stays locked: every request that follows waits for it and is never sent.
pub start_read_buffer-deadlock :
    {F : Type 0} (up : Setup F) (works : IsWorking up) (p : Provider) (start len : ℕ) (req : Msg)
    (kind : Kind) (d : Disk)
    → Repository.get_workspace up.host.codec p.workspace_name d ≡ none
    → let s = client_with up (idle up to_send) true d in
      (start_read_buffer (to_link up) start len p (client_at up d) ≡ (ok (none, p), s))
      × (ask (to_link up) req kind s ≡ (err deadlock, s))
unfolding start_read_buffer read_reply ask
start_read_buffer-deadlock up works p start len req kind d h = (
  rw
      (request_data_lem up works p start (data_reply DataStatus.not_found 0 0) false [] d d (
        not_found-Replies up works
          (record {
            workspace = p.workspace_name;
            entitypath = p.path_or_oid;
            offset = start;
            maxlength = max_buffer_size;
          })
          d h))
      refl,
  refl,
)
