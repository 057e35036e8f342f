-- ===== src/Network/Responder/Data.antt =====
-- `handleRequestEntitydata` of libs/networking_node/src/zmqresponder_p.cpp: entity data is sent in parts.
pub mod Safety
use mapit.Base.{
  Str, ℕ, zero, suc, ◌-◌, [], Option, none, some, Bool, true, false, if◌then◌else◌, ◌==◌, ltb, leb,
  length,
}
use mapit.Serializer.Transient.{split_at}
use mapit.Workspace.{Workspace}
use mapit.Repository.{get_workspace}
use mapit.EntityData.{Provider, start_read, get_stream_size, get_entitydata_read_only}
use mapit.Network.Exec.{err, Exec, unending, pure, is_zmq, is_exception, try_catch, ◌>>=◌, ◌>>◌}
use mapit.Network.Messages.{
  RequestEntitydata, ReplyEntitydata, DataStatus, not_found, exceeded_boundary, success,
  say_entitydata,
}
use mapit.Network.Node.{Net, Node, on_node, send, send_raw_body}
use mapit.Network.Server.{Server, Host, wrap, reply, gets_disk}

-- `sizeof(buffer)`
abbrev pub buffer_size : ℕ
buffer_size = 4096

abbrev pub data_reply : DataStatus → ℕ → ℕ → ReplyEntitydata
data_reply status received entity = record {
  status = status;
  receivedlength = received;
  entitylength = entity;
}

-- `len`: all that is left where no maximum is given.
abbrev pub length_to_send : ℕ → ℕ → ℕ
length_to_send maxlength left =
    if maxlength == 0 then left else if ltb left maxlength then left else maxlength

module _ {F S : Type 0} (net : Net F S) where
  -- The loop over the stream. `read` succeeds if `step` bytes are left; the rest goes last.
  unfoldable pub send_chunks : ℕ → ℕ → Str → Exec (Node S) (Unit {0})
  unfolding split_at
  send_chunks zero step rest n = (err unending, n)
  send_chunks (suc fuel) step rest n = elim (leb step (length rest)) [
    | true ↦
        (send_raw_body net (split_at step rest).0 true
            >> send_chunks fuel step (split_at step rest).1)
          n
    | false ↦ send_raw_body net rest false n
  ]

  unfoldable pub refuse_data : DataStatus → ℕ → Exec (Server S) (Unit {0})
  refuse_data status size = reply net (say_entitydata (data_reply status 0 size))

  -- An empty last part, after a failure of the network.
  abbrev pub end_parts : Exec (Server S) (Unit {0})
  end_parts = on_node (send_raw_body net [] false)

  unfoldable pub send_head : ReplyEntitydata → Exec (Server S) Bool
  send_head rep =
      try_catch (on_node (send net (say_entitydata rep) true) >> pure true) is_zmq
        (end_parts >> pure false)

  unfoldable pub send_body : Bool → Str → Exec (Server S) (Unit {0})
  send_body false bytes = pure tt
  send_body true bytes =
      try_catch (on_node (send_chunks (suc (length bytes)) buffer_size bytes)) is_zmq end_parts

  module _ (host : Host) where
    unfoldable pub deliver : Provider → RequestEntitydata → ℕ → Exec (Server S) (Unit {0})
    deliver ed msg size = do
      let len = length_to_send msg.maxlength (size - msg.offset)
      sent ← send_head (data_reply success len size)
      bytes ← gets_disk (start_read host.codec ed msg.offset len)
      send_body sent bytes

    unfoldable pub answer_data : Option Provider → RequestEntitydata → Exec (Server S) (Unit {0})
    answer_data none msg = refuse_data not_found 0
    answer_data (some ed) msg = do
      size ← gets_disk (get_stream_size host.codec ed)
      if ltb size msg.offset then refuse_data exceeded_boundary size else deliver ed msg size

    unfoldable pub answer_entitydata :
        Option Workspace → RequestEntitydata → Exec (Server S) (Unit {0})
    answer_entitydata none msg = refuse_data not_found 0
    answer_entitydata (some w) msg =
        answer_data (get_entitydata_read_only host.codec (wrap host) msg.entitypath w) msg

    -- Every exception ends here.
    unfoldable pub handle_request_entitydata : RequestEntitydata → Exec (Server S) (Unit {0})
    handle_request_entitydata msg =
        try_catch
          (do
            workspace ← gets_disk (get_workspace host.codec msg.workspace)
            answer_entitydata workspace msg)
          is_exception (pure tt)
