-- ===== src/Network/Responder/Data/Safety.antt =====
-- Sending entity data (`handleRequestEntitydata` of libs/networking_node/src/zmqresponder_p.cpp) keeps the history.
use mapit.Base.{
  Str, ℕ, suc, [], Option, none, some, Bool, true, false, if◌then◌else◌, ltb, length, ◌-◌,
}
use mapit.Workspace.{Workspace}
use mapit.Repository.{get_workspace}
use mapit.EntityData
use mapit.EntityData.{
  Provider, start_write, end_write, get_entitydata_for_read_write, get_stream_provider_transient,
  wrapped,
}
use mapit.Network.Exec.{ok, pure, is_zmq, is_exception, ◌>>=◌, ◌>>◌}
use mapit.Network.Messages.{RequestEntitydata, ReplyEntitydata, DataStatus, say_entitydata}
use mapit.Network.Node.{Net, on_node, send, send_raw_body}
use mapit.Network.Server.{Host, gets_disk}
use mapit.Network.Responder.Data.{
  send_chunks, refuse_data, end_parts, send_head, send_body, deliver, answer_data,
  answer_entitydata, handle_request_entitydata, buffer_size, data_reply, length_to_send,
}
use mapit.Network.Responder.History.{
  Safe, bind-Safe, catch-Safe, still, pure-Safe, gets-Safe, if-Safe, then-Safe, reply-Safe,
}

module _ {F S : Type 0} (net : Net F S) where
  send_head-Safe : (rep : ReplyEntitydata) → Safe (send_head net rep)
  unfolding send_head
  send_head-Safe rep =
      catch-Safe (on_node (send net (say_entitydata rep) true) >> pure true) is_zmq
        (end_parts net >> pure false)
        (then-Safe (on_node (send net (say_entitydata rep) true)) (pure true)
          (still (send net (say_entitydata rep) true)) (pure-Safe (ok true)))
        (then-Safe (end_parts net) (pure false) (still (send_raw_body net [] false))
          (pure-Safe (ok false)))

  send_body-Safe : (b : Bool) (bytes : Str) → Safe (send_body net b bytes)
  unfolding send_body
  send_body-Safe false bytes = pure-Safe (ok tt)
  send_body-Safe true bytes =
      catch-Safe (on_node (send_chunks net (suc (length bytes)) buffer_size bytes)) is_zmq
        (end_parts net) (still (send_chunks net (suc (length bytes)) buffer_size bytes))
        (still (send_raw_body net [] false))

  refuse_data-Safe : (status : DataStatus) (size : ℕ) → Safe (refuse_data net status size)
  unfolding refuse_data
  refuse_data-Safe status size = reply-Safe net (say_entitydata (data_reply status 0 size))

  module _ (host : Host) where
    deliver-Safe :
        (ed : Provider) (msg : RequestEntitydata) (size : ℕ) → Safe (deliver net host ed msg size)
    unfolding deliver
    deliver-Safe ed msg size =
        let len = length_to_send msg.maxlength (size - msg.offset) in
        bind-Safe (send_head net (data_reply DataStatus.success len size)) _
          (send_head-Safe (data_reply DataStatus.success len size))
          (λ sent.
            bind-Safe (gets_disk (EntityData.start_read host.codec ed msg.offset len))
              (send_body net sent) (gets-Safe (EntityData.start_read host.codec ed msg.offset len))
              (send_body-Safe sent))

    answer_data-Safe :
        (o : Option Provider) (msg : RequestEntitydata) → Safe (answer_data net host o msg)
    unfolding answer_data
    answer_data-Safe none msg = refuse_data-Safe DataStatus.not_found 0
    answer_data-Safe (some ed) msg =
        bind-Safe (gets_disk (EntityData.get_stream_size host.codec ed))
          (λ size.
            if ltb size msg.offset
            then refuse_data net DataStatus.exceeded_boundary size
            else deliver net host ed msg size)
          (gets-Safe (EntityData.get_stream_size host.codec ed))
          (λ size.
            if-Safe (ltb size msg.offset) (refuse_data net DataStatus.exceeded_boundary size)
              (deliver net host ed msg size) (refuse_data-Safe DataStatus.exceeded_boundary size)
              (deliver-Safe ed msg size))

    answer_entitydata-Safe :
        (o : Option Workspace) (msg : RequestEntitydata) → Safe (answer_entitydata net host o msg)
    unfolding answer_entitydata
    answer_entitydata-Safe none msg = refuse_data-Safe DataStatus.not_found 0
    answer_entitydata-Safe (some w) msg = answer_data-Safe _ msg

    pub entitydata-Safe : (msg : RequestEntitydata) → Safe (handle_request_entitydata net host msg)
    unfolding handle_request_entitydata
    entitydata-Safe msg =
        let read = gets_disk (get_workspace host.codec msg.workspace) in
        catch-Safe (read >>= λ o. answer_entitydata net host o msg) is_exception (pure tt)
          (bind-Safe read (λ o. answer_entitydata net host o msg)
            (gets-Safe (get_workspace host.codec msg.workspace))
            (λ o. answer_entitydata-Safe o msg))
          (pure-Safe (ok tt))
