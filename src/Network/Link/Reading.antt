-- ===== src/Network/Link/Reading.antt =====
-- Reading entity data over the network (libs/networking_node), from the request to the buffer.
use mapit.Base.{
  Str, ℕ, zero, suc, ◌+◌, ◌-◌, ◌≤◌, ◌<◌, List, [], ◌∷◌, ◌++◌, some, Bool, true, false, ltb, length,
  ◌≡◌, refl, sym, subst, ◌∙◌, ap, arith,
}
use mapit.Serializer.Disk.{Disk, FsPath, File}
use mapit.Serializer.Transient.{split_at, bytes_of}
use mapit.Workspace.{Workspace}
use mapit.Repository
use mapit.EntityData
use mapit.EntityData.{drop, get_stream_size, get_entitydata_read_only}
use mapit.Network.Exec.{ok}
use mapit.Network.Messages.{
  Kind, RequestEntitydata, ReplyEntitydata, DataStatus, ask_entitydata, say_entitydata,
}
use mapit.Network.Node.{send, send_pb_single, receive, receive_after, receive_body}
use mapit.Network.Server.{wrap}
use mapit.Network.Responder.{handle}
use mapit.Network.Responder.Data.{
  buffer_size, length_to_send, send_head, send_body, deliver, answer_data, answer_entitydata,
  handle_request_entitydata,
}
use mapit.Network.Requester.{Provider}
use mapit.Network.StreamProvider.{
  max_buffer_size, with_length, read_reply, request_data, start_read_buffer, buffer_length,
  data_request,
}
use mapit.Network.Link.{exchange, parts_of}
use mapit.Network.Link.Steps.{
  Setup, IsWorking, Replies, to_server, to_link, asked, answered, client_at, head, send_lem,
  serve_lem, key_eq_refl,
}
use mapit.Network.Link.Data.{chunk_parts, send_chunks_lem, reading, receive_parts_lem}

length-drop : (n : ℕ) (s : Str) → length (drop n s) ≡ length s - n
length-drop zero s = omega arith
length-drop (suc n) [] = omega arith
length-drop (suc n) (c ∷ s) = omega (arith, length-drop n s)

split_at_all : (n : ℕ) (s : Str) → length s ≤ n → (split_at n s).0 ≡ s
unfolding split_at
split_at_all zero [] h = refl
split_at_all zero (c ∷ s) h = absurd (omega (arith, h))
split_at_all (suc n) [] h = refl
split_at_all (suc n) (c ∷ s) h = ap (λ t. c ∷ t) (split_at_all n s (omega (arith, h)))

module _ {F : Type 0} (up : Setup F) (works : IsWorking up) where
  -- The reply that announces some bytes, and its parts.
  abbrev announced : ℕ → ℕ → ReplyEntitydata
  announced n size = record { status = DataStatus.success; receivedlength = n; entitylength = size }

  abbrev with_bytes : ReplyEntitydata → Str → List (F × Bool)
  with_bytes rep bytes =
      head up (say_entitydata rep) true ++ chunk_parts up (suc (length bytes)) buffer_size bytes

  deliver_lem :
      (ed : EntityData.Provider) (req : RequestEntitydata) (n size : ℕ) (bytes : Str) (d : Disk)
      → length_to_send req.maxlength (size - req.offset) ≡ n
      → EntityData.start_read up.host.codec ed req.offset n d ≡ bytes
      → deliver (to_server up) up.host ed req size (asked up [] d)
        ≡ (ok tt, answered up (with_bytes (announced n size) bytes) d)
  unfolding deliver send_head send_body
  deliver_lem ed req n size bytes d h k =
      rw
        (
          h,
          send_lem up works,
          k,
          send_chunks_lem up (suc (length bytes)) buffer_size bytes
              (head up (say_entitydata (announced n size)) true) d (omega arith) (omega arith),
        )
        refl

  -- The entity data of a file that is there.
  stream_of_file :
      (ed : EntityData.Provider) (q : FsPath) (f : File) (start len : ℕ) (d : Disk)
      → ed.filename_read ≡ some q
      → d q ≡ some f
      → (get_stream_size up.host.codec ed d ≡ length (bytes_of up.host.codec f))
        × (EntityData.start_read up.host.codec ed start len d
            ≡ drop start (bytes_of up.host.codec f))
  unfolding get_stream_size EntityData.start_read
  stream_of_file ed q f start len d r c = (rw (r, c) refl, rw (r, c) refl)

  entitydata-Replies :
      (req : RequestEntitydata) (w : Workspace) (ed : EntityData.Provider) (q : FsPath) (f : File)
      (d : Disk)
      → Repository.get_workspace up.host.codec req.workspace d ≡ some w
      → get_entitydata_read_only up.host.codec (wrap up.host) req.entitypath w ≡ some ed
      → ed.filename_read ≡ some q
      → d q ≡ some f
      → req.offset ≤ length (bytes_of up.host.codec f)
      → let bytes = bytes_of up.host.codec f in
        let n = length_to_send req.maxlength (length bytes - req.offset) in
        Replies up
          (ask_entitydata req)
          []
          d
          (with_bytes (announced n (length bytes)) (drop req.offset bytes))
          d
  unfolding handle handle_request_entitydata answer_entitydata answer_data
  entitydata-Replies req w ed q f d g h r c b =
      let bytes = bytes_of up.host.codec f in
      let n = length_to_send req.maxlength (length bytes - req.offset) in
      let (size, read) = stream_of_file ed q f req.offset n d r c in
      let fits : ltb (length bytes) req.offset ≡ false = ground arith in
      rw (g, h, size, fits, deliver_lem ed req n (length bytes) (drop req.offset bytes) d refl read)
        refl

  -- The reply is there, and its parts are left to read.
  pub request_data_lem :
      (p : Provider) (start : ℕ) (rep : ReplyEntitydata) (more : Bool) (ps : List (F × Bool))
      (d d' : Disk)
      → Replies up
          (data_request p start max_buffer_size)
          []
          d
          (head up (say_entitydata rep) more ++ ps)
          d'
      → request_data (to_link up) p start (client_at up d)
        ≡ (ok (some (say_entitydata rep)), reading up (parts_of ps) d')
  unfolding request_data send send_pb_single receive receive_after receive_body exchange
  request_data_lem p start rep more ps d d' k =
      let req = data_request p start max_buffer_size in
      let kind = Kind.reply_entitydata in
      rw
        (
          works.keyed Kind.request_entitydata,
          serve_lem up works req [] (head up (say_entitydata rep) more ++ ps) d d' refl k,
          works.keyed kind,
          works.header (up.key kind),
          key_eq_refl (up.key kind),
          works.replies kind refl,
          works.body (say_entitydata rep),
        )
        refl

  buffer_length_le : (n : ℕ) → n ≤ max_buffer_size → n ≤ buffer_length n
  buffer_length_le n h = ground arith

  length_to_send_all : (n : ℕ) → n ≤ max_buffer_size → length_to_send max_buffer_size n ≡ n
  length_to_send_all n h = ground arith

  read_reply_lem :
      (p : Provider) (bytes : Str) (size : ℕ) (d : Disk)
      → length bytes ≤ max_buffer_size
      → length bytes + 1 < up.rounds
      → read_reply
          (to_link up)
          p
          (some (say_entitydata (announced (length bytes) size)))
          (reading up (parts_of (chunk_parts up (suc (length bytes)) buffer_size bytes)) d)
        ≡ (
          ok (
            some (record { received = bytes; size = buffer_length (length bytes) }),
            with_length p size,
          ),
          client_at up d,
        )
  unfolding read_reply
  read_reply_lem p bytes size d h k =
      rw
        (
          receive_parts_lem up works (suc (length bytes)) up.rounds buffer_size
              (buffer_length (length bytes)) bytes [] d (omega arith) (omega arith)
              (omega (arith, k)) (omega (arith, buffer_length_le (length bytes) h)),
          split_at_all (buffer_length (length bytes)) bytes (buffer_length_le (length bytes) h),
        )
        refl

  -- The reply for the data behind `start`, with its length as the number of the bytes.
  start_read-Replies :
      (p : Provider) (start : ℕ) (w : Workspace) (ed : EntityData.Provider) (q : FsPath) (f : File)
      (d : Disk)
      → Repository.get_workspace up.host.codec p.workspace_name d ≡ some w
      → get_entitydata_read_only up.host.codec (wrap up.host) p.path_or_oid w ≡ some ed
      → ed.filename_read ≡ some q
      → d q ≡ some f
      → start ≤ length (bytes_of up.host.codec f)
      → length (bytes_of up.host.codec f) ≤ max_buffer_size
      → let bytes = drop start (bytes_of up.host.codec f) in
        Replies up
          (data_request p start max_buffer_size)
          []
          d
          (with_bytes (announced (length bytes) (length (bytes_of up.host.codec f))) bytes)
          d
  start_read-Replies p start w ed q f d g h r c b m =
      let all = bytes_of up.host.codec f in
      let req : RequestEntitydata = record {
        workspace = p.workspace_name;
        entitypath = p.path_or_oid;
        offset = start;
        maxlength = max_buffer_size;
      } in
      let n : length_to_send max_buffer_size (length all - start) ≡ length (drop start all) =
        length_to_send_all (length all - start) (omega (arith, m)) ∙ sym (length-drop start all) in
      subst
        (λ k.
          Replies up (ask_entitydata req) [] d
            (with_bytes (announced k (length all)) (drop start all)) d)
        n (entitydata-Replies req w ed q f d g h r c b)

-- Where the repository has the workspace and gives entity data of a file for reading, the private
-- `startRead` of a requester, with the length as its last argument, gives a buffer with the bytes of that file
-- from the start on, however many parts they come in, and remembers the size of the file; the buffer has one
-- byte where nothing is left. The files stay as they are, and
-- the mutex is free again. The file is not larger than the maximum, and the loop has enough rounds.
pub start_read_buffer-remote :
    {F : Type 0} (up : Setup F) (works : IsWorking up) (p : Provider) (start len : ℕ)
    (w : Workspace) (ed : EntityData.Provider) (q : FsPath) (f : File) (d : Disk)
    → Repository.get_workspace up.host.codec p.workspace_name d ≡ some w
    → get_entitydata_read_only up.host.codec (wrap up.host) p.path_or_oid w ≡ some ed
    → ed.filename_read ≡ some q
    → d q ≡ some f
    → start ≤ length (bytes_of up.host.codec f)
    → length (bytes_of up.host.codec f) ≤ max_buffer_size
    → length (bytes_of up.host.codec f) + 1 < up.rounds
    → let bytes = drop start (bytes_of up.host.codec f) in
      start_read_buffer (to_link up) start len p (client_at up d) ≡ (
        ok (
          some (record { received = bytes; size = buffer_length (length bytes) }),
          with_length p (length (bytes_of up.host.codec f)),
        ),
        client_at up d,
      )
unfolding start_read_buffer
start_read_buffer-remote up works p start len w ed q f d g h r c b m k =
    let all = bytes_of up.host.codec f in
    let bytes = drop start all in
    let shorter = length-drop start all in
    rw
      (
        request_data_lem up works p start (announced up works (length bytes) (length all)) true
            (chunk_parts up (suc (length bytes)) buffer_size bytes) d d
            (start_read-Replies up works p start w ed q f d g h r c b m),
        read_reply_lem up works p bytes (length all) d (omega (arith, m, shorter))
            (omega (arith, k, shorter)),
      )
      refl
