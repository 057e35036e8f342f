-- ===== src/Network/Link/Data.antt =====
-- Entity data in parts over the network (libs/networking_node): what the responder sends, and what the requester puts
-- together.
use mapit.Base.{
  Str, ℕ, zero, suc, ◌+◌, ◌≤◌, ◌<◌, List, [], ◌∷◌, ◌++◌, some, Bool, true, false, leb, length, ◌≡◌,
  refl, sym, ◌∙◌, ap, arith, Bool-cases, inl, inr, append_assoc, length-append,
}
use mapit.Serializer.Disk.{Disk}
use mapit.Serializer.Transient.{split_at}
use mapit.Serializer.Stream.{split_at-append, length-split_at}
use mapit.Network.Exec.{ok}
use mapit.Network.Node.{send_raw_body, receive_raw_body}
use mapit.Network.Responder.Data.{send_chunks}
use mapit.Network.Mailbox.{to_send, to_receive, turn_with}
use mapit.Network.StreamProvider.{receive_parts}
use mapit.Network.Client.{Client}
use mapit.Network.Link.{Link, parts_of}
use mapit.Network.Link.Steps.{
  Setup, IsWorking, to_server, to_link, server_with, client_with, client_at, idle,
}

module _ {F : Type 0} (up : Setup F) where
  -- The parts of some bytes, of `step` bytes each but for the last, which may be empty.
  pub chunk_parts : ℕ → ℕ → Str → List (F × Bool)
  chunk_parts zero step rest = []
  chunk_parts (suc fuel) step rest = elim (leb step (length rest)) [
    | true ↦
        (up.wire.from_bytes (split_at step rest).0, true)
        ∷ chunk_parts fuel step (split_at step rest).1
    | false ↦ (up.wire.from_bytes rest, false) ∷ []
  ]

  pub send_chunks_lem :
      (fuel step : ℕ) (rest : Str) (out : List (F × Bool)) (d : Disk)
      → 0 < step
      → length rest < fuel
      → send_chunks
          (to_server up)
          fuel
          step
          rest
          (server_with up (record (idle up to_send) { sent = out }) d).node
        ≡ (
          ok tt,
          (server_with up
              (record (idle up to_receive) { sent = out ++ chunk_parts fuel step rest })
              d).node,
        )
  unfolding send_chunks send_raw_body chunk_parts
  send_chunks_lem zero step rest out d h l = absurd (omega (arith, l))
  send_chunks_lem (suc fuel) step rest out d h l = elim (Bool-cases (leb step (length rest))) [
    | inl e ↦
        rw (e, send_chunks, chunk_parts)
          (send_chunks_lem fuel step (split_at step rest).1 _ d h
              (ground (arith, length-split_at step rest))
            ∙ ap
                (λ (ps : List (F × Bool)).
                  (ok tt, (server_with up (record (idle up to_receive) { sent = ps }) d).node))
                (append_assoc out _ _))
    | inr e ↦ rw (e, send_chunks, chunk_parts) refl
  ]

  -- The requester with some parts of the reply left to read.
  abbrev pub reading : List F → Disk → Client (Link F)
  reading ps d = client_with up (record (idle up (turn_with ps)) { unread = ps }) true d

  module _ (works : IsWorking up) where
    receive_part_lem :
        (rounds recvlen : ℕ) (acc part : Str) (ps : List F) (d : Disk)
        → length acc ≤ recvlen
        → receive_parts
            (to_link up)
            (suc rounds)
            recvlen
            acc
            (reading (up.wire.from_bytes part ∷ ps) d)
          ≡ receive_parts (to_link up) rounds recvlen (acc ++ part) (reading ps d)
    unfolding receive_parts receive_raw_body
    receive_part_lem rounds recvlen acc part ps d b =
        let fits : leb (length acc) recvlen ≡ true = ground arith in
        rw (fits, receive_parts, works.bytes) refl

    receive_end_lem :
        (rounds recvlen : ℕ) (acc : Str) (d : Disk)
        → receive_parts (to_link up) (suc rounds) recvlen acc (reading [] d)
          ≡ (ok (some (split_at recvlen acc).0), client_at up d)
    unfolding receive_parts
    receive_end_lem rounds recvlen acc d = refl

    pub receive_parts_lem :
        (fuel rounds step recvlen : ℕ) (rest acc : Str) (d : Disk)
        → 0 < step
        → length rest < fuel
        → fuel < rounds
        → length acc + length rest ≤ recvlen
        → receive_parts
            (to_link up)
            rounds
            recvlen
            acc
            (reading (parts_of (chunk_parts fuel step rest)) d)
          ≡ (ok (some (split_at recvlen (acc ++ rest)).0), client_at up d)
    unfolding chunk_parts
    receive_parts_lem fuel zero step recvlen rest acc d h l m b = absurd (omega (arith, m))
    receive_parts_lem zero (suc rounds) step recvlen rest acc d h l m b = absurd (omega (arith, l))
    receive_parts_lem (suc fuel) (suc zero) step recvlen rest acc d h l m b =
        absurd (omega (arith, m))
    receive_parts_lem (suc fuel) (suc (suc rounds)) step recvlen rest acc d h l m b =
        let front = (split_at step rest).0 in
        let back = (split_at step rest).1 in
        let whole = split_at-append step rest in
        let sizes : length front + length back ≡ length rest =
          sym (length-append front back) ∙ ap length whole in
        elim (Bool-cases (leb step (length rest))) [
          | inl e ↦
              rw (e, chunk_parts)
                (receive_part_lem (suc rounds) recvlen acc front
                    (parts_of (chunk_parts fuel step back)) d (omega (arith, b))
                  ∙ receive_parts_lem fuel (suc rounds) step recvlen back (acc ++ front) d h
                      (ground (arith, length-split_at step rest)) (omega (arith, m))
                      (omega (arith, b, sizes, length-append acc front))
                  ∙ ap (λ (s : Str). (ok (some (split_at recvlen s).0), client_at up d))
                      (append_assoc acc front back ∙ ap (λ (t : Str). acc ++ t) whole))
          | inr e ↦
              rw (e, chunk_parts)
                (receive_part_lem (suc rounds) recvlen acc rest [] d (omega (arith, b))
                  ∙ receive_end_lem rounds recvlen (acc ++ rest) d)
        ]
