-- ===== src/Network/Responder/Store/Safety.antt =====
-- Storing an entity (`handleRequestStoreEntity` of libs/networking_node/src/zmqresponder_p.cpp) keeps the history.
use mapit.Base.{
  Str, ℕ, zero, suc, [], ◌++◌, Option, none, some, Bool, true, false, ◌&&◌, not, if◌then◌else◌, ◌≡◌,
  subst, ltb, length, ◌==◌, ◌+◌,
}
use mapit.Messages.{Entity}
use mapit.Search.{is_empty}
use mapit.Serializer.Steps.{here}
use mapit.Serializer.History.{Kept}
use mapit.Workspace.{Workspace, get_entity}
use mapit.Workspace.Delete
use mapit.Workspace.Operations.{store_entity-Moved}
use mapit.Repository.{get_workspace}
use mapit.EntityData.{Provider, start_write, end_write, get_entitydata_for_read_write}
use mapit.Outcome.{Ends}
use mapit.Status
use mapit.Network.Exec.{Result, ok, Exec, crash, raise, pure, from_outcome, ◌>>=◌, ◌>>◌}
use mapit.Network.Messages.{RequestStoreEntity, DoneStatus, say_store_entity}
use mapit.Network.Node.{Net, on_node, no_more, has_more, receive_raw_body}
use mapit.Network.Server.{Server, Host, wrap, reply, gets_disk, with_disk, refuse}
use mapit.Network.Responder.Store.{
  or_new, typed, receive_parts, gets_more, stored, store_typed, store_first, write_data,
  write_parts, store_inline, end_store, store_in, handle_request_store_entity,
}
use mapit.EntityData.History.{
  Kept-refl, KeptFrom, moved-Kept, IsWritable, for_write-IsWritable, start_write-Kept,
  end_write-Kept,
}
use mapit.Network.Responder.History.{
  Safe, SafeAt, bind-Safe, bind-SafeAt, with_disk-SafeAt, outcome-Safe, still, pure-Safe, if-SafeAt,
  if-Safe, then-Safe, reply-Safe, refuse-Safe, IsAt, found-Safe,
}

module _ {F S : Type 0} (net : Net F S) where
  receive_parts-Safe : (fuel n : ℕ) (bytes : Str) → Safe (receive_parts net fuel n bytes)
  unfolding receive_parts
  receive_parts-Safe zero n bytes s = Kept-refl s.own
  receive_parts-Safe (suc fuel) n bytes s = more (receive_parts-Safe fuel n) (has_more net s.node)
    where
      next : Str → Exec (Server S) (ℕ × Str)
      next buf =
          if ltb n (length buf + length bytes)
          then pure (Status.invalid_argument, bytes)
          else receive_parts net fuel n (bytes ++ buf)

      more :
          ((bytes' : Str) → Safe (receive_parts net fuel n bytes'))
          → (b : Bool)
          → Kept s.own
              (elim b as (λ _. Result (ℕ × Str) × Server S) [
                | true ↦ (on_node (receive_raw_body net) >>= next) s
                | false ↦
                    (ok (if length bytes == n then Status.ok else Status.invalid_data, bytes), s)
              ]).1.own
      more rest true =
          bind-Safe (on_node (receive_raw_body net)) next (still (receive_raw_body net))
            (λ buf.
              if-Safe (ltb n (length buf + length bytes)) (pure (Status.invalid_argument, bytes))
                (receive_parts net fuel n (bytes ++ buf)) (λ s'. Kept-refl s'.own)
                (rest (bytes ++ buf)))
            s
      more rest false = Kept-refl s.own

  module _ (host : Host) where
    write_data-Safe :
        (msg : RequestStoreEntity) (o : Option Provider)
        → IsWritable o
        → Safe (write_data net host msg o)
    unfolding write_data IsWritable
    write_data-Safe msg none h s = Kept-refl s.own
    write_data-Safe msg (some ed) h s =
        let (kept, outside) = start_write-Kept ed msg.offset msg.sendlength s.own h in
        let stream = (start_write ed msg.offset msg.sendlength s.own).0 in
        let end : ℕ × Str → Exec (Server S) ℕ =
          λ received. with_disk (λ d. (received.0, end_write received.1 (stream, d))) in
        with_disk-SafeAt (start_write ed msg.offset msg.sendlength)
          (λ stream'. receive_parts net net.rounds msg.sendlength [] >>= λ received.
            with_disk (λ d. (received.0, end_write received.1 (stream', d))))
          s kept
          (bind-Safe (receive_parts net net.rounds msg.sendlength []) end
            (receive_parts-Safe net.rounds msg.sendlength [])
            (λ received s'. end_write-Kept received.1 stream s'.own outside))

    write_parts-Safe :
        (msg : RequestStoreEntity) (w : Workspace) → Safe (write_parts net host msg w)
    unfolding write_parts
    write_parts-Safe msg w =
        let ed = get_entitydata_for_read_write host.codec (wrap host) msg.path w in
        bind-Safe (gets_more net)
          (λ more. if more then write_data net host msg ed else pure Status.invalid_argument)
          (λ s. Kept-refl s.own)
          (λ more.
            if-Safe more (write_data net host msg ed) (pure Status.invalid_argument)
              (write_data-Safe msg ed (for_write-IsWritable host.codec host.loads msg.path w))
              (pure-Safe (ok Status.invalid_argument)))

    store_typed-Safe :
        (msg : RequestStoreEntity) (e : Entity) (w : Workspace) (s : Server S)
        → w.disk ≡ s.own
        → SafeAt (store_typed net host msg e w) s
    unfolding store_typed
    store_typed-Safe msg e w s h =
        if-SafeAt (is_empty e.type && is_empty msg.type)
          (if is_empty msg.path then raise crash else pure (Status.invalid_argument, w))
          (from_outcome (Delete.store_entity host.codec msg.path e w) >>= stored net host) s
          (if-SafeAt (is_empty msg.path) (raise crash) (pure (Status.invalid_argument, w)) s
            (Kept-refl s.own) (Kept-refl s.own))
          (outcome-Safe (KeptFrom s.own) (Delete.store_entity host.codec msg.path e w)
            (stored net host) s
            (subst (λ d. Ends (KeptFrom d) (Delete.store_entity host.codec msg.path e w)) h
              (moved-Kept host.codec w (Delete.store_entity host.codec msg.path e w)
                (store_entity-Moved host.codec w.disk msg.path e w here)))
            (λ r k. k))

    store_first-Safe :
        (msg : RequestStoreEntity) (w : Workspace) (s : Server S)
        → w.disk ≡ s.own
        → SafeAt (store_first net host msg w) s
    unfolding store_first
    store_first-Safe msg w s h =
        let e = typed msg.type (or_new (get_entity host.codec msg.path w)) in
        if-SafeAt (msg.offset == 0) (store_typed net host msg e w) (pure (Status.ok, w)) s
          (store_typed-Safe msg e w s h) (Kept-refl s.own)

    store_inline-Safe :
        (msg : RequestStoreEntity) (w : Workspace) (s : Server S)
        → w.disk ≡ s.own
        → SafeAt (store_inline net host msg w) s
    unfolding store_inline
    store_inline-Safe msg w s h =
        let rest : ℕ × Workspace → Exec (Server S) ℕ = λ first.
          if msg.sendlength == 0 then pure Status.ok else write_parts net host msg first.1 in
        bind-SafeAt (store_first net host msg w)
          (λ first. if not (Status.is_ok first.0) then pure first.0 else rest first) s
          (store_first-Safe msg w s h)
          (λ first.
            if-Safe (not (Status.is_ok first.0)) (pure first.0) (rest first)
              (pure-Safe (ok first.0))
              (if-Safe (msg.sendlength == 0) (pure Status.ok) (write_parts net host msg first.1)
                (pure-Safe (ok Status.ok)) (write_parts-Safe msg first.1)))

    end_store-Safe : (status : ℕ) → Safe (end_store net host status)
    unfolding end_store
    end_store-Safe status =
        if-Safe (Status.is_ok status)
          (on_node (no_more net) >> reply net (say_store_entity DoneStatus.success))
          (reply net (say_store_entity DoneStatus.error))
          (then-Safe (on_node (no_more net)) (reply net (say_store_entity DoneStatus.success))
            (still (no_more net)) (reply-Safe net (say_store_entity DoneStatus.success)))
          (reply-Safe net (say_store_entity DoneStatus.error))

    store_in-Safe :
        (msg : RequestStoreEntity) (o : Option Workspace) (s : Server S)
        → IsAt s.own o
        → SafeAt (store_in net host o msg) s
    unfolding store_in
    store_in-Safe msg none s h = refuse-Safe net (say_store_entity DoneStatus.error) s
    store_in-Safe msg (some w) s h =
        bind-SafeAt (store_inline net host msg w) (end_store net host) s
          (store_inline-Safe msg w s h) end_store-Safe

    pub store_entity-Safe :
        (msg : RequestStoreEntity) → Safe (handle_request_store_entity net host msg)
    unfolding handle_request_store_entity
    store_entity-Safe msg =
        let refused = refuse net (say_store_entity DoneStatus.error) in
        let found =
          gets_disk (get_workspace host.codec msg.workspace) >>= λ o. store_in net host o msg in
        if-Safe (ltb msg.sendlength msg.offset) refused
          (if ltb msg.entitylength msg.sendlength then refused else found)
          (refuse-Safe net (say_store_entity DoneStatus.error))
          (if-Safe (ltb msg.entitylength msg.sendlength) refused found
            (refuse-Safe net (say_store_entity DoneStatus.error))
            (found-Safe host.codec msg.workspace (λ o. store_in net host o msg)
              (store_in-Safe msg)))
