-- ===== src/Netmesh/Delivery/Queues.antt =====
-- A frame is queued last and once, or an error is returned and no queue changes.
use clippy.Base.{
  ℕ, ◌≤◌, ◌<◌, ◌≡◌, inl, inr, refl, sym, subst, ◌∙◌, Bool, false, Option, none, some, [], ◌∷◌, ◌++◌,
  ltb, if◌then◌else◌, length, arith, nat_eq, Option-cases, Bool-cases, ◌==◌, zero, suc, Result, ok,
  err,
}
use clippy.Base.Bytes.{Bytes, bytes_eq}
use clippy.Base.Map.{lookup, insert, lookup-insert}
use clippy.Netmesh.Types.{ManagedConn, PeerState}
use clippy.Netmesh.Delivery.{
  SendError, invalid_frame, peer_not_connected, context_done, peer_state, send_queue_full, Link,
  Outgoing, Ready, caller_done, conn_done, has_room, ready_cases, pick, enqueue, send_on, send,
}

pick_room :
    (choice size : ℕ) (ended : Bool) (l : Link)
    → pick choice (ready_cases ended size l) ≡ some has_room
    → length l.queue < size
unfolding ready_cases pick
pick_room zero size ended l h = ground arith
pick_room (suc zero) size ended l h = ground arith
pick_room (suc (suc n)) size ended l h = ground arith

-- What becomes of a frame: queued last where there was room, or refused with an error.
pub data Queued (size : ℕ) (l : Link) (frame : Bytes) (res : Link × Option SendError) : Type 0 where
  taken :
      length l.queue < size
      → res ≡ (record l { queue = l.queue ++ frame ∷ [] }, none)
      → Queued size l frame res
  dropped : (e : SendError) → res ≡ (l, some e) → Queued size l frame res

pub enqueue-Queued :
    (size : ℕ) (ended : Bool) (choice : ℕ) (l : Link) (frame : Bytes)
    → Queued size l frame (enqueue size ended choice l frame)
enqueue-Queued size ended choice l frame = go (pick choice (ready_cases ended size l)) refl
  where
    go :
        (o : Option Ready)
        → pick choice (ready_cases ended size l) ≡ o
        → Queued size l frame (enqueue size ended choice l frame)
    go none h = dropped send_queue_full (unfold enqueue in rw (h, enqueue))
    go (some caller_done) h = dropped context_done (unfold enqueue in rw (h, enqueue))
    go (some conn_done) h = dropped peer_not_connected (unfold enqueue in rw (h, enqueue))
    go (some has_room) h =
        taken (pick_room choice size ended l h) (unfold enqueue in rw (h, enqueue))

-- While the caller's context and the connection's are live, `enqueue` puts a frame at the end of
-- the queue if there is room, and otherwise reports a full queue and leaves it.
enqueue_live :
    (size choice : ℕ) (l : Link) (frame : Bytes)
    → l.cancelled ≡ false
    → enqueue size false choice l frame ≡ (
        if ltb (length l.queue) size
        then (record l { queue = l.queue ++ frame ∷ [] }, none)
        else (l, some send_queue_full))
unfolding enqueue ready_cases pick
enqueue_live size choice l frame live = ground arith

-- What a call of `Send` does to the queues.
pub data Sent (m : Outgoing) (peer_id frame : Bytes) (res : Outgoing × Option SendError)
    : Type 0 where
  queued :
      (ps : PeerState) (conn : ManagedConn) (l : Link)
      → lookup peer_id m.peers ≡ some ps
      → ps.conn ≡ some conn
      → lookup conn.handle m.links ≡ some l
      → length frame ≤ m.max_frame_bytes
      → length l.queue < m.send_queue_size
      → res.1 ≡ none
      → ((h : ℕ)
          → lookup h res.0.links ≡ (
              if conn.handle == h
              then some (record l { queue = l.queue ++ frame ∷ [] })
              else lookup h m.links))
      → Sent m peer_id frame res
  failed :
      (e : SendError)
      → res.1 ≡ some e
      → ((h : ℕ) → lookup h res.0.links ≡ lookup h m.links)
      → Sent m peer_id frame res

-- Writing back the queue that is there changes nothing.
same_link :
    (m : Outgoing) (conn : ManagedConn) (l : Link)
    → lookup conn.handle m.links ≡ some l
    → (h : ℕ) → (if conn.handle == h then some l else lookup h m.links) ≡ lookup h m.links
same_link m conn l linked h = ground (arith, linked)

known_peer :
    (m : Outgoing) (peer_id : Bytes) (ps : PeerState)
    → peer_state m peer_id ≡ ok ps
    → lookup peer_id m.peers ≡ some ps
unfolding peer_state
known_peer m peer_id ps h = ground arith

module _ (m : Outgoing) (ended : Bool) (choice : ℕ) (peer_id frame : Bytes) where
  send_on-Sent :
      (ps : PeerState) (conn : ManagedConn)
      → length frame ≤ m.max_frame_bytes
      → lookup peer_id m.peers ≡ some ps
      → ps.conn ≡ some conn
      → Sent m peer_id frame (send_on m ended choice conn frame)
  send_on-Sent ps conn fits found connected = elim (Option-cases (lookup conn.handle m.links)) [
    | inl gone ↦ unfold send_on in rw (gone, send_on) (failed peer_not_connected refl (λ h. refl))
    | inr (l, linked) ↦
        unfold send_on in
        rw (linked, send_on) (go l linked _ (enqueue-Queued m.send_queue_size ended choice l frame))
  ]
    where
      go :
          (l : Link)
          → lookup conn.handle m.links ≡ some l
          → (res : Link × Option SendError) → Queued m.send_queue_size l frame res
          → Sent m peer_id frame (record m { links = insert conn.handle res.0 m.links }, res.1)
      go l linked res (taken room e) =
          subst
            (λ (r : Link × Option SendError).
              Sent m peer_id frame (record m { links = insert conn.handle r.0 m.links }, r.1))
            (sym e)
            (queued ps conn l found connected linked fits room refl
              (λ h. lookup-insert conn.handle h _ m.links))
      go l linked res (dropped x e) =
          subst
            (λ (r : Link × Option SendError).
              Sent m peer_id frame (record m { links = insert conn.handle r.0 m.links }, r.1))
            (sym e)
            (failed x refl
              (λ h. lookup-insert conn.handle h l m.links ∙ same_link m conn l linked h))

  to_peer-Sent :
      (ps : PeerState) (conn : Option ManagedConn)
      → length frame ≤ m.max_frame_bytes
      → lookup peer_id m.peers ≡ some ps
      → ps.conn ≡ conn
      → Sent m peer_id frame (elim conn [
        | none ↦ (m, some peer_not_connected)
        | some c ↦ send_on m ended choice c frame
      ])
  to_peer-Sent ps none fits found e = failed peer_not_connected refl (λ h. refl)
  to_peer-Sent ps (some c) fits found e = send_on-Sent ps c fits found e

  looked_up-Sent :
      (r : Result SendError PeerState)
      → length frame ≤ m.max_frame_bytes
      → peer_state m peer_id ≡ r
      → Sent m peer_id frame (elim r [
        | err e ↦ (m, some e)
        | ok ps ↦ elim ps.conn [
          | none ↦ (m, some peer_not_connected)
          | some conn ↦ send_on m ended choice conn frame
        ]
      ])
  looked_up-Sent (err e) fits h = failed e refl (λ h. refl)
  looked_up-Sent (ok ps) fits h = to_peer-Sent ps ps.conn fits (known_peer m peer_id ps h) refl

  -- A call of `Send`, whatever the peer and the contexts and whichever ready case the `select`
  -- takes, does one of two things. It returns no error: then the frame is within the limit and
  -- stands, once, at the end of the queue of the connection of that peer, where there was room,
  -- and every other queue is as it was. Or it returns an error, and every queue is as it was.
  pub send-Sent : Sent m peer_id frame (send m ended choice peer_id frame)
  send-Sent = elim (Bool-cases (ltb m.max_frame_bytes (length frame))) [
    | inl large ↦ unfold send in rw large (failed invalid_frame refl (λ h. refl))
    | inr small ↦
        unfold send in rw small (looked_up-Sent (peer_state m peer_id) (ground arith) refl)
  ]
