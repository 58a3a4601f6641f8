-- ===== src/Netmesh/Broadcast/Sends.antt =====
-- `Broadcast` against `Send`.
use clippy.Base.{
  ℕ, ◌≡◌, refl, sym, ◌∙◌, Bool, true, false, Option, none, some, List, [], ◌∷◌, ltb, length,
  Bool-cases, inl, inr, nat_eq, ok,
}
use clippy.Base.Bytes.{Bytes, bytes_eq}
use clippy.Base.Map.{lookup, Distinct}
use clippy.Netmesh.Types.{ManagedConn, PeerState}
use clippy.Netmesh.Delivery.{SendError, invalid_frame, peer_state, Outgoing, send_on, send}
use clippy.Netmesh.Broadcast.{BroadcastError, too_large, joined, broadcast_each, join, broadcast}
use clippy.Netmesh.Broadcast.Offers.{send_on-own}
use clippy.Netmesh.Broadcast.Each.{HasOwnConns, IsKeyed, Served, each-own}

-- What an error of `Broadcast` says of one peer.
abbrev pub error_of : Bytes → Option BroadcastError → Option SendError
error_of id none = none
error_of id (some too_large) = some invalid_frame
error_of id (some (joined errs)) = lookup id errs

error_of-join :
    (id : Bytes) (errs : List (Bytes × SendError)) → error_of id (join errs) ≡ lookup id errs
error_of-join id [] = unfold lookup in refl
error_of-join id (e ∷ errs) = refl

send-too_large :
    (m : Outgoing) (ended : Bool) (choice : ℕ) (id frame : Bytes)
    → ltb m.max_frame_bytes (length frame) ≡ true
    → send m ended choice id frame ≡ (m, some invalid_frame)
unfolding send
send-too_large m ended choice id frame large = rw large

module _ (m : Outgoing) (frame id : Bytes) (p : PeerState) (c : ManagedConn)
    (started : m.started ≡ true) (found : lookup id m.peers ≡ some p) (busy : p.conn ≡ some c) where
  peer_state-found : peer_state m id ≡ ok p
  unfolding peer_state
  peer_state-found = rw (started, found)

  send-send_on :
      (ended : Bool) (choice : ℕ)
      → ltb m.max_frame_bytes (length frame) ≡ false
      → send m ended choice id frame ≡ send_on m ended choice c frame
  unfolding send
  send-send_on ended choice fits = rw (fits, send) (rw (peer_state-found, send) (rw busy))

-- In a manager that is started, whose peers stand under their identifiers and share no
-- connections, for each connected peer: `Broadcast` leaves its queue as `Send` to that peer alone
-- would leave it, and reports of it the error that this `Send` would return, in whatever order the
-- peers are served and whatever becomes of the others. For each peer the caller's context and the
-- `select` are the same in both.
pub broadcast-send :
    (m : Outgoing) (ended : Bytes → Bool) (choice : Bytes → ℕ) (frame id : Bytes) (p : PeerState)
    (c : ManagedConn)
    → m.started ≡ true
    → Distinct m.peers
    → IsKeyed m.peers
    → HasOwnConns m.peers
    → lookup id m.peers ≡ some p
    → p.conn ≡ some c
    → (lookup c.handle (broadcast m ended choice frame).0.links
        ≡ lookup c.handle (send m (ended id) (choice id) id frame).0.links)
      × (error_of id (broadcast m ended choice frame).1
          ≡ (send m (ended id) (choice id) id frame).1)
unfolding broadcast Served
broadcast-send m ended choice frame id p c started distinct keyed own found busy =
    elim (Bool-cases (ltb m.max_frame_bytes (length frame))) [
      | inl large ↦ rw (large, send-too_large m (ended id) (choice id) id frame large) (refl, refl)
      | inr fits ↦
          let served = each-own ended choice frame id p c m m.peers distinct keyed own found busy in
          let sent = send_on-own m (ended id) (choice id) c frame in
          rw (fits, send-send_on m frame id p c started found busy (ended id) (choice id) fits)
            (
              served.0 ∙ sym sent.0,
              error_of-join id (broadcast_each m ended choice frame m.peers).1
                  ∙ served.1
                  ∙ sym sent.1,
            )
    ]
