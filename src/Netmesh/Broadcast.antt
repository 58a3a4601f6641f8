-- ===== src/Netmesh/Broadcast.antt =====
-- `Broadcast` of internal/netmesh/manager.go, on the queues of Netmesh/Delivery.
pub mod Offers
pub mod Each
pub mod Sends
use clippy.Base.{ℕ, Bool, Option, none, some, List, [], ◌∷◌, ltb, if◌then◌else◌, length}
use clippy.Base.Bytes.{Bytes}
use clippy.Netmesh.Types.{PeerState}
use clippy.Netmesh.Delivery.{SendError, Outgoing, send_on}

-- The errors of the peers, joined by `errors.Join`, each with the identifier of its peer.
pub data BroadcastError : Type 0 where
  too_large : BroadcastError
  joined : List (Bytes × SendError) → BroadcastError

-- `append` to `errs` where there is an error.
abbrev pub note_error :
    Bytes → Option SendError → List (Bytes × SendError) → List (Bytes × SendError)
note_error id none errs = errs
note_error id (some e) errs = (id, e) ∷ errs

-- The loop over the peers, in the order in which the first loop met them. For each peer, `ended` is
-- whether the caller's context has ended, and `choice` what the `select` of `enqueue` takes.
unfoldable pub broadcast_each :
    Outgoing
    → (Bytes → Bool)
    → (Bytes → ℕ)
    → Bytes
    → List (Bytes × PeerState)
    → Outgoing × List (Bytes × SendError)
broadcast_each m ended choice frame [] = (m, [])
broadcast_each m ended choice frame ((id, ps) ∷ peers) = elim ps.conn [
  | none ↦ broadcast_each m ended choice frame peers
  | some conn ↦
      let (m', failed) = send_on m (ended ps.id) (choice ps.id) conn frame in
      let (m'', errs) = broadcast_each m' ended choice frame peers in
      (m'', note_error ps.id failed errs)
]

-- `errors.Join` of no error is no error.
abbrev pub join : List (Bytes × SendError) → Option BroadcastError
join [] = none
join (e ∷ errs) = some (joined (e ∷ errs))

unfoldable pub broadcast :
    Outgoing → (Bytes → Bool) → (Bytes → ℕ) → Bytes → Outgoing × Option BroadcastError
broadcast m ended choice frame =
    if ltb m.max_frame_bytes (length frame)
    then (m, some too_large)
    else (let (m', errs) = broadcast_each m ended choice frame m.peers in (m', join errs))
