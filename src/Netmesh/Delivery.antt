-- ===== src/Netmesh/Delivery.antt =====
-- The queues of outgoing frames: `enqueue` of internal/netmesh/connection.go and `Send` of
-- manager.go. A queue stands in a table under the handle of its connection, so that every holder
-- of the connection shares it.
pub mod Queues
use clippy.Base.{
  ℕ, zero, suc, Bool, true, false, Option, none, some, List, [], ◌∷◌, ◌++◌, ltb, if◌then◌else◌,
  length, nat_eq, not, Result, ok, err, ◌>>=◌, ◌>>◌, fail_if, or_fail,
}
use clippy.Base.Bytes.{Bytes, bytes_eq}
use clippy.Base.Map.{lookup, insert}
use clippy.Netmesh.Types.{ManagedConn, PeerState}

pub data SendError : Type 0 where
  invalid_frame manager_not_started peer_not_found peer_not_connected : SendError
  send_queue_full context_done : SendError

-- The channel `sendQ`, oldest frame first, and whether the connection's context has ended.
pub record Link : Type 0 where
  pub cancelled : Bool
  pub queue : List Bytes

-- The part of a `Manager` that `Send` reads and changes.
pub record Outgoing : Type 0 where
  pub started : Bool
  pub peers : List (Bytes × PeerState)
  pub links : List (ℕ × Link)
  pub max_frame_bytes : ℕ
  pub send_queue_size : ℕ

-- A case of the `select` that can proceed.
pub data Ready : Type 0 where
  caller_done conn_done has_room : Ready

abbrev when : Bool → Ready → List Ready → List Ready
when true r rs = r ∷ rs
when false r rs = rs

unfoldable pub ready_cases : Bool → ℕ → Link → List Ready
ready_cases ended size l =
    when ended caller_done
      (when l.cancelled conn_done (when (ltb (length l.queue) size) has_room []))

-- A `select` takes any of its ready cases: `choice` counts how many are passed over.
unfoldable pub pick : ℕ → List Ready → Option Ready
pick choice [] = none
pick choice (r ∷ []) = some r
pick zero (r ∷ s ∷ rs) = some r
pick (suc n) (r ∷ s ∷ rs) = pick n (s ∷ rs)

-- `ended` is whether the caller's context has ended. The copy of the frame is the frame.
unfoldable pub enqueue : ℕ → Bool → ℕ → Link → Bytes → Link × Option SendError
enqueue size ended choice l frame = elim (pick choice (ready_cases ended size l)) [
  | none ↦ (l, some send_queue_full)
  | some caller_done ↦ (l, some context_done)
  | some conn_done ↦ (l, some peer_not_connected)
  | some has_room ↦ (record l { queue = l.queue ++ frame ∷ [] }, none)
]

-- Every connection has its queue from the start, so that a missing one does not occur.
unfoldable pub send_on : Outgoing → Bool → ℕ → ManagedConn → Bytes → Outgoing × Option SendError
send_on m ended choice conn frame = elim (lookup conn.handle m.links) [
  | none ↦ (m, some peer_not_connected)
  | some l ↦
      let (l', failed) = enqueue m.send_queue_size ended choice l frame in
      (record m { links = insert conn.handle l' m.links }, failed)
]

-- The method `peerState`: the peer, or the error.
unfoldable pub peer_state : Outgoing → Bytes → Result SendError PeerState
peer_state m peer_id = do
  fail_if (not m.started) manager_not_started
  or_fail (lookup peer_id m.peers) peer_not_found

unfoldable pub send : Outgoing → Bool → ℕ → Bytes → Bytes → Outgoing × Option SendError
send m ended choice peer_id frame =
    if ltb m.max_frame_bytes (length frame)
    then (m, some invalid_frame)
    else elim (peer_state m peer_id) [
      | err e ↦ (m, some e)
      | ok ps ↦ elim ps.conn [
        | none ↦ (m, some peer_not_connected)
        | some conn ↦ send_on m ended choice conn frame
      ]
    ]
