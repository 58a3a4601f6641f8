-- ===== src/App/PeerLog.antt =====
-- internal/app/runtime.go: `logPeerChanges`, which logs what has changed among the peers since it
-- ran last.
pub mod Differences
pub mod Tests
use clippy.Base.{Bool, true, false, Option, none, some, List, [], ◌∷◌, ◌++◌}
use clippy.Base.Bytes.{Bytes, bytes_eq}
use clippy.Base.Map.{lookup, insert}
use clippy.Netmesh.Types.{Peer}

-- `peerSeen`: whether each peer was connected.
abbrev pub PeerSeen : Type 0
PeerSeen = List (Bytes × Bool)

pub data LogLine : Type 0 where
  discovered : Peer → LogLine
  state_changed : Bytes → Bool → LogLine
  expired : Bytes → LogLine

abbrev pub bool_beq : Bool → Bool → Bool
bool_beq true true = true
bool_beq false false = true
bool_beq true false = false
bool_beq false true = false

-- The `switch`.
unfoldable pub lines_of : PeerSeen → Peer → List LogLine
lines_of seen peer = elim (lookup peer.id seen) [
  | none ↦ discovered peer ∷ []
  | some prev ↦ elim (bool_beq prev peer.connected) [
    | true ↦ []
    | false ↦ state_changed peer.id peer.connected ∷ []
  ]
]

-- The first loop: what it logs, and `current` behind it.
unfoldable pub scan_peers : PeerSeen → PeerSeen → List Peer → List LogLine × PeerSeen
scan_peers seen current [] = ([], current)
scan_peers seen current (peer ∷ peers) =
    let (lines, current') = scan_peers seen (insert peer.id peer.connected current) peers in
    (lines_of seen peer ++ lines, current')

-- The second loop, over the entries of `peerSeen` that it is given.
unfoldable pub scan_seen : PeerSeen → PeerSeen → List LogLine
scan_seen current [] = []
scan_seen current ((id, connected) ∷ seen) = elim (lookup id current) [
  | none ↦ expired id ∷ scan_seen current seen
  | some c ↦ scan_seen current seen
]

-- What is logged, and the next `peerSeen`.
unfoldable pub log_peer_changes : PeerSeen → List Peer → List LogLine × PeerSeen
log_peer_changes seen peers =
    let (lines, current) = scan_peers seen [] peers in (lines ++ scan_seen current seen, current)
