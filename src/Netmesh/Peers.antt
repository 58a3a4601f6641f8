-- ===== src/Netmesh/Peers.antt =====
-- `Peers` of internal/netmesh/manager.go.
pub mod Order
use clippy.Base.{Bool, List, [], ◌∷◌, if◌then◌else◌}
use clippy.Base.Bytes.{Bytes, bytes_ltb}
use clippy.Netmesh.Types.{Peer, PeerState}
use clippy.Netmesh.PeerState.{peer_copy_locked}

-- The second loop: a copy of each peer, in the order in which the first loop met them.
unfoldable pub snapshots : List (Bytes × PeerState) → List Peer
snapshots [] = []
snapshots ((id, ps) ∷ peers) = peer_copy_locked ps ∷ snapshots peers

unfoldable pub insert_peer : Peer → List Peer → List Peer
insert_peer p [] = p ∷ []
insert_peer p (q ∷ qs) =
    let rest = insert_peer p qs in if bytes_ltb q.id p.id then q ∷ rest else p ∷ q ∷ qs

-- `sort.Slice` sorts; the identifiers differ, so that there is one sorted list.
unfoldable pub sort_peers : List Peer → List Peer
sort_peers [] = []
sort_peers (p ∷ ps) = insert_peer p (sort_peers ps)

unfoldable pub peers : List (Bytes × PeerState) → List Peer
peers table = sort_peers (snapshots table)
