-- ===== src/App/PeerLog/Tests.antt =====
-- A log of peers.
use clippy.Base.{◌≡◌, refl, true, [], ◌∷◌, false}
use clippy.Base.Bytes.{codes, bytes_beq, bytes_eq}
use clippy.Base.Map.{lookup, Distinct}
use clippy.Netmesh.Types.{Peer}
use clippy.Netmesh.PeerState.{zero_peer}
use clippy.Netmesh.Peers.Order.{find_peer}
use clippy.App.PeerLog.{PeerSeen, log_peer_changes}
use clippy.App.PeerLog.Differences.{about, difference, connected_of, log_peer_changes-difference}

abbrev desk : Peer
desk = record zero_peer { id = codes "desk"; connected = true }

abbrev shelf : Peer
shelf = record zero_peer { id = codes "shelf" }

-- The desk was not connected before, and there was a lamp.
abbrev seen : PeerSeen
seen = (codes "desk", false) ∷ (codes "lamp", true) ∷ []

difference_example :
    (about (codes "desk") (log_peer_changes seen (desk ∷ shelf ∷ [])).0
      ≡ difference
          (codes "desk")
          (lookup (codes "desk") seen)
          (find_peer (codes "desk") (desk ∷ shelf ∷ [])))
    × (lookup (codes "desk") (log_peer_changes seen (desk ∷ shelf ∷ [])).1
        ≡ connected_of (find_peer (codes "desk") (desk ∷ shelf ∷ [])))
    × Distinct (log_peer_changes seen (desk ∷ shelf ∷ [])).1
unfolding lookup bytes_beq
difference_example =
    log_peer_changes-difference seen (desk ∷ shelf ∷ []) (codes "desk") (refl, (refl, tt))
      ((λ e. cc, tt), (tt, tt))
