-- ===== src/App/Status.antt =====
-- internal/app/runtime.go: the status that a running daemon reports.
use clippy.Base.{ℕ, Bool, true, List, [], ◌∷◌}
use clippy.Base.Bytes.{Bytes}
use clippy.Base.Int.{ℤ}
use clippy.Netmesh.Types.{Peer}

pub record PeerStatus : Type 0 where
  pub id : Bytes
  pub name : Bytes
  pub host : Bytes
  pub port : ℤ
  pub connected : Bool
  pub last_seen : ℕ

pub record Status : Type 0 where
  pub running : Bool
  pub name : Bytes
  pub node_id : Bytes
  pub started_at : ℕ
  pub peers : List PeerStatus

-- The literal in the loop of `Status`.
abbrev pub peer_status : Peer → PeerStatus
peer_status p = record {
  id = p.id;
  name = p.name;
  host = p.host;
  port = p.port;
  connected = p.connected;
  last_seen = p.last_seen;
}

unfoldable pub peer_statuses : List Peer → List PeerStatus
peer_statuses [] = []
peer_statuses (p ∷ ps) = peer_status p ∷ peer_statuses ps

-- The status, from what the mesh answers to `Name`, `NodeID` and `Peers`.
unfoldable pub runtime_status : Bytes → Bytes → ℕ → List Peer → Status
runtime_status name node_id started_at peers = record {
  running = true;
  name = name;
  node_id = node_id;
  started_at = started_at;
  peers = peer_statuses peers;
}
