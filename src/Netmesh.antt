-- ===== src/Netmesh.antt =====
-- internal/netmesh: peers, their connections, discovery and frame delivery.
pub mod Types
pub mod Backoff
pub mod PeerState
pub mod DialLoop
pub mod Discovery
pub mod Options
pub mod Delivery
pub mod Pumps
pub mod Broadcast
pub mod Manager
pub mod Peers
pub mod Tests
