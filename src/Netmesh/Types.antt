-- ===== src/Netmesh/Types.antt =====
-- The data of internal/netmesh/manager.go and connection.go. An IP address and a string are
-- their bytes, a time is nanoseconds since Go's zero time, and a `time.Duration` an integer.
use clippy.Base.{ℕ, Bool, Option, List}
use clippy.Base.Bytes.{Bytes, codes}
use clippy.Base.Int.{ℤ}

abbrev pub protocol_version : Bytes
protocol_version = codes "v1"

pub data ConnectionDirection : Type 0 where
  inbound outbound : ConnectionDirection

pub record Peer : Type 0 where
  pub id : Bytes
  pub name : Bytes
  pub host : Bytes
  pub port : ℤ
  pub addresses : List Bytes
  pub connected : Bool
  pub last_seen : ℕ

-- A `*managedConn` with the fields that never change after `newManagedConn`; `handle` tells
-- pointers apart.
pub record ManagedConn : Type 0 where
  pub handle : ℕ
  pub direction : ConnectionDirection
  pub peer_id : Bytes
  pub peer_name : Bytes

-- `reconnect_pending` is whether the channel `reconnectCh`, of capacity 1, holds a signal.
pub record PeerState : Type 0 where
  pub id : Bytes
  pub peer : Peer
  pub discovered : Bool
  pub ws_path : Bytes
  pub proto : Bytes
  pub conn : Option ManagedConn
  pub backoff : ℤ
  pub reconnect_pending : Bool
  pub dial_loop_started : Bool
