-- ===== src/Netmesh/PeerState.antt =====
-- The connection state machine of one peer: `peerState` of internal/netmesh/connection.go, and
-- the methods of manager.go and discovery.go that change it under its mutex. A method returns
-- the next state and what it starts or closes, which its caller then does.
pub mod TieBreak
use clippy.Base.{
  ℕ, Bool, true, false, ◌&&◌, ◌||◌, not, Option, none, some, List, [], ◌∷◌, ltb, ◌==◌,
  if◌then◌else◌, length, ◌-◌, min,
}
use clippy.Base.Bytes.{Bytes, bytes_beq, bytes_ltb}
use clippy.Base.Int.{ℤ, pos, negsuc, to_nat}
use clippy.Netmesh.Types.{
  protocol_version, ConnectionDirection, inbound, outbound, Peer, ManagedConn, PeerState,
}
use clippy.Netmesh.Backoff.{bump_backoff}

-- Only the node with the smaller identifier dials.
unfoldable pub should_dial : Bytes → Bytes → Bool
should_dial self_id peer_id = bytes_ltb self_id peer_id

unfoldable pub preferred_direction : Bytes → Bytes → ConnectionDirection
preferred_direction self_id peer_id = if should_dial self_id peer_id then outbound else inbound

abbrev pub direction_beq : ConnectionDirection → ConnectionDirection → Bool
direction_beq inbound inbound = true
direction_beq outbound outbound = true
direction_beq inbound outbound = false
direction_beq outbound inbound = false

-- The zero `Peer`.
abbrev pub zero_peer : Peer
zero_peer = record {
  id = [];
  name = [];
  host = [];
  port = pos 0;
  addresses = [];
  connected = false;
  last_seen = 0;
}

-- The literal of `getOrCreatePeer`.
unfoldable pub new_peer_state : Bytes → PeerState
new_peer_state peer_id = record {
  id = peer_id;
  peer = zero_peer;
  discovered = false;
  ws_path = [];
  proto = [];
  conn = none;
  backoff = pos 0;
  reconnect_pending = false;
  dial_loop_started = false;
}

-- A copy of the addresses has the same addresses.
unfoldable pub copy_ips : List Bytes → List Bytes
copy_ips [] = []
copy_ips (ip ∷ ips) = ip ∷ copy_ips ips

unfoldable pub peer_copy_locked : PeerState → Peer
peer_copy_locked ps = record ps.peer { id = ps.id; addresses = copy_ips ps.peer.addresses }

-- A send on a channel of capacity 1, dropped when the channel is full.
unfoldable pub trigger_reconnect : PeerState → PeerState
trigger_reconnect ps = record ps { reconnect_pending = true }

unfoldable pub reset_backoff : PeerState → PeerState
reset_backoff ps = record ps { backoff = pos 0 }

-- What `attachConnection` leaves: the state, whether the connection was accepted (and started),
-- and the connection that it supersedes, to be closed.
pub record Attached : Type 0 where
  pub state : PeerState
  pub accepted : Bool
  pub old : Option ManagedConn

-- The two assignments above the `switch`.
unfoldable pub name_peer : PeerState → ManagedConn → PeerState
name_peer ps conn =
    let peer = record ps.peer { id = ps.id } in
    record ps {
      peer = if bytes_beq conn.peer_name [] then peer else record peer { name = conn.peer_name };
    }

-- The first critical section of `handleWebSocket`, before the connection is attached.
unfoldable pub note_name : PeerState → Bytes → PeerState
note_name ps remote_name =
    if bytes_beq remote_name []
    then ps
    else record ps { peer = record ps.peer { name = remote_name } }

unfoldable pub adopt : PeerState → ManagedConn → PeerState
adopt ps conn = record ps {
  conn = some conn;
  peer = record ps.peer { connected = true };
  backoff = pos 0;
}

unfoldable pub attach_connection : Bytes → PeerState → ManagedConn → Attached
attach_connection self_id ps conn =
    let ps' = name_peer ps conn in
    elim ps.conn [
      | none ↦ record { state = adopt ps' conn; accepted = true; old = none }
      | some current ↦
          if direction_beq current.direction conn.direction
          then record { state = ps'; accepted = false; old = none }
          else if direction_beq conn.direction (preferred_direction self_id ps.id)
          then record { state = adopt ps' conn; accepted = true; old = some current }
          else record { state = ps'; accepted = false; old = none }
    ]

-- `ps.conn != conn` compares pointers.
abbrev pub is_current : PeerState → ManagedConn → Bool
is_current ps conn = elim ps.conn [ none ↦ false | some current ↦ current.handle == conn.handle ]

-- The state, and whether `triggerReconnect` is called once the mutex is free.
unfoldable pub handle_connection_closed : Bytes → PeerState → ManagedConn → PeerState × Bool
handle_connection_closed self_id ps conn = if not (is_current ps conn) then (ps, false) else (
  record ps { conn = none; peer = record ps.peer { connected = false } },
  ps.discovered && should_dial self_id ps.id,
)

-- The critical section of `handleServiceEntry`; `peer` comes from `peerFromEntry`. If
-- `should_dial`, `ensure_dial_loop` and `trigger_reconnect` follow once the mutex is free.
unfoldable pub discover : PeerState → Peer → Bytes → Bytes → PeerState
discover ps peer ws_path proto = record ps {
  peer = record ps.peer {
    id = peer.id;
    name = peer.name;
    host = peer.host;
    port = peer.port;
    addresses = copy_ips peer.addresses;
    last_seen = peer.last_seen;
  };
  discovered = true;
  ws_path = ws_path;
  proto = proto;
}

-- The loop itself is the phases of Netmesh/DialLoop.
unfoldable pub ensure_dial_loop : PeerState → PeerState
ensure_dial_loop ps = if ps.dial_loop_started then ps else record ps { dial_loop_started = true }

-- `now.Sub(lastSeen)`, which saturates at the largest `time.Duration`.
abbrev pub time_sub : ℕ → ℕ → ℕ
time_sub now last_seen = min (now - last_seen) 9223372036854775807

-- The body of the loop of `pruneStalePeers`; `stale_after` is `PeerStaleAfter`, which
-- `withDefaults` makes positive, so that a negative age never passes the test.
unfoldable pub prune_stale : ℕ → ℕ → PeerState → PeerState
prune_stale stale_after now ps =
    if ps.discovered
      && (not (ps.peer.last_seen == 0) && ltb stale_after (time_sub now ps.peer.last_seen))
    then record ps {
      discovered = false;
      peer = record ps.peer { host = []; port = pos 0; addresses = [] };
      ws_path = [];
      proto = [];
    }
    else ps

abbrev pub is_zero : ℤ → Bool
is_zero (pos n) = n == 0
is_zero (negsuc n) = false

abbrev pub is_some {ℓ} : {A : Type ℓ} → Option A → Bool
is_some none = false
is_some (some a) = true

-- The tests of `prepareDial`.
unfoldable pub dialable : Bytes → PeerState → Bool
dialable self_id ps =
    not (is_some ps.conn || (not ps.discovered || not (should_dial self_id ps.id)))
    && not (
        is_zero ps.peer.port
        || (length ps.peer.addresses == 0
            || (bytes_beq ps.ws_path [] || not (bytes_beq ps.proto protocol_version))))

pub record DialPlan : Type 0 where
  pub peer : Peer
  pub ws_path : Bytes
  pub delay : ℤ

-- The state, and `none` where `prepareDial` reports that no dial should be made.
unfoldable pub prepare_dial : Bytes → ℤ → ℤ → PeerState → PeerState × Option DialPlan
prepare_dial self_id min_backoff max_backoff ps =
    let delay = bump_backoff ps.backoff min_backoff max_backoff in
    if dialable self_id ps
    then (
      record ps { backoff = delay },
      some (record { peer = peer_copy_locked ps; ws_path = ps.ws_path; delay = delay }),
    )
    else (ps, none)
