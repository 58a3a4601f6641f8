-- ===== src/Netmesh/Manager.antt =====
-- The operations of internal/netmesh/manager.go and discovery.go on the table of peers. Each is
-- the critical sections that it goes through, one after another.
pub mod Table
pub mod Operations
pub mod Sending
pub mod Shutdown
pub mod Runs
pub mod Entries
pub mod Reports
pub mod Tests
use clippy.Base.{
  ℕ, zero, suc, ◌+◌, Bool, true, false, not, Option, none, some, List, [], ◌∷◌, if◌then◌else◌,
  nat_eq, Result, ok, err,
}
use clippy.Base.Bytes.{Bytes, bytes_beq, bytes_eq}
use clippy.Base.Int.{ℤ}
use clippy.Base.Map.{lookup, insert}
use clippy.Netmesh.Types.{
  protocol_version, ConnectionDirection, inbound, outbound, Peer, ManagedConn, PeerState,
}
use clippy.Netmesh.PeerState.{
  should_dial, new_peer_state, trigger_reconnect, note_name, Attached, attach_connection,
  handle_connection_closed, discover, ensure_dial_loop, prune_stale,
}
use clippy.Netmesh.Delivery.{Link, Outgoing}
use clippy.Netmesh.Discovery.{ServiceEntry, ServiceMetadata, peer_from_entry}

-- `next_handle` stands for the allocator: the address of the next `managedConn`.
pub record Manager : Type 0 where
  pub node_id : Bytes
  pub name : Bytes
  pub web_socket_path : Bytes
  pub peer_stale_after : ℕ
  pub next_handle : ℕ
  -- The context of the manager has ended.
  pub ended : Bool
  pub out : Outgoing

-- `NewManager` with the resolved options.
unfoldable pub new_manager : Bytes → Bytes → Bytes → ℕ → ℕ → ℕ → Manager
new_manager node_id name web_socket_path peer_stale_after max_frame_bytes send_queue_size = record {
  node_id = node_id;
  name = name;
  web_socket_path = web_socket_path;
  peer_stale_after = peer_stale_after;
  next_handle = 0;
  ended = false;
  out = record {
    started = false;
    peers = [];
    links = [];
    max_frame_bytes = max_frame_bytes;
    send_queue_size = send_queue_size;
  };
}

unfoldable pub get_or_create_peer : Manager → Bytes → PeerState
get_or_create_peer m peer_id = elim (lookup peer_id m.out.peers) [
  | some ps ↦ ps
  | none ↦ new_peer_state peer_id
]

-- The peer of an identifier changes; `getOrCreatePeer` has put it into the table.
unfoldable pub put_peer : Manager → Bytes → PeerState → Manager
put_peer m peer_id ps = record m { out = record m.out { peers = insert peer_id ps m.out.peers } }

-- The two calls for a peer that this node dials.
abbrev pub dial_if : Bool → PeerState → PeerState
dial_if true ps = trigger_reconnect (ensure_dial_loop ps)
dial_if false ps = ps

-- `newManagedConn`, with its empty queue. Its context is made from that of the manager.
unfoldable pub new_managed_conn :
    Manager → ConnectionDirection → Bytes → Bytes → Manager × ManagedConn
new_managed_conn m direction peer_id peer_name = (
  record m {
    next_handle = suc m.next_handle;
    out = record m.out {
      links = insert m.next_handle (record { cancelled = m.ended; queue = [] }) m.out.links;
    };
  },
  record {
    handle = m.next_handle;
    direction = direction;
    peer_id = peer_id;
    peer_name = peer_name;
  },
)

-- `close` of a connection, as far as the queues see it.
unfoldable pub close_conn : Manager → ManagedConn → Manager
close_conn m c = elim (lookup c.handle m.out.links) [
  | none ↦ m
  | some l ↦ record m {
    out = record m.out { links = insert c.handle (record l { cancelled = true }) m.out.links };
  }
]

abbrev pub close_old : Manager → Option ManagedConn → Manager
close_old m none = m
close_old m (some c) = close_conn m c

abbrev pub close_unless : Bool → Manager → ManagedConn → Manager
close_unless true m c = m
close_unless false m c = close_conn m c

-- A new connection is attached; the one that it supersedes is closed, and so is it itself if it is
-- a duplicate.
unfoldable pub attach : Manager → Bytes → PeerState → ConnectionDirection → Bytes → Manager × Bool
attach m peer_id ps direction peer_name =
    let (m', conn) = new_managed_conn m direction peer_id peer_name in
    let a = attach_connection m.node_id ps conn in
    (close_unless a.accepted (close_old (put_peer m' peer_id a.state) a.old) conn, a.accepted)

-- The parts of a request that `handleWebSocket` reads.
pub record Request : Type 0 where
  pub path : Bytes
  pub node_id : Bytes
  pub node_name : Bytes
  pub proto : Bytes

pub data Reply : Type 0 where
  not_found missing_node_id unsupported_protocol self_connection upgrade_failed : Reply
  attached duplicate : Reply

abbrev pub reply_of : Manager × Bool → Manager × Reply
reply_of (m, true) = (m, attached)
reply_of (m, false) = (m, duplicate)

-- The checks of a request, in their order.
unfoldable pub check_request : Manager → Request → Option Reply
check_request m r =
    if not (bytes_beq r.path m.web_socket_path)
    then some not_found
    else if bytes_beq r.node_id []
    then some missing_node_id
    else if not (bytes_beq r.proto protocol_version)
    then some unsupported_protocol
    else if bytes_beq r.node_id m.node_id
    then some self_connection
    else none

-- `upgraded` is whether `Upgrade` succeeds.
unfoldable pub handle_web_socket : Manager → Request → Bool → Manager × Reply
handle_web_socket m r upgraded = elim (check_request m r) [
  | some reply ↦ (m, reply)
  | none ↦
      if upgraded
      then reply_of (
          attach m r.node_id (note_name (get_or_create_peer m r.node_id) r.node_name) inbound
            r.node_name)
      else (m, upgrade_failed)
]

-- The headers of the answer to a dial.
pub record Response : Type 0 where
  pub node_id : Bytes
  pub node_name : Bytes
  pub proto : Bytes

pub data DialError (E : Type 0) : Type 0 where
  dial_failed : E → DialError E
  missing_peer_id no_addresses unsupported_peer : DialError E
  wrong_peer : Bytes → DialError E

-- The checks of `dialPeer` on an answer.
unfoldable pub check_response :
    {E : Type 0} → Bytes → Result E Response → Result (DialError E) Response
check_response peer_id (err e) = err (dial_failed e)
check_response peer_id (ok r) =
    if bytes_beq r.node_id []
    then err missing_peer_id
    else if not (bytes_beq r.node_id peer_id)
    then err (wrong_peer r.node_id)
    else if not (bytes_beq r.proto protocol_version)
    then err unsupported_peer
    else ok r

-- The loop of `dialPeer` over the addresses, with `lastErr`; `dial` is the dialer at an address.
unfoldable pub dial_each :
    {E : Type 0}
    → Manager
    → Peer
    → (Bytes → Result E Response)
    → Option (DialError E)
    → List Bytes
    → Manager × Option (DialError E)
dial_each m peer dial none [] = (m, some no_addresses)
dial_each m peer dial (some e) [] = (m, some e)
dial_each m peer dial last (addr ∷ addrs) = elim (check_response peer.id (dial addr)) [
  | err e ↦ dial_each m peer dial (some e) addrs
  | ok r ↦
      let name = if bytes_beq r.node_name [] then peer.name else r.node_name in
      ((attach m peer.id (get_or_create_peer m peer.id) outbound name).0, none)
]

-- A peer that is dialled is in the table.
unfoldable pub dial_peer :
    {E : Type 0} → Manager → Peer → (Bytes → Result E Response) → Manager × Option (DialError E)
dial_peer m peer dial = dial_each m peer dial none peer.addresses

abbrev pub reconnect_if : PeerState × Bool → PeerState
reconnect_if (ps, true) = trigger_reconnect ps
reconnect_if (ps, false) = ps

-- The end of a pump of a connection: `handleConnectionClosed` and `close`.
unfoldable pub connection_closed : Manager → ManagedConn → Manager
connection_closed m c = elim (lookup c.peer_id m.out.peers) [
  | none ↦ close_conn m c
  | some ps ↦
      close_conn (put_peer m c.peer_id (reconnect_if (handle_connection_closed m.node_id ps c))) c
]

unfoldable pub prune_each : ℕ → ℕ → List (Bytes × PeerState) → List (Bytes × PeerState)
prune_each stale_after now [] = []
prune_each stale_after now ((id, ps) ∷ peers) =
    (id, prune_stale stale_after now ps) ∷ prune_each stale_after now peers

unfoldable pub prune_stale_peers : Manager → ℕ → Manager
prune_stale_peers m now = record m {
  out = record m.out { peers = prune_each m.peer_stale_after now m.out.peers };
}

-- `ip_string` is `net.IP.String`.
module _ (ip_string : Bytes → Bytes) where
  unfoldable pub handle_service_entry : Manager → ℕ → Option ServiceEntry → Manager
  handle_service_entry m now entry = elim (peer_from_entry ip_string now entry) [
    | err e ↦ m
    | ok (peer, meta) ↦
        if bytes_beq peer.id m.node_id
        then m
        else put_peer m peer.id (
            dial_if (should_dial m.node_id peer.id)
              (discover (get_or_create_peer m peer.id) peer meta.ws_path meta.proto))
  ]

pub data StartError : Type 0 where
  manager_started listen_failed : StartError

-- `Start`; `listens` is whether `net.Listen` succeeds.
unfoldable pub start_manager : Manager → Bool → Manager × Option StartError
start_manager m listens =
    if m.out.started
    then (m, some manager_started)
    else if listens
    then (record m { out = record m.out { started = true } }, none)
    else (m, some listen_failed)
