-- ===== src/Netmesh/Tests.antt =====
-- Concrete peers, advertisements and options, run through internal/netmesh.
use clippy.Base.{
  ℕ, ◌+◌, ◌-◌, ◌*◌, ◌/◌, ◌^◌, ◌≡◌, ◌≢◌, ◌<◌, ◌≤◌, refl, Bool, true, false, some, [], ◌∷◌, arith, ok,
  if◌then◌else◌, min, nat_eq,
}
use clippy.Base.Bytes.{Bytes, codes, bytes_beq, bytes_ltb, bytes_eq}
use clippy.Base.Map.{insert, lookup}
use clippy.Base.Text.{trim_space, cut, has_prefix, trim_suffix}
use clippy.Base.Int.{pos}
use clippy.Netmesh.Types.{protocol_version, inbound, outbound, Peer, ManagedConn}
use clippy.Netmesh.PeerState.{
  should_dial, new_peer_state, discover, ensure_dial_loop, trigger_reconnect,
}
use clippy.Netmesh.DialLoop.{
  Loop, preparing, IsEntry, discovers, starts, signals, one_if, wakes, initial, Reach, here, next,
}
use clippy.Netmesh.DialLoop.Reconnect.{IsGood, reach-IsGood}
use clippy.Netmesh.Delivery.{Link, Outgoing, send}
use clippy.Netmesh.Delivery.Queues.{Sent, send-Sent}
use clippy.Netmesh.Backoff.{with_jitter}
use clippy.Netmesh.Backoff.Schedule.{bumps, bumps-suc, with_jitter_bounds}
use clippy.Netmesh.Discovery.{
  ServiceMetadata, ServiceEntry, discovery_text, read_entries, trimmed_metadata, check_metadata,
  parse_txt, is_unspecified_ip, distinct_ips, sort_ips, insert_ip, normalize_ips, peer_from_entry,
}
use clippy.Netmesh.Discovery.RoundTrip.{parse_txt-discovery_text, peer_from_entry-IsEntry}
use clippy.Netmesh.Options.{Options, with_defaults, fill_defaults, fill_sizes}

abbrev node_a : Bytes
node_a = 1 ∷ []

abbrev node_b : Bytes
node_b = 2 ∷ []

abbrev address : Bytes
address = 10 ∷ 0 ∷ 0 ∷ 2 ∷ []

abbrev found : Peer
found = record {
  id = node_b;
  name = codes "desk";
  host = codes "desk.local";
  port = pos 4000;
  addresses = address ∷ [];
  connected = false;
  last_seen = 50;
}

found-IsEntry : IsEntry (initial node_b).ps found (codes "/ws") protocol_version
unfolding initial new_peer_state
found-IsEntry = record {
  same_id = refl;
  has_port = refl;
  has_addresses = λ e. cc;
  has_path = λ e. cc;
  has_proto = refl;
}

abbrev discovered_loop : Loop
discovered_loop = record (initial node_b) {
  ps = discover (initial node_b).ps found (codes "/ws") protocol_version;
  starting = (initial node_b).starting + one_if (should_dial node_a node_b);
}

abbrev started_loop : Loop
started_loop = record discovered_loop {
  ps = ensure_dial_loop discovered_loop.ps;
  starting = discovered_loop.starting - 1;
  signalling = discovered_loop.signalling + 1;
}

abbrev signalled_loop : Loop
signalled_loop = record started_loop {
  ps = trigger_reconnect started_loop.ps;
  signalling = started_loop.signalling - 1;
}

abbrev woken_loop : Loop
woken_loop = record signalled_loop {
  ps = record signalled_loop.ps { reconnect_pending = false };
  phase = preparing;
}

-- A peer is discovered, its loop is started and signalled, and wakes up to dial it.
woken_reach : Reach node_a (pos 1) (pos 30) 90 node_b woken_loop
unfolding initial new_peer_state discover should_dial bytes_ltb ensure_dial_loop trigger_reconnect
woken_reach =
    next
      (next
        (next
          (next here
            (discovers (initial node_b) found (codes "/ws") protocol_version found-IsEntry))
          (starts discovered_loop (omega arith)))
        (signals started_loop (omega arith)))
      (wakes signalled_loop refl refl refl)

reach_example : IsGood node_a woken_loop
reach_example = reach-IsGood node_a (pos 1) (pos 30) 90 node_b woken_reach

abbrev conn : ℕ → Bool → Bytes → ManagedConn
conn handle out peer_id = record {
  handle = handle;
  direction = if out then outbound else inbound;
  peer_id = peer_id;
  peer_name = [];
}

advertisement_example :
    parse_txt (discovery_text node_b (codes "my desk=1") (codes "/ws"))
    ≡ ok (record {
      id = node_b;
      name = codes "my desk=1";
      ws_path = codes "/ws";
      proto = protocol_version;
    })
advertisement_example =
    parse_txt-discovery_text node_b (codes "my desk=1") (codes "/ws") (λ e. cc) (λ e. cc)
      (unfold has_prefix in refl) (unfold trim_space in refl) (unfold trim_space in refl)
      (unfold trim_space in refl)

abbrev entry : ServiceEntry
entry = record {
  instance_name = codes "b";
  host_name = codes "desk.local.";
  port = pos 4000;
  text = discovery_text node_b (codes "desk") (codes "/ws");
  addr_ipv4 = (0 ∷ 0 ∷ 0 ∷ 0 ∷ []) ∷ address ∷ address ∷ [];
  addr_ipv6 = [];
}

abbrev found_metadata : ServiceMetadata
found_metadata = record {
  id = node_b;
  name = codes "desk";
  ws_path = codes "/ws";
  proto = protocol_version;
}

-- An unspecified address and a repeated one are left out, and so is the dot behind the host.
entry_is_found : peer_from_entry (λ ip. ip) 50 (some entry) ≡ ok (found, found_metadata)
unfolding peer_from_entry parse_txt read_entries discovery_text cut bytes_beq check_metadata
    trimmed_metadata trim_space lookup insert has_prefix normalize_ips sort_ips distinct_ips
    is_unspecified_ip insert_ip trim_suffix
entry_is_found = refl

entry_example :
    (found.id ≢ []) × IsEntry (initial node_b).ps found found_metadata.ws_path found_metadata.proto
entry_example =
    peer_from_entry-IsEntry (λ ip. ip) 50 entry found found_metadata (initial node_b).ps
      entry_is_found (unfold initial in unfold new_peer_state in refl)

abbrev zero_options : Options
zero_options = record {
  node_id = [];
  name = codes "desk";
  service_name = [];
  domain = [];
  web_socket_path = [];
  listen_addr = [];
  port = pos 0;
  heartbeat_interval = pos 0;
  pong_timeout = pos 0;
  peer_stale_after = pos 0;
  browse_cycle = pos 0;
  reconnect_min_backoff = pos 0;
  reconnect_max_backoff = pos 0;
  max_frame_bytes = pos 0;
  send_queue_size = pos 5;
}

abbrev filled_options : Options
filled_options = record zero_options {
  node_id = codes "fresh";
  service_name = codes "_clippy._tcp";
  domain = codes "local.";
  web_socket_path = codes "/ws";
  heartbeat_interval = pos 10000000000;
  pong_timeout = pos 30000000000;
  peer_stale_after = pos 90000000000;
  browse_cycle = pos 30000000000;
  reconnect_min_backoff = pos 1000000000;
  reconnect_max_backoff = pos 30000000000;
  max_frame_bytes = pos 1114112;
}

options_are_filled :
    with_defaults (ok (codes "fresh")) (ok (codes "host")) zero_options ≡ ok filled_options
unfolding with_defaults fill_defaults fill_sizes bytes_beq
options_are_filled = refl

bumps_example : bumps (pos 1) (pos 30) 6 ≡ pos (min (1 * 2 ^ 5) 30)
bumps_example = bumps-suc 1 30 5 (omega arith) (omega arith) (omega arith)

jitter_example : (d : ℕ) × (with_jitter (λ n. 0) (pos 9) ≡ pos d) × (9 / 2 ≤ d) × (d ≤ 9) × (0 < d)
jitter_example = with_jitter_bounds (λ n. 0) 9 (λ n p. p) (omega arith)

abbrev link : Link
link = record { cancelled = false; queue = (7 ∷ []) ∷ [] }

abbrev outgoing : Outgoing
outgoing = record {
  started = true;
  peers = (node_b, record (new_peer_state node_b) { conn = some (conn 1 true node_b) }) ∷ [];
  links = (1, link) ∷ [];
  max_frame_bytes = 10;
  send_queue_size = 2;
}

sent_example : Sent outgoing node_b (8 ∷ []) (send outgoing false 0 node_b (8 ∷ []))
sent_example = send-Sent outgoing false 0 node_b (8 ∷ [])
