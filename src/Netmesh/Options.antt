-- ===== src/Netmesh/Options.antt =====
-- `withDefaults` and the constants of internal/netmesh/manager.go. Durations are nanoseconds.
pub mod Laws
use clippy.Base.{
  ℕ, Bool, true, false, Result, ok, err, ◌>>=◌, ◌>>◌, fail_if, if◌then◌else◌, ◌+◌, ◌*◌, [],
}
use clippy.Base.Bytes.{Bytes, codes, bytes_beq}
use clippy.Base.Int.{ℤ, pos, negsuc, is_nonpos, is_neg, ltb_ℤ}
use clippy.Clipwire.Payload.{default_chunk_size}

pub record Options : Type 0 where
  pub node_id : Bytes
  pub name : Bytes
  pub service_name : Bytes
  pub domain : Bytes
  pub web_socket_path : Bytes
  pub listen_addr : Bytes
  pub port : ℤ
  pub heartbeat_interval : ℤ
  pub pong_timeout : ℤ
  pub peer_stale_after : ℤ
  pub browse_cycle : ℤ
  pub reconnect_min_backoff : ℤ
  pub reconnect_max_backoff : ℤ
  pub max_frame_bytes : ℤ
  pub send_queue_size : ℤ

pub data OptionsError : Type 0 where
  backoff_order negative_port : OptionsError
  node_id_source hostname_source : OptionsError

abbrev second : ℕ
second = 1000000000

abbrev pub default_max_frame_bytes : ℕ
default_max_frame_bytes = default_chunk_size + 65536

-- `if x == "" { x = d }` and `if x <= 0 { x = d }`.
abbrev pub or_text : Bytes → Bytes → Bytes
or_text x d = if bytes_beq x [] then d else x

abbrev pub or_number : ℤ → ℕ → ℤ
or_number x d = if is_nonpos x then pos d else x

-- The assignments above the first check. The later ones commute with the checks between them.
unfoldable pub fill_defaults : Options → Options
fill_defaults o = record o {
  service_name = or_text o.service_name (codes "_clippy._tcp");
  domain = or_text o.domain (codes "local.");
  web_socket_path = or_text o.web_socket_path (codes "/ws");
  heartbeat_interval = or_number o.heartbeat_interval (10 * second);
  pong_timeout = or_number o.pong_timeout (30 * second);
  peer_stale_after = or_number o.peer_stale_after (90 * second);
  browse_cycle = or_number o.browse_cycle (30 * second);
  reconnect_min_backoff = or_number o.reconnect_min_backoff second;
  reconnect_max_backoff = or_number o.reconnect_max_backoff (30 * second);
}

-- The assignments between the two checks.
unfoldable pub fill_sizes : Options → Options
fill_sizes o = record o {
  max_frame_bytes = or_number o.max_frame_bytes default_max_frame_bytes;
  send_queue_size = or_number o.send_queue_size 64;
}

-- A text that is generated if it is missing.
abbrev pub or_source : Bytes → Result OptionsError Bytes → Result OptionsError Bytes
or_source x source = if bytes_beq x [] then source else ok x

-- `new_node_id` and `hostname` are what the two calls to the system return.
unfoldable pub with_defaults :
    Result OptionsError Bytes → Result OptionsError Bytes → Options → Result OptionsError Options
with_defaults new_node_id hostname opts = do
  let filled = fill_defaults opts
  fail_if (ltb_ℤ filled.reconnect_max_backoff filled.reconnect_min_backoff) backoff_order
  let sized = fill_sizes filled
  fail_if (is_neg sized.port) negative_port
  node_id ← or_source sized.node_id new_node_id
  name ← or_source sized.name hostname
  ok (record sized { node_id = node_id; name = name })
