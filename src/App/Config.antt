-- ===== src/App/Config.antt =====
-- internal/app/config.go: what a daemon is started with. The control endpoint is the platform's.
use clippy.Base.{if◌then◌else◌, []}
use clippy.Base.Bytes.{Bytes, codes, bytes_beq}
use clippy.Base.Int.{ℤ}

pub record Config : Type 0 where
  pub name : Bytes
  pub listen_addr : Bytes
  pub port : ℤ
  pub service_name : Bytes
  pub domain : Bytes
  pub web_socket_path : Bytes
  pub control_endpoint : Bytes

-- `if x == "" { x = d }`.
abbrev pub or_default : Bytes → Bytes → Bytes
or_default x d = if bytes_beq x [] then d else x

-- `WithDefaults`.
unfoldable pub config_defaults : Config → Config
config_defaults c = record c {
  service_name = or_default c.service_name (codes "_clippy._tcp");
  domain = or_default c.domain (codes "local.");
  web_socket_path = or_default c.web_socket_path (codes "/ws");
}
