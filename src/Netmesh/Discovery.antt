-- ===== src/Netmesh/Discovery.antt =====
-- internal/netmesh/discovery.go: the TXT records of an advertisement, and the peer that an
-- entry of the discovery service describes.
pub mod RoundTrip
use clippy.Base.{
  ℕ, ◌≡◌, Bool, true, false, ◌&&◌, ◌||◌, not, Option, none, some, List, [], ◌∷◌, ◌++◌, leb, ltb,
  ◌==◌, if◌then◌else◌, length, take, drop, Result, ok, err, ◌>>=◌, ◌>>◌, fail_if, or_fail,
}
use clippy.Base.Bytes.{Bytes, codes, bytes_beq, bytes_ltb, bytes_eq}
use clippy.Base.Map.{lookup, insert}
use clippy.Base.Text.{trim_space, cut, has_prefix, trim_suffix}
use clippy.Base.Int.{ℤ, pos, negsuc}
use clippy.Netmesh.Types.{protocol_version, Peer}
use clippy.Netmesh.PeerState.{is_zero, is_some}

pub data DiscoveryError : Type 0 where
  nil_entry missing_id missing_name missing_path missing_port missing_addresses : DiscoveryError
  invalid_txt unsupported_protocol : Bytes → DiscoveryError

pub record ServiceMetadata : Type 0 where
  pub id : Bytes
  pub name : Bytes
  pub ws_path : Bytes
  pub proto : Bytes

-- What the discovery library reports: the fields of its `ServiceEntry` that are read here. A nil
-- IP is the empty one.
pub record ServiceEntry : Type 0 where
  pub instance_name : Bytes
  pub host_name : Bytes
  pub port : ℤ
  pub text : List Bytes
  pub addr_ipv4 : List Bytes
  pub addr_ipv6 : List Bytes

unfoldable pub discovery_text : Bytes → Bytes → Bytes → List Bytes
discovery_text node_id name ws_path =
    (codes "id=" ++ node_id)
    ∷ (codes "name=" ++ name)
    ∷ (codes "ws_path=" ++ ws_path)
    ∷ (codes "proto=" ++ protocol_version)
    ∷ []

-- The loop of `parseTXT`.
unfoldable pub read_entries :
    List Bytes → List (Bytes × Bytes) → Result DiscoveryError (List (Bytes × Bytes))
read_entries [] values = ok values
read_entries (entry ∷ rest) values = elim (cut b'=' entry) [
  | none ↦ err (invalid_txt entry)
  | some (key, value) ↦
      let more = read_entries rest (insert key value values) in
      if bytes_beq key [] then err (invalid_txt entry) else more
]

-- `values[key]`: a missing key reads as the empty string.
abbrev pub value_of : Option Bytes → Bytes
value_of none = []
value_of (some v) = v

-- The literal of `parseTXT`.
unfoldable pub trimmed_metadata : List (Bytes × Bytes) → ServiceMetadata
trimmed_metadata values = record {
  id = trim_space (value_of (lookup (codes "id") values));
  name = trim_space (value_of (lookup (codes "name") values));
  ws_path = trim_space (value_of (lookup (codes "ws_path") values));
  proto = trim_space (value_of (lookup (codes "proto") values));
}

unfoldable pub check_metadata : ServiceMetadata → Result DiscoveryError ServiceMetadata
check_metadata meta = do
  fail_if (bytes_beq meta.id []) missing_id
  fail_if (bytes_beq meta.name []) missing_name
  fail_if (bytes_beq meta.ws_path [] || not (has_prefix b'/' meta.ws_path)) missing_path
  fail_if (not (bytes_beq meta.proto protocol_version)) (unsupported_protocol meta.proto)
  ok meta

unfoldable pub parse_txt : List Bytes → Result DiscoveryError ServiceMetadata
parse_txt text = do values ← read_entries text []; check_metadata (trimmed_metadata values)

abbrev v4_prefix : Bytes
v4_prefix = 0 ∷ 0 ∷ 0 ∷ 0 ∷ 0 ∷ 0 ∷ 0 ∷ 0 ∷ 0 ∷ 0 ∷ 255 ∷ 255 ∷ []

-- `ip.To4() != nil`: four bytes, or sixteen that begin with the prefix of a mapped address.
unfoldable pub is_v4 : Bytes → Bool
is_v4 ip = length ip == 4 || (length ip == 16 && bytes_beq (take 12 ip) v4_prefix)

all_zero : Bytes → Bool
all_zero [] = true
all_zero (b ∷ bs) = b == 0 && all_zero bs

-- `ip.IsUnspecified()`.
unfoldable pub is_unspecified_ip : Bytes → Bool
unfolding all_zero is_v4
is_unspecified_ip ip =
    length ip == 4 && all_zero ip
    || (length ip == 16 && (all_zero ip || (is_v4 ip && all_zero (drop 12 ip))))

-- `ip_string` is `net.IP.String`.
module _ (ip_string : Bytes → Bytes) where
  -- The loops that filter the addresses; `seen` holds the texts of those kept so far.
  unfoldable pub distinct_ips : List Bytes → List (Bytes × Unit {0}) → List Bytes
  distinct_ips [] seen = []
  distinct_ips (ip ∷ ips) seen =
      let key = ip_string ip in
      let skip = distinct_ips ips seen in
      let keep = distinct_ips ips (insert key tt seen) in
      if length ip == 0 || is_unspecified_ip ip
      then skip
      else elim (lookup key seen) [ some _ ↦ skip | none ↦ ip ∷ keep ]

  -- The order of `sort.Slice`: IPv4 first, then by text.
  unfoldable pub ip_less : Bytes → Bytes → Bool
  ip_less a b =
      if is_v4 a
      then (if is_v4 b then bytes_ltb (ip_string a) (ip_string b) else true)
      else if is_v4 b
      then false
      else bytes_ltb (ip_string a) (ip_string b)

  unfoldable pub insert_ip : Bytes → List Bytes → List Bytes
  insert_ip ip [] = ip ∷ []
  insert_ip ip (j ∷ js) = if ip_less j ip then j ∷ insert_ip ip js else ip ∷ j ∷ js

  -- `sort.Slice` sorts; the texts differ, so that there is one sorted list.
  unfoldable pub sort_ips : List Bytes → List Bytes
  sort_ips [] = []
  sort_ips (ip ∷ ips) = insert_ip ip (sort_ips ips)

  unfoldable pub normalize_ips : List Bytes → List Bytes → List Bytes
  normalize_ips v4 v6 = sort_ips (distinct_ips (v4 ++ v6) [])

  -- `none` is the nil entry, and `now` is `time.Now().UTC()`.
  unfoldable pub peer_from_entry :
      ℕ → Option ServiceEntry → Result DiscoveryError (Peer × ServiceMetadata)
  peer_from_entry now none = err nil_entry
  peer_from_entry now (some entry) = do
    meta ← parse_txt entry.text
    fail_if (is_zero entry.port) missing_port
    let addresses = normalize_ips entry.addr_ipv4 entry.addr_ipv6
    fail_if (length addresses == 0) missing_addresses
    let host = trim_suffix b'.' entry.host_name
    ok (
      record {
        id = meta.id;
        name = meta.name;
        host = if bytes_beq host [] then entry.instance_name else host;
        port = entry.port;
        addresses = addresses;
        connected = false;
        last_seen = now;
      },
      meta,
    )
