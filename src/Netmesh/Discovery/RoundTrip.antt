-- ===== src/Netmesh/Discovery/RoundTrip.antt =====
-- An advertisement reads back as what was advertised.
use clippy.Base.{
  ℕ, ◌≡◌, ◌≢◌, refl, ap, sym, ◌∙◌, true, false, some, List, [], ◌∷◌, arith, ok, subst, bind_ok,
  ◌==◌, length,
}
use clippy.Base.Bytes.{Bytes, codes, bytes_beq, bytes_beq_iff, bytes_eq}
use clippy.Base.Map.{lookup, insert}
use clippy.Base.Text.{trim_space, cut, has_prefix}
use clippy.Netmesh.Types.{protocol_version, Peer, PeerState}
use clippy.Netmesh.DialLoop.{IsEntry}
use clippy.Netmesh.Discovery.{
  ServiceMetadata, ServiceEntry, discovery_text, read_entries, trimmed_metadata, check_metadata,
  parse_txt, peer_from_entry,
}

read_discovery_text :
    (id name path : Bytes)
    → read_entries (discovery_text id name path) []
      ≡ ok (
          (codes "id", id)
          ∷ (codes "name", name)
          ∷ (codes "ws_path", path)
          ∷ (codes "proto", protocol_version)
          ∷ [])
unfolding discovery_text read_entries insert bytes_beq cut
read_discovery_text id name path = refl

trim_version : trim_space protocol_version ≡ protocol_version
unfolding trim_space
trim_version = refl

advertised : Bytes → Bytes → Bytes → ServiceMetadata
advertised id name path = record { id = id; name = name; ws_path = path; proto = protocol_version }

trimmed_advertised :
    (id name path : Bytes)
    → trim_space id ≡ id
    → trim_space name ≡ name
    → trim_space path ≡ path
    → trimmed_metadata (
        (codes "id", id)
        ∷ (codes "name", name)
        ∷ (codes "ws_path", path)
        ∷ (codes "proto", protocol_version)
        ∷ [])
      ≡ advertised id name path
unfolding trimmed_metadata lookup bytes_beq advertised
trimmed_advertised id name path i n p = cc (i, n, p, trim_version)

ne-beq : (b : Bytes) → b ≢ [] → bytes_beq b [] ≡ false
unfolding bytes_beq
ne-beq [] ne = absurd (ne refl)
ne-beq (x ∷ xs) ne = refl

slash-beq : (b : Bytes) → has_prefix b'/' b ≡ true → bytes_beq b [] ≡ false
unfolding has_prefix bytes_beq
slash-beq [] h = cc
slash-beq (x ∷ xs) h = refl

-- Parsing an advertisement gives back the identifier, the name, the path and the version that
-- were advertised, if the identifier and the name are not empty, the path begins with a slash
-- and none of the three has white space at its ends.
pub parse_txt-discovery_text :
    (id name path : Bytes)
    → id ≢ []
    → name ≢ []
    → has_prefix b'/' path ≡ true
    → trim_space id ≡ id
    → trim_space name ≡ name
    → trim_space path ≡ path
    → parse_txt (discovery_text id name path)
      ≡ ok (record { id = id; name = name; ws_path = path; proto = protocol_version })
unfolding parse_txt check_metadata advertised
parse_txt-discovery_text id name path ni nn slash ti tn tp = rw (read_discovery_text id name path) (
    rw (trimmed_advertised id name path ti tn tp) (
      ground (
        arith,
        ne-beq id ni,
        ne-beq name nn,
        slash-beq path slash,
        slash,
        (bytes_beq_iff protocol_version protocol_version).1 refl,
      )))

beq-ne : (b : Bytes) → bytes_beq b [] ≡ false → b ≢ []
beq-ne b h e = let same = (bytes_beq_iff b []).1 e in cc

-- What an accepted TXT record guarantees.
pub record IsChecked (meta : ServiceMetadata) : Type 0 where
  pub has_id : meta.id ≢ []
  pub has_name : meta.name ≢ []
  pub has_path : meta.ws_path ≢ []
  pub has_version : meta.proto ≡ protocol_version

check_sound : (given meta : ServiceMetadata) → check_metadata given ≡ ok meta → IsChecked meta
unfolding check_metadata
check_sound given meta h =
    let same : given ≡ meta = ground arith in
    subst IsChecked same (record {
      has_id = beq-ne given.id (ground arith);
      has_name = beq-ne given.name (ground arith);
      has_path = beq-ne given.ws_path (ground arith);
      has_version = (bytes_beq_iff given.proto protocol_version).0 (ground arith);
    })

pub parse_txt-IsChecked :
    (text : List Bytes) (meta : ServiceMetadata) → parse_txt text ≡ ok meta → IsChecked meta
unfolding parse_txt
parse_txt-IsChecked text meta h =
    let (values, _, checked) = bind_ok (read_entries text []) _ h in check_sound _ meta checked

-- What `handleServiceEntry` relies on: an entry that `peerFromEntry` accepts names a peer with
-- an identifier, a port that is not 0 and an address, and comes with a path and the protocol
-- version, so that it is an entry for the peer state of that identifier.
pub peer_from_entry-IsEntry :
    (ip_string : Bytes → Bytes) (now : ℕ) (entry : ServiceEntry) (peer : Peer)
    (meta : ServiceMetadata) (ps : PeerState)
    → peer_from_entry ip_string now (some entry) ≡ ok (peer, meta)
    → peer.id ≡ ps.id
    → (peer.id ≢ []) × IsEntry ps peer meta.ws_path meta.proto
unfolding peer_from_entry
peer_from_entry-IsEntry ip_string now entry peer meta ps h same =
    let (m, parsed, rest) = bind_ok (parse_txt entry.text) _ h in
    let c = parse_txt-IsChecked entry.text m parsed in
    let same_meta : m ≡ meta = ground arith in
    let same_peer_id : peer.id ≡ m.id = ground arith in
    let some_address : length peer.addresses == 0 ≡ false = ground arith in
    (
      λ e. c.has_id (sym same_peer_id ∙ e),
      record {
        same_id = same;
        has_port = ground arith;
        has_addresses = λ e. let none_left = ap length e in ground arith;
        has_path = λ e. c.has_path (ap (λ x. x.ws_path) same_meta ∙ e);
        has_proto = ap (λ x. x.proto) (sym same_meta) ∙ c.has_version;
      },
    )
