-- ===== src/Clipwire/Payload/Laws.antt =====
-- What validation guarantees, and when a new payload is accepted.
use clippy.Base.{◌≤◌, ◌≡◌, refl, subst, ◌↔◌, ◌⊎◌, true, false, arith, some, [], ok, length}
use clippy.Base.Bytes.{Bytes, codes, bytes_beq_iff}
use clippy.Base.Int.{ℤ}
use clippy.Clipwire.Types.{
  PayloadType, unspecified, text, url, image, other, ClipboardPayload, Wire,
}
use clippy.Clipwire.Utf8.{valid_utf8}
use clippy.Clipwire.Payload.{
  max_payload_bytes, digest_size, is_unspecified, allowed_image_mime, validate_text, validate_kind,
  compute_content_sha256, validate_fields, validate_payload, build_payload, new_payload,
}

-- What each kind of payload demands of its MIME type and its bytes.
abbrev pub KindFits : PayloadType → Bytes → Bytes → Type 0
KindFits image mime content = (mime ≡ codes "image/png") ⊎ (mime ≡ codes "image/jpeg")
KindFits text mime content = (mime ≡ codes "") × (valid_utf8 content ≡ true)
KindFits url mime content = (mime ≡ codes "") × (valid_utf8 content ≡ true)
KindFits unspecified mime content = ⊥
KindFits (other n) mime content = ⊥

pub record IsWellFormed (w : Wire) (p : ClipboardPayload) : Type 0 where
  pub kind_fits : KindFits p.type p.mime_type p.data'
  pub small : length p.data' ≤ max_payload_bytes
  pub digest_length : length p.sha256 ≡ digest_size
  pub digest : compute_content_sha256 w p.data' ≡ p.sha256
  pub sized : p.size_bytes ≡ length p.data'

kind_iff :
    (k : PayloadType) (mime content : Bytes)
    → (validate_kind k mime content ≡ ok tt) ↔ KindFits k mime content
unfolding validate_kind validate_text allowed_image_mime
kind_iff image mime content = (
  λ h.
      ground
        (arith, bytes_beq_iff mime (codes "image/png"), bytes_beq_iff mime (codes "image/jpeg")),
  λ h.
      ground
        (arith, bytes_beq_iff mime (codes "image/png"), bytes_beq_iff mime (codes "image/jpeg")),
)
kind_iff text mime content =
    (λ h. ground (arith, bytes_beq_iff mime []), λ h. ground (arith, bytes_beq_iff mime []))
kind_iff url mime content =
    (λ h. ground (arith, bytes_beq_iff mime []), λ h. ground (arith, bytes_beq_iff mime []))
kind_iff unspecified mime content = (λ h. cc, λ h. absurd h)
kind_iff (other n) mime content = (λ h. cc, λ h. absurd h)

not_unspecified :
    (k : PayloadType) (mime content : Bytes) → KindFits k mime content → is_unspecified k ≡ false
not_unspecified unspecified mime content h = absurd h
not_unspecified _ mime content h = refl

module _ (w : Wire) where
  validate_sound : (p : ClipboardPayload) → validate_payload w (some p) ≡ ok tt → IsWellFormed w p
  unfolding validate_payload validate_fields
  validate_sound p h = record {
    kind_fits = (kind_iff p.type p.mime_type p.data').0 (ground arith);
    small = ground arith;
    digest_length = ground arith;
    digest = ground (arith, bytes_beq_iff (compute_content_sha256 w p.data') p.sha256);
    sized = ground arith;
  }

  validate_complete :
      (p : ClipboardPayload) → IsWellFormed w p → validate_payload w (some p) ≡ ok tt
  unfolding validate_payload validate_fields
  validate_complete p v = ground (
    arith,
    not_unspecified p.type p.mime_type p.data' v.kind_fits,
    (kind_iff p.type p.mime_type p.data').1 v.kind_fits,
    (bytes_beq_iff (compute_content_sha256 w p.data') p.sha256).1 v.digest,
  )

  -- `ValidatePayload` accepts a payload exactly when its kind is text, URL or image with the MIME
  -- type and (for text and URL) the UTF-8 that the kind demands, its data has at most
  -- `MaxPayloadBytes` bytes, its hash has 32 bytes and is the digest of the data, and its size
  -- field is the length of the data.
  pub validate_payload_iff :
      (p : ClipboardPayload) → (validate_payload w (some p) ≡ ok tt) ↔ IsWellFormed w p
  validate_payload_iff p = (validate_sound p, validate_complete p)

  pub new_sound :
      (ts : ℤ) (kind : PayloadType) (content mime : Bytes) (p : ClipboardPayload)
      → new_payload w ts kind content mime ≡ ok p
      → (p ≡ build_payload w ts kind content mime) × IsWellFormed w p
  unfolding new_payload
  new_sound ts kind content mime p h =
      let built = build_payload w ts kind content mime in
      let same : p ≡ built = ground arith in
      let valid : validate_payload w (some built) ≡ ok tt = ground arith in
      (same, rw same (validate_sound built valid))

  new_complete :
      (ts : ℤ) (kind : PayloadType) (content mime : Bytes)
      → length (w.sum256 content) ≡ digest_size
      → length content ≤ max_payload_bytes
      → KindFits kind mime content
      → new_payload w ts kind content mime ≡ ok (build_payload w ts kind content mime)
  unfolding new_payload build_payload compute_content_sha256 validate_kind
  new_complete ts kind content mime sum small fits =
      let built = build_payload w ts kind content mime in
      let valid : validate_payload w (some built) ≡ ok tt = validate_complete built (record {
        kind_fits = fits;
        small = small;
        digest_length = sum;
        digest = refl;
        sized = refl;
      }) in
      ground
        (arith, valid, not_unspecified kind mime content fits, (kind_iff kind mime content).1 fits)

  -- For a digest of 32 bytes, `NewPayload` succeeds exactly when the data has at most
  -- `MaxPayloadBytes` bytes and fits its kind, and the result then is the payload with the
  -- arguments, the digest and the length filled in.
  new_payload_iff :
      (ts : ℤ) (kind : PayloadType) (content mime : Bytes) (p : ClipboardPayload)
      → length (w.sum256 content) ≡ digest_size
      → (new_payload w ts kind content mime ≡ ok p) ↔ (
          (p ≡ build_payload w ts kind content mime)
          × (length content ≤ max_payload_bytes)
          × KindFits kind mime content)
  unfolding build_payload
  new_payload_iff ts kind content mime p sum = (
    λ h.
        let (same, v) = new_sound ts kind content mime p h in
        let v' = subst (IsWellFormed w) same v in (same, v'.small, v'.kind_fits),
    λ (same, small, fits). rw same (new_complete ts kind content mime sum small fits),
  )
