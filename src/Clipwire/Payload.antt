-- ===== src/Clipwire/Payload.antt =====
-- internal/clipwire/payload.go and hash.go: building and validating a payload.
pub mod Laws
use clippy.Base.{
  ℕ, ◌≡◌, Bool, true, false, ◌&&◌, ◌||◌, not, Option, none, some, List, [], ◌∷◌, ltb, ◌==◌,
  if◌then◌else◌, length, Result, ok, err, ◌>>=◌, ◌>>◌, fail_if, or_fail,
}
use clippy.Base.Bytes.{Bytes, codes, bytes_beq}
use clippy.Base.Int.{ℤ, is_nonpos}
use clippy.Clipwire.Types.{
  PayloadType, unspecified, text, url, image, other, ClipboardPayload, ClipError, nil_payload,
  payload_too_large, invalid_payload_type, invalid_sha256_length, invalid_size, hash_mismatch,
  invalid_utf8, invalid_image_mime, unexpected_mime_type, invalid_chunk_size, Wire,
}
use clippy.Clipwire.Utf8.{valid_utf8}

abbrev pub default_chunk_size : ℕ
default_chunk_size = 1048576

abbrev pub max_payload_bytes : ℕ
max_payload_bytes = 20000000

-- `sha256.Size`.
abbrev pub digest_size : ℕ
digest_size = 32

-- Membership in `allowedImageMIMETypes`.
unfoldable pub allowed_image_mime : Bytes → Bool
allowed_image_mime m = bytes_beq m (codes "image/png") || bytes_beq m (codes "image/jpeg")

abbrev pub is_unspecified : PayloadType → Bool
is_unspecified unspecified = true
is_unspecified _ = false

abbrev pub is_image : PayloadType → Bool
is_image image = true
is_image _ = false

-- A copy holds the same bytes; an empty slice becomes nil, which has none either.
unfoldable pub copy_bytes : Bytes → Bytes
copy_bytes [] = []
copy_bytes (b ∷ bs) = b ∷ bs

unfoldable pub validate_chunk_size : ℤ → Result ClipError (Unit {0})
validate_chunk_size n = fail_if (is_nonpos n) invalid_chunk_size

-- The test of the MIME type and the text encoding that payloads which are no image share.
unfoldable pub validate_text : Bytes → Bytes → Result ClipError (Unit {0})
validate_text mime content = do
  fail_if (not (bytes_beq mime [])) unexpected_mime_type
  fail_if (not (valid_utf8 content)) invalid_utf8

-- The `switch` of `ValidatePayload`.
unfoldable pub validate_kind : PayloadType → Bytes → Bytes → Result ClipError (Unit {0})
validate_kind image mime content = fail_if (not (allowed_image_mime mime)) invalid_image_mime
validate_kind text mime content = validate_text mime content
validate_kind url mime content = validate_text mime content
validate_kind _ mime content = err invalid_payload_type

module _ (w : Wire) where
  unfoldable pub compute_content_sha256 : Bytes → Bytes
  compute_content_sha256 content = w.sum256 content

  -- The checks that follow the test for nil.
  unfoldable pub validate_fields : ClipboardPayload → Result ClipError (Unit {0})
  validate_fields p = do
    fail_if (is_unspecified p.type) invalid_payload_type
    fail_if (ltb max_payload_bytes (length p.data')) payload_too_large
    fail_if (not (length p.sha256 == digest_size)) invalid_sha256_length
    fail_if (not (p.size_bytes == length p.data')) invalid_size
    validate_kind p.type p.mime_type p.data'
    fail_if (not (bytes_beq (compute_content_sha256 p.data') p.sha256)) hash_mismatch

  -- `none` is the nil pointer.
  unfoldable pub validate_payload : Option ClipboardPayload → Result ClipError (Unit {0})
  validate_payload none = err nil_payload
  validate_payload (some p) = validate_fields p

  -- The literal of `NewPayload`; `ts` is `ts.UTC().UnixMilli()`.
  unfoldable pub build_payload : ℤ → PayloadType → Bytes → Bytes → ClipboardPayload
  build_payload ts kind content mime = record {
    timestamp_unix_ms = ts;
    type = kind;
    sha256 = compute_content_sha256 content;
    data' = content;
    mime_type = mime;
    size_bytes = length content;
  }

  unfoldable pub new_payload : ℤ → PayloadType → Bytes → Bytes → Result ClipError ClipboardPayload
  new_payload ts kind content mime = do
    fail_if (is_unspecified kind) invalid_payload_type
    fail_if (ltb max_payload_bytes (length content)) payload_too_large
    if is_image kind
        then fail_if (not (allowed_image_mime mime)) invalid_image_mime
        else validate_text mime content
    validate_payload (some (build_payload ts kind content mime))
    ok (build_payload ts kind content mime)
