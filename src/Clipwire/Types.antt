-- ===== src/Clipwire/Types.antt =====
-- The messages of internal/clipwire/clipwire.proto (the structs of clipwire.pb.go), the errors
-- of payload.go and chunking.go, and what the package takes from outside: the digest function
-- and the protobuf codec.
use clippy.Base.{ℕ, Option}
use clippy.Base.Bytes.{Bytes}
use clippy.Base.Int.{ℤ}

-- An open enum: `other` stands for the numbers above 3 (and below 0) that a peer may send.
pub data PayloadType : Type 0 where
  unspecified text url image : PayloadType
  other : ℤ → PayloadType

-- `data'` is the field `data`.
pub record ClipboardPayload : Type 0 where
  pub timestamp_unix_ms : ℤ
  pub type : PayloadType
  pub sha256 : Bytes
  pub data' : Bytes
  pub mime_type : Bytes
  pub size_bytes : ℕ

pub record PayloadChunk : Type 0 where
  pub transfer_id : Bytes
  pub sequence : ℕ
  pub total_chunks : ℕ
  pub total_size : ℕ
  pub data' : Bytes

pub data ClipError : Type 0 where
  nil_payload payload_too_large invalid_payload_type invalid_sha256_length : ClipError
  invalid_size hash_mismatch invalid_utf8 invalid_image_mime unexpected_mime_type : ClipError
  nil_chunk invalid_transfer_id invalid_chunk_sequence invalid_chunk_count : ClipError
  invalid_chunk_total_size empty_chunk_data chunk_metadata_mismatch conflicting_chunk : ClipError
  chunk_set_size_mismatch transfer_hash_mismatch : ClipError
  invalid_chunk_size marshal_payload unmarshal_payload : ClipError
  makeslice_panic : ClipError

-- What the package calls and does not implement: `sha256.Sum256`, and `proto.Marshal` and
-- `proto.Unmarshal` at a payload (`none` is their error).
pub record Wire : Type 0 where
  pub sum256 : Bytes → Bytes
  pub marshal : ClipboardPayload → Option Bytes
  pub unmarshal : Bytes → Option ClipboardPayload
