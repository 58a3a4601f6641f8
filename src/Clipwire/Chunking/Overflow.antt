-- ===== src/Clipwire/Chunking/Overflow.antt =====
-- `ChunkPayload` with a chunk size near the largest `int`.
use clippy.Base.{ℕ, ◌+◌, ◌*◌, ◌<◌, ◌≡◌, some, [], arith, ok, length}
use clippy.Base.Bytes.{Bytes}
use clippy.Base.Int.{pos, int64_half, int64_mod, wrap_int64}
use clippy.Clipwire.Types.{ClipboardPayload, Wire}
use clippy.Clipwire.Payload.{validate_chunk_size}
use clippy.Clipwire.Payload.Laws.{IsWellFormed, validate_payload_iff}
use clippy.Clipwire.Chunking.{
  uint32_mod, total_chunk_count, chunks_from, split_serialized, chunk_payload,
}

total_chunk_count-wraps :
    (len size : ℕ)
    → len < uint32_mod
    → size < int64_half
    → int64_mod + 1 < len + 2 * size
    → total_chunk_count len size ≡ pos 0
unfolding total_chunk_count wrap_int64
total_chunk_count-wraps len size small fits wraps = ground arith

module _ (w : Wire) where
  -- For a chunk size so large that the sum `len(serialized)+chunkSize-1` leaves the range of a
  -- 64-bit `int` (twice the chunk size and the length of the encoding exceed 2^64 + 1),
  -- `ChunkPayload` accepts a well-formed payload and returns no chunk at all, without an error.
  pub chunk_payload_overflow :
      (p : ClipboardPayload) (size : ℕ) (s : Bytes)
      → IsWellFormed w p
      → w.marshal p ≡ some s
      → length s < uint32_mod
      → size < int64_half
      → int64_mod + 1 < length s + 2 * size
      → chunk_payload w (some p) (pos size) ≡ ok []
  unfolding chunk_payload split_serialized validate_chunk_size chunks_from
  chunk_payload_overflow p size s v m small fits wraps = ground (
    arith,
    (validate_payload_iff w p).1 v,
    m,
    total_chunk_count-wraps (length s) size small fits wraps,
  )
