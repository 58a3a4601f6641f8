-- ===== src/Clipwire/Chunking.antt =====
-- internal/clipwire/chunking.go: splitting a payload into chunks, and the reassembler. The
-- mutex makes each call of `Add` one step, so a reassembler is a value and `add` returns the
-- next one. A Go pointer to a message that may be nil is an `Option`.
pub mod Parts
pub mod Cases
pub mod Invariant
pub mod Split
pub mod Transfer
pub mod Progress
pub mod Gather
pub mod Delivery
pub mod Safety
pub mod Overflow
use clippy.Base.{
  ℕ, zero, suc, ◌+◌, ◌-◌, ◌*◌, ◌/◌, ◌%◌, ◌≡◌, Bool, true, false, ◌&&◌, ◌||◌, not, Option, none,
  some, List, [], ◌∷◌, ◌++◌, ltb, leb, ◌==◌, if◌then◌else◌, length, take, drop, Result, ok, err,
  ◌>>=◌, ◌>>◌, fail_if, or_fail, nat_eq,
}
use clippy.Base.Bytes.{Bytes, bytes_beq, bytes_eq}
use clippy.Base.Map.{lookup, insert, remove}
use clippy.Base.Int.{ℤ, pos, negsuc, to_nat, wrap_int64}
use clippy.Clipwire.Types.{
  ClipboardPayload, PayloadChunk, ClipError, nil_chunk, invalid_transfer_id, invalid_chunk_sequence,
  invalid_chunk_count, invalid_chunk_total_size, empty_chunk_data, chunk_metadata_mismatch,
  conflicting_chunk, chunk_set_size_mismatch, transfer_hash_mismatch, marshal_payload,
  unmarshal_payload, makeslice_panic, Wire,
}
use clippy.Clipwire.Payload.{digest_size, copy_bytes, validate_chunk_size, validate_payload}

abbrev pub uint32_mod : ℕ
uint32_mod = 4294967296

abbrev pub uint64_mod : ℕ
uint64_mod = 18446744073709551616

-- The `min` at the end of the file.
unfoldable pub min : ℕ → ℕ → ℕ
min a b = if ltb a b then a else b

-- `s[start:end]` within bounds.
abbrev pub slice : Bytes → ℕ → ℕ → Bytes
slice s start end = take (end - start) (drop start s)

-- `(len + chunkSize - 1) / chunkSize` in `int`: the sum wraps, the quotient is cut towards 0.
unfoldable pub total_chunk_count : ℕ → ℕ → ℤ
total_chunk_count len chunk_size = elim (wrap_int64 (len + chunk_size - 1)) [
  | pos n ↦ pos (n / chunk_size)
  | negsuc n ↦ if ltb (n + 1) chunk_size then pos 0 else negsuc ((n + 1) / chunk_size - 1)
]

-- One round of the loop of `ChunkPayload`, for the digest and the serialized payload.
unfoldable pub chunk_at : Bytes → Bytes → ℕ → ℕ → ℕ → PayloadChunk
chunk_at digest serialized chunk_size total_chunks i =
    let start = i * chunk_size in
    let end = min (start + chunk_size) (length serialized) in
    record {
      transfer_id = copy_bytes digest;
      sequence = i % uint32_mod;
      total_chunks = total_chunks % uint32_mod;
      total_size = length serialized % uint64_mod;
      data' = copy_bytes (slice serialized start end);
    }

-- The loop: `rounds` are left, and `i` is the counter.
unfoldable pub chunks_from : Bytes → Bytes → ℕ → ℕ → ℕ → ℕ → List PayloadChunk
chunks_from digest serialized chunk_size total_chunks zero i = []
chunks_from digest serialized chunk_size total_chunks (suc rounds) i =
    chunk_at digest serialized chunk_size total_chunks i
    ∷ chunks_from digest serialized chunk_size total_chunks rounds (i + 1)

-- `make` with a negative capacity panics; the loop runs from 0 to `totalChunks`.
split_serialized : Bytes → Bytes → ℕ → ℤ → Result ClipError (List PayloadChunk)
split_serialized digest serialized chunk_size (negsuc n) = err makeslice_panic
split_serialized digest serialized chunk_size (pos total) =
    ok (chunks_from digest serialized chunk_size total total 0)

pub record ReassemblyState : Type 0 where
  pub total_chunks : ℕ
  pub total_size : ℕ
  pub chunks : List (ℕ × Bytes)
  pub received_bytes : ℕ

pub record Reassembler : Type 0 where
  pub inflight : List (Bytes × ReassemblyState)

unfoldable pub new_reassembler : Reassembler
new_reassembler = record { inflight = [] }

-- The fields that `Add` tests first.
unfoldable pub validate_chunk_fields : PayloadChunk → Result ClipError (Unit {0})
validate_chunk_fields c = do
  fail_if (not (length c.transfer_id == digest_size)) invalid_transfer_id
  fail_if (c.total_chunks == 0) invalid_chunk_count
  fail_if (leb c.total_chunks c.sequence) invalid_chunk_sequence
  fail_if (c.total_size == 0) invalid_chunk_total_size
  fail_if (length c.data' == 0) empty_chunk_data
  fail_if (ltb c.total_size (length c.data')) chunk_set_size_mismatch

unfoldable pub validate_chunk : Option PayloadChunk → Result ClipError (Unit {0})
validate_chunk none = err nil_chunk
validate_chunk (some c) = validate_chunk_fields c

-- The loop that joins the parts from `i` on; `none` when a part is missing.
unfoldable pub assemble : ℕ → ℕ → List (ℕ × Bytes) → Bytes → Option Bytes
assemble zero i chunks serialized = some serialized
assemble (suc rounds) i chunks serialized = elim (lookup i chunks) [
  | none ↦ none
  | some part ↦ assemble rounds (i + 1) chunks (serialized ++ part)
]

-- What `Add` returns beside the error: `none` for an incomplete transfer.
abbrev pub AddResult : Type 0
AddResult = Result ClipError (Option ClipboardPayload)

-- The state that `Add` finds for a chunk, or makes.
unfoldable pub find_state : Reassembler → PayloadChunk → ReassemblyState
find_state r c = elim (lookup c.transfer_id r.inflight) [
  | none ↦ record {
    total_chunks = c.total_chunks;
    total_size = c.total_size;
    chunks = [];
    received_bytes = 0;
  }
  | some st ↦ st
]

unfoldable pub put_state : Reassembler → Bytes → ReassemblyState → Reassembler
put_state r key st = record { inflight = insert key st r.inflight }

unfoldable pub drop_state : Reassembler → Bytes → Reassembler
drop_state r key = record { inflight = remove key r.inflight }

-- The state with the chunk recorded.
unfoldable pub record_chunk : ReassemblyState → PayloadChunk → ReassemblyState
record_chunk st c = record st {
  chunks = insert c.sequence (copy_bytes c.data') st.chunks;
  received_bytes = (st.received_bytes + length (copy_bytes c.data')) % uint64_mod;
}

module _ (w : Wire) where
  unfoldable pub chunk_payload : Option ClipboardPayload → ℤ → Result ClipError (List PayloadChunk)
  unfolding split_serialized
  chunk_payload none chunk_size = do validate_payload w none; ok []
  chunk_payload (some p) chunk_size = do
    validate_payload w (some p)
    validate_chunk_size chunk_size
    serialized ← or_fail (w.marshal p) marshal_payload
    split_serialized p.sha256 serialized (to_nat chunk_size)
        (total_chunk_count (length serialized) (to_nat chunk_size))

  -- The end of `Add`, once the bytes are joined.
  unfoldable pub decode_transfer : Bytes → Bytes → AddResult
  decode_transfer transfer_id serialized = do
    payload ← or_fail (w.unmarshal serialized) unmarshal_payload
    validate_payload w (some payload)
    fail_if (not (bytes_beq payload.sha256 transfer_id)) transfer_hash_mismatch
    ok (some payload)

  -- From the test of the number of chunks on: `st` is the state with the chunk recorded.
  unfoldable pub finish : Reassembler → Bytes → ReassemblyState → Reassembler × AddResult
  finish r key st =
      if not (length st.chunks % uint32_mod == st.total_chunks)
      then (put_state r key st, ok none)
      else if not (st.received_bytes == st.total_size)
      then (drop_state (put_state r key st) key, err chunk_set_size_mismatch)
      else elim (assemble st.total_chunks 0 st.chunks []) [
        | none ↦ (put_state r key st, ok none)
        | some serialized ↦ (drop_state (put_state r key st) key, decode_transfer key serialized)
      ]

  -- `Add` after validation.
  unfoldable pub add_chunk : Reassembler → PayloadChunk → Reassembler × AddResult
  add_chunk r c =
      let st = find_state r c in
      if not (st.total_chunks == c.total_chunks && st.total_size == c.total_size)
      then (r, err chunk_metadata_mismatch)
      else elim (lookup c.sequence st.chunks) [
        | none ↦ finish r c.transfer_id (record_chunk st c)
        | some existing ↦ (
          put_state r c.transfer_id st,
          if bytes_beq existing c.data' then ok none else err conflicting_chunk,
        )
      ]

  unfoldable pub add : Reassembler → Option PayloadChunk → Reassembler × AddResult
  add r none = (r, err nil_chunk)
  add r (some c) = elim (validate_chunk (some c)) [ err e ↦ (r, err e) | ok _ ↦ add_chunk r c ]

  -- A sequence of calls of `Add`, with what each returns.
  unfoldable pub add_all : Reassembler → List PayloadChunk → Reassembler × List AddResult
  add_all r [] = (r, [])
  add_all r (c ∷ cs) =
      let (r', out) = add r (some c) in let (r'', outs) = add_all r' cs in (r'', out ∷ outs)
