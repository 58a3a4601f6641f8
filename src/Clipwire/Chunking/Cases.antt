-- ===== src/Clipwire/Chunking/Cases.antt =====
-- The branches of `Add` after validation, each with its condition.
use clippy.Base.{
  ◌%◌, ◌≡◌, ◌≢◌, ◌⊎◌, inl, inr, ◌&&◌, none, some, [], arith, ok, err, length, Option-cases,
  Bool-cases, Result-cases, nat_eq, ◌==◌,
}
use clippy.Base.Bytes.{Bytes, bytes_beq, bytes_beq_iff}
use clippy.Base.Map.{lookup}
use clippy.Clipwire.Types.{
  PayloadChunk, ClipError, Wire, chunk_metadata_mismatch, conflicting_chunk,
  chunk_set_size_mismatch,
}
use clippy.Clipwire.Chunking.{
  uint32_mod, ReassemblyState, Reassembler, AddResult, validate_chunk, assemble, find_state,
  put_state, drop_state, record_chunk, decode_transfer, finish, add_chunk, add,
}

module _ (w : Wire) where
  pub data Finished (r : Reassembler) (key : Bytes) (st : ReassemblyState)
      (res : Reassembler × AddResult) : Type 0 where
    partial :
        length st.chunks % uint32_mod ≢ st.total_chunks
        → res ≡ (put_state r key st, ok none)
        → Finished r key st res
    wrong_size :
        length st.chunks % uint32_mod ≡ st.total_chunks
        → st.received_bytes ≢ st.total_size
        → res ≡ (drop_state (put_state r key st) key, err chunk_set_size_mismatch)
        → Finished r key st res
    gap :
        length st.chunks % uint32_mod ≡ st.total_chunks
        → assemble st.total_chunks 0 st.chunks [] ≡ none
        → res ≡ (put_state r key st, ok none)
        → Finished r key st res
    joined :
        (s : Bytes)
        → length st.chunks % uint32_mod ≡ st.total_chunks
        → st.received_bytes ≡ st.total_size
        → assemble st.total_chunks 0 st.chunks [] ≡ some s
        → res ≡ (drop_state (put_state r key st) key, decode_transfer w key s)
        → Finished r key st res

  pub data Added (r : Reassembler) (c : PayloadChunk) (res : Reassembler × AddResult) : Type 0 where
    mismatch :
        ((find_state r c).total_chunks ≡ c.total_chunks
          → (find_state r c).total_size ≢ c.total_size)
        → res ≡ (r, err chunk_metadata_mismatch)
        → Added r c res
    duplicate :
        (find_state r c).total_chunks ≡ c.total_chunks
        → lookup c.sequence (find_state r c).chunks ≡ some c.data'
        → res ≡ (put_state r c.transfer_id (find_state r c), ok none)
        → Added r c res
    conflict :
        (d : Bytes)
        → (find_state r c).total_chunks ≡ c.total_chunks
        → lookup c.sequence (find_state r c).chunks ≡ some d
        → d ≢ c.data'
        → res ≡ (put_state r c.transfer_id (find_state r c), err conflicting_chunk)
        → Added r c res
    recorded :
        (find_state r c).total_chunks ≡ c.total_chunks
        → (find_state r c).total_size ≡ c.total_size
        → lookup c.sequence (find_state r c).chunks ≡ none
        → Finished r c.transfer_id (record_chunk (find_state r c) c) res
        → Added r c res

  pub finish-Finished :
      (r : Reassembler) (key : Bytes) (st : ReassemblyState) → Finished r key st (finish w r key st)
  finish-Finished r key st = elim (Bool-cases (length st.chunks % uint32_mod == st.total_chunks)) [
    | inr short ↦ partial (ground arith) (unfold finish in rw short)
    | inl full ↦ elim (Bool-cases (st.received_bytes == st.total_size)) [
      | inr unsized ↦
          wrong_size (ground arith) (ground arith) (unfold finish in rw full (rw unsized))
      | inl sized ↦ elim (Option-cases (assemble st.total_chunks 0 st.chunks [])) [
        | inl hole ↦ gap (ground arith) hole (unfold finish in rw full (rw (sized, hole)))
        | inr (s, whole) ↦
            joined s (ground arith) (ground arith) whole
              (unfold finish in rw full (rw (sized, whole)))
      ]
    ]
  ]

  pub add_chunk-Added : (r : Reassembler) (c : PayloadChunk) → Added r c (add_chunk w r c)
  add_chunk-Added r c =
      let st = find_state r c in
      elim (Bool-cases (st.total_chunks == c.total_chunks && st.total_size == c.total_size)) [
        | inr differs ↦ mismatch (λ p q. ground arith) (unfold add_chunk in rw differs)
        | inl same ↦ elim (Option-cases (lookup c.sequence st.chunks)) [
          | inl new ↦ recorded (ground arith) (ground arith) new (
              unfold add_chunk in
              rw same (rw new (finish-Finished r c.transfer_id (record_chunk st c))))
          | inr (d, old) ↦ elim (Bool-cases (bytes_beq d c.data')) [
            | inl eq ↦
                duplicate (ground arith) (ground (arith, bytes_beq_iff d c.data'))
                  (unfold add_chunk in rw same (rw (old, eq)))
            | inr ne ↦
                conflict d (ground arith) old (ground (arith, bytes_beq_iff d c.data'))
                  (unfold add_chunk in rw same (rw (old, ne)))
          ]
        ]
      ]

  pub add_refused :
      (r : Reassembler) (c : PayloadChunk) (e : ClipError)
      → validate_chunk (some c) ≡ err e
      → add w r (some c) ≡ (r, err e)
  unfolding add
  add_refused r c e h = rw (h, add)

  pub add_accepted :
      (r : Reassembler) (c : PayloadChunk)
      → validate_chunk (some c) ≡ ok tt
      → add w r (some c) ≡ add_chunk w r c
  unfolding add
  add_accepted r c h = rw (h, add)

  pub validate_cases :
      (c : PayloadChunk)
      → (validate_chunk (some c) ≡ ok tt) ⊎ ((e : ClipError) × (validate_chunk (some c) ≡ err e))
  validate_cases c = Result-cases (validate_chunk (some c))
