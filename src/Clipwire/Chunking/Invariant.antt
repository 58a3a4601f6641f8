-- ===== src/Clipwire/Chunking/Invariant.antt =====
-- The invariant of the reassembler: what holds of each transfer in flight after any calls.
use clippy.Base.{
  ℕ, zero, suc, ◌+◌, ◌%◌, ◌≤◌, ◌<◌, ◌≡◌, refl, sym, inl, inr, none, some, List, [], ◌∷◌, arith, ok,
  subst, length, Option-cases, Bool-cases, nat_eq, All,
}
use clippy.Base.Bytes.{Bytes, bytes_eq, bytes_beq}
use clippy.Base.Map.{lookup, insert, lookup-insert, lookup-remove, length-insert_new}
use clippy.Clipwire.Types.{PayloadChunk, Wire}
use clippy.Clipwire.Payload.{copy_bytes}
use clippy.Clipwire.Chunking.{
  uint32_mod, uint64_mod, ReassemblyState, Reassembler, new_reassembler, validate_chunk_fields,
  validate_chunk, assemble, find_state, put_state, drop_state, record_chunk, add, add_all,
  AddResult,
}
use clippy.Clipwire.Chunking.Cases.{
  Finished, partial, wrong_size, gap, joined, Added, mismatch, duplicate, conflict, recorded,
  add_chunk-Added, add_refused, add_accepted, validate_cases,
}
use clippy.Clipwire.Chunking.Parts.{
  sum_over, sum_over-insert, sum_over-nil, one, bytes_of, full-present,
}

-- A transfer in flight: each recorded chunk has a sequence number below the declared count and
-- is counted once, the received bytes are those of the recorded chunks, and a chunk is missing.
pub record IsOpen (st : ReassemblyState) : Type 0 where
  pub in_range : st.total_chunks < uint32_mod
  pub counted : length st.chunks ≡ sum_over one st.total_chunks st.chunks
  pub measured : st.received_bytes ≡ sum_over bytes_of st.total_chunks st.chunks % uint64_mod
  pub missing : length st.chunks < st.total_chunks

abbrev pub IsValid : Reassembler → Type 0
IsValid r = (key : Bytes) (st : ReassemblyState) → lookup key r.inflight ≡ some st → IsOpen st

pub copy_bytes_id : (b : Bytes) → copy_bytes b ≡ b
unfolding copy_bytes
copy_bytes_id [] = refl
copy_bytes_id (x ∷ xs) = refl

-- Recording a chunk keeps the counts right; only the last missing chunk fills the transfer.
pub record Recorded (st st' : ReassemblyState) : Type 0 where
  pub same_count : st'.total_chunks ≡ st.total_chunks
  pub counted : length st'.chunks ≡ sum_over one st'.total_chunks st'.chunks
  pub measured : st'.received_bytes ≡ sum_over bytes_of st'.total_chunks st'.chunks % uint64_mod
  pub bounded : length st'.chunks ≤ st'.total_chunks

pub record_chunk-Recorded :
    (st : ReassemblyState) (c : PayloadChunk)
    → IsOpen st
    → c.sequence < st.total_chunks
    → lookup c.sequence st.chunks ≡ none
    → Recorded st (record_chunk st c)
unfolding record_chunk
record_chunk-Recorded st c v h new =
    let len = length-insert_new c.sequence (copy_bytes c.data') st.chunks new in
    let n =
      sum_over-insert one st.total_chunks c.sequence (copy_bytes c.data') st.chunks refl h new in
    let b =
      sum_over-insert bytes_of st.total_chunks c.sequence (copy_bytes c.data') st.chunks refl h
        new in
    record {
      same_count = refl;
      counted = omega (arith, len, n, v.counted);
      measured = omega (arith, b, v.measured);
      bounded = omega (arith, len, v.missing);
    }

-- A full state has every part, so the loop that joins them misses none.
assemble_total :
    (rounds i total : ℕ) (m : List (ℕ × Bytes)) (acc : Bytes)
    → i + rounds ≡ total
    → ((j : ℕ) → j < total → (v : Bytes) × (lookup j m ≡ some v))
    → (s : Bytes) × (assemble rounds i m acc ≡ some s)
unfolding assemble
assemble_total zero i total m acc e h = (acc, refl)
assemble_total (suc rounds) i total m acc e h =
    let (v, here) = h i (omega arith) in
    rw (here, assemble) (assemble_total rounds (i + 1) total m _ (omega arith) h)

-- So the branch of `Add` that returns because a part is missing is never taken.
pub Recorded-assemble :
    (st st' : ReassemblyState)
    → Recorded st st'
    → st'.total_chunks < uint32_mod
    → length st'.chunks % uint32_mod ≡ st'.total_chunks
    → (s : Bytes) × (assemble st'.total_chunks 0 st'.chunks [] ≡ some s)
Recorded-assemble st st' v lt full =
    assemble_total st'.total_chunks 0 st'.total_chunks st'.chunks [] (omega arith)
      (full-present st'.total_chunks st'.chunks (omega (arith, v.counted, v.bounded)))

find_state-IsOpen :
    (r : Reassembler) (c : PayloadChunk)
    → IsValid r
    → c.total_chunks < uint32_mod
    → 0 < c.total_chunks
    → IsOpen (find_state r c)
unfolding find_state
find_state-IsOpen r c v lt pos = elim (Option-cases (lookup c.transfer_id r.inflight)) [
  | inl new ↦
      rw (new, find_state)
        (record {
          in_range = lt;
          counted = sym (sum_over-nil one c.total_chunks refl);
          measured = omega (arith, sum_over-nil bytes_of c.total_chunks refl);
          missing = pos;
        })
  | inr (st, old) ↦ rw (old, find_state) (v c.transfer_id st old)
]

put_state-IsValid :
    (r : Reassembler) (key : Bytes) (st : ReassemblyState)
    → IsValid r
    → IsOpen st
    → IsValid (put_state r key st)
unfolding put_state
put_state-IsValid r key st v o j st' found = elim (Bool-cases (bytes_beq key j)) [
  | inl same ↦ let e : st ≡ st' = ground (arith, lookup-insert key j st r.inflight) in rw (← e) o
  | inr other ↦ v j st' (ground (arith, lookup-insert key j st r.inflight))
]

drop_state-IsValid : (r : Reassembler) (key : Bytes) → IsValid r → IsValid (drop_state r key)
unfolding drop_state
drop_state-IsValid r key v j st' found = v j st' (ground (arith, lookup-remove key j r.inflight))

drop_put-IsValid :
    (r : Reassembler) (key : Bytes) (st : ReassemblyState)
    → IsValid r
    → IsValid (drop_state (put_state r key st) key)
unfolding drop_state put_state
drop_put-IsValid r key st v j st' found = v j st' (
    ground
      (arith, lookup-remove key j (insert key st r.inflight), lookup-insert key j st r.inflight))

pub new_reassembler-IsValid : IsValid new_reassembler
unfolding new_reassembler lookup
new_reassembler-IsValid key st h = cc

module _ (w : Wire) where
  Finished-IsValid :
      (r : Reassembler) (key : Bytes) (st st' : ReassemblyState) (res : Reassembler × AddResult)
      → IsValid r
      → IsOpen st
      → Recorded st st'
      → Finished w r key st' res
      → IsValid res.0
  Finished-IsValid r key st st' res v o rec (partial short e) =
      subst (λ q. IsValid q.0) (sym e)
        (put_state-IsValid r key st' v (record {
          in_range = omega (arith, rec.same_count, o.in_range);
          counted = rec.counted;
          measured = rec.measured;
          missing = omega (arith, rec.bounded, rec.same_count, o.in_range, short);
        }))
  Finished-IsValid r key st st' res v o rec (wrong_size full unsized e) =
      subst (λ q. IsValid q.0) (sym e) (drop_put-IsValid r key st' v)
  Finished-IsValid r key st st' res v o rec (gap full hole e) =
      let (s, whole) =
        Recorded-assemble st st' rec (omega (arith, rec.same_count, o.in_range)) full in
      absurd (ground arith)
  Finished-IsValid r key st st' res v o rec (joined s full sized whole e) =
      subst (λ q. IsValid q.0) (sym e) (drop_put-IsValid r key st' v)

  add_chunk-IsValid :
      (r : Reassembler) (c : PayloadChunk) (res : Reassembler × AddResult)
      → IsValid r
      → c.total_chunks < uint32_mod
      → c.sequence < c.total_chunks
      → Added w r c res
      → IsValid res.0
  add_chunk-IsValid r c res v lt seq (mismatch _ e) = subst (λ q. IsValid q.0) (sym e) v
  add_chunk-IsValid r c res v lt seq (duplicate n old e) =
      subst (λ q. IsValid q.0) (sym e)
        (put_state-IsValid r c.transfer_id _ v (find_state-IsOpen r c v lt (omega arith)))
  add_chunk-IsValid r c res v lt seq (conflict d n old ne e) =
      subst (λ q. IsValid q.0) (sym e)
        (put_state-IsValid r c.transfer_id _ v (find_state-IsOpen r c v lt (omega arith)))
  add_chunk-IsValid r c res v lt seq (recorded n z new f) =
      let o = find_state-IsOpen r c v lt (omega arith) in
      Finished-IsValid r c.transfer_id (find_state r c) _ res v o
        (record_chunk-Recorded (find_state r c) c o (omega arith) new) f

  pub validate_chunk-sequence :
      (c : PayloadChunk) → validate_chunk (some c) ≡ ok tt → c.sequence < c.total_chunks
  unfolding validate_chunk validate_chunk_fields
  validate_chunk-sequence c h = ground arith

  -- Every call of `Add`, whatever the chunk (its count a `uint32`), keeps the invariant.
  pub add-IsValid :
      (r : Reassembler) (c : PayloadChunk)
      → IsValid r
      → c.total_chunks < uint32_mod
      → IsValid (add w r (some c)).0
  add-IsValid r c v lt = elim (validate_cases w c) [
    | inl h ↦
        subst (λ q. IsValid q.0) (sym (add_accepted w r c h))
          (add_chunk-IsValid r c _ v lt (validate_chunk-sequence c h) (add_chunk-Added w r c))
    | inr (e, h) ↦ subst (λ q. IsValid q.0) (sym (add_refused w r c e h)) v
  ]

  run-IsValid :
      (cs : List PayloadChunk) (r : Reassembler)
      → IsValid r
      → All (λ c. c.total_chunks < uint32_mod) cs
      → IsValid (add_all w r cs).0
  unfolding add_all
  run-IsValid [] r v h = v
  run-IsValid (c ∷ cs) r v h = run-IsValid cs (add w r (some c)).0 (add-IsValid r c v h.0) h.1

  -- After any sequence of calls on a new reassembler (the counts of the chunks `uint32`s), every
  -- transfer in flight holds only sequence numbers below its count, each counted once, has
  -- received the bytes of the chunks it holds, and still misses a chunk.
  pub add_all-IsValid :
      (cs : List PayloadChunk)
      → All (λ c. c.total_chunks < uint32_mod) cs
      → IsValid (add_all w new_reassembler cs).0
  add_all-IsValid cs h = run-IsValid cs new_reassembler new_reassembler-IsValid h
