-- ===== src/Clipwire/Chunking/Progress.antt =====
-- One transfer as the reassembler sees it: which of its parts have arrived, and what each
-- further chunk of it does.
use clippy.Base.{
  ℕ, ◌*◌, ◌%◌, ◌<◌, ◌≡◌, refl, ap, sym, subst, ◌∙◌, ◌≢◌, inl, inr, Option, none, some, [], arith,
  ok, length, Option-cases, Bool-cases, nat_eq, ◌==◌,
}
use clippy.Base.Bytes.{Bytes, bytes_eq}
use clippy.Base.Map.{
  lookup, lookup-insert, lookup-insert_self, lookup-insert_ne, lookup-remove_self,
}
use clippy.Clipwire.Types.{PayloadChunk, Wire}
use clippy.Clipwire.Payload.{digest_size, copy_bytes}
use clippy.Clipwire.Chunking.{
  uint32_mod, ReassemblyState, Reassembler, AddResult, assemble, find_state, put_state, drop_state,
  record_chunk, decode_transfer, add,
}
use clippy.Clipwire.Chunking.Cases.{
  Finished, partial, wrong_size, gap, joined, Added, mismatch, duplicate, conflict, recorded,
  add_chunk-Added, add_accepted,
}
use clippy.Clipwire.Chunking.Invariant.{IsOpen, Recorded, record_chunk-Recorded, copy_bytes_id}
use clippy.Clipwire.Chunking.Split.{IsSplit, Belongs, Belongs-accepted}
use clippy.Clipwire.Chunking.Parts.{
  part, take_all, assemble_parts, sum_over, one, bytes_of, sum_over-nil, full-present, present-full,
  bytes_of_parts,
}

no_lookup : (i : ℕ) → lookup {V = Bytes} i [] ≡ none
unfolding lookup
no_lookup i = refl

no_parts : {P : Type 0} (i : ℕ) (d : Bytes) → lookup i [] ≡ some d → P
no_parts i d h = cc (no_lookup i)

-- The state of the transfer holds parts of `s` only, each in its place.
pub record Holds (s : Bytes) (size total : ℕ) (st : ReassemblyState) : Type 0 where
  pub open_state : IsOpen st
  pub count : st.total_chunks ≡ total
  pub size_is : st.total_size ≡ length s
  pub parts : (i : ℕ) (d : Bytes) → lookup i st.chunks ≡ some d → d ≡ part s size i

-- An open state cannot have every part.
pub Holds-open :
    (s : Bytes) (size total : ℕ) (st : ReassemblyState)
    → Holds s size total st
    → ((i : ℕ) → i < total → (d : Bytes) × (lookup i st.chunks ≡ some d))
    → ⊥
Holds-open s size total st h all =
    let o = h.open_state in
    omega (
      arith,
      o.counted,
      o.missing,
      h.count,
      present-full total st.chunks all,
      ap (λ n. sum_over one n st.chunks) h.count,
    )

-- The part `i` that the reassembler has of the transfer `id`.
unfoldable pub part_of : Bytes → Reassembler → ℕ → Option Bytes
part_of id r i = elim (lookup id r.inflight) [ none ↦ none | some st ↦ lookup i st.chunks ]

abbrev pub HoldsAll : Bytes → Bytes → ℕ → ℕ → Reassembler → Type 0
HoldsAll id s size total r =
    (st : ReassemblyState) → lookup id r.inflight ≡ some st → Holds s size total st

module _ (w : Wire) (id s : Bytes) (size total : ℕ) where
  put_found :
      (q : Reassembler) (key : Bytes) (st : ReassemblyState)
      → key ≡ id
      → lookup id (put_state q key st).inflight ≡ some st
  unfolding put_state
  put_found q key st e = rw e (lookup-insert_self id st q.inflight)

  -- A chunk of the transfer either leaves it incomplete, with its part recorded, or completes it.
  pub data Progress (r : Reassembler) (c : PayloadChunk) (res : Reassembler × AddResult)
      : Type 0 where
    waiting :
        res.1 ≡ ok none
        → (st : ReassemblyState) → lookup id res.0.inflight ≡ some st
        → Holds s size total st
        → lookup c.sequence st.chunks ≡ some (part s size c.sequence)
        → ((i : ℕ) → i ≢ c.sequence → lookup i st.chunks ≡ part_of id r i)
        → Progress r c res
    completed :
        res.1 ≡ decode_transfer w id s
        → lookup id res.0.inflight ≡ none
        → ((i : ℕ) → i < total → i ≢ c.sequence → (d : Bytes) × (part_of id r i ≡ some d))
        → Progress r c res

  module _ (sp : IsSplit s size total) (r : Reassembler) (c : PayloadChunk)
      (b : Belongs id s size total c) where
    find_state-Holds : HoldsAll id s size total r → Holds s size total (find_state r c)
    unfolding find_state
    find_state-Holds v = elim (Option-cases (lookup c.transfer_id r.inflight)) [
      | inl new ↦
          rw (new, find_state)
            (record {
              open_state = record {
                in_range = omega (arith, b.count, sp.total_small);
                counted = sym (sum_over-nil one c.total_chunks refl);
                measured = omega (arith, sum_over-nil bytes_of c.total_chunks refl);
                missing = omega (arith, b.count, sp.total_pos);
              };
              count = b.count;
              size_is = b.size_is;
              parts = λ i d h. no_parts i d h;
            })
      | inr (st, old) ↦ rw (old, find_state) (v st (rw b.transfer at old))
    ]

    find_state-part_of : (i : ℕ) → lookup i (find_state r c).chunks ≡ part_of id r i
    unfolding find_state part_of
    find_state-part_of i = elim (Option-cases (lookup id r.inflight)) [
      | inl new ↦ rw (b.transfer, find_state) (rw (new, find_state, part_of) (no_lookup i))
      | inr (st, old) ↦ rw (b.transfer, find_state) (rw (old, find_state, part_of))
    ]

    record_chunk-parts :
        (st : ReassemblyState)
        → Holds s size total st
        → (i : ℕ) (d : Bytes) → lookup i (record_chunk st c).chunks ≡ some d
        → d ≡ part s size i
    unfolding record_chunk
    record_chunk-parts st h i d found = elim (Bool-cases (c.sequence == i)) [
      | inl same ↦
          let e : c.sequence ≡ i = ground arith in
          let d_is : d ≡ copy_bytes c.data' =
            ground (arith, lookup-insert c.sequence i (copy_bytes c.data') st.chunks) in
          d_is ∙ copy_bytes_id c.data' ∙ b.content ∙ ap (part s size) e
      | inr other ↦
          h.parts i d (ground (arith, lookup-insert c.sequence i (copy_bytes c.data') st.chunks))
    ]

    record_chunk_self :
        (st : ReassemblyState)
        → lookup c.sequence (record_chunk st c).chunks ≡ some (part s size c.sequence)
    unfolding record_chunk
    record_chunk_self st =
        lookup-insert_self c.sequence (copy_bytes c.data') st.chunks
        ∙ ap some (copy_bytes_id c.data' ∙ b.content)

    record_chunk-others :
        (st : ReassemblyState) (i : ℕ)
        → i ≢ c.sequence
        → lookup i (record_chunk st c).chunks ≡ lookup i st.chunks
    unfolding record_chunk
    record_chunk-others st i ne =
        lookup-insert_ne c.sequence i (copy_bytes c.data') st.chunks (λ e. ne (sym e))

    module _ (v : HoldsAll id s size total r)
        (new : lookup c.sequence (find_state r c).chunks ≡ none) where
      held : Holds s size total (find_state r c)
      held = find_state-Holds v

      rec : Recorded (find_state r c) (record_chunk (find_state r c) c)
      rec =
          record_chunk-Recorded (find_state r c) c held.open_state
            (omega (arith, held.count, b.in_range)) new

      abbrev st' : ReassemblyState
      st' = record_chunk (find_state r c) c

      count' : st'.total_chunks ≡ total
      count' = rec.same_count ∙ held.count

      size' : st'.total_size ≡ length s
      unfolding record_chunk
      size' = held.size_is

      -- With as many parts as the transfer has, every part is there.
      all_parts :
          length st'.chunks % uint32_mod ≡ st'.total_chunks
          → (j : ℕ) → j < total
          → lookup j st'.chunks ≡ some (part s size j)
      all_parts full j lt =
          let (d, found) =
            full-present st'.total_chunks st'.chunks
              (omega (arith, rec.counted, rec.bounded, count', sp.total_small, full)) j
              (omega (arith, count')) in
          found ∙ ap some (record_chunk-parts (find_state r c) held j d found)

      whole :
          length st'.chunks % uint32_mod ≡ st'.total_chunks
          → assemble st'.total_chunks 0 st'.chunks [] ≡ some s
      whole full =
          let z : 0 * size ≡ 0 = omega arith in
          let joined_parts =
            assemble_parts s size total 0 total st'.chunks (omega arith) (all_parts full) in
          rw count' ((rw z at joined_parts) ∙ ap some (take_all (total * size) s sp.covers))

      received :
          length st'.chunks % uint32_mod ≡ st'.total_chunks → st'.received_bytes ≡ st'.total_size
      received full =
          let sum = bytes_of_parts s size total st'.chunks (all_parts full) in
          let len = ap length (take_all (total * size) s sp.covers) in
          let measured = rw count' at rec.measured in
          omega (arith, measured, sum, len, size', sp.length_small)

      Finished-Progress :
          (res : Reassembler × AddResult) → Finished w r c.transfer_id st' res → Progress r c res
      Finished-Progress res (partial short e) =
          waiting (ap (λ q. q.1) e) st'
            (ap (λ (q : Reassembler × AddResult). lookup id q.0.inflight) e
              ∙ put_found r c.transfer_id st' b.transfer)
            (record {
              open_state = record {
                in_range = omega (arith, count', sp.total_small);
                counted = rec.counted;
                measured = rec.measured;
                missing = omega (arith, rec.bounded, count', sp.total_small, short);
              };
              count = count';
              size_is = size';
              parts = record_chunk-parts (find_state r c) held;
            })
            (record_chunk_self (find_state r c))
            (λ i ne. record_chunk-others (find_state r c) i ne ∙ find_state-part_of i)
      Finished-Progress res (wrong_size full unsized e) = absurd (unsized (received full))
      Finished-Progress res (gap full hole e) = let joined_parts = whole full in cc
      Finished-Progress res (joined s' full sized joined_parts e) =
          let same : s' ≡ s = cc (joined_parts, whole full) in
          completed (ap (λ q. q.1) e ∙ rw (same, b.transfer))
            (ap (λ (q : Reassembler × AddResult). lookup id q.0.inflight) e ∙ dropped b.transfer)
            (λ i lt ne. (
              part s size i,
              sym (find_state-part_of i)
                  ∙ sym (record_chunk-others (find_state r c) i ne)
                  ∙ all_parts full i lt,
            ))
        where
          dropped :
              {key : Bytes}
              → key ≡ id
              → lookup id (drop_state (put_state r key st') key).inflight ≡ none
          dropped {key} e =
              unfold drop_state in rw e (lookup-remove_self id (put_state r id st').inflight)

    add_chunk-Progress :
        (res : Reassembler × AddResult)
        → HoldsAll id s size total r
        → Added w r c res
        → Progress r c res
    add_chunk-Progress res v (mismatch ne e) =
        let h = find_state-Holds v in
        absurd (ne (h.count ∙ sym b.count) (h.size_is ∙ sym b.size_is))
    add_chunk-Progress res v (duplicate _ old e) =
        waiting (ap (λ q. q.1) e) (find_state r c)
          (ap (λ (q : Reassembler × AddResult). lookup id q.0.inflight) e
            ∙ put_found r c.transfer_id (find_state r c) b.transfer)
          (find_state-Holds v) (old ∙ ap some b.content) (λ i ne. find_state-part_of i)
    add_chunk-Progress res v (conflict d _ old ne e) =
        absurd (ne ((find_state-Holds v).parts c.sequence d old ∙ sym b.content))
    add_chunk-Progress res v (recorded _ _ new f) = Finished-Progress v new res f

    -- A chunk of the transfer is accepted: it leaves the transfer waiting, or completes it.
    pub add-Progress :
        length id ≡ digest_size → HoldsAll id s size total r → Progress r c (add w r (some c))
    add-Progress len v =
        subst (Progress r c)
          (sym (add_accepted w r c (Belongs-accepted id s size total c sp len b)))
          (add_chunk-Progress _ v (add_chunk-Added w r c))
