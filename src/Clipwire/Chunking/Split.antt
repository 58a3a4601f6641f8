-- ===== src/Clipwire/Chunking/Split.antt =====
-- What `ChunkPayload` produces.
use clippy.Base.{
  ℕ, zero, suc, ◌+◌, ◌-◌, ◌*◌, ◌/◌, ◌%◌, ◌≤◌, ◌<◌, ◌≡◌, refl, ap, ap₂, append-nil, append_assoc,
  sym, ◌∙◌, ◌≢◌, inl, inr, some, List, [], ◌∷◌, ◌++◌, map, arith, ok, length, take, All, All-map,
  Any, Bool-cases, ◌==◌, ==_iff,
}
use clippy.Base.Bytes.{Bytes}
use clippy.Base.Int.{pos, int64_half, wrap_int64_small}
use clippy.Clipwire.Types.{ClipboardPayload, PayloadChunk, Wire}
use clippy.Clipwire.Payload.{digest_size, validate_chunk_size}
use clippy.Clipwire.Payload.Laws.{IsWellFormed, validate_payload_iff}
use clippy.Clipwire.Chunking.{
  uint32_mod, total_chunk_count, chunk_at, chunks_from, split_serialized, chunk_payload,
  validate_chunk_fields, validate_chunk,
}
use clippy.Clipwire.Chunking.Invariant.{copy_bytes_id}
use clippy.Clipwire.Chunking.Parts.{
  part, length-part, length-part-le, part-ne-nil, next_part, take_all,
}

-- The number of chunks, and the facts about it that the proofs use.
pub record IsSplit (s : Bytes) (size total : ℕ) : Type 0 where
  pub size_pos : 0 < size
  pub total_pos : 0 < total
  pub total_small : total < uint32_mod
  pub length_small : length s < uint32_mod
  pub covers : length s ≤ total * size
  pub within : (i : ℕ) → i < total → i * size < length s

-- A chunk of the transfer `id` that carries its part of `s`.
pub record Belongs (id s : Bytes) (size total : ℕ) (c : PayloadChunk) : Type 0 where
  pub transfer : c.transfer_id ≡ id
  pub count : c.total_chunks ≡ total
  pub size_is : c.total_size ≡ length s
  pub in_range : c.sequence < total
  pub content : c.data' ≡ part s size c.sequence

pub ceil_div : ℕ → ℕ → ℕ
ceil_div len size = (len + size - 1) / size

ceil_covers : (len size : ℕ) → 0 < size → len ≤ ceil_div len size * size
unfolding ceil_div
ceil_covers len size h = grind arith

ceil_within : (len size i : ℕ) → 0 < size → 0 < len → i < ceil_div len size → i * size < len
unfolding ceil_div
ceil_within len size i h l lt = grind arith

ceil_pos : (len size : ℕ) → 0 < size → 0 < len → 0 < ceil_div len size
ceil_pos len size h l = grind (arith, ceil_covers len size h)

ceil_le : (len size : ℕ) → 0 < size → 0 < len → ceil_div len size ≤ len
unfolding ceil_div
ceil_le len size h l = grind arith

IsSplit-ceil_div :
    (s : Bytes) (size : ℕ)
    → 0 < size
    → 0 < length s
    → length s < uint32_mod
    → IsSplit s size (ceil_div (length s) size)
IsSplit-ceil_div s size h l lt = record {
  size_pos = h;
  total_pos = ceil_pos (length s) size h l;
  total_small = omega (arith, ceil_le (length s) size h l);
  length_small = lt;
  covers = ceil_covers (length s) size h;
  within = λ i p. ceil_within (length s) size i h l p;
}

total_chunk_count-ceil_div :
    (len size : ℕ)
    → 0 < size
    → len + size ≤ int64_half
    → total_chunk_count len size ≡ pos (ceil_div len size)
unfolding total_chunk_count ceil_div
total_chunk_count-ceil_div len size h fits =
    rw (wrap_int64_small (len + size - 1) (omega arith), total_chunk_count)

-- The bytes of all chunks, in order.
abbrev pub join_data : List PayloadChunk → Bytes
join_data [] = []
join_data (c ∷ cs) = c.data' ++ join_data cs

-- `i`, `i + 1`, up to `n` numbers.
abbrev pub count_from : ℕ → ℕ → List ℕ
count_from zero i = []
count_from (suc n) i = i ∷ count_from n (i + 1)

module _ (id s : Bytes) (size total : ℕ) (sp : IsSplit s size total) where
  chunk_at-Belongs : (i : ℕ) → i < total → Belongs id s size total (chunk_at id s size total i)
  unfolding chunk_at
  chunk_at-Belongs i h =
      let e : i % uint32_mod ≡ i = omega (arith, sp.total_small) in
      record {
        transfer = copy_bytes_id id;
        count = omega (arith, sp.total_small);
        size_is = omega (arith, sp.length_small);
        in_range = rw e h;
        content = rw e (copy_bytes_id (part s size i));
      }

  pub chunks_from-Belongs :
      (n i : ℕ) → i + n ≡ total → All (Belongs id s size total) (chunks_from id s size total n i)
  unfolding chunks_from
  chunks_from-Belongs zero i e = tt
  chunks_from-Belongs (suc n) i e =
      (chunk_at-Belongs i (omega arith), chunks_from-Belongs n (i + 1) (omega arith))

  pub chunks_from-covers :
      (n i : ℕ)
      → i + n ≡ total
      → (j : ℕ) → i ≤ j
      → j < total
      → Any (λ c. c.sequence ≡ j) (chunks_from id s size total n i)
  unfolding chunks_from chunk_at
  chunks_from-covers zero i e j le lt = absurd (omega arith)
  chunks_from-covers (suc n) i e j le lt = elim (Bool-cases (i == j)) [
    | inl same ↦ inl (omega (arith, sp.total_small, (==_iff i j).0 same))
    | inr other ↦ inr (
        chunks_from-covers n (i + 1) (omega arith) j (let ne : i ≢ j = ground arith in omega arith)
          lt)
  ]

  chunks_from-sequence :
      (n i : ℕ)
      → i + n ≡ total
      → map (λ (c : PayloadChunk). c.sequence) (chunks_from id s size total n i) ≡ count_from n i
  unfolding chunks_from chunk_at
  chunks_from-sequence zero i e = refl
  chunks_from-sequence (suc n) i e =
      let e' : i % uint32_mod ≡ i = omega (arith, sp.total_small) in
      ap₂ ◌∷◌ e' (chunks_from-sequence n (i + 1) (omega arith))

  chunk_at-data : (i : ℕ) → (chunk_at id s size total i).data' ≡ part s size i
  unfolding chunk_at
  chunk_at-data i = copy_bytes_id (part s size i)

  chunks_from-join :
      (n i : ℕ)
      → i + n ≡ total
      → take (i * size) s ++ join_data (chunks_from id s size total n i) ≡ s
  unfolding chunks_from
  chunks_from-join zero i e =
      append-nil (take (i * size) s)
      ∙ take_all (i * size) s (let e' : i ≡ total = omega arith in rw e' sp.covers)
  chunks_from-join (suc n) i e =
      let rest = chunks_from id s size total n (i + 1) in
      sym (append_assoc (take (i * size) s) (chunk_at id s size total i).data' (join_data rest))
      ∙ ap (λ (d : Bytes). (take (i * size) s ++ d) ++ join_data rest) (chunk_at-data i)
      ∙ ap (λ (d : Bytes). d ++ join_data rest) (next_part s size i)
      ∙ chunks_from-join n (i + 1) (omega arith)

  join_all : join_data (chunks_from id s size total total 0) ≡ s
  join_all = let z : 0 * size ≡ 0 = omega arith in rw z at (chunks_from-join total 0 (omega arith))

-- A chunk that passes the checks of `Add` and carries at most `size` bytes of the payload `id`.
pub record IsSound (id : Bytes) (size : ℕ) (c : PayloadChunk) : Type 0 where
  pub accepted : validate_chunk (some c) ≡ ok tt
  pub transfer : c.transfer_id ≡ id
  pub fits : length c.data' ≤ size

pub Belongs-accepted :
    (id s : Bytes) (size total : ℕ) (c : PayloadChunk)
    → IsSplit s size total
    → length id ≡ digest_size
    → Belongs id s size total c
    → validate_chunk (some c) ≡ ok tt
unfolding validate_chunk validate_chunk_fields
Belongs-accepted id s size total c sp len b =
    let inside = sp.within c.sequence b.in_range in
    let some_bytes : 0 < length c.data' =
      omega (arith, ap length b.content, part-ne-nil s size c.sequence sp.size_pos inside) in
    let few : length c.data' ≤ length s =
      omega (arith, ap length b.content, length-part s size c.sequence (omega arith)) in
    let id_len : length c.transfer_id ≡ digest_size = ap length b.transfer ∙ len in
    ground (arith, b.count, b.size_is, b.in_range, inside)

Belongs-IsSound :
    (id s : Bytes) (size total : ℕ) (c : PayloadChunk)
    → IsSplit s size total
    → length id ≡ digest_size
    → Belongs id s size total c
    → IsSound id size c
Belongs-IsSound id s size total c sp len b = record {
  accepted = Belongs-accepted id s size total c sp len b;
  transfer = b.transfer;
  fits = omega (arith, ap length b.content, length-part-le s size c.sequence);
}

module _ (w : Wire) where
  -- What the proofs about a split payload start from.
  pub record Sends (p : ClipboardPayload) (size : ℕ) (s : Bytes) : Type 0 where
    pub well_formed : IsWellFormed w p
    pub marshals : w.marshal p ≡ some s
    pub some_bytes : 0 < length s
    pub few_bytes : length s < uint32_mod
    pub size_pos : 0 < size
    pub size_small : length s + size ≤ int64_half

  pub chunk_payload_lem :
      (p : ClipboardPayload) (size : ℕ) (s : Bytes)
      → Sends p size s
      → chunk_payload w (some p) (pos size)
        ≡ ok (chunks_from p.sha256 s size (ceil_div (length s) size) (ceil_div (length s) size) 0)
  unfolding chunk_payload split_serialized validate_chunk_size
  chunk_payload_lem p size s h = ground (
    arith,
    (validate_payload_iff w p).1 h.well_formed,
    h.marshals,
    h.size_pos,
    total_chunk_count-ceil_div (length s) size h.size_pos h.size_small,
  )

  pub Sends-IsSplit :
      (p : ClipboardPayload) (size : ℕ) (s : Bytes)
      → Sends p size s
      → IsSplit s size (ceil_div (length s) size)
  Sends-IsSplit p size s h = IsSplit-ceil_div s size h.size_pos h.some_bytes h.few_bytes

  -- For a well-formed payload that marshals to 1 to 2^32 - 1 bytes, and a positive chunk size
  -- that with the number of those bytes adds up to at most 2^63, `ChunkPayload` succeeds: the
  -- data of the chunks, joined, is the encoding; the sequence numbers count up from 0, as many
  -- as the number of bytes divided by the chunk size and rounded up; and every chunk passes the
  -- checks of `Add`, carries the hash of the payload as its transfer id and at most a chunk size
  -- of bytes.
  pub chunk_payload_split :
      (p : ClipboardPayload) (size : ℕ) (s : Bytes)
      → Sends p size s
      → (chunks : List PayloadChunk) × (chunk_payload w (some p) (pos size) ≡ ok chunks)
        × (join_data chunks ≡ s)
        × (map (λ c. c.sequence) chunks ≡ count_from (ceil_div (length s) size) 0)
        × All (IsSound p.sha256 size) chunks
  chunk_payload_split p size s h =
      let total = ceil_div (length s) size in
      let sp = Sends-IsSplit p size s h in
      (
        chunks_from p.sha256 s size total total 0,
        chunk_payload_lem p size s h,
        join_all p.sha256 s size total sp,
        chunks_from-sequence p.sha256 s size total sp total 0 (omega arith),
        All-map _ _ (λ c. Belongs-IsSound p.sha256 s size total c sp h.well_formed.digest_length) _
            (chunks_from-Belongs p.sha256 s size total sp total 0 (omega arith)),
      )
