-- ===== src/Clipwire/Chunking/Delivery.antt =====
-- From `ChunkPayload` to `Add`: a payload arrives whole, in whatever order its chunks come,
-- however often they are repeated, and whatever else arrives between them.
use clippy.Base.{
  ℕ, ◌<◌, ◌≡◌, ap, sym, subst, ◌∙◌, ◌≢◌, ◌⊎◌, inl, inr, none, some, List, arith, ok, length, All,
  All-map, All-zip, All-Any, Any, Any-map, Any-All, beq_refl, Bool-cases, ◌==◌, nat_eq, Bool-cases,
  ◌==◌, nat_eq,
}
use clippy.Base.Bytes.{Bytes, bytes_eq}
use clippy.Base.Int.{pos}
use clippy.Base.Map.{lookup}
use clippy.Clipwire.Types.{ClipboardPayload, PayloadChunk, Wire}
use clippy.Clipwire.Payload.{validate_payload}
use clippy.Clipwire.Payload.Laws.{validate_payload_iff}
use clippy.Clipwire.Chunking.{
  Reassembler, AddResult, chunk_payload, chunks_from, decode_transfer, add, add_all,
}
use clippy.Clipwire.Chunking.Split.{
  Belongs, Sends, Sends-IsSplit, ceil_div, chunk_payload_lem, chunks_from-Belongs,
  chunks_from-covers,
}
use clippy.Clipwire.Chunking.Parts.{part}
use clippy.Clipwire.Chunking.Parts.{part}
use clippy.Clipwire.Chunking.Gather.{Quiet, Early, gather, part_of-none}
use clippy.Clipwire.Chunking.Progress.{
  Holds-open, part_of, HoldsAll, Progress, waiting, completed, add-Progress,
}

-- The chunk is in the list.
abbrev pub In : PayloadChunk → List PayloadChunk → Type 0
In c cs = Any (λ d. d ≡ c) cs

module _ (w : Wire) where
  decode_own :
      (p : ClipboardPayload) (s : Bytes)
      → w.unmarshal s ≡ some p
      → validate_payload w (some p) ≡ ok tt
      → decode_transfer w p.sha256 s ≡ ok (some p)
  unfolding decode_transfer
  decode_own p s u v = ground (arith, u, v, beq_refl p.sha256)

  module _ (p : ClipboardPayload) (size : ℕ) (s : Bytes) (h : Sends w p size s) where
    total : ℕ
    total = ceil_div (length s) size

    sent : List PayloadChunk
    sent = chunks_from p.sha256 s size total total 0

    sent-Belongs : All (Belongs p.sha256 s size total) sent
    unfolding sent total
    sent-Belongs =
        chunks_from-Belongs p.sha256 s size total (Sends-IsSplit w p size s h) total 0 (omega arith)

    Early-sent :
        (last : PayloadChunk) (cs : List PayloadChunk)
        → All (λ c. (In c sent × (c.sequence ≢ last.sequence)) ⊎ (c.transfer_id ≢ p.sha256)) cs
        → All (Early p.sha256 s size total last.sequence) cs
    Early-sent last cs a =
        All-map _ _
          (λ c. elim [
            | inl (m, ne) ↦ inl (All-Any (Belongs p.sha256 s size total) sent sent-Belongs c m, ne)
            | inr other ↦ inr other
          ])
          cs a

    -- Every part but the last stands in what came before.
    rest_before :
        (last : PayloadChunk) (before : List PayloadChunk)
        → All (λ c. (c ≡ last) ⊎ In c before) sent
        → (i : ℕ) → i < total
        → i ≢ last.sequence
        → Any (λ c. (c.transfer_id ≡ p.sha256) × (c.sequence ≡ i)) before
    unfolding sent total
    rest_before last before all i lt ne =
        let found =
          chunks_from-covers p.sha256 s size total (Sends-IsSplit w p size s h) total 0
            (omega arith) i (omega arith) lt in
        let both = All-zip _ _ sent all sent-Belongs in
        let (c, seq, (where_is, b)) = Any-All _ _ sent both found in
        elim where_is [
          | inl e ↦ absurd (ne (sym seq ∙ ap (λ d. d.sequence) e))
          | inr m ↦
              Any-map _ _ before
                (λ d e. (ap (λ x. x.transfer_id) e ∙ b.transfer, ap (λ x. x.sequence) e ∙ seq)) m
        ]

    -- The last part completes the transfer.
    last_completes :
        (r : Reassembler) (last : PayloadChunk)
        → Belongs p.sha256 s size total last
        → HoldsAll p.sha256 s size total r
        → ((i : ℕ) → i < total → i ≢ last.sequence → (d : Bytes) × (part_of p.sha256 r i ≡ some d))
        → part_of p.sha256 r last.sequence ≡ none
        → ((add w r (some last)).1 ≡ decode_transfer w p.sha256 s)
          × (lookup p.sha256 (add w r (some last)).0.inflight ≡ none)
    unfolding total
    last_completes r last b v others m = finish_with _ (
        add-Progress w p.sha256 s size total (Sends-IsSplit w p size s h) r last b
          h.well_formed.digest_length v)
      where
        finish_with :
            (res : Reassembler × AddResult)
            → Progress w p.sha256 s size total r last res
            → (res.1 ≡ decode_transfer w p.sha256 s) × (lookup p.sha256 res.0.inflight ≡ none)
        finish_with res (completed out gone _) = (out, gone)
        finish_with res (waiting _ st _ held self same) = absurd (
            Holds-open s size total st held (λ i lt. elim (Bool-cases (i == last.sequence)) [
              | inl here ↦
                  let e : i ≡ last.sequence = ground arith in
                  (part s size last.sequence, ap (λ j. lookup j st.chunks) e ∙ self)
              | inr other ↦
                  let ne : i ≢ last.sequence = ground arith in
                  let (d, found) = others i lt ne in (d, same i ne ∙ found)
            ]))

  -- `ChunkPayload` and `Add` together: let `p` be a well-formed payload whose encoding has 1 to
  -- 2^32 - 1 bytes and decodes to `p`, let `chunks` be what `ChunkPayload` makes of it with a
  -- positive chunk size that with the number of those bytes adds up to at most 2^63, and `r` a
  -- reassembler without a transfer of that hash. Feed `r` any sequence of chunks of other hashes
  -- and of chunks of `p` but one, in any order, with repetitions, in which each of those occurs.
  -- For the chunks of `p` every call then reports an incomplete transfer and no error; the call
  -- with the missing chunk returns `p`, and nothing of the transfer stays in flight.
  pub delivers :
      (p : ClipboardPayload) (size : ℕ) (s : Bytes) (chunks : List PayloadChunk) (r : Reassembler)
      (before : List PayloadChunk) (last : PayloadChunk)
      → Sends w p size s
      → w.unmarshal s ≡ some p
      → chunk_payload w (some p) (pos size) ≡ ok chunks
      → lookup p.sha256 r.inflight ≡ none
      → All (λ c. (In c chunks × (c.sequence ≢ last.sequence)) ⊎ (c.transfer_id ≢ p.sha256)) before
      → In last chunks
      → All (λ c. (c ≡ last) ⊎ In c before) chunks
      → Quiet p.sha256 before (add_all w r before).1
        × ((add w (add_all w r before).0 (some last)).1 ≡ ok (some p))
        × (lookup p.sha256 (add w (add_all w r before).0 (some last)).0.inflight ≡ none)
  unfolding sent total
  delivers p size s chunks r before last h u cut new early own all =
      let sp = Sends-IsSplit w p size s h in
      let n = ceil_div (length s) size in
      let same : chunks ≡ sent p size s h = ground (arith, chunk_payload_lem w p size s h) in
      let own' = subst (In last) same own in
      let b =
        All-Any (Belongs p.sha256 s size n) (sent p size s h) (sent-Belongs p size s h) last own' in
      let g =
        gather w p.sha256 s size n sp h.well_formed.digest_length last.sequence before r b.in_range
          (λ st found. cc) (part_of-none p.sha256 r last.sequence new)
          (Early-sent p size s h last before (rw same at early)) in
      let others = λ (i : ℕ) (lt : i < n) (ne : i ≢ last.sequence).
        g.gains i (rest_before p size s h last before (rw same at all) i lt ne) in
      let (out, gone) = last_completes p size s h _ last b g.holds others g.missing in
      (g.quiet, out ∙ decode_own p s u ((validate_payload_iff w p).1 h.well_formed), gone)
