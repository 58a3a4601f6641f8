-- ===== src/Clipwire/Chunking/Gather.antt =====
-- The chunks of a transfer gather in the reassembler while one of them is missing.
use clippy.Base.{
  ℕ, ◌<◌, ◌≡◌, ap, sym, subst, ◌∙◌, ◌≢◌, ◌⊎◌, inl, inr, none, some, List, [], ◌∷◌, arith, ok,
  length, All, Any, Bool-cases, ◌==◌, nat_eq,
}
use clippy.Base.Bytes.{Bytes, bytes_eq}
use clippy.Base.Map.{lookup}
use clippy.Clipwire.Types.{PayloadChunk, Wire}
use clippy.Clipwire.Payload.{digest_size}
use clippy.Clipwire.Chunking.{ReassemblyState, Reassembler, AddResult, add, add_all}
use clippy.Clipwire.Chunking.Split.{IsSplit, Belongs}
use clippy.Clipwire.Chunking.Parts.{part}
use clippy.Clipwire.Chunking.Transfer.{add-other}
use clippy.Clipwire.Chunking.Progress.{
  Holds, part_of, HoldsAll, Progress, waiting, completed, add-Progress,
}

-- Each call for the transfer `id` reported an incomplete transfer and no error.
abbrev pub Quiet : Bytes → List PayloadChunk → List AddResult → Type 0
Quiet id [] outs = Unit {0}
Quiet id (c ∷ cs) [] = ⊥
Quiet id (c ∷ cs) (out ∷ outs) = (c.transfer_id ≡ id → out ≡ ok none) × Quiet id cs outs

part_of-found :
    (id : Bytes) (r : Reassembler) (st : ReassemblyState) (i : ℕ)
    → lookup id r.inflight ≡ some st
    → part_of id r i ≡ lookup i st.chunks
unfolding part_of
part_of-found id r st i h = rw (h, part_of)

part_of-same :
    (id : Bytes) (r q : Reassembler) (i : ℕ)
    → lookup id q.inflight ≡ lookup id r.inflight
    → part_of id q i ≡ part_of id r i
unfolding part_of
part_of-same id r q i h = rw (h, part_of)

pub part_of-none :
    (id : Bytes) (r : Reassembler) (i : ℕ) → lookup id r.inflight ≡ none → part_of id r i ≡ none
unfolding part_of
part_of-none id r i h = rw (h, part_of)

-- A chunk of the transfer other than the part `k`, or a chunk of another transfer.
abbrev pub Early : Bytes → Bytes → ℕ → ℕ → ℕ → PayloadChunk → Type 0
Early id s size total k c = (Belongs id s size total c × (c.sequence ≢ k)) ⊎ (c.transfer_id ≢ id)

module _ (w : Wire) (id s : Bytes) (size total : ℕ) where
  -- What a call does to the transfer while the part `k` is missing.
  record Kept (k : ℕ) (r : Reassembler) (c : PayloadChunk) (res : Reassembler × AddResult)
      : Type 0 where
    holds : HoldsAll id s size total res.0
    missing : part_of id res.0 k ≡ none
    quiet : c.transfer_id ≡ id → res.1 ≡ ok none
    keeps :
        (i : ℕ) (d : Bytes)
        → part_of id r i ≡ some d
        → (d' : Bytes) × (part_of id res.0 i ≡ some d')
    gains : c.transfer_id ≡ id → (d : Bytes) × (part_of id res.0 c.sequence ≡ some d)

  Kept-other :
      (k : ℕ) (r : Reassembler) (c : PayloadChunk)
      → HoldsAll id s size total r
      → part_of id r k ≡ none
      → c.transfer_id ≢ id
      → Kept k r c (add w r (some c))
  Kept-other k r c v m ne =
      let same = add-other w id r c ne in
      record {
        holds = λ st found. v st (sym same ∙ found);
        missing = part_of-same id r _ k same ∙ m;
        quiet = λ e. absurd (ne e);
        keeps = λ i d h. (d, part_of-same id r _ i same ∙ h);
        gains = λ e. absurd (ne e);
      }

  pub record Gathered (k : ℕ) (r : Reassembler) (cs : List PayloadChunk)
      (res : Reassembler × List AddResult) : Type 0 where
    pub holds : HoldsAll id s size total res.0
    pub missing : part_of id res.0 k ≡ none
    pub quiet : Quiet id cs res.1
    pub keeps :
        (i : ℕ) (d : Bytes)
        → part_of id r i ≡ some d
        → (d' : Bytes) × (part_of id res.0 i ≡ some d')
    pub gains :
        (i : ℕ)
        → Any (λ c. (c.transfer_id ≡ id) × (c.sequence ≡ i)) cs
        → (d : Bytes) × (part_of id res.0 i ≡ some d)

  module _ (sp : IsSplit s size total) (len : length id ≡ digest_size) where
    Progress-Kept :
        (k : ℕ) (r : Reassembler) (c : PayloadChunk) (res : Reassembler × AddResult)
        → k < total
        → part_of id r k ≡ none
        → c.sequence ≢ k
        → Progress w id s size total r c res
        → Kept k r c res
    Progress-Kept k r c res lt m ne (waiting out st found h self others) = record {
      holds = λ st' found'. let e : st ≡ st' = cc in subst (Holds s size total) e h;
      missing = part_of-found id res.0 st k found ∙ others k (λ e. ne (sym e)) ∙ m;
      quiet = λ _. out;
      keeps = λ i d h'. elim (Bool-cases (i == c.sequence)) [
        | inl same ↦
            let e : i ≡ c.sequence = ground arith in
            (
              part s size c.sequence,
              part_of-found id res.0 st i found ∙ ap (λ j. lookup j st.chunks) e ∙ self,
            )
        | inr other ↦ (d, part_of-found id res.0 st i found ∙ others i (ground arith) ∙ h')
      ];
      gains = λ _. (part s size c.sequence, part_of-found id res.0 st c.sequence found ∙ self);
    }
    Progress-Kept k r c res lt m ne (completed out gone others) =
        let (d, here) = others k lt (λ e. ne (sym e)) in absurd (ground arith)

    Early-Kept :
        (k : ℕ) (r : Reassembler) (c : PayloadChunk)
        → k < total
        → HoldsAll id s size total r
        → part_of id r k ≡ none
        → Early id s size total k c
        → Kept k r c (add w r (some c))
    Early-Kept k r c lt v m (inl (b, ne)) =
        Progress-Kept k r c _ lt m ne (add-Progress w id s size total sp r c b len v)
    Early-Kept k r c lt v m (inr ne) = Kept-other k r c v m ne

    pub gather :
        (k : ℕ) (cs : List PayloadChunk) (r : Reassembler)
        → k < total
        → HoldsAll id s size total r
        → part_of id r k ≡ none
        → All (Early id s size total k) cs
        → Gathered k r cs (add_all w r cs)
    unfolding add_all
    gather k [] r lt v m h = record {
      holds = v;
      missing = m;
      quiet = tt;
      keeps = λ i d e. (d, e);
      gains = λ i e. absurd e;
    }
    gather k (c ∷ cs) r lt v m h =
        let kept = Early-Kept k r c lt v m h.0 in
        let rest = gather k cs (add w r (some c)).0 lt kept.holds kept.missing h.1 in
        record {
          holds = rest.holds;
          missing = rest.missing;
          quiet = (kept.quiet, rest.quiet);
          keeps = λ i d e. let (d', e') = kept.keeps i d e in rest.keeps i d' e';
          gains = λ i. elim [
            | inl (own, same) ↦
                let (d, e) = kept.gains own in
                rest.keeps i d (ap (part_of id (add w r (some c)).0) (sym same) ∙ e)
            | inr later ↦ rest.gains i later
          ];
        }
