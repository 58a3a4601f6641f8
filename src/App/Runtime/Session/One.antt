-- ===== src/App/Runtime/Session/One.antt =====
-- The frames of one payload, one after another, at a machine that has no open transfer.
use clippy.Base.{
  ℕ, ◌≡◌, ◌≢◌, inl, inr, refl, ap, sym, subst, ◌∙◌, Bool, true, false, none, some, List, [], ◌∷◌,
  ◌++◌, map, arith, ok, All, All-map, All-zip, All-Any, Bool-cases, length,
}
use clippy.Base.Bytes.{Bytes, bytes_beq, bytes_beq_iff, bytes_eq}
use clippy.Base.Int.{pos}
use clippy.Base.Map.{lookup}
use clippy.Clipwire.Types.{ClipboardPayload, PayloadChunk, Wire}
use clippy.Clipwire.Payload.{default_chunk_size}
use clippy.Clipwire.Chunking.{Reassembler, chunk_payload, add, add_all}
use clippy.Clipwire.Chunking.Split.{Sends, chunk_payload_split, count_from, join_data, ceil_div}
use clippy.Clipwire.Chunking.Transfer.{add-other}
use clippy.Osclip.Manager.{Media, WritePlan, normalize_write_payload}
use clippy.App.Runtime.{
  ChunkCodec, Node, FrameOutcome, incomplete, invalid_frame, invalid_chunk, apply_failed, applied,
  handle_frame, handle_all,
}
use clippy.App.Runtime.Delivery.{Carries, own_transfer, whole_arrives, after_whole}
use clippy.App.Runtime.Session.Lasts.{
  snoc, last_differs, In-last, early-In, last-or-early, Arrivals, last_arrival,
}

-- A payload, its encoding, and what a machine writes for it.
pub record Copy : Type 0 where
  pub payload : ClipboardPayload
  pub encoding : Bytes
  pub plan : WritePlan

-- The outcomes that report something.
unfoldable pub reports : List FrameOutcome → List FrameOutcome
reports [] = []
reports (incomplete ∷ outs) = reports outs
reports (invalid_frame ∷ outs) = invalid_frame ∷ reports outs
reports (invalid_chunk e ∷ outs) = invalid_chunk e ∷ reports outs
reports (apply_failed e ∷ outs) = apply_failed e ∷ reports outs
reports (applied p plan ∷ outs) = applied p plan ∷ reports outs

pub reports-append : (xs ys : List FrameOutcome) → reports (xs ++ ys) ≡ reports xs ++ reports ys
unfolding reports
reports-append [] ys = refl
reports-append (incomplete ∷ xs) ys = reports-append xs ys
reports-append (invalid_frame ∷ xs) ys = ap (λ l. invalid_frame ∷ l) (reports-append xs ys)
reports-append (invalid_chunk e ∷ xs) ys = ap (λ l. invalid_chunk e ∷ l) (reports-append xs ys)
reports-append (apply_failed e ∷ xs) ys = ap (λ l. apply_failed e ∷ l) (reports-append xs ys)
reports-append (applied p plan ∷ xs) ys = ap (λ l. applied p plan ∷ l) (reports-append xs ys)

reports_none : (outs : List FrameOutcome) → All (λ out. out ≡ incomplete) outs → reports outs ≡ []
unfolding reports
reports_none [] h = refl
reports_none (incomplete ∷ outs) h = reports_none outs h.1
reports_none (invalid_frame ∷ outs) h = cc
reports_none (invalid_chunk e ∷ outs) h = cc
reports_none (apply_failed e ∷ outs) h = cc
reports_none (applied p plan ∷ outs) h = cc

-- Nothing is in flight.
abbrev pub IsIdle : Node → Type 0
IsIdle n = (id : Bytes) → lookup id n.reassembler.inflight ≡ none

module _ (codec : ChunkCodec) (media : Media) (w : Wire) (accepts : WritePlan → Bool) where
  -- A payload that can be sent, and that the other machine takes.
  pub record IsGood (c : Copy) : Type 0 where
    pub sends : Sends w c.payload default_chunk_size c.encoding
    pub decodes : w.unmarshal c.encoding ≡ some c.payload
    pub planned : normalize_write_payload media c.payload ≡ ok c.plan
    pub accepted : accepts c.plan ≡ true

  pub handle_all-append :
      (n : Node) (xs ys : List (ℕ × Bytes))
      → let first = handle_all codec media w accepts n xs in
        let second = handle_all codec media w accepts first.0 ys in
        handle_all codec media w accepts n (xs ++ ys) ≡ (second.0, first.1 ++ second.1)
  unfolding handle_all
  handle_all-append n [] ys = refl
  handle_all-append n ((now, frame) ∷ xs) ys =
      let (n', out) = handle_frame codec media w false accepts n now frame in
      ap (λ (r : Node × List FrameOutcome). (r.0, out ∷ r.1)) (handle_all-append n' xs ys)

  add_all-other :
      (id : Bytes) (cs : List PayloadChunk) (r : Reassembler)
      → All (λ c. c.transfer_id ≢ id) cs
      → lookup id (add_all w r cs).0.inflight ≡ lookup id r.inflight
  unfolding add_all
  add_all-other id [] r h = refl
  add_all-other id (c ∷ cs) r h =
      add_all-other id cs (add w r (some c)).0 h.1 ∙ add-other w id r c h.0

  -- The frames of one payload, in order, each at its own time.
  pub record OneDone (n : Node) (c : Copy) (res : Node × List FrameOutcome) : Type 0 where
    pub reported : reports res.1 ≡ applied c.payload (some c.plan) ∷ []
    pub idle : IsIdle res.0

  module _ (n : Node) (c : Copy) (good : IsGood c) (idle : IsIdle n) where
    abbrev p : ClipboardPayload
    p = c.payload

    -- No transfer is open once the payload has arrived.
    stays_idle :
        (early : List PayloadChunk) (last : PayloadChunk)
        → All (λ d. d.transfer_id ≡ p.sha256) early
        → last.transfer_id ≡ p.sha256
        → let r = (add w (add_all w n.reassembler early).0 (some last)).0 in
          lookup p.sha256 r.inflight ≡ none → (id : Bytes) → lookup id r.inflight ≡ none
    stays_idle early last own own_last gone id = elim (Bool-cases (bytes_beq p.sha256 id)) [
      | inl same ↦
          subst
            (λ i. lookup i (add w (add_all w n.reassembler early).0 (some last)).0.inflight ≡ none)
            ((bytes_beq_iff p.sha256 id).0 same) gone
      | inr differs ↦
          let ne : p.sha256 ≢ id = λ e. ground (arith, (bytes_beq_iff p.sha256 id).1 e, differs) in
          add-other w id (add_all w n.reassembler early).0 last (λ e. ne (sym own_last ∙ e))
          ∙ (add_all-other id early n.reassembler (All-map _ _ (λ d o e. ne (sym o ∙ e)) early own)
              ∙ idle id)
    ]

    -- Where the last frame leads.
    module _ (early : List PayloadChunk) (last : PayloadChunk) (first : List (ℕ × Bytes)) (now : ℕ)
        (frame : Bytes) where
      abbrev before : Node × List FrameOutcome
      before = handle_all codec media w accepts n first

      abbrev after : Node
      after =
          after_whole codec media w accepts p c.plan now
            (add w (add_all w n.reassembler early).0 (some last)).0 n.pending

      last_frame :
          handle_frame codec media w false accepts before.0 now frame
            ≡ (after, applied p (some c.plan))
          → handle_all codec media w accepts n (first ++ (now, frame) ∷ [])
            ≡ (after, before.1 ++ applied p (some c.plan) ∷ [])
      unfolding handle_all
      last_frame h =
          handle_all-append n first ((now, frame) ∷ [])
          ∙ ap (λ (x : Node × FrameOutcome). (x.0, before.1 ++ x.1 ∷ [])) h

      reported_once :
          All (λ out. out ≡ incomplete) before.1
          → reports (before.1 ++ applied p (some c.plan) ∷ []) ≡ applied p (some c.plan) ∷ []
      unfolding reports
      reported_once outs =
          reports-append before.1 (applied p (some c.plan) ∷ [])
          ∙ ap (λ x. x ++ applied p (some c.plan) ∷ []) (reports_none before.1 outs)

    one_last :
        (m : ℕ) (early : List PayloadChunk) (last : PayloadChunk) (arrivals : List (ℕ × Bytes))
        → chunk_payload w (some p) (pos default_chunk_size) ≡ ok (early ++ last ∷ [])
        → map (λ (d : PayloadChunk). d.sequence) (early ++ last ∷ []) ≡ count_from m 0
        → Arrivals codec arrivals early last
        → OneDone n c (handle_all codec media w accepts n arrivals)
    one_last m early last arrivals cut seqs r =
        let chunks = early ++ last ∷ [] in
        let ids =
          own_transfer codec media w accepts p default_chunk_size c.encoding chunks good.sends
            cut in
        let (outs, _, reached, gone) =
          whole_arrives codec media w accepts p default_chunk_size c.encoding chunks n r.first early
            r.now r.frame last c.plan good.sends good.decodes cut (idle p.sha256) r.carried
            r.carried_last
            (All-zip _ _ early (early-In early (last ∷ [])) (last_differs m 0 early last seqs))
            (In-last early last) (last-or-early early last) good.planned good.accepted in
        subst (OneDone n c)
          (sym (
            ap (handle_all codec media w accepts n) r.same
            ∙ last_frame early last r.first r.now r.frame reached))
          (record {
            reported = reported_once early last r.first r.now r.frame outs;
            idle =
                stays_idle early last
                  (All-map _ _ (λ d o. All-Any (λ x. x.transfer_id ≡ p.sha256) chunks ids d o) early
                    (early-In early (last ∷ [])))
                  (All-Any (λ x. x.transfer_id ≡ p.sha256) chunks ids last (In-last early last))
                  gone;
          })

    pub one_done :
        (chunks : List PayloadChunk) (arrivals : List (ℕ × Bytes))
        → chunk_payload w (some p) (pos default_chunk_size) ≡ ok chunks
        → Carries codec arrivals chunks
        → OneDone n c (handle_all codec media w accepts n arrivals)
    one_done chunks arrivals cut car =
        let (made, cut', joined, seqs, _) =
          chunk_payload_split w p default_chunk_size c.encoding good.sends in
        let same : made ≡ chunks = cc in
        go (ceil_div (length c.encoding) default_chunk_size) chunks
          (subst (λ l. join_data l ≡ c.encoding) same joined)
          (subst
            (λ l.
              map (λ (d : PayloadChunk). d.sequence) l
              ≡ count_from (ceil_div (length c.encoding) default_chunk_size) 0)
            same seqs)
          cut car
      where
        go :
            (m : ℕ) (l : List PayloadChunk)
            → join_data l ≡ c.encoding
            → map (λ (d : PayloadChunk). d.sequence) l ≡ count_from m 0
            → chunk_payload w (some p) (pos default_chunk_size) ≡ ok l
            → Carries codec arrivals l
            → OneDone n c (handle_all codec media w accepts n arrivals)
        go m [] joined seqs cut car =
            absurd (ground (arith, ap length joined, good.sends.some_bytes))
        go m (x ∷ xs) joined seqs cut car =
            let r = snoc x xs in
            one_last m r.early r.last arrivals (cut ∙ ap ok r.same)
              (subst (λ l. map (λ (d : PayloadChunk). d.sequence) l ≡ count_from m 0) r.same seqs)
              (last_arrival codec arrivals r.early r.last
                (subst (Carries codec arrivals) r.same car))
