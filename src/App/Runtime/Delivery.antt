-- ===== src/App/Runtime/Delivery.antt =====
-- What one machine copies, another writes, once and without an echo.
use clippy.Base.{
  ℕ, ◌+◌, ◌<◌, ◌≡◌, ◌≢◌, ◌⊎◌, inl, refl, ap, sym, subst, ◌∙◌, Bool, true, false, none, some, List,
  [], ◌∷◌, ok, All, All-map, All-Any,
}
use clippy.Base.Bytes.{Bytes, bytes_eq}
use clippy.Base.Int.{pos}
use clippy.Base.Map.{lookup}
use clippy.Clipwire.Types.{ClipboardPayload, PayloadChunk, Wire}
use clippy.Clipwire.Payload.{compute_content_sha256, validate_payload}
use clippy.Clipwire.Payload.Laws.{validate_payload_iff}
use clippy.Clipwire.Chunking.{Reassembler, AddResult, chunk_payload, add, add_all}
use clippy.Clipwire.Chunking.Split.{Sends, IsSound, chunk_payload_split}
use clippy.Clipwire.Chunking.Gather.{Quiet}
use clippy.Clipwire.Chunking.Delivery.{In, delivers}
use clippy.Osclip.Pending.{PendingLedger, remember, consume}
use clippy.Osclip.Pending.Laws.{IsValid}
use clippy.Osclip.Pending.Loopback.{run, echo_suppressed}
use clippy.Osclip.Manager.{
  Media, WritePlan, Applied, normalize_write_payload, write_plan, apply_remote, watch_value,
}
use clippy.App.Runtime.{
  ChunkCodec, Node, FrameOutcome, incomplete, applied, apply_outcome, receive, handle_frame,
  handle_all,
}

module _ (codec : ChunkCodec) where
  -- The frames decode to the chunks.
  abbrev pub Carries : List (ℕ × Bytes) → List PayloadChunk → Type 0
  Carries [] [] = Unit {0}
  Carries [] (c ∷ cs) = ⊥
  Carries (a ∷ rest) [] = ⊥
  Carries (a ∷ rest) (c ∷ cs) = (codec.unmarshal_chunk a.1 ≡ some c) × Carries rest cs

  module _ (media : Media) (w : Wire) (accepts : WritePlan → Bool) where
    received :
        (n : Node) (now : ℕ) (frame : Bytes) (c : PayloadChunk)
        → codec.unmarshal_chunk frame ≡ some c
        → handle_frame codec media w false accepts n now frame
          ≡ receive codec media w false accepts now n.pending (add w n.reassembler (some c))
    received n now frame c h = unfold handle_frame in rw (h, handle_frame)

    received_quiet :
        (n : Node) (now : ℕ) (res : Reassembler × AddResult)
        → res.1 ≡ ok none
        → receive codec media w false accepts now n.pending res
          ≡ (record { reassembler = res.0; pending = n.pending }, incomplete)
    unfolding receive
    received_quiet n now (r, out) h = rw h

    -- While the reassembler stays quiet, nothing reaches the clipboard.
    frames-Quiet :
        (id : Bytes) (cs : List PayloadChunk) (arrivals : List (ℕ × Bytes)) (n : Node)
        → Carries arrivals cs
        → All (λ c. c.transfer_id ≡ id) cs
        → Quiet id cs (add_all w n.reassembler cs).1
        → ((handle_all codec media w accepts n arrivals).0
            ≡ record { reassembler = (add_all w n.reassembler cs).0; pending = n.pending })
          × All (λ out. out ≡ incomplete) (handle_all codec media w accepts n arrivals).1
    unfolding handle_all add_all
    frames-Quiet id [] [] n car own q = (refl, tt)
    frames-Quiet id (c ∷ cs) [] n car own q = absurd car
    frames-Quiet id [] (a ∷ rest) n car own q = absurd car
    frames-Quiet id (c ∷ cs) ((now, frame) ∷ rest) n car own q =
        let here =
          received n now frame c car.0
          ∙ received_quiet n now (add w n.reassembler (some c)) (q.0 own.0) in
        let first : Node = record {
          reassembler = (add w n.reassembler (some c)).0;
          pending = n.pending;
        } in
        let (state, outs) = frames-Quiet id cs rest first car.1 own.1 q.1 in
        subst
          (λ (r : Node × FrameOutcome).
            ((handle_all codec media w accepts r.0 rest).0 ≡ record {
              reassembler = (add_all w (add w n.reassembler (some c)).0 cs).0;
              pending = n.pending;
            })
            × ((r.1 ≡ incomplete)
                × All (λ out. out ≡ incomplete) (handle_all codec media w accepts r.0 rest).1))
          (sym here) (state, (refl, outs))

    apply_writes :
        (l : PendingLedger) (now : ℕ) (p : ClipboardPayload) (plan : WritePlan)
        → validate_payload w (some p) ≡ ok tt
        → normalize_write_payload media p ≡ ok plan
        → accepts plan ≡ true
        → apply_remote media w false accepts now l (some p) ≡ record {
          pending = remember l plan.bucket (compute_content_sha256 w plan.content) now;
          written = some plan;
          error = none;
        }
    apply_writes l now p plan v np acc =
        unfold apply_remote in unfold write_plan in rw (v, apply_remote) (rw np (rw acc))

    echo_stops :
        (l : PendingLedger) (now later : ℕ) (plan : WritePlan)
        → IsValid l
        → later < now + l.ttl
        → let after = remember l plan.bucket (compute_content_sha256 w plan.content) now in
          (watch_value media w plan.bucket later after (some plan.content)).1 ≡ none
    unfolding watch_value
    echo_stops l now later plan v lt =
        let hash = compute_content_sha256 w plan.content in
        let mine : (consume (remember l plan.bucket hash now) plan.bucket hash later).1 ≡ true =
          unfold run in echo_suppressed l plan.bucket hash now later [] v tt lt in
        rw mine

    -- A payload that completes, for which there is a write that the clipboard takes.
    received_whole :
        (n : Node) (now : ℕ) (p : ClipboardPayload) (plan : WritePlan)
        (res : Reassembler × AddResult)
        → res.1 ≡ ok (some p)
        → validate_payload w (some p) ≡ ok tt
        → normalize_write_payload media p ≡ ok plan
        → accepts plan ≡ true
        → receive codec media w false accepts now n.pending res ≡ (
          record {
            reassembler = res.0;
            pending = remember n.pending plan.bucket (compute_content_sha256 w plan.content) now;
          },
          applied p (some plan),
        )
    unfolding receive
    received_whole n now p plan (r, out) h v np acc = rw h (
        ap (λ (a : Applied). (record { reassembler = r; pending = a.pending }, apply_outcome p a))
          (apply_writes n.pending now p plan v np acc))

    pub own_transfer :
        (p : ClipboardPayload) (size : ℕ) (s : Bytes) (chunks : List PayloadChunk)
        → Sends w p size s
        → chunk_payload w (some p) (pos size) ≡ ok chunks
        → All (λ c. c.transfer_id ≡ p.sha256) chunks
    own_transfer p size s chunks h cut =
        let (made, made_so, _, _, sound) = chunk_payload_split w p size s h in
        let same : made ≡ chunks = cc in
        subst (λ cs. All (λ c. c.transfer_id ≡ p.sha256) cs) same
          (All-map (IsSound p.sha256 size) (λ c. c.transfer_id ≡ p.sha256) (λ c i. i.transfer) made
            sound)

    -- The state that a payload leaves behind.
    abbrev pub after_whole : ClipboardPayload → WritePlan → ℕ → Reassembler → PendingLedger → Node
    after_whole p plan now r pending = record {
      reassembler = r;
      pending = remember pending plan.bucket (compute_content_sha256 w plan.content) now;
    }

    pub whole_arrives :
        (p : ClipboardPayload) (size : ℕ) (s : Bytes) (chunks : List PayloadChunk) (n : Node)
        (arrivals : List (ℕ × Bytes)) (cs : List PayloadChunk) (now : ℕ) (frame : Bytes)
        (last : PayloadChunk) (plan : WritePlan)
        → Sends w p size s
        → w.unmarshal s ≡ some p
        → chunk_payload w (some p) (pos size) ≡ ok chunks
        → lookup p.sha256 n.reassembler.inflight ≡ none
        → Carries arrivals cs
        → codec.unmarshal_chunk frame ≡ some last
        → All (λ c. In c chunks × (c.sequence ≢ last.sequence)) cs
        → In last chunks
        → All (λ c. (c ≡ last) ⊎ In c cs) chunks
        → normalize_write_payload media p ≡ ok plan
        → accepts plan ≡ true
        → let before = handle_all codec media w accepts n arrivals in
          let r = (add w (add_all w n.reassembler cs).0 (some last)).0 in
          (All (λ out. out ≡ incomplete) before.1)
          × (before.0.pending ≡ n.pending)
          × (handle_frame codec media w false accepts before.0 now frame
              ≡ (after_whole p plan now r n.pending, applied p (some plan)))
          × (lookup p.sha256 r.inflight ≡ none)
    whole_arrives p size s chunks n arrivals cs now frame last plan h u cut new car car_last early
          own all np acc =
        let ids = own_transfer p size s chunks h cut in
        let (quiet, out, gone) =
          delivers w p size s chunks n.reassembler cs last h u cut new
            (All-map _ _ (λ c e. inl e) cs early) own all in
        let (state, outs) =
          frames-Quiet p.sha256 cs arrivals n car
            (All-map _ _ (λ c e. All-Any (λ d. d.transfer_id ≡ p.sha256) chunks ids c e.0) cs early)
            quiet in
        let gathered : Node = record {
          reassembler = (add_all w n.reassembler cs).0;
          pending = n.pending;
        } in
        (
          outs,
          ap (λ m. m.pending) state,
          ap (λ m. handle_frame codec media w false accepts m now frame) state
              ∙ (received gathered now frame last car_last
                  ∙ received_whole gathered now p plan
                      (add w (add_all w n.reassembler cs).0 (some last)) out
                      ((validate_payload_iff w p).1 h.well_formed) np acc),
          gone,
        )

    -- Let a payload be well formed, let its encoding have 1 to 2^32 - 1 bytes and decode to it,
    -- and let `ChunkPayload` cut it with a positive chunk size that with the number of those
    -- bytes adds up to at most 2^63. A machine that has no transfer of that hash, whose ledger
    -- is valid and whose clipboard takes the write that the payload is normalized to, handles
    -- frames of all chunks but one, in any order and with repetitions, each at its own time, and
    -- then the missing one. Then the calls before the last report an incomplete transfer and
    -- leave the ledger alone; the last one reports the payload and that write; nothing of the
    -- transfer stays in flight; and the watcher of the clipboard, reading the write back before
    -- the TTL has passed, sends nothing.
    pub handle_all_applies :
        (p : ClipboardPayload) (size : ℕ) (s : Bytes) (chunks : List PayloadChunk) (n : Node)
        (arrivals : List (ℕ × Bytes)) (cs : List PayloadChunk) (now : ℕ) (frame : Bytes)
        (last : PayloadChunk) (plan : WritePlan) (later : ℕ)
        → Sends w p size s
        → w.unmarshal s ≡ some p
        → chunk_payload w (some p) (pos size) ≡ ok chunks
        → lookup p.sha256 n.reassembler.inflight ≡ none
        → IsValid n.pending
        → Carries arrivals cs
        → codec.unmarshal_chunk frame ≡ some last
        → All (λ c. In c chunks × (c.sequence ≢ last.sequence)) cs
        → In last chunks
        → All (λ c. (c ≡ last) ⊎ In c cs) chunks
        → normalize_write_payload media p ≡ ok plan
        → accepts plan ≡ true
        → later < now + n.pending.ttl
        → let before = handle_all codec media w accepts n arrivals in
          let after = handle_frame codec media w false accepts before.0 now frame in
          (All (λ out. out ≡ incomplete) before.1)
          × (before.0.pending ≡ n.pending)
          × (after.1 ≡ applied p (some plan))
          × (lookup p.sha256 after.0.reassembler.inflight ≡ none)
          × ((watch_value media w plan.bucket later after.0.pending (some plan.content)).1 ≡ none)
    handle_all_applies p size s chunks n arrivals cs now frame last plan later h u cut new valid car
          car_last early own all np acc lt =
        let (outs, kept, reached, gone) =
          whole_arrives p size s chunks n arrivals cs now frame last plan h u cut new car car_last
            early own all np acc in
        (
          outs,
          kept,
          ap (λ r. r.1) reached,
          ap (λ r. lookup p.sha256 r.0.reassembler.inflight) reached ∙ gone,
          ap (λ r. (watch_value media w plan.bucket later r.0.pending (some plan.content)).1)
                reached
              ∙ echo_stops n.pending now later plan valid lt,
        )
