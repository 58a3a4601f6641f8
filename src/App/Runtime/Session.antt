-- ===== src/App/Runtime/Session.antt =====
-- Two machines: what the clipboard loop of one sends, the frame handler of the other applies.
pub mod Lasts
pub mod One
use clippy.Base.{
  ℕ, ◌+◌, ◌<◌, ◌≡◌, ◌≢◌, ◌⊎◌, inl, inr, refl, ap, ap₂, sym, subst, ◌∙◌, Bool, true, false, Option,
  none, some, List, [], ◌∷◌, ◌++◌, map, arith, Result, ok, err, All, All-map, All-zip, All-Any,
  Bool-cases, append-nil, append_assoc, length, if◌then◌else◌,
}
use clippy.Base.Bytes.{Bytes, bytes_beq, bytes_beq_iff, bytes_eq}
use clippy.Base.Int.{pos}
use clippy.Base.Map.{lookup}
use clippy.Clipwire.Types.{ClipboardPayload, PayloadChunk, Wire}
use clippy.Clipwire.Payload.{default_chunk_size}
use clippy.Clipwire.Chunking.{Reassembler, AddResult, chunk_payload, add, add_all}
use clippy.Clipwire.Chunking.Split.{Sends, chunk_payload_split, count_from, join_data}
use clippy.Clipwire.Chunking.Transfer.{add-other}
use clippy.Osclip.Manager.{Media, WritePlan, normalize_write_payload}
use clippy.App.Runtime.{
  ChunkCodec, Node, FrameOutcome, incomplete, invalid_frame, invalid_chunk, apply_failed, applied,
  RuntimeError, broadcast_payload, failure_lines, LoopLine, clipboard_event, broadcast_line,
  handle_frame, handle_all, run_clipboard_loop,
}
use clippy.App.Runtime.Delivery.{Carries, own_transfer, whole_arrives, after_whole}
use clippy.App.Runtime.Sending.{recording, IsFaithful, send_all, send_chunks_recorded}
use clippy.App.Runtime.Session.One.{
  Copy, reports, reports-append, IsIdle, IsGood, handle_all-append, OneDone, one_done,
}

module _ (codec : ChunkCodec) (media : Media) (w : Wire) (accepts : WritePlan → Bool) where
  -- The frames of one payload after another.
  Stream : List Copy → List Bytes → Type 0
  Stream [] frames = frames ≡ []
  Stream (c ∷ cs) frames =
      (chunks : List PayloadChunk) × (own : List Bytes) × (rest : List Bytes) × (chunk_payload w
          (some c.payload) (pos default_chunk_size)
        ≡ ok chunks)
      × (map codec.unmarshal_chunk own ≡ map some chunks)
      × (frames ≡ own ++ rest)
      × Stream cs rest

  -- The outcome that a copy is to have.
  abbrev pub outcome : Copy → FrameOutcome
  outcome c = applied c.payload (some c.plan)

  -- Frames with their times, cut where the frames are.
  record Divided (arrivals : List (ℕ × Bytes)) (own rest : List Bytes) : Type 0 where
    front : List (ℕ × Bytes)
    back : List (ℕ × Bytes)
    same : arrivals ≡ front ++ back
    front_frames : map (λ (a : ℕ × Bytes). a.1) front ≡ own
    back_frames : map (λ (a : ℕ × Bytes). a.1) back ≡ rest

  divide :
      (arrivals : List (ℕ × Bytes)) (own rest : List Bytes)
      → map (λ (a : ℕ × Bytes). a.1) arrivals ≡ own ++ rest
      → Divided arrivals own rest
  divide arrivals [] rest h = record {
    front = [];
    back = arrivals;
    same = refl;
    front_frames = refl;
    back_frames = h;
  }
  divide [] (f ∷ own) rest h = cc
  divide (a ∷ arrivals) (f ∷ own) rest h =
      let r = divide arrivals own rest (ground (arith, h)) in
      record {
        front = a ∷ r.front;
        back = r.back;
        same = ap (λ l. a ∷ l) r.same;
        front_frames = ap₂ (λ x l. x ∷ l) (ground (arith, h)) r.front_frames;
        back_frames = r.back_frames;
      }

  carries :
      (arrivals : List (ℕ × Bytes)) (own : List Bytes) (chunks : List PayloadChunk)
      → map (λ (a : ℕ × Bytes). a.1) arrivals ≡ own
      → map codec.unmarshal_chunk own ≡ map some chunks
      → Carries codec arrivals chunks
  carries [] [] [] h d = tt
  carries [] [] (c ∷ chunks) h d = cc
  carries [] (f ∷ own) chunks h d = cc
  carries (a ∷ arrivals) [] chunks h d = cc
  carries (a ∷ arrivals) (f ∷ own) [] h d = cc
  carries (a ∷ arrivals) (f ∷ own) (c ∷ chunks) h d =
      (ground (arith, h, d), carries arrivals own chunks (ground (arith, h)) (ground (arith, d)))

  handle_copies :
      (copies : List Copy) (n : Node) (frames : List Bytes) (arrivals : List (ℕ × Bytes))
      → All (IsGood codec media w accepts) copies
      → IsIdle n
      → Stream copies frames
      → map (λ (a : ℕ × Bytes). a.1) arrivals ≡ frames
      → (reports (handle_all codec media w accepts n arrivals).1 ≡ map outcome copies)
        × IsIdle (handle_all codec media w accepts n arrivals).0
  unfolding Stream handle_all reports
  handle_copies [] n frames [] good idle s h = (refl, idle)
  handle_copies [] n frames (a ∷ arrivals) good idle s h = cc
  handle_copies (c ∷ cs) n frames arrivals good idle (chunks, own, rest, cut, decoded, same, more)
        h =
      let d = divide arrivals own rest (h ∙ same) in
      let one =
        one_done codec media w accepts n c good.0 idle chunks d.front cut
          (carries d.front own chunks d.front_frames decoded) in
      let (outs, rests) =
        handle_copies cs (handle_all codec media w accepts n d.front).0 rest d.back good.1 one.idle
          more d.back_frames in
      let whole =
        ap (handle_all codec media w accepts n) d.same
        ∙ handle_all-append codec media w accepts n d.front d.back in
      (
        ap (λ (x : Node × List FrameOutcome). reports x.1) whole
            ∙ (reports-append (handle_all codec media w accepts n d.front).1
                  (handle_all codec media w accepts (handle_all codec media w accepts n d.front).0
                    d.back).1
                ∙ ap₂ (λ a b. a ++ b) one.reported outs),
        subst (λ (x : Node × List FrameOutcome). IsIdle x.0) (sym whole) rests,
      )

  module _ {E : Type 0} (is_canceled : E → Bool) (faithful : IsFaithful codec) where
    abbrev looped : List Bytes → List Copy → List Bytes × List (LoopLine E)
    looped sent copies =
        run_clipboard_loop codec media w recording is_canceled sent
          (map (λ c. some c.payload) copies)

    -- The loop appends a stream to what it has sent, and logs one line for each payload.
    loop_streams :
        (copies : List Copy) (sent : List Bytes)
        → All (IsGood codec media w accepts) copies
        → (frames : List Bytes) × ((looped sent copies).0 ≡ sent ++ frames)
          × Stream copies frames
          × ((looped sent copies).1
              ≡ map (λ c. clipboard_event c.payload.type c.payload.size_bytes) copies)
    unfolding Stream run_clipboard_loop failure_lines
    loop_streams [] sent good = ([], sym (append-nil sent), refl, refl)
    loop_streams (c ∷ cs) sent good =
        let (chunks, cut, _, _, _) =
          chunk_payload_split w c.payload default_chunk_size c.encoding good.0.sends in
        let (own, made, decoded) = send_chunks_recorded codec media w E faithful chunks sent in
        let (rest, out, stream, lines) = loop_streams cs (sent ++ own) good.1 in
        let done = send_all codec media w E faithful c.payload chunks sent cut ∙ made in
        (
          own ++ rest,
          ap (λ (b : List Bytes × Option (RuntimeError E)). (looped b.0 cs).0) done
              ∙ (out ∙ append_assoc sent own rest),
          (chunks, own, rest, cut, decoded, refl, stream),
          ap
                (λ (b : List Bytes × Option (RuntimeError E)).
                  clipboard_event c.payload.type c.payload.size_bytes
                  ∷ (failure_lines is_canceled b.1 ++ (looped b.0 cs).1))
                done
              ∙ ap (λ l. clipboard_event c.payload.type c.payload.size_bytes ∷ l) lines,
        )

    -- Two machines whose contexts live, with a codec that brings every chunk back. The first
    -- one's clipboard loop receives well-formed payloads, each with an encoding of 1 to 2^32 - 1
    -- bytes that decodes to it, and its mesh takes every frame; it logs one event for each
    -- payload and no failure. The second one has no open transfer and its clipboard takes the
    -- write that each payload is normalized to; it handles the frames in the order in which they
    -- were sent, at any times. Then what it reports is that each payload was applied with its
    -- write, in their order, and nothing else; and no transfer stays open.
    pub clipboards_agree :
        (copies : List Copy) (n : Node)
        → All (IsGood codec media w accepts) copies
        → IsIdle n
        → let sent =
            run_clipboard_loop codec media w
              (recording {E = E})
              is_canceled
              []
              (map (λ (c : Copy). some c.payload) copies) in
          (sent.1 ≡ map (λ (c : Copy). clipboard_event c.payload.type c.payload.size_bytes) copies)
          × ((arrivals : List (ℕ × Bytes))
              → map (λ (a : ℕ × Bytes). a.1) arrivals ≡ sent.0
              → (reports (handle_all codec media w accepts n arrivals).1 ≡ map outcome copies)
                × IsIdle (handle_all codec media w accepts n arrivals).0)
    clipboards_agree copies n good idle =
        let (frames, out, stream, lines) = loop_streams copies [] good in
        (lines, λ arrivals h. handle_copies copies n frames arrivals good idle stream (h ∙ out))
