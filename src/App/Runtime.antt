-- ===== src/App/Runtime.antt =====
-- internal/app/runtime.go: from a local clipboard event to the frames that the mesh sends, and
-- from a frame that the mesh received to the clipboard. What the methods log is a value here.
pub mod Delivery
pub mod Sending
pub mod Session
use clippy.Base.{
  ℕ, Bool, false, Option, none, some, List, [], ◌∷◌, ◌++◌, ◌==◌, if◌then◌else◌, not, Result, ok,
  err,
}
use clippy.Base.Bytes.{Bytes, bytes_eq}
use clippy.Base.Int.{pos}
use clippy.Base.Map.{lookup, insert}
use clippy.Clipwire.Types.{PayloadType, ClipboardPayload, PayloadChunk, ClipError, Wire}
use clippy.Clipwire.Payload.{default_chunk_size}
use clippy.Clipwire.Chunking.{Reassembler, AddResult, chunk_payload, add}
use clippy.Osclip.Pending.{PendingLedger}
use clippy.Osclip.Manager.{Media, WritePlan, Applied, OsclipError, apply_remote}

-- `proto.Marshal` and `proto.Unmarshal` at a chunk; `none` is their error.
pub record ChunkCodec : Type 0 where
  pub marshal_chunk : PayloadChunk → Option Bytes
  pub unmarshal_chunk : Bytes → Option PayloadChunk

-- What `handleFrame` changes: the reassembler, and the ledger of the clipboard manager.
pub record Node : Type 0 where
  pub reassembler : Reassembler
  pub pending : PendingLedger

-- The ways in which `handleFrame` ends, all of them without an error. `applied` has the payload
-- and what the clipboard manager wrote.
pub data FrameOutcome : Type 0 where
  invalid_frame incomplete : FrameOutcome
  invalid_chunk : ClipError → FrameOutcome
  apply_failed : OsclipError → FrameOutcome
  applied : ClipboardPayload → Option WritePlan → FrameOutcome

pub data RuntimeError (E : Type 0) : Type 0 where
  chunking : ClipError → RuntimeError E
  marshal_failed : RuntimeError E
  broadcast_failed : E → RuntimeError E

-- What `runClipboardLoop` logs.
pub data LoopLine (E : Type 0) : Type 0 where
  clipboard_event : PayloadType → ℕ → LoopLine E
  broadcast_line : RuntimeError E → LoopLine E

-- `errors.Is(err, context.Canceled)`, given which errors of the mesh are that.
abbrev pub is_canceled_error : {E : Type 0} → (E → Bool) → RuntimeError E → Bool
is_canceled_error is_canceled (broadcast_failed e) = is_canceled e
is_canceled_error is_canceled _ = false

unfoldable pub failure_lines :
    {E : Type 0} → (E → Bool) → Option (RuntimeError E) → List (LoopLine E)
failure_lines is_canceled none = []
failure_lines is_canceled (some e) =
    if is_canceled_error is_canceled e then [] else broadcast_line e ∷ []

abbrev pub apply_outcome : ClipboardPayload → Applied → FrameOutcome
apply_outcome p a = elim a.error [ some e ↦ apply_failed e | none ↦ applied p a.written ]

module _ (codec : ChunkCodec) (media : Media) (w : Wire) where
  -- `handleFrame` from the result of `Add` on.
  unfoldable pub receive :
      Bool → (WritePlan → Bool) → ℕ → PendingLedger → Reassembler × AddResult → Node × FrameOutcome
  receive done accepts now pending (r, err e) =
      (record { reassembler = r; pending = pending }, invalid_chunk e)
  receive done accepts now pending (r, ok none) =
      (record { reassembler = r; pending = pending }, incomplete)
  receive done accepts now pending (r, ok (some p)) =
      let a = apply_remote media w done accepts now pending (some p) in
      (record { reassembler = r; pending = a.pending }, apply_outcome p a)

  -- `done` is whether the context has ended, `accepts` whether the clipboard takes a write.
  unfoldable pub handle_frame : Bool → (WritePlan → Bool) → Node → ℕ → Bytes → Node × FrameOutcome
  handle_frame done accepts n now frame = elim (codec.unmarshal_chunk frame) [
    | none ↦ (n, invalid_frame)
    | some chunk ↦ receive done accepts now n.pending (add w n.reassembler (some chunk))
  ]

  -- Frames one after another, each with the reading of the clock, and what becomes of each.
  unfoldable pub handle_all :
      (WritePlan → Bool) → Node → List (ℕ × Bytes) → Node × List FrameOutcome
  handle_all accepts n [] = (n, [])
  handle_all accepts n ((now, frame) ∷ rest) =
      let (n', out) = handle_frame false accepts n now frame in
      let (n'', outs) = handle_all accepts n' rest in (n'', out ∷ outs)

  -- `S` is the state of the mesh, and `broadcast` its method, with its error if it fails.
  module _ {S E : Type 0} (broadcast : S → Bytes → S × Option E) where
    unfoldable pub send_chunks : S → List PayloadChunk → S × Option (RuntimeError E)
    send_chunks mesh [] = (mesh, none)
    send_chunks mesh (chunk ∷ rest) = elim (codec.marshal_chunk chunk) [
      | none ↦ (mesh, some marshal_failed)
      | some frame ↦
          let (mesh', failed) = broadcast mesh frame in
          elim failed [
            | some e ↦ (mesh', some (broadcast_failed e))
            | none ↦ send_chunks mesh' rest
          ]
    ]

    unfoldable pub broadcast_payload : S → Option ClipboardPayload → S × Option (RuntimeError E)
    broadcast_payload mesh payload = elim (chunk_payload w payload (pos default_chunk_size)) [
      | err e ↦ (mesh, some (chunking e))
      | ok chunks ↦ send_chunks mesh chunks
    ]

    -- `runClipboardLoop` on what it receives from the clipboard until the channel is closed or the
    -- context ends; `none` is a nil payload.
    unfoldable pub run_clipboard_loop :
        (E → Bool) → S → List (Option ClipboardPayload) → S × List (LoopLine E)
    run_clipboard_loop is_canceled mesh [] = (mesh, [])
    run_clipboard_loop is_canceled mesh (none ∷ rest) = run_clipboard_loop is_canceled mesh rest
    run_clipboard_loop is_canceled mesh (some p ∷ rest) =
        let (mesh', failed) = broadcast_payload mesh (some p) in
        let (mesh'', lines) = run_clipboard_loop is_canceled mesh' rest in
        (mesh'', clipboard_event p.type p.size_bytes ∷ (failure_lines is_canceled failed ++ lines))
