-- ===== src/App/Runtime/Sending.antt =====
-- What `broadcastPayload` hands to the mesh.
use clippy.Base.{
  ◌≡◌, refl, ap, sym, ◌∙◌, Option, none, some, List, [], ◌∷◌, ◌++◌, map, ok, append-nil,
  append_assoc,
}
use clippy.Base.Bytes.{Bytes}
use clippy.Base.Int.{pos}
use clippy.Clipwire.Types.{ClipboardPayload, PayloadChunk, Wire}
use clippy.Clipwire.Payload.{default_chunk_size}
use clippy.Clipwire.Chunking.{chunk_payload}
use clippy.Clipwire.Chunking.Split.{Sends, chunk_payload_split}
use clippy.Osclip.Manager.{Media}
use clippy.App.Runtime.{ChunkCodec, send_chunks, broadcast_payload}

-- A mesh that takes every frame: its state is the frames so far.
abbrev pub recording : {E : Type 0} → List Bytes → Bytes → List Bytes × Option E
recording sent frame = (sent ++ frame ∷ [], none)

-- Every chunk marshals to a frame that unmarshals to it.
abbrev pub IsFaithful : ChunkCodec → Type 0
IsFaithful codec =
    (c : PayloadChunk)
    → (frame : Bytes) × (codec.marshal_chunk c ≡ some frame)
      × (codec.unmarshal_chunk frame ≡ some c)

module _ (codec : ChunkCodec) (media : Media) (w : Wire) (E : Type 0)
    (faithful : IsFaithful codec) where
  send_next :
      (c : PayloadChunk) (cs : List PayloadChunk) (sent : List Bytes) (frame : Bytes)
      → codec.marshal_chunk c ≡ some frame
      → send_chunks codec media w (recording {E = E}) sent (c ∷ cs)
        ≡ send_chunks codec media w (recording {E = E}) (sent ++ frame ∷ []) cs
  send_next c cs sent frame h = unfold send_chunks in rw (h, send_chunks)

  pub send_all :
      (p : ClipboardPayload) (chunks : List PayloadChunk) (sent : List Bytes)
      → chunk_payload w (some p) (pos default_chunk_size) ≡ ok chunks
      → broadcast_payload codec media w (recording {E = E}) sent (some p)
        ≡ send_chunks codec media w (recording {E = E}) sent chunks
  send_all p chunks sent h = unfold broadcast_payload in rw (h, broadcast_payload)

  pub send_chunks_recorded :
      (chunks : List PayloadChunk) (sent : List Bytes)
      → (frames : List Bytes) × (send_chunks codec media w (recording {E = E}) sent chunks
          ≡ (sent ++ frames, none))
        × (map codec.unmarshal_chunk frames ≡ map some chunks)
  unfolding send_chunks
  send_chunks_recorded [] sent = ([], ap (λ l. (l, none)) (sym (append-nil sent)), refl)
  send_chunks_recorded (c ∷ cs) sent =
      let (frame, marshals, back) = faithful c in
      let (frames, done, decoded) = send_chunks_recorded cs (sent ++ frame ∷ []) in
      (
        frame ∷ frames,
        send_next c cs sent frame marshals
            ∙ (done ∙ ap (λ l. (l, none)) (append_assoc sent (frame ∷ []) frames)),
        rw (back, decoded),
      )

  -- For a well-formed payload whose encoding has 1 to 2^32 - 1 bytes, and a codec that brings
  -- every chunk back, `broadcastPayload` hands a mesh that takes every frame one frame for each
  -- chunk that `ChunkPayload` makes with the default chunk size, in their order, and succeeds.
  broadcast_payload_frames :
      (p : ClipboardPayload) (s : Bytes)
      → Sends w p default_chunk_size s
      → (chunks : List PayloadChunk) × (frames : List Bytes) × (chunk_payload w
            (some p)
            (pos default_chunk_size)
          ≡ ok chunks)
        × (broadcast_payload codec media w (recording {E = E}) [] (some p) ≡ (frames, none))
        × (map codec.unmarshal_chunk frames ≡ map some chunks)
  broadcast_payload_frames p s h =
      let (chunks, cut, _, _, _) = chunk_payload_split w p default_chunk_size s h in
      let (frames, sent, decoded) = send_chunks_recorded chunks [] in
      (chunks, frames, cut, send_all p chunks [] cut ∙ sent, decoded)
