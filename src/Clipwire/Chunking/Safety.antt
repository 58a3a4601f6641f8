-- ===== src/Clipwire/Chunking/Safety.antt =====
-- What a result of `Add` guarantees, and what an error leaves behind.
use clippy.Base.{◌≡◌, ap, sym, subst, inl, inr, true, none, some, arith, ok}
use clippy.Base.Bytes.{Bytes, bytes_eq, bytes_beq, bytes_beq_iff}
use clippy.Base.Map.{lookup, lookup-remove_self}
use clippy.Clipwire.Types.{ClipboardPayload, PayloadChunk, Wire}
use clippy.Clipwire.Payload.{validate_payload}
use clippy.Clipwire.Payload.Laws.{IsWellFormed, validate_payload_iff}
use clippy.Clipwire.Chunking.{
  Reassembler, ReassemblyState, AddResult, put_state, drop_state, decode_transfer, add,
}
use clippy.Clipwire.Chunking.Cases.{
  Finished, partial, wrong_size, gap, joined, Added, mismatch, duplicate, conflict, recorded,
  add_chunk-Added, add_refused, add_accepted, validate_cases,
}

module _ (w : Wire) where
  decode_sound :
      (key s : Bytes) (p : ClipboardPayload)
      → decode_transfer w key s ≡ ok (some p)
      → IsWellFormed w p × (p.sha256 ≡ key) × (w.unmarshal s ≡ some p)
  unfolding decode_transfer
  decode_sound key s p h =
      let u : w.unmarshal s ≡ some p = ground arith in
      let v : validate_payload w (some p) ≡ ok tt = ground arith in
      let same : bytes_beq p.sha256 key ≡ true = ground arith in
      ((validate_payload_iff w p).0 v, (bytes_beq_iff p.sha256 key).0 same, u)

  abbrev Emits : Bytes → ClipboardPayload → Reassembler × AddResult → Type 0
  Emits key p res =
      res.1 ≡ ok (some p) → IsWellFormed w p × (p.sha256 ≡ key) × (lookup key res.0.inflight ≡ none)

  Finished-Emits :
      (r : Reassembler) (key : Bytes) (st : ReassemblyState) (p : ClipboardPayload)
      (res : Reassembler × AddResult)
      → Finished w r key st res
      → Emits key p res
  Finished-Emits r key st p res (partial _ e) h = cc
  Finished-Emits r key st p res (wrong_size _ _ e) h = cc
  Finished-Emits r key st p res (gap _ _ e) h = cc
  Finished-Emits r key st p res (joined s _ _ _ e) h =
      let (v, same, _) = decode_sound key s p (cc (ap (λ q. q.1) e)) in
      (v, same, subst (λ q. lookup key q.0.inflight ≡ none) (sym e) dropped)
    where
      dropped : lookup key (drop_state (put_state r key st) key).inflight ≡ none
      dropped = unfold drop_state in lookup-remove_self key (put_state r key st).inflight

  Added-Emits :
      (r : Reassembler) (c : PayloadChunk) (p : ClipboardPayload) (res : Reassembler × AddResult)
      → Added w r c res
      → Emits c.transfer_id p res
  Added-Emits r c p res (mismatch _ e) h = cc
  Added-Emits r c p res (duplicate _ _ e) h = cc
  Added-Emits r c p res (conflict _ _ _ _ e) h = cc
  Added-Emits r c p res (recorded _ _ _ f) h = Finished-Emits r c.transfer_id _ p res f h

  -- A payload that `Add` returns, whatever chunks came before, is well formed, so its hash is the
  -- digest of its data; that hash is the transfer id of the chunk; and nothing of the transfer
  -- stays in flight.
  pub add_emits :
      (r : Reassembler) (c : PayloadChunk) (p : ClipboardPayload)
      → (add w r (some c)).1 ≡ ok (some p)
      → IsWellFormed w p
        × (p.sha256 ≡ c.transfer_id)
        × (lookup c.transfer_id (add w r (some c)).0.inflight ≡ none)
  add_emits r c p = elim (validate_cases w c) [
    | inl h ↦
        subst (Emits c.transfer_id p) (sym (add_accepted w r c h))
          (Added-Emits r c p _ (add_chunk-Added w r c))
    | inr (e, h) ↦ subst (Emits c.transfer_id p) (sym (add_refused w r c e h)) (λ q. cc)
  ]
