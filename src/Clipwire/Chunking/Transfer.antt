-- ===== src/Clipwire/Chunking/Transfer.antt =====
-- A chunk of one transfer never touches another.
use clippy.Base.{◌≡◌, sym, subst, ◌∙◌, ◌≢◌, inl, inr, some, nat_eq}
use clippy.Base.Bytes.{Bytes, bytes_eq}
use clippy.Base.Map.{lookup, lookup-insert_ne, lookup-remove_ne}
use clippy.Clipwire.Types.{PayloadChunk, Wire}
use clippy.Clipwire.Chunking.{ReassemblyState, Reassembler, AddResult, put_state, drop_state, add}
use clippy.Clipwire.Chunking.Cases.{
  Finished, partial, wrong_size, gap, joined, Added, mismatch, duplicate, conflict, recorded,
  add_chunk-Added, add_refused, add_accepted, validate_cases,
}

module _ (r : Reassembler) (key : Bytes) (st : ReassemblyState) {id : Bytes} (ne : key ≢ id) where
  put_other : lookup id (put_state r key st).inflight ≡ lookup id r.inflight
  unfolding put_state
  put_other = lookup-insert_ne key id st r.inflight ne

  drop_other : lookup id (drop_state (put_state r key st) key).inflight ≡ lookup id r.inflight
  unfolding drop_state
  drop_other = lookup-remove_ne key id (put_state r key st).inflight ne ∙ put_other

-- A chunk of another transfer leaves the state of this one alone.
module _ (w : Wire) (id : Bytes) where
  Finished-other :
      (r : Reassembler) (key : Bytes) (st : ReassemblyState) (res : Reassembler × AddResult)
      → key ≢ id
      → Finished w r key st res
      → lookup id res.0.inflight ≡ lookup id r.inflight
  Finished-other r key st res ne (partial _ e) =
      subst (λ q. lookup id q.0.inflight ≡ lookup id r.inflight) (sym e) (put_other r key st ne)
  Finished-other r key st res ne (wrong_size _ _ e) =
      subst (λ q. lookup id q.0.inflight ≡ lookup id r.inflight) (sym e) (drop_other r key st ne)
  Finished-other r key st res ne (gap _ _ e) =
      subst (λ q. lookup id q.0.inflight ≡ lookup id r.inflight) (sym e) (put_other r key st ne)
  Finished-other r key st res ne (joined _ _ _ _ e) =
      subst (λ q. lookup id q.0.inflight ≡ lookup id r.inflight) (sym e) (drop_other r key st ne)

  Added-other :
      (r : Reassembler) (c : PayloadChunk) (res : Reassembler × AddResult)
      → c.transfer_id ≢ id
      → Added w r c res
      → lookup id res.0.inflight ≡ lookup id r.inflight
  Added-other r c res ne (mismatch _ e) = rw e
  Added-other r c res ne (duplicate _ _ e) =
      subst (λ q. lookup id q.0.inflight ≡ lookup id r.inflight) (sym e) (put_other r _ _ ne)
  Added-other r c res ne (conflict _ _ _ _ e) =
      subst (λ q. lookup id q.0.inflight ≡ lookup id r.inflight) (sym e) (put_other r _ _ ne)
  Added-other r c res ne (recorded _ _ _ f) = Finished-other r c.transfer_id _ res ne f

  -- Whatever `Add` is given for one transfer id, valid or not, what it keeps for any other
  -- id stays as it was.
  pub add-other :
      (r : Reassembler) (c : PayloadChunk)
      → c.transfer_id ≢ id
      → lookup id (add w r (some c)).0.inflight ≡ lookup id r.inflight
  add-other r c ne = elim (validate_cases w c) [
    | inl h ↦ rw (add_accepted w r c h) (Added-other r c _ ne (add_chunk-Added w r c))
    | inr (e, h) ↦ rw (add_refused w r c e h)
  ]
