-- ===== src/Clipwire/Tests.antt =====
-- Concrete payloads and chunks, run through internal/clipwire.
use clippy.Base.{
  ℕ, ◌≡◌, ◌≢◌, refl, inl, inr, none, some, List, [], ◌∷◌, map, arith, ok, err, length, All, ◌↔◌,
}
use clippy.Base.Bytes.{Bytes, codes, bytes_beq, bytes_eq}
use clippy.Base.Int.{pos, wrap_int64}
use clippy.Base.Map.{lookup, insert, remove}
use clippy.Clipwire.Types.{
  text, ClipboardPayload, PayloadChunk, chunk_metadata_mismatch, conflicting_chunk, Wire,
}
use clippy.Clipwire.Utf8.{valid_utf8}
use clippy.Clipwire.Payload.{
  validate_payload, compute_content_sha256, validate_fields, validate_kind, validate_text,
  allowed_image_mime, validate_chunk_size, copy_bytes,
}
use clippy.Clipwire.Payload.Laws.{IsWellFormed, validate_payload_iff}
use clippy.Clipwire.Chunking.{
  new_reassembler, chunk_payload, chunk_at, chunks_from, add, add_all, validate_chunk_fields,
  add_chunk, find_state, finish, record_chunk, assemble, decode_transfer, drop_state, put_state,
  total_chunk_count, min, validate_chunk,
}
use clippy.Clipwire.Chunking.Invariant.{IsValid, add_all-IsValid}
use clippy.Clipwire.Chunking.Split.{
  IsSound, Sends, ceil_div, join_data, count_from, chunk_payload_split,
}
use clippy.Clipwire.Chunking.Transfer.{add-other}
use clippy.Clipwire.Chunking.Gather.{Quiet}
use clippy.Clipwire.Chunking.Delivery.{delivers}
use clippy.Clipwire.Chunking.Safety.{add_emits}
use clippy.Clipwire.Chunking.Overflow.{chunk_payload_overflow}

abbrev digest : Bytes
digest = 0 ∷ codes "123456789abcdef0123456789abcdef"

abbrev other_id : Bytes
other_id = 1 ∷ codes "123456789abcdef0123456789abcdef"

abbrev payload_of : Bytes → ClipboardPayload
payload_of s = record {
  timestamp_unix_ms = pos 0;
  type = text;
  sha256 = digest;
  data' = s;
  mime_type = [];
  size_bytes = length s;
}

-- A digest that is the same for all data, and a codec that keeps the data only.
abbrev wire : Wire
wire = record {
  sum256 = λ s. digest;
  marshal = λ p. some p.data';
  unmarshal = λ s. some (payload_of s);
}

abbrev hello : ClipboardPayload
hello = payload_of (codes "hello")

abbrev chunk : ℕ → Bytes → PayloadChunk
chunk i part = record {
  transfer_id = digest;
  sequence = i;
  total_chunks = 3;
  total_size = 5;
  data' = part;
}

abbrev first : PayloadChunk
first = chunk 0 (codes "he")

abbrev second : PayloadChunk
second = chunk 1 (codes "ll")

abbrev third : PayloadChunk
third = chunk 2 (codes "o")

abbrev foreign : PayloadChunk
foreign = record second { transfer_id = other_id }

abbrev hello_chunks : List PayloadChunk
hello_chunks = first ∷ second ∷ third ∷ []

abbrev arrivals : List PayloadChunk
arrivals = second ∷ foreign ∷ second ∷ first ∷ []

hello_chunks_are : chunk_payload wire (some hello) (pos 2) ≡ ok hello_chunks
unfolding chunk_payload validate_payload validate_fields validate_kind validate_text bytes_beq
    valid_utf8 compute_content_sha256 validate_chunk_size total_chunk_count wrap_int64 chunks_from
    chunk_at copy_bytes min
hello_chunks_are = refl

is_foreign : other_id ≢ digest
is_foreign h = cc

hello-IsWellFormed : IsWellFormed wire hello
unfolding valid_utf8 compute_content_sha256
hello-IsWellFormed = record {
  kind_fits = (refl, refl);
  small = omega arith;
  digest_length = refl;
  digest = refl;
  sized = refl;
}

hello-Sends : Sends wire hello 2 (codes "hello")
hello-Sends = record {
  well_formed = hello-IsWellFormed;
  marshals = refl;
  some_bytes = omega arith;
  few_bytes = omega arith;
  size_pos = omega arith;
  size_small = omega arith;
}

no_transfer : lookup digest new_reassembler.inflight ≡ none
unfolding new_reassembler lookup
no_transfer = refl

delivers_example :
    Quiet digest arrivals (add_all wire new_reassembler arrivals).1
    × ((add wire (add_all wire new_reassembler arrivals).0 (some third)).1 ≡ ok (some hello))
    × (lookup digest (add wire (add_all wire new_reassembler arrivals).0 (some third)).0.inflight
        ≡ none)
delivers_example =
    delivers wire hello 2 (codes "hello") hello_chunks new_reassembler arrivals third hello-Sends
      refl hello_chunks_are no_transfer
      (
        inl (inr (inl refl), λ e. cc),
        (inr is_foreign, (inl (inr (inl refl), λ e. cc), (inl (inl refl, λ e. cc), tt))),
      )
      (inr (inr (inl refl))) (inr (inr (inr (inr (inl refl)))), (inr (inl refl), (inl refl, tt)))

run-IsValid_example : IsValid (add_all wire new_reassembler arrivals).0
run-IsValid_example =
    add_all-IsValid wire arrivals (omega arith, (omega arith, (omega arith, (omega arith, tt))))

abbrev whole : PayloadChunk
whole = record {
  transfer_id = digest;
  sequence = 0;
  total_chunks = 1;
  total_size = 5;
  data' = codes "hello";
}

-- A payload in one chunk is complete at once.
whole_is_enough : (add wire new_reassembler (some whole)).1 ≡ ok (some hello)
unfolding add add_all validate_chunk validate_chunk_fields add_chunk find_state lookup
    new_reassembler finish record_chunk insert copy_bytes assemble decode_transfer validate_payload
    validate_fields validate_kind validate_text bytes_beq remove drop_state put_state
    allowed_image_mime compute_content_sha256 valid_utf8
whole_is_enough = refl

-- Other bytes under a sequence number, or another count, are errors that keep what is there: the
-- transfer still completes.
errors_do_no_harm :
    (add_all wire new_reassembler
      (first ∷ chunk 0 (codes "xx") ∷ record second { total_chunks = 4 } ∷ third ∷ second ∷ [])).1
    ≡ ok none ∷ err conflicting_chunk ∷ err chunk_metadata_mismatch ∷ ok none ∷ ok (some hello) ∷ []
unfolding add add_all validate_chunk validate_chunk_fields add_chunk find_state lookup
    new_reassembler finish record_chunk insert copy_bytes assemble decode_transfer validate_payload
    validate_fields validate_kind validate_text bytes_beq remove drop_state put_state
    allowed_image_mime compute_content_sha256 valid_utf8
errors_do_no_harm = refl

emits_example :
    IsWellFormed wire hello
    × (hello.sha256 ≡ whole.transfer_id)
    × (lookup digest (add wire new_reassembler (some whole)).0.inflight ≡ none)
emits_example = add_emits wire new_reassembler whole hello whole_is_enough

add-other_example :
    lookup digest (add wire (add_all wire new_reassembler arrivals).0 (some foreign)).0.inflight
    ≡ lookup digest (add_all wire new_reassembler arrivals).0.inflight
add-other_example =
    add-other wire digest (add_all wire new_reassembler arrivals).0 foreign is_foreign

split_example :
    (chunks : List PayloadChunk) × (chunk_payload wire (some hello) (pos 2) ≡ ok chunks)
    × (join_data chunks ≡ codes "hello")
    × (map (λ c. c.sequence) chunks ≡ count_from (ceil_div (length (codes "hello")) 2) 0)
    × All (IsSound digest 2) chunks
split_example = chunk_payload_split wire hello 2 (codes "hello") hello-Sends

validate_example : (validate_payload wire (some hello) ≡ ok tt) ↔ IsWellFormed wire hello
validate_example = validate_payload_iff wire hello

overflow_example : chunk_payload wire (some hello) (pos 9223372036854775807) ≡ ok []
overflow_example =
    chunk_payload_overflow wire hello 9223372036854775807 (codes "hello") hello-IsWellFormed refl
      (omega arith) (omega arith) (omega arith)
