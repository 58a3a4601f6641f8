-- ===== src/App/Tests.antt =====
-- A text that is copied on one machine and written on another.
use clippy.Base.{
  ℕ, ◌+◌, ◌<◌, ◌≡◌, inl, inr, refl, ap, true, none, some, List, [], ◌∷◌, ◌++◌, map, arith, ok,
  false, length, take, drop, All, Option, Bool,
}
use clippy.Base.Bytes.{Bytes, codes, bytes_beq, bytes_eq}
use clippy.Base.Int.{pos, wrap_int64, int64_half}
use clippy.Base.Map.{lookup}
use clippy.Clipwire.Types.{text, ClipboardPayload, PayloadChunk, Wire}
use clippy.Clipwire.Utf8.{valid_utf8}
use clippy.Clipwire.Payload.{
  default_chunk_size, validate_payload, validate_fields, validate_kind, validate_text,
  validate_chunk_size, copy_bytes, compute_content_sha256,
}
use clippy.Clipwire.Payload.Laws.{IsWellFormed}
use clippy.Clipwire.Chunking.{
  new_reassembler, chunk_payload, total_chunk_count, chunks_from, chunk_at, min,
}
use clippy.Clipwire.Chunking.Split.{Sends}
use clippy.Osclip.Pending.{text_bucket, new_pending_ledger}
use clippy.Osclip.Pending.Echo.{new-IsValid}
use clippy.Osclip.Manager.{
  Media, WritePlan, fmt_text, normalize_kind, normalize_write_payload, watch_value,
}
use clippy.App.Runtime.{
  clipboard_event, run_clipboard_loop, ChunkCodec, Node, incomplete, applied, handle_frame,
  handle_all,
}
use clippy.App.Runtime.Delivery.{handle_all_applies}
use clippy.App.Runtime.Session.{clipboards_agree}
use clippy.App.Runtime.Session.One.{Copy, IsGood, IsIdle, reports}
use clippy.App.Runtime.Sending.{recording, IsFaithful}

abbrev digest : Bytes
digest = 0 ∷ codes "123456789abcdef0123456789abcdef"

abbrev payload_of : Bytes → ClipboardPayload
payload_of s = record {
  timestamp_unix_ms = pos 0;
  type = text;
  sha256 = digest;
  data' = s;
  mime_type = [];
  size_bytes = length s;
}

abbrev wire : Wire
wire = record {
  sum256 = λ s. digest;
  marshal = λ p. some p.data';
  unmarshal = λ s. some (payload_of s);
}

abbrev media : Media
media = record { transcode = λ s. none; parse_url = λ s. none }

-- A frame is the three numbers, the length of the transfer id, the id and the data.
abbrev encode : PayloadChunk → Bytes
encode c =
    c.sequence ∷ c.total_chunks ∷ c.total_size ∷ length c.transfer_id ∷ (c.transfer_id ++ c.data')

abbrev decode : Bytes → Option PayloadChunk
decode (sequence ∷ total_chunks ∷ total_size ∷ n ∷ rest) = some (record {
  transfer_id = take n rest;
  sequence = sequence;
  total_chunks = total_chunks;
  total_size = total_size;
  data' = drop n rest;
})
decode _ = none

abbrev codec : ChunkCodec
codec = record { marshal_chunk = λ c. some (encode c); unmarshal_chunk = decode }

take-length : (a b : Bytes) → take (length a) (a ++ b) ≡ a
take-length [] b = refl
take-length (x ∷ xs) b = ap (λ (l : Bytes). x ∷ l) (take-length xs b)

drop-length : (a b : Bytes) → drop (length a) (a ++ b) ≡ b
drop-length [] b = refl
drop-length (x ∷ xs) b = drop-length xs b

codec-IsFaithful : IsFaithful codec
codec-IsFaithful c =
    (encode c, refl, rw (take-length c.transfer_id c.data', drop-length c.transfer_id c.data'))

abbrev hello : ClipboardPayload
hello = payload_of (codes "hello")

hello-IsWellFormed : IsWellFormed wire hello
unfolding valid_utf8 compute_content_sha256
hello-IsWellFormed = record {
  kind_fits = (refl, refl);
  small = omega arith;
  digest_length = refl;
  digest = refl;
  sized = refl;
}

hello-Sends : (size : ℕ) → 0 < size → 5 + size < int64_half → Sends wire hello size (codes "hello")
hello-Sends size p small = record {
  well_formed = hello-IsWellFormed;
  marshals = refl;
  some_bytes = omega arith;
  few_bytes = omega arith;
  size_pos = p;
  size_small = omega (arith, small);
}

abbrev chunk : ℕ → Bytes → PayloadChunk
chunk i part = record {
  transfer_id = digest;
  sequence = i;
  total_chunks = 3;
  total_size = 5;
  data' = part;
}

abbrev first : PayloadChunk
first = chunk 0 (codes "he")

abbrev second : PayloadChunk
second = chunk 1 (codes "ll")

abbrev third : PayloadChunk
third = chunk 2 (codes "o")

hello_chunks_are : chunk_payload wire (some hello) (pos 2) ≡ ok (first ∷ second ∷ third ∷ [])
unfolding chunk_payload validate_payload validate_fields validate_kind validate_text bytes_beq
    valid_utf8 compute_content_sha256 validate_chunk_size total_chunk_count wrap_int64 chunks_from
    chunk_at copy_bytes min
hello_chunks_are = refl

abbrev node : Node
node = record { reassembler = new_reassembler; pending = new_pending_ledger 10 }

abbrev arrivals : List (ℕ × Bytes)
arrivals = (100, encode third) ∷ (101, encode first) ∷ (102, encode third) ∷ []

abbrev plan : WritePlan
plan = record { format = fmt_text; bucket = text_bucket; content = codes "hello" }

no_transfer : lookup digest node.reassembler.inflight ≡ none
unfolding new_reassembler lookup
no_transfer = refl

hello-plan : normalize_write_payload media hello ≡ ok plan
unfolding normalize_write_payload normalize_kind
hello-plan = refl

applies_example :
    let before = handle_all codec media wire (λ q. true) node arrivals in
    let after = handle_frame codec media wire false (λ q. true) before.0 103 (encode second) in
    (All (λ out. out ≡ incomplete) before.1)
    × (before.0.pending ≡ node.pending)
    × (after.1 ≡ applied hello (some plan))
    × (lookup digest after.0.reassembler.inflight ≡ none)
    × ((watch_value media wire text_bucket 105 after.0.pending (some (codes "hello"))).1 ≡ none)
applies_example =
    handle_all_applies codec media wire (λ q. true) hello 2 (codes "hello")
      (first ∷ second ∷ third ∷ []) node arrivals (third ∷ first ∷ third ∷ []) 103 (encode second)
      second plan 105 (hello-Sends 2 (omega arith) (omega arith)) refl hello_chunks_are no_transfer
      (new-IsValid 10) (refl, (refl, (refl, tt))) refl
      (
        (inr (inr (inl refl)), λ e. cc),
        ((inl refl, λ e. cc), ((inr (inr (inl refl)), λ e. cc), tt)),
      )
      (inr (inl refl)) (inr (inr (inl refl)), (inl refl, (inr (inl refl), tt))) hello-plan refl
      (unfold new_pending_ledger in omega arith)

abbrev copy : Copy
copy = record { payload = hello; encoding = codes "hello"; plan = plan }

copy-IsGood : IsGood codec media wire (λ q. true) copy
copy-IsGood = record {
  sends = hello-Sends default_chunk_size (omega arith) (omega arith);
  decodes = refl;
  planned = hello-plan;
  accepted = refl;
}

node-IsIdle : IsIdle node
unfolding new_reassembler lookup
node-IsIdle id = refl

-- The same text, copied twice.
agree_example :
    let sent =
      run_clipboard_loop codec media wire
        (recording {E = Bool})
        (λ e. e)
        []
        (map (λ (c : Copy). some c.payload) (copy ∷ copy ∷ [])) in
    (sent.1
      ≡ map (λ (c : Copy). clipboard_event c.payload.type c.payload.size_bytes) (copy ∷ copy ∷ []))
    × ((times : List (ℕ × Bytes))
        → map (λ (a : ℕ × Bytes). a.1) times ≡ sent.0
        → (reports (handle_all codec media wire (λ q. true) node times).1
            ≡ map (λ (c : Copy). applied c.payload (some c.plan)) (copy ∷ copy ∷ []))
          × IsIdle (handle_all codec media wire (λ q. true) node times).0)
agree_example =
    clipboards_agree codec media wire (λ q. true) (λ e. e) codec-IsFaithful (copy ∷ copy ∷ []) node
      (copy-IsGood, (copy-IsGood, tt)) node-IsIdle
