-- ===== src/Osclip/Tests.antt =====
-- Concrete clipboard contents, run through internal/osclip.
use clippy.Base.{◌≡◌, ◌≢◌, ◌≤◌, refl, true, false, none, some, List, [], ◌∷◌, arith, length}
use clippy.Base.Bytes.{Bytes, codes, bytes_beq}
use clippy.Base.Int.{pos}
use clippy.Clipwire.Types.{text, ClipboardPayload, Wire}
use clippy.Clipwire.Utf8.{valid_utf8}
use clippy.Clipwire.Payload.{
  validate_payload, validate_fields, validate_kind, validate_text, compute_content_sha256,
}
use clippy.Clipwire.Payload.Laws.{IsWellFormed}
use clippy.Osclip.Pending.{text_bucket, PendingLedger, new_pending_ledger, remember}
use clippy.Osclip.Pending.Laws.{as_key}
use clippy.Osclip.Pending.Expected.{expected}
use clippy.Osclip.Pending.Echo.{
  Call, remembers, consumes, injections, suppressions, new-IsValid, suppressions-le-injections,
}
use clippy.Osclip.Pending.Loopback.{run}
use clippy.Osclip.Manager.{
  Media, WritePlan, Applied, fmt_text, write_plan, normalize_kind, normalize_write_payload,
  apply_remote, watch_value,
}
use clippy.Osclip.Manager.{ObservedEvent, process_window}
use clippy.Osclip.Manager.Local.{Tells, process_window_sound}
use clippy.Base.{All}
use clippy.Osclip.Pending.{image_bucket}
use clippy.Osclip.Manager.Remote.{PlanFits, apply_remote_writes, apply_remote_fails, no_echo}

abbrev digest_of : Bytes → Bytes
digest_of s = length s ∷ codes "123456789abcdef0123456789abcdef"

-- A digest that tells the contents below apart by their lengths.
abbrev wire : Wire
wire = record { sum256 = digest_of; marshal = λ p. none; unmarshal = λ s. none }

abbrev media : Media
media = record { transcode = λ s. none; parse_url = λ s. none }

abbrev copied : ClipboardPayload
copied = record {
  timestamp_unix_ms = pos 0;
  type = text;
  sha256 = digest_of (codes "hi");
  data' = codes "hi";
  mime_type = [];
  size_bytes = 2;
}

abbrev hash : Bytes
hash = digest_of (codes "hi")

abbrev elsewhere : Bytes
elsewhere = digest_of (codes "y")

abbrev plan : WritePlan
plan = record { format = fmt_text; bucket = text_bucket; content = codes "hi" }

abbrev ledger : PendingLedger
ledger = new_pending_ledger 10

abbrev taken : Applied
taken = apply_remote media wire false (λ q. true) 100 ledger (some copied)

abbrev rejected : Applied
rejected = apply_remote media wire false (λ q. false) 100 ledger (some copied)

taken_writes : taken.written ≡ some plan
unfolding apply_remote validate_payload validate_fields validate_kind validate_text bytes_beq
    valid_utf8 compute_content_sha256 normalize_write_payload normalize_kind write_plan
taken_writes = refl

rejected_writes_nothing : rejected.written ≡ none
unfolding apply_remote validate_payload validate_fields validate_kind validate_text bytes_beq
    valid_utf8 compute_content_sha256 normalize_write_payload normalize_kind write_plan
rejected_writes_nothing = refl

writes_example :
    IsWellFormed wire copied
    × PlanFits media copied plan
    × ((λ (q : WritePlan). true) plan ≡ true)
    × (taken.error ≡ none)
    × (taken.pending ≡ remember ledger text_bucket (compute_content_sha256 wire (codes "hi")) 100)
writes_example = apply_remote_writes media wire (λ q. true) 100 ledger copied plan taken_writes

fails_example :
    (rejected.error ≢ none)
    × (expected rejected.pending (as_key text_bucket hash) 100
        ≡ expected ledger (as_key text_bucket hash) 100)
fails_example =
    apply_remote_fails media wire (λ q. false) 100 ledger copied (as_key text_bucket hash)
      (new-IsValid 10) (unfold new_pending_ledger in omega arith) rejected_writes_nothing

is_elsewhere : as_key text_bucket elsewhere ≢ as_key text_bucket hash
is_elsewhere h = cc

is_different :
    as_key text_bucket elsewhere ≢ as_key text_bucket (compute_content_sha256 wire (codes "hi"))
unfolding compute_content_sha256
is_different = is_elsewhere

-- What else the ledger sees between the write and its echo.
abbrev meanwhile : List Call
meanwhile = remembers text_bucket elsewhere 101 ∷ consumes text_bucket elsewhere 102 ∷ []

no_echo_example :
    (watch_value media wire text_bucket 105 (run taken.pending meanwhile) (some (codes "hi"))).1
    ≡ none
no_echo_example =
    no_echo media wire (λ q. true) 100 ledger copied plan 105 meanwhile (new-IsValid 10)
      taken_writes
      (
        (is_different, unfold new_pending_ledger in omega arith),
        ((is_different, unfold new_pending_ledger in omega arith), tt),
      )
      (unfold new_pending_ledger in omega arith)

balance_example :
    suppressions (as_key text_bucket hash) (new_pending_ledger 10) meanwhile
    ≤ injections (as_key text_bucket hash) meanwhile
balance_example = suppressions-le-injections 10 (as_key text_bucket hash) meanwhile

abbrev event : Bytes → ObservedEvent
event content = record { bucket = text_bucket; content = content }

abbrev picture : ObservedEvent
picture = record { bucket = image_bucket; content = 137 ∷ [] }

sound_example :
    let sent =
      process_window media wire
        (pos 1)
        (pos 2)
        (event (codes "a"))
        (picture ∷ event (codes "b") ∷ []) in
    (length sent ≤ 2)
    × All
        (λ p.
          IsWellFormed wire p
          × Tells media wire (event (codes "a") ∷ picture ∷ event (codes "b") ∷ []) p)
        sent
sound_example =
    process_window_sound media wire (pos 1) (pos 2) (event (codes "a"))
      (picture ∷ event (codes "b") ∷ [])
