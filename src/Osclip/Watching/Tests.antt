-- ===== src/Osclip/Watching/Tests.antt =====
-- One copied text on its way through a manager of internal/osclip.
use clippy.Base.{◌≡◌, ◌<◌, refl, true, false, none, some, List, [], ◌∷◌, ◌++◌, length, arith}
use clippy.Base.Bytes.{Bytes, codes, bytes_beq}
use clippy.Base.Int.{pos}
use clippy.Base.Text.{trim_space}
use clippy.Base.Map.{lookup, keep_if}
use clippy.Clipwire.Types.{text, ClipboardPayload, Wire}
use clippy.Clipwire.Utf8.{valid_utf8}
use clippy.Clipwire.Payload.{
  validate_payload, validate_fields, validate_kind, validate_text, compute_content_sha256,
  new_payload, build_payload,
}
use clippy.Osclip.Pending.{
  text_bucket, image_bucket, bucket_beq, new_pending_ledger, consume, prune_locked,
}
use clippy.Osclip.Manager.{
  Media, ObservedEvent, bucket_eq, watch_value, emit_text, emit_image, build_text_payload,
  classify_text_payload,
}
use clippy.Osclip.Watching.{
  Batch, listening, holding, idle, collecting, texting, imaging, emitting_text, Clipboard,
  new_manager_with_backend, set, start, Label, silent, sees, passes, Step, starts, watcher_sees,
  watcher_passes, opens, timer_fires, text_built, text_sent, image_skipped, Run, fresh, next,
}
use clippy.Osclip.Watching.Channels.{IsConsistent, Run-IsConsistent}
use clippy.Osclip.Watching.Windows.{passed, delivered, Windows, Cut}
use clippy.Osclip.Watching.Sound.{Run-Windows}
use clippy.Osclip.Watching.Kept.{seen, of_bucket, Held, Run-Held}
use clippy.Osclip.Watching.Stopping.{Silently, IsOver, can_stop}

abbrev digest_of : Bytes → Bytes
digest_of s = length s ∷ codes "123456789abcdef0123456789abcdef"

abbrev wire : Wire
wire = record { sum256 = digest_of; marshal = λ p. none; unmarshal = λ s. none }

abbrev media : Media
media = record { transcode = λ s. none; parse_url = λ s. none }

abbrev copied : ObservedEvent
copied = record { bucket = text_bucket; content = codes "hi" }

abbrev payload : ClipboardPayload
payload = record {
  timestamp_unix_ms = pos 9;
  type = text;
  sha256 = digest_of (codes "hi");
  data' = codes "hi";
  mime_type = [];
  size_bytes = 2;
}

abbrev batch : Batch
batch = (text_bucket, copied) ∷ []

abbrev fresh_manager : Clipboard
fresh_manager = new_manager_with_backend (pos 0)

abbrev launched : Clipboard
launched = start fresh_manager

abbrev saw : Clipboard
saw = record launched {
  pending = (watch_value media wire text_bucket 7 launched.pending (some (codes "hi"))).0;
  watchers = set text_bucket (holding copied) launched.watchers;
}

abbrev queued : Clipboard
queued = record saw {
  observed = saw.observed ++ copied ∷ [];
  watchers = set text_bucket listening saw.watchers;
}

abbrev opened : Clipboard
opened = record queued { observed = []; processor = collecting batch }

abbrev fired : Clipboard
fired = record opened { processor = texting batch }

abbrev built : Clipboard
built = record fired { processor = emitting_text payload batch }

abbrev sent : Clipboard
sent = record built { events = built.events ++ payload ∷ []; processor = imaging batch }

abbrev rested : Clipboard
rested = record sent { processor = idle }

abbrev shown : List Label
shown = silent ∷ sees copied ∷ passes copied ∷ silent ∷ silent ∷ silent ∷ silent ∷ silent ∷ []

launched_started : launched.started ≡ true
unfolding start new_manager_with_backend
launched_started = refl

local : (watch_value media wire text_bucket 7 launched.pending (some (codes "hi"))).1 ≡ some copied
unfolding watch_value consume start new_manager_with_backend new_pending_ledger prune_locked lookup
    keep_if
local = refl

makes_payload : emit_text media wire (pos 9) (lookup text_bucket batch) ≡ payload ∷ []
unfolding emit_text build_text_payload new_payload build_payload classify_text_payload lookup
    bucket_beq bytes_beq trim_space validate_payload validate_fields validate_kind validate_text
    valid_utf8 compute_content_sha256
makes_payload = refl

no_image : emit_image media wire (pos 9) (lookup image_bucket batch) ≡ []
unfolding emit_image lookup bucket_beq
no_image = refl

run : Run media wire (pos 0) shown rested
unfolding start new_manager_with_backend set bucket_beq
run =
    next
      (next
        (next
          (next
            (next
              (next
                (next (next fresh starts)
                  (watcher_sees text_bucket 7 (some (codes "hi")) copied refl local))
                (watcher_passes text_bucket copied refl (omega arith)))
              (opens copied [] refl refl))
            (timer_fires batch refl))
          (text_built batch (pos 9) payload refl makes_payload))
        (text_sent batch payload refl (omega arith)))
      (image_skipped batch (pos 9) refl no_image)

rested_started : rested.started ≡ true
unfolding start new_manager_with_backend
rested_started = refl

channels_example :
    IsConsistent rested
    × ((l : Label) (s' : Clipboard)
        → Step media wire rested l s'
        → length rested.events < length s'.events
        → rested.closed ≡ false)
channels_example = Run-IsConsistent media wire (pos 0) shown rested run

windows_example :
    Cut media wire (delivered shown ++ rested.events) (passed shown)
    × (rested.processor ≡ idle
        → (taken : List ObservedEvent) × Windows media wire (delivered shown ++ rested.events) taken
          × (passed shown ≡ taken ++ rested.observed))
windows_example = Run-Windows media wire (pos 0) shown rested run

kept_example :
    Held
      (of_bucket text_bucket (seen shown))
      (of_bucket text_bucket (passed shown))
      (rested.watchers text_bucket)
      rested.done
kept_example = Run-Held media wire text_bucket (pos 0) shown rested run

stopping_example : (s' : Clipboard) × Silently media wire rested s' × IsOver s'
stopping_example = can_stop media wire (pos 0) shown rested run rested_started
