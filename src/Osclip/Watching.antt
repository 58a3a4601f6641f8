-- ===== src/Osclip/Watching.antt =====
-- internal/osclip/manager.go: `NewManager`, `Start`, and the goroutines that it launches, two
-- `watchLoop` and one `processObserved`, as a step relation over the channels that join them.
pub mod Windows
pub mod Sound
pub mod Channels
pub mod Own
pub mod Kept
pub mod Stopping
pub mod Tests
use clippy.Base.{
  ℕ, ◌*◌, ◌<◌, ◌≡◌, Bool, true, false, Option, none, some, List, [], ◌∷◌, ◌++◌, length,
  if◌then◌else◌,
}
use clippy.Base.Bytes.{Bytes}
use clippy.Base.Int.{ℤ, is_nonpos, to_nat}
use clippy.Base.Map.{lookup, insert}
use clippy.Clipwire.Types.{ClipboardPayload, Wire}
use clippy.Osclip.Pending.{
  FormatBucket, text_bucket, image_bucket, bucket_beq, PendingLedger, new_pending_ledger, remember,
  forget,
}
use clippy.Osclip.Manager.{Media, ObservedEvent, bucket_eq, watch_value, emit_text, emit_image}

abbrev default_event_buffer : ℕ
default_event_buffer = 16

-- Nanoseconds.
abbrev default_coalesce_window : ℕ
default_coalesce_window = 50000000

abbrev default_pending_ttl : ℕ
default_pending_ttl = 5000000000

abbrev pub Batch : Type 0
Batch = List (FormatBucket × ObservedEvent)

-- A `watchLoop`: in its first `select`, in its second with an event, or behind a `return`.
pub data Watcher : Type 0 where
  unstarted listening stopped : Watcher
  holding : ObservedEvent → Watcher

-- `processObserved`: in its first `select`, in the `select` of `collect`, before the text and
-- before the image of a batch, in `emit` with a payload, or behind the deferred `close`.
pub data Processor : Type 0 where
  asleep idle finished : Processor
  collecting texting imaging : Batch → Processor
  emitting_text : ClipboardPayload → Batch → Processor
  emitting_image : ClipboardPayload → Processor

-- A `Manager` with its goroutines. `done` is whether the context of `Start` has ended. The
-- channels have their oldest element first.
pub record Clipboard : Type 0 where
  pub events_size : ℕ
  pub observed_size : ℕ
  pub coalesce_window : ℕ
  pub events : List ClipboardPayload
  pub closed : Bool
  pub observed : List ObservedEvent
  pub pending : PendingLedger
  pub started : Bool
  pub done : Bool
  pub watchers : FormatBucket → Watcher
  pub processor : Processor

-- Sizes for which Go can make the channel; it panics above.
unfoldable pub new_manager_with_backend : ℤ → Clipboard
new_manager_with_backend event_buffer =
    let size = if is_nonpos event_buffer then default_event_buffer else to_nat event_buffer in
    record {
      events_size = size;
      observed_size = size * 2;
      coalesce_window = default_coalesce_window;
      events = [];
      closed = false;
      observed = [];
      pending = new_pending_ledger default_pending_ttl;
      started = false;
      done = false;
      watchers = λ b. unstarted;
      processor = asleep;
    }

unfoldable pub set : FormatBucket → Watcher → (FormatBucket → Watcher) → FormatBucket → Watcher
set b x f b' = if bucket_beq b b' then x else f b'

-- The body of `startOnce.Do`.
unfoldable pub start : Clipboard → Clipboard
start s =
    if s.started
    then s
    else record s { started = true; watchers = λ b. listening; processor = idle }

-- The deferred `close(m.events)` at every return of `processObserved`.
abbrev pub finish_processing : Clipboard → Clipboard
finish_processing s = record s { closed = true; processor = finished }

-- A `watchLoop` that has not returned.
abbrev pub is_watching : Watcher → Bool
is_watching listening = true
is_watching (holding e) = true
is_watching _ = false

-- In a `select` that has the case `<-ctx.Done()`.
abbrev pub is_waiting : Processor → Bool
is_waiting idle = true
is_waiting (collecting batch) = true
is_waiting (emitting_text p batch) = true
is_waiting (emitting_image p) = true
is_waiting _ = false

-- What a step shows: a watcher takes a value for a local change, sends it to `observed`, or the
-- application receives a payload.
pub data Label : Type 0 where
  silent : Label
  sees passes : ObservedEvent → Label
  delivers : ClipboardPayload → Label

module _ (media : Media) (w : Wire) where
  -- The steps of the goroutines, of the timer, of the native clipboard and of the callers. A
  -- `select` takes any of its ready cases. `ApplyRemote` calls `remember`, and `forget` later.
  pub data Step (s : Clipboard) : Label → Clipboard → Type 0 where
    starts : Step s silent (start s)
    cancels : Step s silent (record s { done = true })
    remembers :
        (b : FormatBucket) (hash : Bytes) (now : ℕ)
        → Step s silent (record s { pending = remember s.pending b hash now })
    forgets :
        (b : FormatBucket) (hash : Bytes)
        → Step s silent (record s { pending = forget s.pending b hash })
    receives :
        (p : ClipboardPayload) (rest : List ClipboardPayload)
        → s.events ≡ p ∷ rest
        → Step s (delivers p) (record s { events = rest })
    watcher_skips :
        (b : FormatBucket) (now : ℕ) (content : Option Bytes)
        → s.watchers b ≡ listening
        → (watch_value media w b now s.pending content).1 ≡ none
        → Step s silent (record s { pending = (watch_value media w b now s.pending content).0 })
    watcher_sees :
        (b : FormatBucket) (now : ℕ) (content : Option Bytes) (e : ObservedEvent)
        → s.watchers b ≡ listening
        → (watch_value media w b now s.pending content).1 ≡ some e
        → Step s (sees e) (record s {
          pending = (watch_value media w b now s.pending content).0;
          watchers = set b (holding e) s.watchers;
        })
    watcher_passes :
        (b : FormatBucket) (e : ObservedEvent)
        → s.watchers b ≡ holding e
        → length s.observed < s.observed_size
        → Step s
            (passes e)
            (record s { observed = s.observed ++ e ∷ []; watchers = set b listening s.watchers })
    watcher_stops :
        (b : FormatBucket)
        → s.done ≡ true
        → is_watching (s.watchers b) ≡ true
        → Step s silent (record s { watchers = set b stopped s.watchers })
    -- The channel of the native clipboard is closed.
    source_ends :
        (b : FormatBucket)
        → s.watchers b ≡ listening
        → Step s silent (record s { watchers = set b stopped s.watchers })
    opens :
        (e : ObservedEvent) (rest : List ObservedEvent)
        → s.processor ≡ idle
        → s.observed ≡ e ∷ rest
        → Step s silent (record s { observed = rest; processor = collecting ((e.bucket, e) ∷ []) })
    collects :
        (batch : Batch) (e : ObservedEvent) (rest : List ObservedEvent)
        → s.processor ≡ collecting batch
        → s.observed ≡ e ∷ rest
        → Step s silent
            (record s { observed = rest; processor = collecting (insert e.bucket e batch) })
    timer_fires :
        (batch : Batch)
        → s.processor ≡ collecting batch
        → Step s silent (record s { processor = texting batch })
    -- There is no text, or no payload can be built of it.
    text_skipped :
        (batch : Batch) (now : ℤ)
        → s.processor ≡ texting batch
        → emit_text media w now (lookup text_bucket batch) ≡ []
        → Step s silent (record s { processor = imaging batch })
    text_built :
        (batch : Batch) (now : ℤ) (p : ClipboardPayload)
        → s.processor ≡ texting batch
        → emit_text media w now (lookup text_bucket batch) ≡ p ∷ []
        → Step s silent (record s { processor = emitting_text p batch })
    text_sent :
        (batch : Batch) (p : ClipboardPayload)
        → s.processor ≡ emitting_text p batch
        → length s.events < s.events_size
        → Step s silent (record s { events = s.events ++ p ∷ []; processor = imaging batch })
    image_skipped :
        (batch : Batch) (now : ℤ)
        → s.processor ≡ imaging batch
        → emit_image media w now (lookup image_bucket batch) ≡ []
        → Step s silent (record s { processor = idle })
    image_built :
        (batch : Batch) (now : ℤ) (p : ClipboardPayload)
        → s.processor ≡ imaging batch
        → emit_image media w now (lookup image_bucket batch) ≡ p ∷ []
        → Step s silent (record s { processor = emitting_image p })
    image_sent :
        (p : ClipboardPayload)
        → s.processor ≡ emitting_image p
        → length s.events < s.events_size
        → Step s silent (record s { events = s.events ++ p ∷ []; processor = idle })
    gives_up : s.done ≡ true → is_waiting s.processor ≡ true → Step s silent (finish_processing s)

  -- The steps from a new manager on, with what they show, oldest first.
  pub data Run (event_buffer : ℤ) : List Label → Clipboard → Type 0 where
    fresh : Run event_buffer [] (new_manager_with_backend event_buffer)
    next :
        {shown : List Label} {s s' : Clipboard} {l : Label}
        → Run event_buffer shown s
        → Step s l s'
        → Run event_buffer (shown ++ l ∷ []) s'
