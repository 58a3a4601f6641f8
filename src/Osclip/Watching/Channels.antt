-- ===== src/Osclip/Watching/Channels.antt =====
-- The channels of a running manager, and who may still use them.
use clippy.Base.{
  ◌≤◌, ◌<◌, ◌≡◌, Bool, true, false, List, [], ◌∷◌, length, length-append, Bool-cases, inl, inr,
  arith,
}
use clippy.Base.Int.{ℤ}
use clippy.Clipwire.Types.{Wire}
use clippy.Osclip.Pending.{FormatBucket}
use clippy.Osclip.Manager.{Media}
use clippy.Osclip.Watching.{
  unstarted, Processor, asleep, finished, Clipboard, new_manager_with_backend, set, start, Label,
  Step, starts, cancels, remembers, forgets, receives, watcher_skips, watcher_sees, watcher_passes,
  watcher_stops, source_ends, opens, collects, timer_fires, text_skipped, text_built, text_sent,
  image_skipped, image_built, image_sent, gives_up, Run, fresh, next,
}

-- Between `Start` and the return of `processObserved`.
abbrev pub is_running : Processor → Bool
is_running asleep = false
is_running finished = false
is_running _ = true

-- Neither channel holds more than its size; `events` is closed exactly when `processObserved` has
-- returned, which it does only once the context has ended; and before `Start` nothing runs.
pub record IsConsistent (s : Clipboard) : Type 0 where
  pub events_fit : length s.events ≤ s.events_size
  pub observed_fit : length s.observed ≤ s.observed_size
  pub running : is_running s.processor ≡ true → (s.started ≡ true) × (s.closed ≡ false)
  pub ended : s.processor ≡ finished → (s.started ≡ true) × (s.closed ≡ true) × (s.done ≡ true)
  pub unlaunched : s.processor ≡ asleep → (s.started ≡ false) × (s.closed ≡ false)
  pub unwatched : (b : FormatBucket) → s.started ≡ false → s.watchers b ≡ unstarted

start-IsConsistent : (s : Clipboard) → IsConsistent s → IsConsistent (start s)
unfolding start
start-IsConsistent s c = elim (Bool-cases s.started) [
  | inl before ↦ simp before c
  | inr first ↦ simp first (ground arith)
]

module _ (media : Media) (w : Wire) where
  pub Step-IsConsistent :
      {s s' : Clipboard} {l : Label} → Step media w s l s' → IsConsistent s → IsConsistent s'
  Step-IsConsistent {s} starts c = start-IsConsistent s c
  Step-IsConsistent cancels c = ground arith
  Step-IsConsistent (remembers b hash now) c = ground arith
  Step-IsConsistent (forgets b hash) c = ground arith
  Step-IsConsistent (receives p rest q) c = ground arith
  Step-IsConsistent (watcher_skips b now content listens mine) c = ground arith
  Step-IsConsistent (watcher_sees b now content e listens seen) c =
      unfold set in ground (arith, c.unwatched b)
  Step-IsConsistent {s} (watcher_passes b e holds room) c =
      unfold set in ground (arith, c.unwatched b, length-append s.observed (e ∷ []))
  Step-IsConsistent (watcher_stops b done live) c = unfold set in ground (arith, c.unwatched b)
  Step-IsConsistent (source_ends b listens) c = unfold set in ground (arith, c.unwatched b)
  Step-IsConsistent (opens e rest p q) c = ground arith
  Step-IsConsistent (collects batch e rest p q) c = ground arith
  Step-IsConsistent (timer_fires batch p) c = ground arith
  Step-IsConsistent (text_skipped batch now p none_built) c = ground arith
  Step-IsConsistent (text_built batch now payload p built) c = ground arith
  Step-IsConsistent {s} (text_sent batch payload p room) c =
      ground (arith, length-append s.events (payload ∷ []))
  Step-IsConsistent (image_skipped batch now p none_built) c = ground arith
  Step-IsConsistent (image_built batch now payload p built) c = ground arith
  Step-IsConsistent {s} (image_sent payload p room) c =
      ground (arith, length-append s.events (payload ∷ []))
  Step-IsConsistent (gives_up done waits) c = ground arith

  sent_open :
      {s s' : Clipboard} {l : Label}
      → IsConsistent s
      → Step media w s l s'
      → length s.events < length s'.events
      → s.closed ≡ false
  sent_open c starts h = unfold start in ground arith
  sent_open c (receives p rest q) h = ground arith
  sent_open c (watcher_skips b now content listens mine) h = ground arith
  sent_open c (watcher_sees b now content e listens seen) h = ground arith
  sent_open c (watcher_passes b e holds room) h = ground arith
  sent_open c (watcher_stops b done live) h = ground arith
  sent_open c (source_ends b listens) h = ground arith
  sent_open c (opens e rest p q) h = ground arith
  sent_open c (collects batch e rest p q) h = ground arith
  sent_open c (timer_fires batch p) h = ground arith
  sent_open c (text_skipped batch now p none_built) h = ground arith
  sent_open c (text_built batch now payload p built) h = ground arith
  sent_open c (text_sent batch payload p room) h = ground arith
  sent_open c (image_skipped batch now p none_built) h = ground arith
  sent_open c (image_built batch now payload p built) h = ground arith
  sent_open c (image_sent payload p room) h = ground arith
  sent_open c (gives_up done waits) h = ground arith
  sent_open c cancels h = ground arith
  sent_open c (remembers b hash now) h = ground arith
  sent_open c (forgets b hash) h = ground arith

  pub all-IsConsistent :
      {event_buffer : ℤ} {shown : List Label} {s : Clipboard}
      → Run media w event_buffer shown s
      → IsConsistent s
  all-IsConsistent fresh = unfold new_manager_with_backend in ground arith
  all-IsConsistent (next run step) = Step-IsConsistent step (all-IsConsistent run)

  -- However the goroutines, the timer, the native clipboard and the callers take turns, no channel
  -- holds more than its size, `events` is closed exactly when `processObserved` has returned, that
  -- is only once the context has ended, and nothing runs before `Start`. Nothing is sent to the
  -- closed channel, at which Go would panic: a step that makes `events` longer finds it open.
  pub Run-IsConsistent :
      (event_buffer : ℤ) (shown : List Label) (s : Clipboard)
      → Run media w event_buffer shown s
      → IsConsistent s
        × ((l : Label) (s' : Clipboard)
            → Step media w s l s'
            → length s.events < length s'.events
            → s.closed ≡ false)
  Run-IsConsistent event_buffer shown s run =
      (all-IsConsistent run, λ l s'. sent_open (all-IsConsistent run))
