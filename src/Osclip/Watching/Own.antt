-- ===== src/Osclip/Watching/Own.antt =====
-- A watcher only ever holds an event of its own format.
use clippy.Base.{◌≡◌, List, arith, some}
use clippy.Base.Int.{ℤ}
use clippy.Clipwire.Types.{Wire}
use clippy.Osclip.Pending.{FormatBucket, bucket_beq_iff, PendingLedger}
use clippy.Osclip.Manager.{Media, ObservedEvent, watch_value}
use clippy.Osclip.Watching.{
  Watcher, listening, holding, stopped, Clipboard, new_manager_with_backend, set, start, Label,
  Step, starts, cancels, remembers, forgets, receives, watcher_skips, watcher_sees, watcher_passes,
  watcher_stops, source_ends, opens, collects, timer_fires, text_skipped, text_built, text_sent,
  image_skipped, image_built, image_sent, gives_up, Run, fresh, next,
}

module _ (media : Media) (w : Wire) where
  pub watch_value-bucket :
      (b : FormatBucket) (now : _) (l : PendingLedger) (content : _) (e : ObservedEvent)
      → (watch_value media w b now l content).1 ≡ some e
      → e.bucket ≡ b
  unfolding watch_value
  watch_value-bucket b now l content e h = ground arith

  -- A watcher holds an event of its own bucket.
  abbrev pub IsOwn : Clipboard → Type 0
  IsOwn s = (b : FormatBucket) (e : ObservedEvent) → s.watchers b ≡ holding e → e.bucket ≡ b

  set-own :
      (b : FormatBucket) (x : Watcher) (watchers : FormatBucket → Watcher)
      → ((e : ObservedEvent) → x ≡ holding e → e.bucket ≡ b)
      → ((b' : FormatBucket) (e : ObservedEvent) → watchers b' ≡ holding e → e.bucket ≡ b')
      → (b' : FormatBucket) (e : ObservedEvent) → set b x watchers b' ≡ holding e
      → e.bucket ≡ b'
  unfolding set
  set-own b x watchers mine own b' e h = ground (arith, mine e, own b' e, (bucket_beq_iff b b').0)

  start-IsOwn : (s : Clipboard) → IsOwn s → IsOwn (start s)
  unfolding start
  start-IsOwn s own b e h = ground (arith, own b e)

  Step-IsOwn : {s s' : Clipboard} {l : Label} → Step media w s l s' → IsOwn s → IsOwn s'
  Step-IsOwn {s} starts own = start-IsOwn s own
  Step-IsOwn {s} (watcher_sees b now content e listens seen) own =
      set-own b (holding e) s.watchers
        (λ e' h. ground (arith, watch_value-bucket b now s.pending content e seen)) own
  Step-IsOwn {s} (watcher_passes b e holds room) own =
      set-own b listening s.watchers (λ e' h. cc) own
  Step-IsOwn {s} (watcher_stops b done live) own = set-own b stopped s.watchers (λ e' h. cc) own
  Step-IsOwn {s} (source_ends b listens) own = set-own b stopped s.watchers (λ e' h. cc) own
  Step-IsOwn cancels own = own
  Step-IsOwn (remembers b hash now) own = own
  Step-IsOwn (forgets b hash) own = own
  Step-IsOwn (receives p rest q) own = own
  Step-IsOwn (watcher_skips b now content listens mine) own = own
  Step-IsOwn (opens e rest p q) own = own
  Step-IsOwn (collects batch e rest p q) own = own
  Step-IsOwn (timer_fires batch p) own = own
  Step-IsOwn (text_skipped batch now p nothing) own = own
  Step-IsOwn (text_built batch now payload p built) own = own
  Step-IsOwn (text_sent batch payload p room) own = own
  Step-IsOwn (image_skipped batch now p nothing) own = own
  Step-IsOwn (image_built batch now payload p built) own = own
  Step-IsOwn (image_sent payload p room) own = own
  Step-IsOwn (gives_up done waits) own = own

  pub all-IsOwn :
      {event_buffer : ℤ} {shown : List Label} {s : Clipboard}
      → Run media w event_buffer shown s
      → IsOwn s
  all-IsOwn fresh = unfold new_manager_with_backend in λ b e h. cc
  all-IsOwn (next run step) = Step-IsOwn step (all-IsOwn run)
