-- ===== src/Osclip/Watching/Stopping.antt =====
-- A manager whose context ends comes to rest, even if nobody receives from `events` any more.
use clippy.Base.{
  ◌≡◌, refl, ap, true, false, List, [], ◌∷◌, Bool-cases, inl, inr, arith, Option, none, some,
  Result, ok, err,
}
use clippy.Base.Int.{ℤ, pos}
use clippy.Base.Map.{lookup}
use clippy.Clipwire.Types.{ClipError, ClipboardPayload, Wire}
use clippy.Osclip.Pending.{FormatBucket, text_bucket, image_bucket, bucket_beq}
use clippy.Osclip.Manager.{Media, ObservedEvent, bucket_eq, emitted, emit_text, emit_image}
use clippy.Osclip.Watching.{
  Batch, Watcher, stopped, Processor, asleep, idle, finished, collecting, texting, imaging,
  emitting_text, emitting_image, Clipboard, set, is_watching, is_waiting, Label, silent, Step,
  cancels, watcher_stops, text_skipped, text_built, image_skipped, image_built, gives_up, Run,
}
use clippy.Osclip.Watching.Channels.{IsConsistent, Step-IsConsistent, all-IsConsistent}

-- Nothing, or one payload.
data Few (ps : List ClipboardPayload) : Type 0 where
  nothing : ps ≡ [] → Few ps
  one : (p : ClipboardPayload) → ps ≡ p ∷ [] → Few ps

emitted-Few : (r : Result ClipError ClipboardPayload) → Few (emitted r)
emitted-Few (ok p) = one p refl
emitted-Few (err e) = nothing refl

-- Every goroutine that `Start` launched has returned, and `events` is closed.
pub record IsOver (s : Clipboard) : Type 0 where
  pub is_closed : s.closed ≡ true
  pub returned : s.processor ≡ finished
  pub unwatched : (b : FormatBucket) → is_watching (s.watchers b) ≡ false

module _ (media : Media) (w : Wire) where
  emit_text-Few : (now : ℤ) (o : Option ObservedEvent) → Few (emit_text media w now o)
  unfolding emit_text
  emit_text-Few now none = nothing refl
  emit_text-Few now (some e) = emitted-Few _

  emit_image-Few : (now : ℤ) (o : Option ObservedEvent) → Few (emit_image media w now o)
  unfolding emit_image
  emit_image-Few now none = nothing refl
  emit_image-Few now (some e) = emitted-Few _

  -- Silent steps: nothing is seen, passed on to `observed`, or received.
  pub data Silently : Clipboard → Clipboard → Type 0 where
    stay : {s : Clipboard} → Silently s s
    step_on : {s t u : Clipboard} → Step media w s silent t → Silently t u → Silently s u

  abbrev Ends : Clipboard → Type 0
  Ends s = (s' : Clipboard) × Silently s s' × IsOver s'

  before : {s t : Clipboard} → Step media w s silent t → Ends t → Ends s
  before step (s', steps, over) = (s', step_on step steps, over)

  -- Once the watchers have returned.
  abbrev Unwatched : Clipboard → Type 0
  Unwatched s = (b : FormatBucket) → is_watching (s.watchers b) ≡ false

  give_up : (s : Clipboard) → Unwatched s → s.done ≡ true → is_waiting s.processor ≡ true → Ends s
  give_up s quiet done waits =
      before (gives_up done waits)
        (_, stay, record { is_closed = refl; returned = refl; unwatched = quiet })

  leave_image :
      (s : Clipboard) (batch : Batch)
      → Unwatched s
      → s.done ≡ true
      → s.processor ≡ imaging batch
      → Ends s
  leave_image s batch quiet done p = elim (emit_image-Few (pos 0) (lookup image_bucket batch)) [
    | nothing q ↦ before (image_skipped batch (pos 0) p q) (give_up _ quiet done refl)
    | one x q ↦ before (image_built batch (pos 0) x p q) (give_up _ quiet done refl)
  ]

  leave_text :
      (s : Clipboard) (batch : Batch)
      → Unwatched s
      → s.done ≡ true
      → s.processor ≡ texting batch
      → Ends s
  leave_text s batch quiet done p = elim (emit_text-Few (pos 0) (lookup text_bucket batch)) [
    | nothing q ↦ before (text_skipped batch (pos 0) p q) (leave_image _ batch quiet done refl)
    | one x q ↦ before (text_built batch (pos 0) x p q) (give_up _ quiet done refl)
  ]

  leave :
      (s : Clipboard) (p : Processor)
      → IsConsistent s
      → Unwatched s
      → s.done ≡ true
      → s.started ≡ true
      → s.processor ≡ p
      → Ends s
  leave s asleep c quiet done begun e = absurd (ground arith)
  leave s idle c quiet done begun e = give_up s quiet done (ap is_waiting e)
  leave s (collecting batch) c quiet done begun e = give_up s quiet done (ap is_waiting e)
  leave s (emitting_text x batch) c quiet done begun e = give_up s quiet done (ap is_waiting e)
  leave s (emitting_image x) c quiet done begun e = give_up s quiet done (ap is_waiting e)
  leave s (texting batch) c quiet done begun e = leave_text s batch quiet done e
  leave s (imaging batch) c quiet done begun e = leave_image s batch quiet done e
  leave s finished c quiet done begun e =
      (s, stay, record { is_closed = (c.ended e).1; returned = e; unwatched = quiet })

  both :
      (watchers : FormatBucket → Watcher)
      → is_watching (watchers text_bucket) ≡ false
      → is_watching (watchers image_bucket) ≡ false
      → (b : FormatBucket) → is_watching (watchers b) ≡ false
  both watchers t i text_bucket = t
  both watchers t i image_bucket = i

  stop_image :
      (s : Clipboard)
      → IsConsistent s
      → s.started ≡ true
      → s.done ≡ true
      → is_watching (s.watchers text_bucket) ≡ false
      → Ends s
  stop_image s c begun done quiet = elim (Bool-cases (is_watching (s.watchers image_bucket))) [
    | inl live ↦
        let step = watcher_stops image_bucket done live in
        before step (
          leave _ _ (Step-IsConsistent media w step c)
            (unfold set bucket_beq in both (set image_bucket stopped s.watchers) quiet refl) done
            begun refl)
    | inr over ↦ leave s _ c (both s.watchers quiet over) done begun refl
  ]

  stop_text : (s : Clipboard) → IsConsistent s → s.started ≡ true → s.done ≡ true → Ends s
  stop_text s c begun done = elim (Bool-cases (is_watching (s.watchers text_bucket))) [
    | inl live ↦
        let step = watcher_stops text_bucket done live in
        before step (
          stop_image _ (Step-IsConsistent media w step c) begun done
            (unfold set bucket_beq in refl))
    | inr over ↦ stop_image s c begun done over
  ]

  -- From each state of a manager that was started, silent steps, the end of its context among
  -- them, lead to a state in which its goroutines have returned and `events` is closed: nobody has
  -- to receive a payload for it, and no watcher has to pass on what it holds.
  pub can_stop :
      (event_buffer : ℤ) (shown : List Label) (s : Clipboard)
      → Run media w event_buffer shown s
      → s.started ≡ true
      → (s' : Clipboard) × Silently s s' × IsOver s'
  can_stop event_buffer shown s run begun =
      let c = all-IsConsistent media w run in
      before cancels (stop_text _ (Step-IsConsistent media w cancels c) begun refl)
