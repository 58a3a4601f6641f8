-- ===== src/Osclip/Watching/Sound.antt =====
-- Every step of a running manager keeps what was sent in line with the windows of the changes.
use clippy.Base.{
  ◌≡◌, refl, sym, subst, ◌∙◌, ap, false, List, [], ◌∷◌, ◌++◌, append-nil, append_assoc, Bool-cases,
  inl, inr, arith,
}
use clippy.Base.Int.{ℤ}
use clippy.Base.Map.{insert}
use clippy.Clipwire.Types.{ClipboardPayload, Wire}
use clippy.Osclip.Manager.{Media, ObservedEvent, bucket_eq, coalesce}
use clippy.Osclip.Watching.{
  Batch, Processor, asleep, idle, finished, collecting, texting, imaging, emitting_text,
  emitting_image, Clipboard, new_manager_with_backend, start, Label, Step, starts, cancels,
  remembers, forgets, receives, watcher_skips, watcher_sees, watcher_passes, watcher_stops,
  source_ends, opens, collects, timer_fires, text_skipped, text_built, text_sent, image_skipped,
  image_built, image_sent, gives_up, Run, fresh, next,
}
use clippy.Osclip.Watching.Channels.{IsConsistent, all-IsConsistent}
use clippy.Osclip.Watching.Windows.{
  none_yet, passed, delivered, passed-append, delivered-append, coalesce-snoc, Windows, Open, Cut,
  Stage, sent_image, Stage-Cut,
}

module _ (media : Media) (w : Wire) where
  -- With `out` sent to `events`, and `ps` sent to `observed`.
  record Sound (out : List ClipboardPayload) (ps observed : List ObservedEvent) (p : Processor)
      : Type 0 where
    taken : List ObservedEvent
    split : ps ≡ taken ++ observed
    stage : Stage media w p out taken

  module _ {out : List ClipboardPayload} {ps observed : List ObservedEvent} where
    -- A step that sends and takes nothing.
    moved :
        {q : Processor} (p : Processor) (h : Sound out ps observed q)
        → Stage media w p out h.taken
        → Sound out ps observed p
    moved p h stage = record { taken = h.taken; split = h.split; stage = stage }

    -- The stage, at the processor that there is.
    at-Stage :
        {q : Processor} (p : Processor)
        → q ≡ p
        → (h : Sound out ps observed q) → Stage media w p out h.taken
    at-Stage p e h = subst (λ x. Stage media w x out h.taken) e h.stage

    taken_next :
        {q : Processor} (e : ObservedEvent) (rest : List ObservedEvent)
        → observed ≡ e ∷ rest
        → (h : Sound out ps observed q) → ps ≡ (h.taken ++ e ∷ []) ++ rest
    taken_next e rest q h =
        h.split ∙ (ap (λ o. h.taken ++ o) q ∙ sym (append_assoc h.taken (e ∷ []) rest))

    opened :
        {q : Processor} (e : ObservedEvent) (rest : List ObservedEvent)
        → q ≡ idle
        → observed ≡ e ∷ rest
        → Sound out ps observed q
        → Sound out ps rest (collecting ((e.bucket, e) ∷ []))
    opened e rest p q h = record {
      taken = h.taken ++ e ∷ [];
      split = taken_next e rest q h;
      stage = record {
        before = h.taken;
        first = e;
        more = [];
        closed_before = at-Stage idle p h;
        all_taken = refl;
        same_batch = unfold coalesce in refl;
      };
    }

    collected :
        {q : Processor} (batch : Batch) (e : ObservedEvent) (rest : List ObservedEvent)
        → q ≡ collecting batch
        → observed ≡ e ∷ rest
        → Sound out ps observed q
        → Sound out ps rest (collecting (insert e.bucket e batch))
    collected batch e rest p q h =
        let o : Open media w batch out h.taken = at-Stage (collecting batch) p h in
        record {
          taken = h.taken ++ e ∷ [];
          split = taken_next e rest q h;
          stage = record {
            before = o.before;
            first = o.first;
            more = o.more ++ e ∷ [];
            closed_before = o.closed_before;
            all_taken =
                ap (λ t. t ++ e ∷ []) o.all_taken
                ∙ append_assoc o.before (o.first ∷ o.more) (e ∷ []);
            same_batch =
                ap (insert e.bucket e) o.same_batch
                ∙ sym (coalesce-snoc ((o.first.bucket, o.first) ∷ []) o.more e);
          };
        }

  -- A silent step.
  quiet :
      {observed ps : List ObservedEvent} {p : Processor} (d events : List ClipboardPayload)
      → Sound (d ++ events) ps observed p
      → Sound ((d ++ []) ++ events) (ps ++ []) observed p
  quiet {observed} {ps} {p} d events h =
      subst (λ x. Sound (x ++ events) (ps ++ []) observed p) (sym (append-nil d))
        (subst (λ x. Sound (d ++ events) x observed p) (sym (append-nil ps)) h)

  unlaunched : (s : Clipboard) → IsConsistent s → s.started ≡ false → s.processor ≡ asleep
  unlaunched s c first = ground arith

  started_Sound :
      (d : List ClipboardPayload) (ps : List ObservedEvent) (s : Clipboard)
      → IsConsistent s
      → Sound (d ++ s.events) ps s.observed s.processor
      → Sound (d ++ (start s).events) ps (start s).observed (start s).processor
  unfolding start
  started_Sound d ps s c h = elim (Bool-cases s.started) [
    | inl before ↦ simp before h
    | inr first ↦ simp first (moved idle h (at-Stage asleep (unlaunched s c first) h))
  ]

  Step-Sound :
      {s s' : Clipboard} {l : Label} (d : List ClipboardPayload) (ps : List ObservedEvent)
      → IsConsistent s
      → Step media w s l s'
      → Sound (d ++ s.events) ps s.observed s.processor
      → Sound
          ((d ++ delivered (l ∷ [])) ++ s'.events)
          (ps ++ passed (l ∷ []))
          s'.observed
          s'.processor
  unfolding delivered passed
  Step-Sound {s} d ps c starts h = quiet d (start s).events (started_Sound d ps s c h)
  Step-Sound {s} d ps c cancels h = quiet d s.events h
  Step-Sound {s} d ps c (remembers b hash now) h = quiet d s.events h
  Step-Sound {s} d ps c (forgets b hash) h = quiet d s.events h
  Step-Sound {s} d ps c (receives p rest q) h = record {
    taken = h.taken;
    split = append-nil ps ∙ h.split;
    stage =
        subst (λ x. Stage media w s.processor x h.taken)
          (ap (λ x. d ++ x) q ∙ sym (append_assoc d (p ∷ []) rest)) h.stage;
  }
  Step-Sound {s} d ps c (watcher_skips b now content listens mine) h = quiet d s.events h
  Step-Sound {s} d ps c (watcher_sees b now content e listens seen) h = quiet d s.events h
  Step-Sound {s} d ps c (watcher_passes b e holds room) h = record {
    taken = h.taken;
    split = ap (λ x. x ++ e ∷ []) h.split ∙ append_assoc h.taken s.observed (e ∷ []);
    stage =
        subst (λ x. Stage media w s.processor (x ++ s.events) h.taken) (sym (append-nil d)) h.stage;
  }
  Step-Sound {s} d ps c (watcher_stops b done live) h = quiet d s.events h
  Step-Sound {s} d ps c (source_ends b listens) h = quiet d s.events h
  Step-Sound {s} d ps c (opens e rest p q) h = quiet d s.events (opened e rest p q h)
  Step-Sound {s} d ps c (collects batch e rest p q) h =
      quiet d s.events (collected batch e rest p q h)
  Step-Sound {s} d ps c (timer_fires batch p) h =
      quiet d s.events (moved (texting batch) h (at-Stage (collecting batch) p h))
  Step-Sound {s} d ps c (text_skipped batch now p nothing) h = quiet d s.events (
      moved (imaging batch) h (
        d ++ s.events,
        now,
        at-Stage (texting batch) p h,
        sym (append-nil (d ++ s.events)) ∙ ap (λ x. (d ++ s.events) ++ x) (sym nothing),
      ))
  Step-Sound {s} d ps c (text_built batch now payload p built) h =
      quiet d s.events
        (moved (emitting_text payload batch) h (at-Stage (texting batch) p h, (now, built)))
  Step-Sound {s} d ps c (text_sent batch payload p room) h =
      let (o, (now, built)) = at-Stage (emitting_text payload batch) p h in
      quiet d (s.events ++ payload ∷ []) (record {
        taken = h.taken;
        split = h.split;
        stage = (
          d ++ s.events,
          now,
          o,
          sym (append_assoc d s.events (payload ∷ [])) ∙ ap (λ x. (d ++ s.events) ++ x) (sym built),
        );
      })
  Step-Sound {s} d ps c (image_skipped batch now p nothing) h = quiet d s.events (
      moved idle h (
        subst (λ x. Windows media w x h.taken) (append-nil (d ++ s.events))
          (sent_image media w batch now [] (at-Stage (imaging batch) p h) nothing)))
  Step-Sound {s} d ps c (image_built batch now payload p built) h = quiet d s.events (
      moved (emitting_image payload) h (
        (d ++ s.events) ++ payload ∷ [],
        sent_image media w batch now (payload ∷ []) (at-Stage (imaging batch) p h) built,
        refl,
      ))
  Step-Sound {s} d ps c (image_sent payload p room) h =
      let (sent, closes, q) = at-Stage (emitting_image payload) p h in
      quiet d (s.events ++ payload ∷ []) (record {
        taken = h.taken;
        split = h.split;
        stage =
            subst (λ x. Windows media w x h.taken) (q ∙ append_assoc d s.events (payload ∷ []))
              closes;
      })
  Step-Sound {s} d ps c (gives_up done waits) h =
      quiet d s.events (moved finished h (Stage-Cut media w s.processor h.stage))

  Run-Sound :
      {event_buffer : ℤ} {shown : List Label} {s : Clipboard}
      → Run media w event_buffer shown s
      → Sound (delivered shown ++ s.events) (passed shown) s.observed s.processor
  Run-Sound fresh =
      unfold new_manager_with_backend delivered passed in
      record { taken = []; split = refl; stage = none_yet refl refl }
  Run-Sound (next {shown} {s} {s'} {l} run step) =
      rw (delivered-append shown (l ∷ []), passed-append shown (l ∷ []))
        (Step-Sound (delivered shown) (passed shown) (all-IsConsistent media w run) step
          (Run-Sound run))

  -- However the goroutines, the timer, the native clipboard and the callers take turns, what the
  -- application has received and what waits in `events` is the beginning of what coalescing
  -- windows send, one after the other, into which the first of the events that the watchers passed
  -- on can be cut. When `processObserved` is between two windows, it is all of what the windows
  -- send, and the windows hold all events but those that wait in `observed`.
  pub Run-Windows :
      (event_buffer : ℤ) (shown : List Label) (s : Clipboard)
      → Run media w event_buffer shown s
      → Cut media w (delivered shown ++ s.events) (passed shown)
        × (s.processor ≡ idle
            → (taken : List ObservedEvent) × Windows media w (delivered shown ++ s.events) taken
              × (passed shown ≡ taken ++ s.observed))
  Run-Windows event_buffer shown s run =
      let h = Run-Sound run in
      let c = Stage-Cut media w s.processor h.stage in
      (
        record {
          unsent = c.unsent;
          before = c.before;
          later = c.later ++ s.observed;
          whole = c.whole;
          all_taken =
              h.split
              ∙ (ap (λ x. x ++ s.observed) c.all_taken ∙ append_assoc c.before c.later s.observed);
        },
        λ e. (h.taken, at-Stage idle e h, h.split),
      )
