-- ===== src/Osclip/Watching/Windows.antt =====
-- The channel `events` of a running manager carries what coalescing windows of the local changes
-- send.
use clippy.Base.{◌≡◌, refl, sym, subst, ◌∙◌, ap, ap₂, List, [], ◌∷◌, ◌++◌, append-nil, append_assoc}
use clippy.Base.Int.{ℤ}
use clippy.Base.Map.{lookup, insert}
use clippy.Clipwire.Types.{ClipboardPayload, Wire}
use clippy.Osclip.Pending.{text_bucket, image_bucket}
use clippy.Osclip.Manager.{
  Media, ObservedEvent, bucket_eq, coalesce, emit_text, emit_image, process_window,
}
use clippy.Osclip.Watching.{
  Batch, Processor, asleep, idle, finished, collecting, texting, imaging, emitting_text,
  emitting_image, Label, silent, sees, passes, delivers,
}

-- The events that the watchers sent to `observed`, in their order.
unfoldable pub passed : List Label → List ObservedEvent
passed [] = []
passed (passes e ∷ ls) = e ∷ passed ls
passed (silent ∷ ls) = passed ls
passed (sees e ∷ ls) = passed ls
passed (delivers p ∷ ls) = passed ls

-- The payloads that the application received, in their order.
unfoldable pub delivered : List Label → List ClipboardPayload
delivered [] = []
delivered (delivers p ∷ ls) = p ∷ delivered ls
delivered (silent ∷ ls) = delivered ls
delivered (sees e ∷ ls) = delivered ls
delivered (passes e ∷ ls) = delivered ls

pub passed-append : (ls ms : List Label) → passed (ls ++ ms) ≡ passed ls ++ passed ms
unfolding passed
passed-append [] ms = refl
passed-append (passes e ∷ ls) ms = ap (λ es. e ∷ es) (passed-append ls ms)
passed-append (silent ∷ ls) ms = passed-append ls ms
passed-append (sees e ∷ ls) ms = passed-append ls ms
passed-append (delivers p ∷ ls) ms = passed-append ls ms

pub delivered-append : (ls ms : List Label) → delivered (ls ++ ms) ≡ delivered ls ++ delivered ms
unfolding delivered
delivered-append [] ms = refl
delivered-append (delivers p ∷ ls) ms = ap (λ ps. p ∷ ps) (delivered-append ls ms)
delivered-append (silent ∷ ls) ms = delivered-append ls ms
delivered-append (sees e ∷ ls) ms = delivered-append ls ms
delivered-append (passes e ∷ ls) ms = delivered-append ls ms

pub coalesce-snoc :
    (batch : Batch) (es : List ObservedEvent) (e : ObservedEvent)
    → coalesce batch (es ++ e ∷ []) ≡ insert e.bucket e (coalesce batch es)
unfolding coalesce
coalesce-snoc batch [] e = refl
coalesce-snoc batch (x ∷ es) e = coalesce-snoc (insert x.bucket x batch) es e

module _ (media : Media) (w : Wire) where
  -- `out` is what the windows into which `taken` can be cut send, one after the other.
  pub data Windows : List ClipboardPayload → List ObservedEvent → Type 0 where
    none_yet :
        {out : List ClipboardPayload} {taken : List ObservedEvent}
        → out ≡ []
        → taken ≡ []
        → Windows out taken
    and_then :
        {out : List ClipboardPayload} {taken : List ObservedEvent} {sent : List ClipboardPayload}
        {before : List ObservedEvent}
        → Windows sent before
        → (text_time image_time : ℤ) (first : ObservedEvent) (more : List ObservedEvent)
        → out ≡ sent ++ process_window media w text_time image_time first more
        → taken ≡ before ++ first ∷ more
        → Windows out taken

  -- The window that `processObserved` has open, with its batch, after `before`.
  pub record Open (batch : Batch) (sent : List ClipboardPayload) (taken : List ObservedEvent)
      : Type 0 where
    pub before : List ObservedEvent
    pub first : ObservedEvent
    pub more : List ObservedEvent
    pub closed_before : Windows sent before
    pub all_taken : taken ≡ before ++ first ∷ more
    pub same_batch : batch ≡ coalesce ((first.bucket, first) ∷ []) more

  -- What the application was sent, and a rest that it was not.
  pub record Cut (out : List ClipboardPayload) (taken : List ObservedEvent) : Type 0 where
    pub unsent : List ClipboardPayload
    pub before : List ObservedEvent
    pub later : List ObservedEvent
    pub whole : Windows (out ++ unsent) before
    pub all_taken : taken ≡ before ++ later

  abbrev pub Stage : Processor → List ClipboardPayload → List ObservedEvent → Type 0
  Stage asleep out taken = Windows out taken
  Stage idle out taken = Windows out taken
  Stage (collecting batch) out taken = Open batch out taken
  Stage (texting batch) out taken = Open batch out taken
  Stage (emitting_text p batch) out taken =
      Open batch out taken
      × ((now : ℤ) × (emit_text media w now (lookup text_bucket batch) ≡ p ∷ []))
  Stage (imaging batch) out taken =
      (sent : List ClipboardPayload) × (now : ℤ) × Open batch sent taken
      × (out ≡ sent ++ emit_text media w now (lookup text_bucket batch))
  Stage (emitting_image p) out taken =
      (sent : List ClipboardPayload) × Windows sent taken × (sent ≡ out ++ p ∷ [])
  Stage finished out taken = Cut out taken

  Open-Windows :
      {batch : Batch} {sent : List ClipboardPayload} {taken : List ObservedEvent}
      (text_time image_time : ℤ)
      → Open batch sent taken
      → Windows
          (sent
            ++ (emit_text media w text_time (lookup text_bucket batch)
                ++ emit_image media w image_time (lookup image_bucket batch)))
          taken
  unfolding process_window
  Open-Windows {batch} {sent} text_time image_time o =
      and_then o.closed_before text_time image_time o.first o.more
        (ap
          (λ b.
            sent
            ++ (emit_text media w text_time (lookup text_bucket b)
                ++ emit_image media w image_time (lookup image_bucket b)))
          o.same_batch)
        o.all_taken

  pub sent_image :
      {out : List ClipboardPayload} {taken : List ObservedEvent} (batch : Batch) (now : ℤ)
      (built : List ClipboardPayload)
      → Stage (imaging batch) out taken
      → emit_image media w now (lookup image_bucket batch) ≡ built
      → Windows (out ++ built) taken
  sent_image {out} {taken} batch now built (sent, text_time, o, e) q =
      subst (λ x. Windows x taken) (sym (append_assoc sent _ _) ∙ ap₂ (λ a b. a ++ b) (sym e) q)
        (Open-Windows text_time now o)

  Open-Cut :
      {batch : Batch} {out : List ClipboardPayload} {taken : List ObservedEvent}
      → Open batch out taken
      → Cut out taken
  Open-Cut {batch} {out} o = record {
    unsent = [];
    before = o.before;
    later = o.first ∷ o.more;
    whole = subst (λ x. Windows x o.before) (sym (append-nil out)) o.closed_before;
    all_taken = o.all_taken;
  }

  Windows-Cut :
      {out : List ClipboardPayload} {taken : List ObservedEvent} → Windows out taken → Cut out taken
  Windows-Cut {out} {taken} h = record {
    unsent = [];
    before = taken;
    later = [];
    whole = subst (λ x. Windows x taken) (sym (append-nil out)) h;
    all_taken = sym (append-nil taken);
  }

  pub Stage-Cut :
      {out : List ClipboardPayload} {taken : List ObservedEvent} (p : Processor)
      → Stage p out taken
      → Cut out taken
  Stage-Cut asleep h = Windows-Cut h
  Stage-Cut idle h = Windows-Cut h
  Stage-Cut (collecting batch) h = Open-Cut h
  Stage-Cut (texting batch) h = Open-Cut h
  Stage-Cut (emitting_text p batch) (h, _) = Open-Cut h
  Stage-Cut {out} {taken} (imaging batch) (sent, now, o, e) = record {
    unsent = emit_image media w now (lookup image_bucket batch);
    before = taken;
    later = [];
    whole = sent_image batch now _ (sent, now, o, e) refl;
    all_taken = sym (append-nil taken);
  }
  Stage-Cut {out} {taken} (emitting_image p) (sent, h, q) = record {
    unsent = p ∷ [];
    before = taken;
    later = [];
    whole = subst (λ x. Windows x taken) q h;
    all_taken = sym (append-nil taken);
  }
  Stage-Cut finished h = h
