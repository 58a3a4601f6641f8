-- ===== src/Osclip/Manager/Local.antt =====
-- What one coalescing window of local clipboard changes becomes.
use clippy.Base.{
  ◌≡◌, refl, ap, ap₂, sym, subst, Option, none, some, List, [], ◌∷◌, ◌++◌, arith, ◌≤◌, length,
  length-append, All-append, ok, err, Result, All, if◌then◌else◌,
}
use clippy.Base.Bytes.{codes}
use clippy.Base.Int.{ℤ}
use clippy.Base.Map.{lookup, insert, lookup-insert}
use clippy.Clipwire.Types.{image, ClipboardPayload, ClipError, Wire}
use clippy.Clipwire.Payload.{build_payload}
use clippy.Clipwire.Payload.Laws.{IsWellFormed, new_sound}
use clippy.Osclip.Pending.{FormatBucket, text_bucket, image_bucket, bucket_beq}
use clippy.Osclip.Manager.{
  Media, ObservedEvent, bucket_eq, coalesce, emitted, classify_text_payload, build_text_payload,
  emit_text, emit_image, process_window,
}

-- The last event of a bucket.
pub latest : FormatBucket → List ObservedEvent → Option ObservedEvent
latest b [] = none
latest b (e ∷ es) = elim (latest b es) [
  | some later ↦ some later
  | none ↦ if bucket_beq e.bucket b then some e else none
]

-- `o`, or `d` where it is missing.
or_else : Option ObservedEvent → Option ObservedEvent → Option ObservedEvent
or_else none d = d
or_else (some e) d = some e

lookup-coalesce :
    (b : FormatBucket) (es : List ObservedEvent) (batch : List (FormatBucket × ObservedEvent))
    → lookup b (coalesce batch es) ≡ or_else (latest b es) (lookup b batch)
unfolding coalesce latest or_else
lookup-coalesce b [] batch = refl
lookup-coalesce b (e ∷ es) batch =
    ground (arith, lookup-coalesce b es (insert e.bucket e batch), lookup-insert e.bucket b e batch)

lookup-window :
    (b : FormatBucket) (first : ObservedEvent) (more : List ObservedEvent)
    → lookup b (coalesce ((first.bucket, first) ∷ []) more) ≡ latest b (first ∷ more)
unfolding latest or_else lookup
lookup-window b first more = ground (arith, lookup-coalesce b more ((first.bucket, first) ∷ []))

emitted_sound :
    (P : ClipboardPayload → Type 0) (r : Result ClipError ClipboardPayload)
    → ((p : ClipboardPayload) → r ≡ ok p → P p)
    → All P (emitted r)
emitted_sound P (ok p) h = (h p refl, tt)
emitted_sound P (err e) h = tt

emitted-length : (r : Result ClipError ClipboardPayload) → length (emitted r) ≤ 1
emitted-length (ok p) = omega arith
emitted-length (err e) = omega arith

module _ (media : Media) (w : Wire) where
  -- A payload that stands for the last text or the last image of the window.
  pub data Tells (es : List ObservedEvent) (p : ClipboardPayload) : Type 0 where
    tells_text :
        (e : ObservedEvent)
        → latest text_bucket es ≡ some e
        → p.data' ≡ e.content
        → p.type ≡ classify_text_payload media e.content
        → Tells es p
    tells_image :
        (e : ObservedEvent)
        → latest image_bucket es ≡ some e
        → p.data' ≡ e.content
        → p.type ≡ image
        → Tells es p

  module _ (text_time image_time : ℤ) (first : ObservedEvent) (more : List ObservedEvent) where
    pub process_window-latest :
        process_window media w text_time image_time first more
        ≡ emit_text media w text_time (latest text_bucket (first ∷ more))
          ++ emit_image media w image_time (latest image_bucket (first ∷ more))
    unfolding process_window
    process_window-latest =
        ap₂ (λ t i. emit_text media w text_time t ++ emit_image media w image_time i)
          (lookup-window text_bucket first more) (lookup-window image_bucket first more)

    text_sound :
        (o : Option ObservedEvent)
        → latest text_bucket (first ∷ more) ≡ o
        → All (λ p. IsWellFormed w p × Tells (first ∷ more) p) (emit_text media w text_time o)
    unfolding emit_text build_text_payload build_payload
    text_sound none h = tt
    text_sound (some e) h = emitted_sound _ _ (λ p made.
        let (same, valid) =
          new_sound w text_time (classify_text_payload media e.content) e.content [] p made in
        (valid, tells_text e h (ap (λ x. x.data') same) (ap (λ x. x.type) same)))

    image_sound :
        (o : Option ObservedEvent)
        → latest image_bucket (first ∷ more) ≡ o
        → All (λ p. IsWellFormed w p × Tells (first ∷ more) p) (emit_image media w image_time o)
    unfolding emit_image build_payload
    image_sound none h = tt
    image_sound (some e) h = emitted_sound _ _ (λ p made.
        let (same, valid) = new_sound w image_time image e.content (codes "image/png") p made in
        (valid, tells_image e h (ap (λ x. x.data') same) (ap (λ x. x.type) same)))

    emit_text-length : (o : Option ObservedEvent) → length (emit_text media w text_time o) ≤ 1
    unfolding emit_text
    emit_text-length none = omega arith
    emit_text-length (some e) = emitted-length _

    emit_image-length : (o : Option ObservedEvent) → length (emit_image media w image_time o) ≤ 1
    unfolding emit_image
    emit_image-length none = omega arith
    emit_image-length (some e) = emitted-length _

    -- What a window sends is well formed, at most two payloads, and each of them has the bytes of
    -- the last text of the window, with the kind that the classifier gives them, or the bytes of
    -- its last image.
    pub process_window_sound :
        let sent = process_window media w text_time image_time first more in
        (length sent ≤ 2) × All (λ p. IsWellFormed w p × Tells (first ∷ more) p) sent
    process_window_sound =
        let texts = latest text_bucket (first ∷ more) in
        let images = latest image_bucket (first ∷ more) in
        subst
          (λ sent. (length sent ≤ 2) × All (λ p. IsWellFormed w p × Tells (first ∷ more) p) sent)
          (sym process_window-latest)
          (
            omega (
              arith,
              length-append (emit_text media w text_time texts)
                  (emit_image media w image_time images),
              emit_text-length texts,
              emit_image-length images,
            ),
            All-append _ (emit_text media w text_time texts) (emit_image media w image_time images)
                (text_sound texts refl) (image_sound images refl),
          )
