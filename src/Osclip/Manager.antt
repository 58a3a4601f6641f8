-- ===== src/Osclip/Manager.antt =====
-- internal/osclip/manager.go: local clipboard changes become payloads, and remote payloads are
-- written to the clipboard without coming back as local changes.
pub mod Remote
pub mod Local
use clippy.Base.{
  ℕ, ◌+◌, ◌≡◌, Bool, true, false, ◌&&◌, ◌||◌, not, Option, none, some, List, [], ◌∷◌, ◌++◌, map,
  leb, ◌==◌, if◌then◌else◌, Result, ok, err, Eq,
}
use clippy.Base.Bytes.{Bytes, codes, bytes_beq}
use clippy.Base.Int.{ℤ}
use clippy.Base.Map.{lookup, insert}
use clippy.Base.Text.{trim_space}
use clippy.Clipwire.Types.{
  PayloadType, unspecified, text, url, image, other, ClipboardPayload, ClipError,
  invalid_payload_type, invalid_image_mime, Wire,
}
use clippy.Clipwire.Payload.{validate_payload, new_payload, compute_content_sha256}
use clippy.Osclip.Pending.{
  FormatBucket, text_bucket, image_bucket, bucket_beq, bucket_beq_iff, PendingLedger, remember,
  consume, forget,
}

instance abbrev pub bucket_eq : Eq FormatBucket
bucket_eq = record { beq = bucket_beq; beq_iff = bucket_beq_iff }

-- `clipboard.Format`.
pub data ClipFormat : Type 0 where
  fmt_text fmt_image : ClipFormat

pub data OsclipError : Type 0 where
  context_done write_failed transcode_failed : OsclipError
  clip : ClipError → OsclipError

-- What the package calls and does not implement, beside the wire format: `transcode` decodes a
-- JPEG image and encodes it as PNG (`none` is the error of either), and `parse_url` is
-- `url.Parse` with the scheme and the host of its result.
pub record Media : Type 0 where
  pub transcode : Bytes → Option Bytes
  pub parse_url : Bytes → Option (Bytes × Bytes)

abbrev lower : ℕ → ℕ
lower b = if leb b'A' b && leb b b'Z' then b + 32 else b

-- `strings.ToLower`, on the ASCII text that a scheme is.
unfoldable pub to_lower : Bytes → Bytes
to_lower = map lower

abbrev pub is_web_scheme : Bytes → Bool
is_web_scheme s = bytes_beq s (codes "http") || bytes_beq s (codes "https")

pub record WritePlan : Type 0 where
  pub format : ClipFormat
  pub bucket : FormatBucket
  pub content : Bytes

abbrev image_plan : Result OsclipError Bytes → Result OsclipError WritePlan
image_plan (ok png) = ok (record { format = fmt_image; bucket = image_bucket; content = png })
image_plan (err e) = err e

-- What `ApplyRemote` leaves: the ledger, the write that it made, and its error.
pub record Applied : Type 0 where
  pub pending : PendingLedger
  pub written : Option WritePlan
  pub error : Option OsclipError

pub record ObservedEvent : Type 0 where
  pub bucket : FormatBucket
  pub content : Bytes

-- The events of one coalescing window, the first of which opens it.
unfoldable pub coalesce :
    List (FormatBucket × ObservedEvent) → List ObservedEvent → List (FormatBucket × ObservedEvent)
coalesce batch [] = batch
coalesce batch (e ∷ es) = coalesce (insert e.bucket e batch) es

-- A payload that could not be built is dropped.
abbrev pub emitted : Result ClipError ClipboardPayload → List ClipboardPayload
emitted (ok p) = p ∷ []
emitted (err e) = []

module _ (media : Media) where
  unfoldable pub classify_text_payload : Bytes → PayloadType
  classify_text_payload raw =
      if bytes_beq raw [] || not (bytes_beq (trim_space raw) raw)
      then text
      else elim (media.parse_url raw) [
        | none ↦ text
        | some (scheme, host) ↦
            if bytes_beq scheme [] || bytes_beq host []
            then text
            else if is_web_scheme (to_lower scheme)
            then url
            else text
      ]

  unfoldable pub normalize_image_bytes : Bytes → Bytes → Result OsclipError Bytes
  normalize_image_bytes content mime =
      if bytes_beq mime (codes "image/png")
      then ok content
      else if bytes_beq mime (codes "image/jpeg")
      then elim (media.transcode content) [ none ↦ err transcode_failed | some png ↦ ok png ]
      else err (clip invalid_image_mime)

  -- The `switch` of `normalizeWritePayload`.
  unfoldable pub normalize_kind : PayloadType → ClipboardPayload → Result OsclipError WritePlan
  normalize_kind text p = ok (record { format = fmt_text; bucket = text_bucket; content = p.data' })
  normalize_kind url p = ok (record { format = fmt_text; bucket = text_bucket; content = p.data' })
  normalize_kind image p = image_plan (normalize_image_bytes p.data' p.mime_type)
  normalize_kind _ p = err (clip invalid_payload_type)

  unfoldable pub normalize_write_payload : ClipboardPayload → Result OsclipError WritePlan
  normalize_write_payload p = normalize_kind p.type p

  module _ (w : Wire) where
    -- `done` is whether the context has ended, `accepts` whether the backend takes the write, and
    -- `now` the clock.
    unfoldable pub write_plan : (WritePlan → Bool) → ℕ → PendingLedger → WritePlan → Applied
    write_plan accepts now pending plan =
        let hash = compute_content_sha256 w plan.content in
        let remembered = remember pending plan.bucket hash now in
        if accepts plan
        then record { pending = remembered; written = some plan; error = none }
        else record {
          pending = forget remembered plan.bucket hash;
          written = none;
          error = some write_failed;
        }

    unfoldable pub apply_remote :
        Bool → (WritePlan → Bool) → ℕ → PendingLedger → Option ClipboardPayload → Applied
    apply_remote true accepts now pending payload = record {
      pending = pending;
      written = none;
      error = some context_done;
    }
    apply_remote false accepts now pending none = elim (validate_payload w none) [
      | err e ↦ record { pending = pending; written = none; error = some (clip e) }
      | ok _ ↦ record { pending = pending; written = none; error = none }
    ]
    apply_remote false accepts now pending (some p) = elim (validate_payload w (some p)) [
      | err e ↦ record { pending = pending; written = none; error = some (clip e) }
      | ok _ ↦ elim (normalize_write_payload p) [
        | err e ↦ record { pending = pending; written = none; error = some e }
        | ok plan ↦ write_plan accepts now pending plan
      ]
    ]

    -- One value from the watcher of a format: `none` is nil data. The event, if any, goes to the
    -- channel `observed`.
    unfoldable pub watch_value :
        FormatBucket → ℕ → PendingLedger → Option Bytes → PendingLedger × Option ObservedEvent
    watch_value bucket now pending none = (pending, none)
    watch_value bucket now pending (some content) =
        let (pending', mine) = consume pending bucket (compute_content_sha256 w content) now in
        (pending', if mine then none else some (record { bucket = bucket; content = content }))

    unfoldable pub build_text_payload : ℤ → Bytes → Result ClipError ClipboardPayload
    build_text_payload ts content = new_payload w ts (classify_text_payload content) content []

    unfoldable pub emit_text : ℤ → Option ObservedEvent → List ClipboardPayload
    emit_text ts none = []
    emit_text ts (some e) = emitted (build_text_payload ts e.content)

    unfoldable pub emit_image : ℤ → Option ObservedEvent → List ClipboardPayload
    emit_image ts none = []
    emit_image ts (some e) = emitted (new_payload w ts image e.content (codes "image/png"))

    -- What `processObserved` sends to the channel `events` for one window: the text, then the
    -- image. `text_time` and `image_time` are the two readings of the clock.
    unfoldable pub process_window :
        ℤ → ℤ → ObservedEvent → List ObservedEvent → List ClipboardPayload
    process_window text_time image_time first more =
        let batch = coalesce ((first.bucket, first) ∷ []) more in
        emit_text text_time (lookup text_bucket batch)
        ++ emit_image image_time (lookup image_bucket batch)
