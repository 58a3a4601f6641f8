-- ===== src/Osclip/Manager/Remote.antt =====
-- A remote payload reaches the clipboard once, and its echo is not sent back.
use clippy.Base.{
  ℕ, ◌+◌, ◌<◌, ◌≡◌, ◌≢◌, refl, ap, ◌∙◌, subst, Bool, true, false, none, some, List, arith, ok, err,
  Result, All, ◌⊎◌, inl, inr, Bool-cases, Result-cases,
}
use clippy.Base.Bytes.{Bytes, codes, bytes_beq_iff}
use clippy.Clipwire.Types.{
  PayloadType, unspecified, text, url, image, other, ClipboardPayload, Wire,
}
use clippy.Clipwire.Payload.{validate_payload, compute_content_sha256}
use clippy.Clipwire.Payload.Laws.{IsWellFormed, validate_payload_iff}
use clippy.Osclip.Pending.{
  text_bucket, image_bucket, PendingKey, PendingLedger, remember, consume, forget, key_beq_iff,
}
use clippy.Osclip.Pending.Laws.{IsValid, as_key}
use clippy.Osclip.Pending.Expected.{expected, expected-remember, expected-forget}
use clippy.Osclip.Pending.Echo.{Call}
use clippy.Osclip.Pending.Loopback.{IsOther, run, echo_suppressed}
use clippy.Osclip.Manager.{
  Media, WritePlan, Applied, normalize_kind, normalize_image_bytes, normalize_write_payload,
  write_plan, fmt_text, fmt_image, OsclipError, clip, apply_remote, watch_value, write_failed,
}

-- What is written for a payload, and in which format: the bytes of a text, a URL or a PNG as they
-- are, and the PNG made of a JPEG.
abbrev pub PlanFits : Media → ClipboardPayload → WritePlan → Type 0
PlanFits media p plan =
    ((plan.format ≡ fmt_text)
      × (plan.bucket ≡ text_bucket)
      × (plan.content ≡ p.data')
      × ((p.type ≡ text) ⊎ (p.type ≡ url)))
    ⊎ ((plan.format ≡ fmt_image)
        × (plan.bucket ≡ image_bucket)
        × (p.type ≡ image)
        × (((p.mime_type ≡ codes "image/png") × (plan.content ≡ p.data'))
            ⊎ ((p.mime_type ≡ codes "image/jpeg") × (media.transcode p.data' ≡ some plan.content))))

normalize_image_bytes_lem :
    (media : Media) (content mime bytes : Bytes)
    → normalize_image_bytes media content mime ≡ ok bytes
    → ((mime ≡ codes "image/png") × (bytes ≡ content))
      ⊎ ((mime ≡ codes "image/jpeg") × (media.transcode content ≡ some bytes))
unfolding normalize_image_bytes
normalize_image_bytes_lem media content mime bytes h =
    ground (arith, bytes_beq_iff mime (codes "image/png"), bytes_beq_iff mime (codes "image/jpeg"))

normalize_fits :
    (media : Media) (k : PayloadType) (p : ClipboardPayload) (plan : WritePlan)
    → p.type ≡ k
    → normalize_kind media k p ≡ ok plan
    → PlanFits media p plan
unfolding normalize_kind
normalize_fits media text p plan e h = inl (ground arith, ground arith, ground arith, inl e)
normalize_fits media url p plan e h = inl (ground arith, ground arith, ground arith, inr e)
normalize_fits media image p plan e h = inr (
  ground arith,
  ground arith,
  e,
  normalize_image_bytes_lem media p.data' p.mime_type plan.content (ground arith),
)
normalize_fits media unspecified p plan e h = cc
normalize_fits media (other n) p plan e h = cc

module _ (media : Media) (w : Wire) (accepts : WritePlan → Bool) (now : ℕ) (l : PendingLedger)
    (p : ClipboardPayload) where
  abbrev applied : Applied
  applied = apply_remote media w false accepts now l (some p)

  -- The three outcomes of a call with a live context.
  data Outcome : Type 0 where
    refused :
        (e : OsclipError)
        → applied ≡ record { pending = l; written = none; error = some e }
        → Outcome
    wrote :
        (plan : WritePlan)
        → validate_payload w (some p) ≡ ok tt
        → normalize_write_payload media p ≡ ok plan
        → accepts plan ≡ true
        → applied ≡ record {
          pending = remember l plan.bucket (compute_content_sha256 w plan.content) now;
          written = some plan;
          error = none;
        }
        → Outcome
    rejected :
        (plan : WritePlan)
        → applied ≡ record {
          pending =
              forget
                (remember l plan.bucket (compute_content_sha256 w plan.content) now)
                plan.bucket
                (compute_content_sha256 w plan.content);
          written = none;
          error = some write_failed;
        }
        → Outcome

  planned :
      (plan : WritePlan)
      → validate_payload w (some p) ≡ ok tt
      → normalize_write_payload media p ≡ ok plan
      → applied ≡ write_plan media w accepts now l plan
  planned plan v n = unfold apply_remote in rw (v, apply_remote) (rw n)

  outcome_of_plan :
      (r : Result OsclipError WritePlan)
      → validate_payload w (some p) ≡ ok tt
      → normalize_write_payload media p ≡ r
      → Outcome
  outcome_of_plan (err e) v n = refused e (unfold apply_remote in rw (v, apply_remote) (rw n))
  outcome_of_plan (ok plan) v n = elim (Bool-cases (accepts plan)) [
    | inl yes' ↦ wrote plan v n yes' (planned plan v n ∙ (unfold write_plan in rw yes'))
    | inr no' ↦ rejected plan (planned plan v n ∙ (unfold write_plan in rw no'))
  ]

  outcome : Outcome
  outcome = elim (Result-cases (validate_payload w (some p))) [
    | inl v ↦ outcome_of_plan (normalize_write_payload media p) v refl
    | inr (e, v) ↦ refused (clip e) (unfold apply_remote in rw (v, apply_remote))
  ]

  -- A call of `ApplyRemote` with a live context that writes found the payload well formed; it
  -- writes what fits it (the bytes of a text or a URL as text; as an image, the bytes of a payload
  -- of the type image/png, and of one of the type image/jpeg the PNG made of them), once and where
  -- the backend takes it; it returns no error and leaves the ledger with the written hash
  -- remembered.
  pub apply_remote_writes :
      (plan : WritePlan)
      → applied.written ≡ some plan
      → IsWellFormed w p
        × PlanFits media p plan
        × (accepts plan ≡ true)
        × (applied.error ≡ none)
        × (applied.pending ≡ remember l plan.bucket (compute_content_sha256 w plan.content) now)
  unfolding normalize_write_payload
  apply_remote_writes plan h = elim outcome [
    | refused e a ↦ let b = ap (λ x. x.written) a in cc
    | rejected q a ↦ let b = ap (λ x. x.written) a in cc
    | wrote q v n acc a ↦
        let same : q ≡ plan = ground (arith, ap (λ x. x.written) a) in
        subst
          (λ x.
            IsWellFormed w p
            × PlanFits media p x
            × (accepts x ≡ true)
            × (applied.error ≡ none)
            × (applied.pending ≡ remember l x.bucket (compute_content_sha256 w x.content) now))
          same
          (
            (validate_payload_iff w p).0 v,
            normalize_fits media p.type p q refl n,
            acc,
            ap (λ x. x.error) a,
            ap (λ x. x.pending) a,
          )
  ]

  -- If the ledger is valid and its TTL positive, a call with a live context that writes nothing
  -- returns an error and leaves the number of echoes that the ledger then expects of any bucket
  -- and hash as it was.
  pub apply_remote_fails :
      (k : PendingKey)
      → IsValid l
      → 0 < l.ttl
      → applied.written ≡ none
      → (applied.error ≢ none) × (expected applied.pending k now ≡ expected l k now)
  apply_remote_fails k v ttl h = elim outcome [
    | refused e a ↦ (λ n. let b = ap (λ x. x.error) a in cc, ap (λ x. expected x.pending k now) a)
    | wrote q _ _ _ a ↦ let b = ap (λ x. x.written) a in cc
    | rejected q a ↦ (
      λ n. let b = ap (λ x. x.error) a in cc,
      ap (λ x. expected x.pending k now) a
          ∙ expected-forget _ q.bucket (compute_content_sha256 w q.content) now k
          ∙ ground (
            arith,
            key_beq_iff (as_key q.bucket (compute_content_sha256 w q.content)) k,
            expected-remember l q.bucket (compute_content_sha256 w q.content) now now k v
                (omega arith) (omega (arith, ttl)),
          ),
    )
  ]

  -- A remote write does not come back: what a call wrote with a valid ledger, read again by the
  -- watcher of its format before the TTL has passed, becomes no local event, after any calls of
  -- the ledger for other buckets or hashes before that time.
  pub no_echo :
      (plan : WritePlan) (later : ℕ) (cs : List Call)
      → IsValid l
      → applied.written ≡ some plan
      → All (IsOther (as_key plan.bucket (compute_content_sha256 w plan.content)) (now + l.ttl)) cs
      → later < now + l.ttl
      → (watch_value media w plan.bucket later (run applied.pending cs) (some plan.content)).1
        ≡ none
  unfolding watch_value
  no_echo plan later cs v h others lt =
      let (_, _, _, _, left) = apply_remote_writes plan h in
      let hash = compute_content_sha256 w plan.content in
      let mine = echo_suppressed l plan.bucket hash now later cs v others lt in
      let seen : (consume (run applied.pending cs) plan.bucket hash later).1 ≡ true =
        ap (λ x. (consume (run x cs) plan.bucket hash later).1) left ∙ mine in
      rw seen
