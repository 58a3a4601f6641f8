-- ===== src/Osclip/Pending.antt =====
-- internal/osclip/pending.go: the ledger of recently injected clipboard hashes. The mutex makes
-- each method one step. Times are nanoseconds since Go's zero time, and the `int` counter is a
-- natural number: it counts calls of `remember`, and is deleted before it falls below 1.
pub mod Laws
pub mod Expected
pub mod Echo
pub mod Loopback
use clippy.Base.{
  ℕ, suc, ◌+◌, ◌-◌, ◌≡◌, Bool, true, false, ◌&&◌, Option, none, some, List, [], ltb, ◌==◌,
  if◌then◌else◌, refl, subst, ◌↔◌, arith, Eq,
}
use clippy.Base.Bytes.{Bytes, bytes_beq, bytes_beq_iff}
use clippy.Base.Map.{lookup, insert, remove, keep_if}

-- `formatBucket`.
pub data FormatBucket : Type 0 where
  text_bucket image_bucket : FormatBucket

unfoldable pub bucket_beq : FormatBucket → FormatBucket → Bool
bucket_beq text_bucket text_bucket = true
bucket_beq image_bucket image_bucket = true
bucket_beq text_bucket image_bucket = false
bucket_beq image_bucket text_bucket = false

pub record PendingKey : Type 0 where
  pub bucket : FormatBucket
  pub hash : Bytes

pub record PendingEntry : Type 0 where
  pub count : ℕ
  pub expires_at : ℕ

pub record PendingLedger : Type 0 where
  pub ttl : ℕ
  pub entries : List (PendingKey × PendingEntry)

pub bucket_beq_iff : (a b : FormatBucket) → (bucket_beq a b ≡ true) ↔ (a ≡ b)
unfolding bucket_beq
bucket_beq_iff text_bucket text_bucket = (λ _. refl, λ _. refl)
bucket_beq_iff image_bucket image_bucket = (λ _. refl, λ _. refl)
bucket_beq_iff text_bucket image_bucket = (λ h. cc, λ h. cc)
bucket_beq_iff image_bucket text_bucket = (λ h. cc, λ h. cc)

-- `==` on the struct that is the key of the map.
unfoldable pub key_beq : PendingKey → PendingKey → Bool
unfolding bucket_beq
key_beq a b = bucket_beq a.bucket b.bucket && bytes_beq a.hash b.hash

pub key_beq_iff : (a b : PendingKey) → (key_beq a b ≡ true) ↔ (a ≡ b)
key_beq_iff a b = (
  λ h.
      unfold key_beq in
      ground (arith, bucket_beq_iff a.bucket b.bucket, bytes_beq_iff a.hash b.hash),
  λ h.
      subst (λ x. key_beq a x ≡ true) h
        (unfold key_beq in
          ground (
            arith,
            (bucket_beq_iff a.bucket a.bucket).1 refl,
            (bytes_beq_iff a.hash a.hash).1 refl,
          )),
)

instance abbrev pub key_eq : Eq PendingKey
key_eq = record { beq = key_beq; beq_iff = key_beq_iff }

unfoldable pub new_pending_ledger : ℕ → PendingLedger
new_pending_ledger ttl = record { ttl = ttl; entries = [] }

-- `entry.expiresAt.After(now)`.
abbrev pub is_live : ℕ → PendingEntry → Bool
is_live now e = ltb now e.expires_at

unfoldable pub prune_locked : PendingLedger → ℕ → PendingLedger
prune_locked l now = record l { entries = keep_if (is_live now) l.entries }

-- `l.entries[key]`: a missing key reads as the zero entry.
abbrev pub entry_or_zero : Option PendingEntry → PendingEntry
entry_or_zero none = record { count = 0; expires_at = 0 }
entry_or_zero (some e) = e

unfoldable pub remember : PendingLedger → FormatBucket → Bytes → ℕ → PendingLedger
remember l bucket hash now =
    let l' = prune_locked l now in
    let key : PendingKey = record { bucket = bucket; hash = hash } in
    let entry = entry_or_zero (lookup key l'.entries) in
    record l' {
      entries =
          insert key (record { count = entry.count + 1; expires_at = now + l'.ttl }) l'.entries;
    }

-- What `consume` and `forget` do to an entry that is there.
unfoldable pub decrement : PendingLedger → PendingKey → PendingEntry → PendingLedger
decrement l key entry =
    if entry.count - 1 == 0
    then record l { entries = remove key l.entries }
    else record l { entries = insert key (record entry { count = entry.count - 1 }) l.entries }

unfoldable pub consume : PendingLedger → FormatBucket → Bytes → ℕ → PendingLedger × Bool
consume l bucket hash now =
    let l' = prune_locked l now in
    let key : PendingKey = record { bucket = bucket; hash = hash } in
    elim (lookup key l'.entries) [
      | none ↦ (l', false)
      | some entry ↦ (decrement l' key entry, true)
    ]

unfoldable pub forget : PendingLedger → FormatBucket → Bytes → PendingLedger
forget l bucket hash =
    let key : PendingKey = record { bucket = bucket; hash = hash } in
    elim (lookup key l.entries) [ none ↦ l | some entry ↦ decrement l key entry ]
