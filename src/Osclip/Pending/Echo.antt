-- ===== src/Osclip/Pending/Echo.antt =====
-- Histories of the ledger, and the balance between injections and suppressed echoes.
use clippy.Base.{
  ℕ, ◌+◌, ◌-◌, ◌<◌, ◌≤◌, ◌≡◌, refl, ap, ◌∙◌, inl, inr, Bool, true, false, Option, none, some, List,
  [], ◌∷◌, arith, if◌then◌else◌, Bool-cases, Option-cases,
}
use clippy.Base.Bytes.{Bytes}
use clippy.Base.Map.{lookup, insert, filter_value, lookup-insert, lookup-remove}
use clippy.Osclip.Pending.{
  FormatBucket, PendingKey, PendingEntry, PendingLedger, key_beq, key_beq_iff, key_eq,
  new_pending_ledger, is_live, prune_locked, entry_or_zero, remember, decrement, consume, forget,
}
use clippy.Osclip.Pending.Laws.{
  IsValid, as_key, lookup-prune, prune-IsValid, remember-IsValid, consume-IsValid, forget-IsValid,
}

-- A call of a method, with its clock reading.
pub data Call : Type 0 where
  remembers consumes : FormatBucket → Bytes → ℕ → Call
  forgets : FormatBucket → Bytes → Call

-- The ledger after a call, and whether the call suppressed an echo.
unfoldable pub step : PendingLedger → Call → PendingLedger × Bool
step l (remembers b h now) = (remember l b h now, false)
step l (consumes b h now) = consume l b h now
step l (forgets b h) = (forget l b h, false)

abbrev one_if : Bool → ℕ
one_if true = 1
one_if false = 0

-- The key that a call is about.
abbrev pub call_key : Call → PendingKey
call_key (remembers b h now) = as_key b h
call_key (consumes b h now) = as_key b h
call_key (forgets b h) = as_key b h

abbrev is_remember : Call → Bool
is_remember (remembers b h now) = true
is_remember _ = false

-- How often `remember` is called for the key.
pub injections : PendingKey → List Call → ℕ
injections k [] = 0
injections k (c ∷ cs) =
    (if key_beq (call_key c) k then one_if (is_remember c) else 0) + injections k cs

-- How often `consume` returns true for the key.
pub suppressions : PendingKey → PendingLedger → List Call → ℕ
suppressions k l [] = 0
suppressions k l (c ∷ cs) =
    (if key_beq (call_key c) k then one_if (step l c).1 else 0) + suppressions k (step l c).0 cs

pub step-IsValid : (l : PendingLedger) (c : Call) → IsValid l → IsValid (step l c).0
unfolding step
step-IsValid l (remembers b h now) v = remember-IsValid l b h now v
step-IsValid l (consumes b h now) v = consume-IsValid l b h now v
step-IsValid l (forgets b h) v = forget-IsValid l b h v

abbrev count_in : Option PendingEntry → ℕ
count_in none = 0
count_in (some e) = e.count

-- The counter of the key, expired or not.
stored : PendingLedger → PendingKey → ℕ
stored l k = count_in (lookup k l.entries)

filter-le :
    (now : ℕ) (o : Option PendingEntry) → count_in (filter_value (is_live now) o) ≤ count_in o
filter-le now none = omega arith
filter-le now (some e) = ground arith

stored-prune :
    (l : PendingLedger) (now : ℕ) (k : PendingKey)
    → IsValid l
    → stored (prune_locked l now) k ≤ stored l k
unfolding stored
stored-prune l now k v = rw (lookup-prune l now k v) (filter-le now (lookup k l.entries))

stored-decrement :
    (l : PendingLedger) (key : PendingKey) (e : PendingEntry) (k : PendingKey)
    → lookup key l.entries ≡ some e
    → 0 < e.count
    → stored (decrement l key e) k + (if key_beq key k then 1 else 0) ≡ stored l k
unfolding stored decrement
stored-decrement l key e k here p = ground (
  arith,
  key_beq_iff key k,
  lookup-remove key k l.entries,
  lookup-insert key k (record e { count = e.count - 1 }) l.entries,
)

count_in-zero : (o : Option PendingEntry) → (entry_or_zero o).count ≡ count_in o
count_in-zero none = refl
count_in-zero (some e) = refl

stored-remember :
    (l : PendingLedger) (b : FormatBucket) (h : Bytes) (now : ℕ) (k : PendingKey)
    → IsValid l
    → stored (remember l b h now) k ≤ stored l k + (if key_beq (as_key b h) k then 1 else 0)
unfolding remember stored
stored-remember l b h now k v =
    let key = as_key b h in
    let l' = prune_locked l now in
    let entry = entry_or_zero (lookup key l'.entries) in
    let fresh : PendingEntry = record { count = entry.count + 1; expires_at = now + l'.ttl } in
    let before = stored-prune l now k v in
    elim (Bool-cases (key_beq key k)) [
      | inl same ↦
          let e : key ≡ k = (key_beq_iff key k).0 same in
          let found : lookup k (insert key fresh l'.entries) ≡ some fresh =
            lookup-insert key k fresh l'.entries ∙ (rw same) in
          let count : entry.count ≡ count_in (lookup k l'.entries) =
            count_in-zero (lookup key l'.entries) ∙ ap (λ x. count_in (lookup x l'.entries)) e in
          rw (found, same) (omega (arith, count, before))
      | inr other ↦
          let found : lookup k (insert key fresh l'.entries) ≡ lookup k l'.entries =
            lookup-insert key k fresh l'.entries ∙ (rw other) in
          rw (found, other) (omega (arith, before))
    ]

count_taken :
    (l : PendingLedger) (b : FormatBucket) (h : Bytes) (now : ℕ) (k : PendingKey)
    → IsValid l
    → (if key_beq (as_key b h) k then one_if (consume l b h now).1 else 0)
        + stored (consume l b h now).0 k
      ≤ stored l k
count_taken l b h now k v =
    let before = stored-prune l now k v in
    elim (Option-cases (lookup (as_key b h) (prune_locked l now).entries)) [
      | inl gone ↦ unfold consume in rw (gone, consume) (ground (arith, before))
      | inr (e, here) ↦
          let p = (prune-IsValid l now v).positive (as_key b h) e here in
          unfold consume in
          rw (here, consume)
            (omega (arith, before, stored-decrement (prune_locked l now) (as_key b h) e k here p))
    ]

count_forgotten :
    (l : PendingLedger) (b : FormatBucket) (h : Bytes) (k : PendingKey)
    → IsValid l
    → stored (forget l b h) k ≤ stored l k
count_forgotten l b h k v = elim (Option-cases (lookup (as_key b h) l.entries)) [
  | inl gone ↦ unfold forget in rw (gone, forget) (omega arith)
  | inr (e, here) ↦
      unfold forget in
      rw (here, forget)
        (omega (arith, stored-decrement l (as_key b h) e k here (v.positive (as_key b h) e here)))
]

pub new-IsValid : (ttl : ℕ) → IsValid (new_pending_ledger ttl)
unfolding new_pending_ledger lookup
new-IsValid ttl = record { distinct = tt; positive = λ k e h. cc }

new-stored : (ttl : ℕ) (k : PendingKey) → stored (new_pending_ledger ttl) k ≡ 0
unfolding new_pending_ledger lookup stored
new-stored ttl k = refl

-- A suppression costs an injection: the counter of a key plus the suppressions never outgrow
-- the counter before plus the injections.
step-stored :
    (l : PendingLedger) (c : Call) (k : PendingKey)
    → IsValid l
    → (if key_beq (call_key c) k then one_if (step l c).1 else 0) + stored (step l c).0 k
      ≤ stored l k + (if key_beq (call_key c) k then one_if (is_remember c) else 0)
unfolding step
step-stored l (remembers b h now) k v = ground (arith, stored-remember l b h now k v)
step-stored l (consumes b h now) k v = ground (arith, count_taken l b h now k v)
step-stored l (forgets b h) k v = ground (arith, count_forgotten l b h k v)

suppressions-le :
    (k : PendingKey) (cs : List Call) (l : PendingLedger)
    → IsValid l
    → suppressions k l cs ≤ stored l k + injections k cs
unfolding suppressions injections
suppressions-le k [] l v = omega arith
suppressions-le k (c ∷ cs) l v =
    omega (arith, step-stored l c k v, suppressions-le k cs (step l c).0 (step-IsValid l c v))

-- Over any history of a new ledger, with any clock readings, `consume` returns true for a bucket
-- and hash at most as often as `remember` was called for them.
pub suppressions-le-injections :
    (ttl : ℕ) (k : PendingKey) (cs : List Call)
    → suppressions k (new_pending_ledger ttl) cs ≤ injections k cs
suppressions-le-injections ttl k cs =
    omega (arith, suppressions-le k cs (new_pending_ledger ttl) (new-IsValid ttl), new-stored ttl k)
