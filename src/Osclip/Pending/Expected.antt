-- ===== src/Osclip/Pending/Expected.antt =====
-- The ledger as a count of expected echoes: what each method does to the counts, seen at any
-- later time.
use clippy.Base.{
  ℕ, ◌+◌, ◌-◌, ◌<◌, ◌≤◌, ◌≡◌, refl, ap, sym, ◌∙◌, inl, inr, true, Option, none, some, arith, ltb,
  if◌then◌else◌, Bool-cases, Option-cases,
}
use clippy.Base.Bytes.{Bytes}
use clippy.Base.Map.{lookup, insert, filter_value, lookup-insert, lookup-remove}
use clippy.Osclip.Pending.{
  FormatBucket, PendingKey, PendingEntry, PendingLedger, key_beq, key_beq_iff, key_eq, is_live,
  prune_locked, entry_or_zero, remember, decrement, consume, forget,
}
use clippy.Osclip.Pending.Laws.{IsValid, as_key, lookup-prune, prune-IsValid}

abbrev count_of : ℕ → Option PendingEntry → ℕ
count_of now none = 0
count_of now (some e) = if is_live now e then e.count else 0

-- How many echoes of the key the ledger expects at the time `now`.
pub expected : PendingLedger → PendingKey → ℕ → ℕ
expected l k now = count_of now (lookup k l.entries)

-- 1 for the key itself, 0 for another.
abbrev pub share : PendingKey → PendingKey → ℕ
share key k = if key_beq key k then 1 else 0

-- An entry that is pruned counts for nothing later.
count_of-filter :
    (now t : ℕ) (o : Option PendingEntry)
    → now ≤ t
    → count_of t (filter_value (is_live now) o) ≡ count_of t o
count_of-filter now t none h = refl
count_of-filter now t (some e) h = ground arith

expected-prune :
    (l : PendingLedger) (now t : ℕ) (k : PendingKey)
    → IsValid l
    → now ≤ t
    → expected (prune_locked l now) k t ≡ expected l k t
unfolding expected
expected-prune l now t k v h =
    ap (count_of t) (lookup-prune l now k v) ∙ count_of-filter now t (lookup k l.entries) h

-- What is left after a prune is live.
entry_or_zero-count :
    (now : ℕ) (o : Option PendingEntry)
    → (entry_or_zero (filter_value (is_live now) o)).count ≡ count_of now o
entry_or_zero-count now none = refl
entry_or_zero-count now (some e) = ground arith

expected-decrement :
    (l : PendingLedger) (key : PendingKey) (e : PendingEntry) (k : PendingKey) (t : ℕ)
    → lookup key l.entries ≡ some e
    → expected (decrement l key e) k t ≡ expected l k t - share key k
unfolding expected decrement
expected-decrement l key e k t here = ground (
  arith,
  key_beq_iff key k,
  lookup-remove key k l.entries,
  lookup-insert key k (record e { count = e.count - 1 }) l.entries,
)

prune-ttl :
    (l : PendingLedger) (now t : ℕ)
    → t < now + l.ttl
    → ltb t (now + (prune_locked l now).ttl) ≡ true
unfolding prune_locked
prune-ttl l now t h = ground arith

absent-share :
    (l : PendingLedger) (key k : PendingKey) (t : ℕ)
    → lookup key l.entries ≡ none
    → expected l k t ≡ expected l k t - share key k
unfolding expected
absent-share l key k t gone = ground (arith, key_beq_iff key k)

found-count :
    (now : ℕ) (o : Option PendingEntry) (e : PendingEntry)
    → filter_value (is_live now) o ≡ some e
    → count_of now o ≡ e.count
found-count now none e h = cc
found-count now (some e') e h = ground arith

expected-found :
    (l : PendingLedger) (now : ℕ) (k : PendingKey) (e : PendingEntry)
    → IsValid l
    → lookup k (prune_locked l now).entries ≡ some e
    → (expected l k now ≡ e.count) × (0 < e.count)
unfolding expected
expected-found l now k e v here = (
  found-count now (lookup k l.entries) e (sym (lookup-prune l now k v) ∙ here),
  (prune-IsValid l now v).positive k e here,
)

expected-gone :
    (l : PendingLedger) (now : ℕ) (k : PendingKey)
    → IsValid l
    → lookup k (prune_locked l now).entries ≡ none
    → expected l k now ≡ 0
expected-gone l now k v gone =
    sym (expected-prune l now now k v (omega arith)) ∙ (unfold expected in ap (count_of now) gone)

-- After `remember` at the time `now` on a valid ledger, and until the TTL has passed, the ledger
-- expects one echo more of that bucket and hash than it did at `now`, and of every other as many
-- as it would have.
pub expected-remember :
    (l : PendingLedger) (b : FormatBucket) (h : Bytes) (now t : ℕ) (k : PendingKey)
    → IsValid l
    → now ≤ t
    → t < now + l.ttl
    → expected (remember l b h now) k t
      ≡ (if key_beq (as_key b h) k then expected l k now + 1 else expected l k t)
unfolding expected remember
expected-remember l b h now t k v le lt =
    let key = as_key b h in
    let l' = prune_locked l now in
    let entry = entry_or_zero (lookup key l'.entries) in
    let fresh : PendingEntry = record { count = entry.count + 1; expires_at = now + l'.ttl } in
    let counted : entry.count ≡ count_of now (lookup key l.entries) =
      ap (λ o. (entry_or_zero o).count) (lookup-prune l now key v)
      ∙ entry_or_zero-count now (lookup key l.entries) in
    elim (Bool-cases (key_beq key k)) [
      | inl same ↦
          let e : key ≡ k = (key_beq_iff key k).0 same in
          let found : lookup k (insert key fresh l'.entries) ≡ some fresh =
            lookup-insert key k fresh l'.entries ∙ (rw same) in
          let live : is_live t fresh ≡ true = prune-ttl l now t lt in
          rw (found, same, live, counted) (ap (λ x. count_of now (lookup x l.entries) + 1) e)
      | inr other ↦
          let found : lookup k (insert key fresh l'.entries) ≡ lookup k l'.entries =
            lookup-insert key k fresh l'.entries ∙ (rw other) in
          rw (found, other) (unfold expected in expected-prune l now t k v le)
    ]

-- On a valid ledger `consume` returns true exactly when the ledger expects an echo of that
-- bucket and hash, and takes one off that count (which stops at 0), as seen now or at any later
-- time; the other counts stay.
expected-consume :
    (l : PendingLedger) (b : FormatBucket) (h : Bytes) (now t : ℕ) (k : PendingKey)
    → IsValid l
    → now ≤ t
    → ((consume l b h now).1 ≡ ltb 0 (expected l (as_key b h) now))
      × (expected (consume l b h now).0 k t ≡ expected l k t - share (as_key b h) k)
expected-consume l b h now t k v le =
    elim (Option-cases (lookup (as_key b h) (prune_locked l now).entries)) [
      | inl gone ↦
          unfold consume in
          rw (gone, consume)
            (
              ground (arith, expected-gone l now (as_key b h) v gone),
              absent-share _ (as_key b h) k t gone
                  ∙ ap (λ n. n - share (as_key b h) k) (expected-prune l now t k v le),
            )
      | inr (e, here) ↦
          unfold consume in
          rw (here, consume)
            (
              ground (arith, expected-found l now (as_key b h) e v here),
              expected-decrement _ (as_key b h) e k t here
                  ∙ ap (λ n. n - share (as_key b h) k) (expected-prune l now t k v le),
            )
    ]

-- `forget` takes one off the count of that bucket and hash at any time; the others stay.
pub expected-forget :
    (l : PendingLedger) (b : FormatBucket) (h : Bytes) (t : ℕ) (k : PendingKey)
    → expected (forget l b h) k t ≡ expected l k t - share (as_key b h) k
expected-forget l b h t k = elim (Option-cases (lookup (as_key b h) l.entries)) [
  | inl gone ↦ unfold forget in rw (gone, forget) (absent-share l (as_key b h) k t gone)
  | inr (e, here) ↦
      unfold forget in rw (here, forget) (expected-decrement l (as_key b h) e k t here)
]
