-- ===== src/Osclip/Pending/Loopback.antt =====
-- An injection's echo is suppressed, whatever happens to other clipboard contents in between.
use clippy.Base.{
  ℕ, ◌+◌, ◌-◌, ◌<◌, ◌≤◌, ◌≡◌, ◌≢◌, ◌∙◌, inl, inr, true, some, List, [], ◌∷◌, arith, Option-cases,
  All,
}
use clippy.Base.Bytes.{Bytes}
use clippy.Base.Map.{lookup, lookup-insert, lookup-remove, lookup-insert_ne, lookup-insert_self}
use clippy.Osclip.Pending.{
  FormatBucket, PendingKey, PendingEntry, PendingLedger, key_beq_iff, key_eq, prune_locked,
  remember, decrement, consume, forget,
}
use clippy.Osclip.Pending.Laws.{IsValid, as_key, lookup-prune, remember-IsValid}
use clippy.Osclip.Pending.Echo.{Call, remembers, consumes, forgets, step, step-IsValid}

-- The ledger holds an entry for the key that lasts until `deadline`.
abbrev Armed : PendingKey → ℕ → PendingLedger → Type 0
Armed k deadline l = (e : PendingEntry) × (lookup k l.entries ≡ some e) × (deadline ≤ e.expires_at)

-- A call for another key before the deadline.
abbrev pub IsOther : PendingKey → ℕ → Call → Type 0
IsOther k deadline (remembers b h now) = (as_key b h ≢ k) × (now < deadline)
IsOther k deadline (consumes b h now) = (as_key b h ≢ k) × (now < deadline)
IsOther k deadline (forgets b h) = as_key b h ≢ k

Armed-prune :
    (k : PendingKey) (deadline now : ℕ) (l : PendingLedger)
    → IsValid l
    → now < deadline
    → Armed k deadline l
    → Armed k deadline (prune_locked l now)
Armed-prune k deadline now l v lt (e, here, late) =
    (e, lookup-prune l now k v ∙ (rw here (ground arith)), late)

Armed-decrement :
    (k key : PendingKey) (deadline : ℕ) (l : PendingLedger) (e : PendingEntry)
    → key ≢ k
    → Armed k deadline l
    → Armed k deadline (decrement l key e)
unfolding decrement
Armed-decrement k key deadline l e ne (e', here, late) = (
  e',
  ground (
    arith,
    key_beq_iff key k,
    lookup-remove key k l.entries,
    lookup-insert key k (record e { count = e.count - 1 }) l.entries,
  ),
  late,
)

step-Armed :
    (k : PendingKey) (deadline : ℕ) (l : PendingLedger) (c : Call)
    → IsValid l
    → IsOther k deadline c
    → Armed k deadline l
    → Armed k deadline (step l c).0
unfolding step remember
step-Armed k deadline l (remembers b h now) v (ne, lt) a =
    let (e, here, late) = Armed-prune k deadline now l v lt a in
    (e, lookup-insert_ne (as_key b h) k _ _ ne ∙ here, late)
step-Armed k deadline l (consumes b h now) v (ne, lt) a =
    let a' = Armed-prune k deadline now l v lt a in
    elim (Option-cases (lookup (as_key b h) (prune_locked l now).entries)) [
      | inl gone ↦ unfold consume in rw (gone, consume) a'
      | inr (e, here) ↦
          unfold consume in rw (here, consume) (Armed-decrement k (as_key b h) deadline _ e ne a')
    ]
step-Armed k deadline l (forgets b h) v ne a = elim (Option-cases (lookup (as_key b h) l.entries)) [
  | inl gone ↦ unfold forget in rw (gone, forget) a
  | inr (e, here) ↦
      unfold forget in rw (here, forget) (Armed-decrement k (as_key b h) deadline l e ne a)
]

-- The ledger after a history.
unfoldable pub run : PendingLedger → List Call → PendingLedger
run l [] = l
run l (c ∷ cs) = run (step l c).0 cs

run-Armed :
    (k : PendingKey) (deadline : ℕ) (cs : List Call) (l : PendingLedger)
    → IsValid l
    → All (IsOther k deadline) cs
    → Armed k deadline l
    → Armed k deadline (run l cs) × IsValid (run l cs)
unfolding run
run-Armed k deadline [] l v o a = (a, v)
run-Armed k deadline (c ∷ cs) l v o a =
    run-Armed k deadline cs (step l c).0 (step-IsValid l c v) o.1
      (step-Armed k deadline l c v o.0 a)

Armed-consume :
    (b : FormatBucket) (h : Bytes) (deadline now : ℕ) (l : PendingLedger)
    → IsValid l
    → now < deadline
    → Armed (as_key b h) deadline l
    → (consume l b h now).1 ≡ true
unfolding consume
Armed-consume b h deadline now l v lt a =
    let (e, here, late) = Armed-prune (as_key b h) deadline now l v lt a in rw (here, consume)

remember-Armed :
    (l : PendingLedger) (b : FormatBucket) (h : Bytes) (now : ℕ)
    → Armed (as_key b h) (now + l.ttl) (remember l b h now)
unfolding remember prune_locked
remember-Armed l b h now = (_, lookup-insert_self (as_key b h) _ _, omega arith)

-- A remote write is not echoed: after `remember` at the time `now` on a valid ledger, and after
-- any calls for other buckets or hashes, `consume` returns true for the written bytes as long as
-- all of that happens before the TTL has passed.
pub echo_suppressed :
    (l : PendingLedger) (b : FormatBucket) (h : Bytes) (now later : ℕ) (cs : List Call)
    → IsValid l
    → All (IsOther (as_key b h) (now + l.ttl)) cs
    → later < now + l.ttl
    → (consume (run (remember l b h now) cs) b h later).1 ≡ true
echo_suppressed l b h now later cs v o lt =
    let (a, v') =
      run-Armed (as_key b h) (now + l.ttl) cs (remember l b h now) (remember-IsValid l b h now v) o
        (remember-Armed l b h now) in
    Armed-consume b h (now + l.ttl) later _ v' lt a
