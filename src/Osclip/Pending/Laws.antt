-- ===== src/Osclip/Pending/Laws.antt =====
-- The ledger as a count of expected echoes for each bucket and hash.
use clippy.Base.{
  ℕ, ◌-◌, ◌<◌, ◌≡◌, refl, sym, subst, ◌∙◌, inl, inr, Option, none, some, arith, ◌==◌, Bool-cases,
  Option-cases,
}
use clippy.Base.Bytes.{Bytes}
use clippy.Base.Map.{
  lookup, insert, Distinct, filter_value, lookup-insert, lookup-remove, lookup-keep_if,
  keep_if-Distinct, insert-Distinct, remove-Distinct,
}
use clippy.Osclip.Pending.{
  FormatBucket, PendingKey, PendingEntry, PendingLedger, key_beq, key_eq, is_live, prune_locked,
  remember, decrement, consume, forget,
}

-- One entry for each key, and no entry with a count of 0.
pub record IsValid (l : PendingLedger) : Type 0 where
  pub distinct : Distinct l.entries
  pub positive : (k : PendingKey) (e : PendingEntry) → lookup k l.entries ≡ some e → 0 < e.count

abbrev pub as_key : FormatBucket → Bytes → PendingKey
as_key b h = record { bucket = b; hash = h }

pub lookup-prune :
    (l : PendingLedger) (now : ℕ) (k : PendingKey)
    → IsValid l
    → lookup k (prune_locked l now).entries ≡ filter_value (is_live now) (lookup k l.entries)
unfolding prune_locked
lookup-prune l now k v = lookup-keep_if (is_live now) k l.entries v.distinct

pub prune-IsValid : (l : PendingLedger) (now : ℕ) → IsValid l → IsValid (prune_locked l now)
prune-IsValid l now v = record {
  distinct = unfold prune_locked in keep_if-Distinct (is_live now) l.entries v.distinct;
  positive = λ k e found. kept k (lookup k l.entries) refl e (sym (lookup-prune l now k v) ∙ found);
}
  where
    kept :
        (k : PendingKey) (o : Option PendingEntry)
        → lookup k l.entries ≡ o
        → (e : PendingEntry) → filter_value (is_live now) o ≡ some e
        → 0 < e.count
    kept k none h e f = cc
    kept k (some e') h e f =
        let same : e' ≡ e = ground arith in subst (λ x. 0 < x.count) same (v.positive k e' h)

insert-IsValid :
    (l : PendingLedger) (k : PendingKey) (e : PendingEntry)
    → IsValid l
    → 0 < e.count
    → IsValid (record l { entries = insert k e l.entries })
insert-IsValid l k e v p = record {
  distinct = insert-Distinct k e l.entries v.distinct;
  positive = λ j e' found. elim (Bool-cases (key_beq k j)) [
    | inl same ↦
        let eq : e ≡ e' = ground (arith, lookup-insert k j e l.entries) in
        subst (λ x. 0 < x.count) eq p
    | inr other ↦ v.positive j e' (ground (arith, lookup-insert k j e l.entries))
  ];
}

decrement-IsValid :
    (l : PendingLedger) (k : PendingKey) (e : PendingEntry) → IsValid l → IsValid (decrement l k e)
decrement-IsValid l k e v = elim (Bool-cases (e.count - 1 == 0)) [
  | inl last ↦
      unfold decrement in
      rw last (record {
        distinct = remove-Distinct k l.entries v.distinct;
        positive = λ j e' found. v.positive j e' (ground (arith, lookup-remove k j l.entries));
      })
  | inr more ↦ unfold decrement in rw more (insert-IsValid l k _ v (ground arith))
]

pub remember-IsValid :
    (l : PendingLedger) (b : FormatBucket) (h : Bytes) (now : ℕ)
    → IsValid l
    → IsValid (remember l b h now)
unfolding remember
remember-IsValid l b h now v = insert-IsValid _ _ _ (prune-IsValid l now v) (omega arith)

pub consume-IsValid :
    (l : PendingLedger) (b : FormatBucket) (h : Bytes) (now : ℕ)
    → IsValid l
    → IsValid (consume l b h now).0
consume-IsValid l b h now v =
    elim (Option-cases (lookup (as_key b h) (prune_locked l now).entries)) [
      | inl gone ↦ unfold consume in rw (gone, consume) (prune-IsValid l now v)
      | inr (e, here) ↦
          unfold consume in rw (here, consume) (decrement-IsValid _ _ _ (prune-IsValid l now v))
    ]

pub forget-IsValid :
    (l : PendingLedger) (b : FormatBucket) (h : Bytes) → IsValid l → IsValid (forget l b h)
forget-IsValid l b h v = elim (Option-cases (lookup (as_key b h) l.entries)) [
  | inl gone ↦ unfold forget in rw (gone, forget) v
  | inr (e, here) ↦ unfold forget in rw (here, forget) (decrement-IsValid _ _ _ v)
]
