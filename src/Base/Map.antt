-- ===== src/Base/Map.antt =====
-- Go's `map`: an association list with one entry for each key. The order of the entries is
-- the order in which a `range` loop meets them; no law below depends on it.
use clippy.Base.Tests.{if◌then◌else◌, Eq, beq_refl, beq_ne}
use clippy.Base.Lists.{length}
use Prim.Native.Nat.{suc}
use mathlib.Core.Path.{◌≡◌, refl}
use mathlib.Core.Bool.{Bool}
use mathlib.Core.Logic.{◌≢◌}
use mathlib.Core.Option.{Option, none, some}
use mathlib.Core.List.{List, [], ◌∷◌}
use native.Mathlib.Omega.{arith}

-- An entry that the test accepts.
abbrev pub filter_value : {V : Type 0} → (V → Bool) → Option V → Option V
filter_value p none = none
filter_value p (some v) = if p v then some v else none

module _ {K V : Type 0} ⦃e : Eq K⦄ where
  -- `v, ok := m[k]`.
  unfoldable pub lookup : K → List (K × V) → Option V
  lookup k [] = none
  lookup k ((j, v) ∷ m) = if e.beq j k then some v else lookup k m

  -- `m[k] = v`.
  unfoldable pub insert : K → V → List (K × V) → List (K × V)
  insert k v [] = (k, v) ∷ []
  insert k v ((j, w) ∷ m) = if e.beq j k then (k, v) ∷ m else (j, w) ∷ insert k v m

  -- `delete(m, k)`.
  unfoldable pub remove : K → List (K × V) → List (K × V)
  remove k [] = []
  remove k ((j, w) ∷ m) = if e.beq j k then remove k m else (j, w) ∷ remove k m

  pub lookup-insert :
      (k j : K) (v : V) (m : List (K × V))
      → lookup j (insert k v m) ≡ (if e.beq k j then some v else lookup j m)
  unfolding lookup insert
  lookup-insert k j v [] = refl
  lookup-insert k j v ((i, w) ∷ m) =
      ground (arith, e.beq_iff k j, e.beq_iff i k, e.beq_iff i j, lookup-insert k j v m)

  pub lookup-remove :
      (k j : K) (m : List (K × V))
      → lookup j (remove k m) ≡ (if e.beq k j then none else lookup j m)
  unfolding lookup remove
  lookup-remove k j [] = ground arith
  lookup-remove k j ((i, w) ∷ m) =
      ground (arith, e.beq_iff k j, e.beq_iff i k, e.beq_iff i j, lookup-remove k j m)

  pub lookup-insert_self : (k : K) (v : V) (m : List (K × V)) → lookup k (insert k v m) ≡ some v
  lookup-insert_self k v m = rw (lookup-insert k k v m, beq_refl k)

  pub lookup-insert_ne :
      (k j : K) (v : V) (m : List (K × V)) → k ≢ j → lookup j (insert k v m) ≡ lookup j m
  lookup-insert_ne k j v m h = rw (lookup-insert k j v m, beq_ne k j h)

  pub lookup-remove_self : (k : K) (m : List (K × V)) → lookup k (remove k m) ≡ none
  lookup-remove_self k m = rw (lookup-remove k k m, beq_refl k)

  pub lookup-remove_ne : (k j : K) (m : List (K × V)) → k ≢ j → lookup j (remove k m) ≡ lookup j m
  lookup-remove_ne k j m h = rw (lookup-remove k j m, beq_ne k j h)

  pub length-insert_new :
      (k : K) (v : V) (m : List (K × V))
      → lookup k m ≡ none
      → length (insert k v m) ≡ suc (length m)
  unfolding lookup insert
  length-insert_new k v [] h = refl
  length-insert_new k v ((i, w) ∷ m) h = ground (arith, length-insert_new k v m)

  -- No key has two entries.
  abbrev pub Distinct : List (K × V) → Type 0
  Distinct [] = Unit {0}
  Distinct ((k, v) ∷ m) = (lookup k m ≡ none) × Distinct m

  -- The entries whose value passes the test: a `range` loop that deletes the others.
  unfoldable pub keep_if : (V → Bool) → List (K × V) → List (K × V)
  keep_if p [] = []
  keep_if p ((j, v) ∷ m) = if p v then (j, v) ∷ keep_if p m else keep_if p m

  keep_if_absent :
      (p : V → Bool) (k : K) (m : List (K × V)) → lookup k m ≡ none → lookup k (keep_if p m) ≡ none
  unfolding lookup keep_if
  keep_if_absent p k [] h = refl
  keep_if_absent p k ((j, v) ∷ m) h = ground (arith, keep_if_absent p k m)

  pub lookup-keep_if :
      (p : V → Bool) (k : K) (m : List (K × V))
      → Distinct m
      → lookup k (keep_if p m) ≡ filter_value p (lookup k m)
  unfolding lookup keep_if
  lookup-keep_if p k [] d = refl
  lookup-keep_if p k ((j, v) ∷ m) d =
      ground (arith, e.beq_iff j k, keep_if_absent p k m, lookup-keep_if p k m d.1, d.0)

  pub keep_if-Distinct : (p : V → Bool) (m : List (K × V)) → Distinct m → Distinct (keep_if p m)
  unfolding keep_if
  keep_if-Distinct p [] d = tt
  keep_if-Distinct p ((j, v) ∷ m) d =
      ground (arith, keep_if_absent p j m d.0, keep_if-Distinct p m d.1)

  pub insert-Distinct : (k : K) (v : V) (m : List (K × V)) → Distinct m → Distinct (insert k v m)
  unfolding insert lookup
  insert-Distinct k v [] d = (refl, tt)
  insert-Distinct k v ((j, w) ∷ m) d =
      ground (arith, e.beq_iff j k, e.beq_iff k j, lookup-insert k j v m, insert-Distinct k v m d.1)

  pub remove-Distinct : (k : K) (m : List (K × V)) → Distinct m → Distinct (remove k m)
  unfolding remove
  remove-Distinct k [] d = tt
  remove-Distinct k ((j, w) ∷ m) d = ground (arith, lookup-remove k j m, remove-Distinct k m d.1)
