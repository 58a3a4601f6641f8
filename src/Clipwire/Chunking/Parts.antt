-- ===== src/Clipwire/Chunking/Parts.antt =====
-- Arithmetic of the parts: slices that join again, and counts over a map of parts.
use clippy.Base.{
  ℕ, zero, suc, ◌+◌, ◌-◌, ◌*◌, ◌≤◌, ◌<◌, ◌≡◌, refl, ap, sym, ◌∙◌, ◌≢◌, Option, none, some, List, [],
  ◌∷◌, ◌++◌, arith, length, take, drop, length-append, length-take, length-drop, Option-cases,
  nat_eq, ◌==◌, ltb, Bool-cases, inl, inr,
}
use clippy.Base.Bytes.{Bytes}
use clippy.Base.Map.{lookup, insert, lookup-insert_self, lookup-insert_ne}
use clippy.Clipwire.Chunking.{min, slice, assemble}

-- The `i`th part of the serialized payload: the slice of round `i`.
abbrev pub part : Bytes → ℕ → ℕ → Bytes
part s size i = slice s (i * size) (min (i * size + size) (length s))

take-append_take {ℓ} :
    {A : Type ℓ} (a b : ℕ) (s : List A) → take a s ++ take b (drop a s) ≡ take (a + b) s
take-append_take zero b s = let e : 0 + b ≡ b = omega arith in rw e
take-append_take (suc a) zero [] = let e : suc a + 0 ≡ suc (a + 0) = omega arith in rw e
take-append_take (suc a) (suc b) [] = let e : suc a + suc b ≡ suc (a + suc b) = omega arith in rw e
take-append_take (suc a) b (x ∷ s) =
    let e : suc a + b ≡ suc (a + b) = omega arith in rw e (ap (◌∷◌ x) (take-append_take a b s))

pub take_all {ℓ} : {A : Type ℓ} (n : ℕ) (s : List A) → length s ≤ n → take n s ≡ s
take_all zero [] h = refl
take_all zero (x ∷ s) h = absurd (omega arith)
take_all (suc n) [] h = refl
take_all (suc n) (x ∷ s) h = ap (◌∷◌ x) (take_all n s (omega arith))

part-take : (s : Bytes) (size i : ℕ) → part s size i ≡ take size (drop (i * size) s)
unfolding min
part-take s size i = elim (Bool-cases (ltb (i * size + size) (length s))) [
  | inl lt ↦ let e : i * size + size - i * size ≡ size = omega arith in rw lt (rw e)
  | inr ge ↦
      let h : length s ≤ i * size + size = ground arith in
      let rest = drop (i * size) s in
      let len = length-drop (i * size) s in
      rw ge (
        take_all (length s - i * size) rest (omega (arith, len))
        ∙ sym (take_all size rest (omega (arith, len))))
]

pub length-part :
    (s : Bytes) (size i : ℕ) → i * size ≤ length s → length (part s size i) ≤ length s - i * size
length-part s size i h = omega (
  arith,
  ap length (part-take s size i),
  length-take size (drop (i * size) s),
  length-drop (i * size) s,
)

pub length-part-le : (s : Bytes) (size i : ℕ) → length (part s size i) ≤ size
length-part-le s size i =
    omega (arith, ap length (part-take s size i), length-take size (drop (i * size) s))

pub part-ne-nil :
    (s : Bytes) (size i : ℕ) → 0 < size → i * size < length s → 0 < length (part s size i)
part-ne-nil s size i p h = omega (
  arith,
  ap length (part-take s size i),
  length-take size (drop (i * size) s),
  length-drop (i * size) s,
)

pub next_part :
    (s : Bytes) (size i : ℕ) → take (i * size) s ++ part s size i ≡ take ((i + 1) * size) s
next_part s size i =
    let e : (i + 1) * size ≡ i * size + size = omega arith in
    rw (e, part-take s size i) (take-append_take (i * size) size s)

-- Where every part from `i` on is in the map, the loop of `Add` joins them.
pub assemble_parts :
    (s : Bytes) (size rounds i total : ℕ) (m : List (ℕ × Bytes))
    → i + rounds ≡ total
    → ((j : ℕ) → j < total → lookup j m ≡ some (part s size j))
    → assemble rounds i m (take (i * size) s) ≡ some (take (total * size) s)
unfolding assemble
assemble_parts s size zero i total m e h = let e' : i ≡ total = omega arith in rw e'
assemble_parts s size (suc rounds) i total m e h =
    rw (h i (omega arith), assemble)
      (rw (next_part s size i) (assemble_parts s size rounds (i + 1) total m (omega arith) h))

-- The sum of `f` over the entries at the keys below `n`.
pub sum_over : (Option Bytes → ℕ) → ℕ → List (ℕ × Bytes) → ℕ
sum_over f zero m = 0
sum_over f (suc n) m = sum_over f n m + f (lookup n m)

sum_over-insert_above :
    (f : Option Bytes → ℕ) (n k : ℕ) (v : Bytes) (m : List (ℕ × Bytes))
    → n ≤ k
    → sum_over f n (insert k v m) ≡ sum_over f n m
unfolding sum_over
sum_over-insert_above f zero k v m h = refl
sum_over-insert_above f (suc n) k v m h = rw (
  sum_over-insert_above f n k v m (omega arith),
  lookup-insert_ne k n v m (λ e. absurd (omega arith)),
)

-- A new entry adds its share.
pub sum_over-insert :
    (f : Option Bytes → ℕ) (n k : ℕ) (v : Bytes) (m : List (ℕ × Bytes))
    → f none ≡ 0
    → k < n
    → lookup k m ≡ none
    → sum_over f n (insert k v m) ≡ sum_over f n m + f (some v)
unfolding sum_over
sum_over-insert f zero k v m z h new = absurd (omega arith)
sum_over-insert f (suc n) k v m z h new = elim (Bool-cases (k == n)) [
  | inl same ↦
      let e : k ≡ n = ground arith in
      rw (← e) (
        rw (sum_over-insert_above f k k v m (omega arith), lookup-insert_self k v m, new, z)
          (omega arith))
  | inr other ↦
      let ne : k ≢ n = ground arith in
      rw (sum_over-insert f n k v m z (ground arith) new, lookup-insert_ne k n v m ne) (omega arith)
]

abbrev pub one : Option Bytes → ℕ
one none = 0
one (some v) = 1

abbrev pub bytes_of : Option Bytes → ℕ
bytes_of none = 0
bytes_of (some v) = length v

pub count-le : (n : ℕ) (m : List (ℕ × Bytes)) → sum_over one n m ≤ n
unfolding sum_over
count-le zero m = omega arith
count-le (suc n) m = ground (arith, count-le n m)

-- A full count leaves no key out.
pub full-present :
    (n : ℕ) (m : List (ℕ × Bytes))
    → sum_over one n m ≡ n
    → (i : ℕ) → i < n
    → (v : Bytes) × (lookup i m ≡ some v)
unfolding sum_over
full-present zero m e i h = absurd (omega arith)
full-present (suc n) m e i h = elim (Option-cases (lookup n m)) [
  | inl gone ↦
      let short : sum_over one n m + 0 ≡ suc n = rw gone at e in
      absurd (omega (arith, count-le n m))
  | inr (v, here) ↦
      let full : sum_over one n m + 1 ≡ suc n = rw here at e in
      elim (Bool-cases (i == n)) [
        | inl same ↦ (v, let e' : i ≡ n = ground arith in rw e' here)
        | inr other ↦ full-present n m (omega arith) i (ground arith)
      ]
]

pub present-full :
    (n : ℕ) (m : List (ℕ × Bytes))
    → ((i : ℕ) → i < n → (v : Bytes) × (lookup i m ≡ some v))
    → sum_over one n m ≡ n
unfolding sum_over
present-full zero m h = refl
present-full (suc n) m h =
    let (v, here) = h n (omega arith) in
    rw here (omega (arith, present-full n m (λ i lt. h i (omega arith))))

pub sum_over-nil : (f : Option Bytes → ℕ) (n : ℕ) → f none ≡ 0 → sum_over f n [] ≡ 0
unfolding sum_over lookup
sum_over-nil f zero z = refl
sum_over-nil f (suc n) z = omega (arith, sum_over-nil f n z)

-- The parts below `n` have as many bytes as the prefix that they make up.
pub bytes_of_parts :
    (s : Bytes) (size n : ℕ) (m : List (ℕ × Bytes))
    → ((j : ℕ) → j < n → lookup j m ≡ some (part s size j))
    → sum_over bytes_of n m ≡ length (take (n * size) s)
unfolding sum_over
bytes_of_parts s size zero m h = let e : 0 * size ≡ 0 = omega arith in rw e
bytes_of_parts s size (suc n) m h =
    let e : suc n * size ≡ (n + 1) * size = omega arith in
    rw (e, h n (omega arith), bytes_of_parts s size n m (λ j lt. h j (omega arith)))
      (sym (length-append (take (n * size) s) (part s size n)) ∙ ap length (next_part s size n))
