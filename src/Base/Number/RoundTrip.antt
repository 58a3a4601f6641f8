-- ===== src/Base/Number/RoundTrip.antt =====
-- A printed integer parses to itself.
use clippy.Base.Tests.{ltb, ◌==◌, Bool-cases}
use clippy.Base.Bytes.{Bytes}
use clippy.Base.Int.{ℤ, pos, negsuc, int64_half}
use clippy.Base.Number.{
  digits, itoa, digit_value, parse_digits, has_underscore, parse_prefixed, parse_uint, signed,
  parse_int,
}
use Prim.Native.Nat.{ℕ, zero, suc, ◌+◌, ◌*◌, ◌/◌, ◌%◌, ◌^◌, ◌<◌}
use mathlib.Core.Bool.{Bool, true, false}
use mathlib.Core.Option.{Option, some}
use mathlib.Core.List.{[], ◌∷◌, ◌++◌}
use mathlib.Core.Logic.{◌≢◌, inl, inr}
use mathlib.Core.Path.{◌≡◌, refl, ap, ◌∙◌}
use native.Mathlib.Omega.{arith}
use native.Mathlib.Nat.{pow-suc}

-- A decimal digit behind others.
parse_digits-snoc :
    (free : Bool) (acc : ℕ) (s : Bytes) (n d : ℕ)
    → parse_digits free 10 acc s ≡ some n
    → d < 10
    → parse_digits free 10 acc (s ++ (b'0' + d) ∷ []) ≡ some (n * 10 + d)
unfolding parse_digits digit_value
parse_digits-snoc free acc [] n d h small = ground arith
parse_digits-snoc free acc (c ∷ cs) n d h small = ground (
  arith,
  parse_digits-snoc free acc cs n d,
  parse_digits-snoc free (acc * 10 + digit_value c) cs n d,
)

parse_digits-digits :
    (free : Bool) (rounds n : ℕ)
    → n < 10 ^ suc rounds
    → parse_digits free 10 0 (digits rounds n) ≡ some n
unfolding digits
parse_digits-digits free zero n h = unfold parse_digits in unfold digit_value in ground arith
parse_digits-digits free (suc rounds) n h = elim (Bool-cases (ltb n 10)) [
  | inl small ↦ rw small (unfold parse_digits in unfold digit_value in ground arith)
  | inr large ↦
      let fewer : n / 10 < 10 ^ suc rounds = omega (arith, pow-suc 10 (suc rounds)) in
      rw large (
        parse_digits-snoc free 0 (digits rounds (n / 10)) (n / 10) (n % 10)
          (parse_digits-digits free rounds (n / 10) fewer) (omega arith)
        ∙ ap some (omega arith))
]

-- What a decimal number looks like to the parser: it begins with a digit that is not 0, and has
-- no underscore.
abbrev IsPlain : Bytes → Type 0
IsPlain [] = ⊥
IsPlain (c ∷ cs) =
    (c == b'0' ≡ false)
    × (c == b'-' ≡ false)
    × (c == b'+' ≡ false)
    × (has_underscore (c ∷ cs) ≡ false)

has_underscore-snoc :
    (s : Bytes) (d : ℕ)
    → has_underscore s ≡ false
    → d < 10
    → has_underscore (s ++ (b'0' + d) ∷ []) ≡ false
unfolding has_underscore
has_underscore-snoc [] d h small = ground arith
has_underscore-snoc (c ∷ cs) d h small = ground (arith, has_underscore-snoc cs d)

snoc-IsPlain : (s : Bytes) (d : ℕ) → IsPlain s → d < 10 → IsPlain (s ++ (b'0' + d) ∷ [])
snoc-IsPlain [] d p small = absurd p
snoc-IsPlain (c ∷ cs) d p small = (p.0, p.1, p.2, has_underscore-snoc (c ∷ cs) d p.3 small)

digits-IsPlain : (rounds n : ℕ) → 0 < n → n < 10 ^ suc rounds → IsPlain (digits rounds n)
unfolding digits has_underscore
digits-IsPlain zero n p h = ground arith
digits-IsPlain (suc rounds) n p h = elim (Bool-cases (ltb n 10)) [
  | inl small ↦ rw small (ground arith)
  | inr large ↦
      let fewer : n / 10 < 10 ^ suc rounds = omega (arith, pow-suc 10 (suc rounds)) in
      let some_left : 0 < n / 10 = ground arith in
      rw large (
        snoc-IsPlain (digits rounds (n / 10)) (n % 10)
          (digits-IsPlain rounds (n / 10) some_left fewer) (omega arith))
]

-- A plain text is read with base 10.
parse_uint_plain :
    (s : Bytes) (n : ℕ) → IsPlain s → parse_digits true 10 0 s ≡ some n → parse_uint s ≡ some n
unfolding parse_uint parse_prefixed
parse_uint_plain [] n p h = absurd p
parse_uint_plain (a ∷ []) n p h = ground (arith, p.0, p.3)
parse_uint_plain (a ∷ b ∷ []) n p h = ground (arith, p.0, p.3)
parse_uint_plain (a ∷ b ∷ c ∷ cs) n p h = ground (arith, p.0, p.3)

signed_plain :
    (parse : Bytes → Option ℕ) (s : Bytes) (n : ℕ)
    → IsPlain s
    → parse s ≡ some n
    → n < int64_half
    → signed parse s ≡ some (pos n)
unfolding signed
signed_plain parse [] n p h small = absurd p
signed_plain parse (c ∷ cs) n p h small = ground (arith, p.1, p.2)

-- A 64-bit integer.
abbrev pub IsInt64 : ℤ → Type 0
IsInt64 (pos n) = n < int64_half
IsInt64 (negsuc n) = n < int64_half

pub parse_int-itoa : (x : ℤ) → IsInt64 x → x ≢ pos 0 → parse_int (itoa x) ≡ some x
unfolding parse_int itoa
parse_int-itoa (pos zero) h ne = absurd (ne refl)
parse_int-itoa (pos (suc n)) h ne =
    signed_plain parse_uint (digits 19 (suc n)) (suc n)
      (digits-IsPlain 19 (suc n) (omega arith) (omega arith))
      (parse_uint_plain (digits 19 (suc n)) (suc n)
        (digits-IsPlain 19 (suc n) (omega arith) (omega arith))
        (parse_digits-digits true 19 (suc n) (omega arith)))
      h
parse_int-itoa (negsuc n) h ne =
    let read =
      parse_uint_plain (digits 19 (suc n)) (suc n)
        (digits-IsPlain 19 (suc n) (omega arith) (omega arith))
        (parse_digits-digits true 19 (suc n) (omega arith)) in
    unfold signed in rw read (ground arith)
