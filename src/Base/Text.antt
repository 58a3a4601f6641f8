-- ===== src/Base/Text.antt =====
-- What the program uses of Go's `strings`, on bytes: `TrimSpace`, `Cut`, `HasPrefix`,
-- `TrimSuffix`.
use clippy.Base.Tests.{leb, ◌==◌, if◌then◌else◌}
use clippy.Base.Bytes.{Bytes}
use Prim.Native.Nat.{ℕ, zero, suc}
use mathlib.Core.Bool.{Bool, false, ◌&&◌, ◌||◌}
use mathlib.Core.Option.{Option, none, some}
use mathlib.Core.List.{[], ◌∷◌, ◌++◌, reverse}
use mathlib.Core.Path.{◌≡◌}
use native.Mathlib.Omega.{arith}

-- The white space of one byte: tab, line feed, vertical tab, form feed, carriage return, space.
abbrev is_space_byte : ℕ → Bool
is_space_byte b = leb 9 b && leb b 13 || b == 32

-- The white space of two bytes: U+0085 and U+00A0.
abbrev is_space_pair : ℕ → ℕ → Bool
is_space_pair a b = a == 0xC2 && (b == 0x85 || b == 0xA0)

-- The white space of three bytes: U+1680, U+2000 to U+200A, U+2028, U+2029, U+202F, U+205F and
-- U+3000.
abbrev is_space_triple : ℕ → ℕ → ℕ → Bool
is_space_triple a b c =
    a == 0xE1 && (b == 0x9A && c == 0x80)
    || (a == 0xE2
          && (b == 0x80 && (leb 0x80 c && leb c 0x8A || (c == 0xA8 || (c == 0xA9 || c == 0xAF))))
        || (a == 0xE2 && (b == 0x81 && c == 0x9F) || a == 0xE3 && (b == 0x80 && c == 0x80)))

-- The number of bytes of the white space that the text begins with, 0 if it begins otherwise.
leading : Bytes → ℕ
leading [] = 0
leading (a ∷ []) = if is_space_byte a then 1 else 0
leading (a ∷ b ∷ []) = if is_space_byte a then 1 else if is_space_pair a b then 2 else 0
leading (a ∷ b ∷ c ∷ rest) =
    if is_space_byte a
    then 1
    else if is_space_pair a b
    then 2
    else if is_space_triple a b c
    then 3
    else 0

-- The same at the end of the text, which is given from its last byte on.
trailing : Bytes → ℕ
trailing [] = 0
trailing (a ∷ []) = if is_space_byte a then 1 else 0
trailing (b ∷ a ∷ []) = if is_space_byte b then 1 else if is_space_pair a b then 2 else 0
trailing (c ∷ b ∷ a ∷ rest) =
    if is_space_byte c
    then 1
    else if is_space_pair b c
    then 2
    else if is_space_triple a b c
    then 3
    else 0

-- `skip` bytes of a code point are still to be dropped.
strip : (Bytes → ℕ) → ℕ → Bytes → Bytes
strip width skip [] = []
strip width (suc skip) (b ∷ bs) = strip width skip bs
strip width zero (b ∷ bs) = elim (width (b ∷ bs)) [ zero ↦ b ∷ bs | suc k ↦ strip width k bs ]

-- `strings.TrimSpace`. Bytes that are no UTF-8 are no white space.
unfoldable pub trim_space : Bytes → Bytes
unfolding strip leading trailing
trim_space s = reverse (strip trailing 0 (reverse (strip leading 0 s)))

-- `strings.Cut(s, sep)` at a separator of one byte; `none` where it is missing.
unfoldable pub cut : ℕ → Bytes → Option (Bytes × Bytes)
cut sep [] = none
cut sep (b ∷ bs) =
    if b == sep
    then some ([], bs)
    else elim (cut sep bs) [ none ↦ none | some (before, after) ↦ some (b ∷ before, after) ]

-- `strings.HasPrefix` at a prefix of one byte.
unfoldable pub has_prefix : ℕ → Bytes → Bool
has_prefix p [] = false
has_prefix p (b ∷ bs) = b == p

-- `strings.TrimSuffix` at a suffix of one byte.
unfoldable pub trim_suffix : ℕ → Bytes → Bytes
trim_suffix p [] = []
trim_suffix p (b ∷ []) = if b == p then [] else b ∷ []
trim_suffix p (b ∷ c ∷ bs) = b ∷ trim_suffix p (c ∷ bs)

-- No byte of the text is the separator.
abbrev pub Lacks : ℕ → Bytes → Type 0
Lacks sep [] = Unit {0}
Lacks sep (b ∷ bs) = (b == sep ≡ false) × Lacks sep bs

pub cut-append :
    (sep : ℕ) (before after : Bytes)
    → Lacks sep before
    → cut sep (before ++ sep ∷ after) ≡ some (before, after)
unfolding cut
cut-append sep [] after h = ground arith
cut-append sep (b ∷ bs) after h = ground (arith, cut-append sep bs after h.1, h.0)
