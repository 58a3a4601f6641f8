-- ===== src/Base/Number.antt =====
-- Go's `strconv` on 64-bit integers: `Itoa`, `Atoi` and `ParseInt` with base 0. Syntax and range
-- errors are the same `none`.
pub mod RoundTrip
use clippy.Base.Tests.{ltb, leb, ◌==◌, if◌then◌else◌}
use clippy.Base.Lists.{length}
use clippy.Base.Bytes.{Bytes}
use clippy.Base.Int.{ℤ, pos, negsuc, int64_half}
use Prim.Native.Nat.{ℕ, zero, suc, ◌+◌, ◌-◌, ◌*◌, ◌/◌, ◌%◌}
use mathlib.Core.Bool.{Bool, true, false, ◌&&◌, ◌||◌, not}
use mathlib.Core.Option.{Option, none, some}
use mathlib.Core.List.{List, [], ◌∷◌, ◌++◌}

-- The decimal digits, of which there are at most `rounds + 1`.
unfoldable pub digits : ℕ → ℕ → Bytes
digits zero n = (b'0' + n) ∷ []
digits (suc rounds) n =
    let higher = digits rounds (n / 10) ++ (b'0' + n % 10) ∷ [] in
    if ltb n 10 then (b'0' + n) ∷ [] else higher

-- 64 bits have at most 20 digits.
unfoldable pub itoa : ℤ → Bytes
itoa (pos n) = digits 19 n
itoa (negsuc n) = b'-' ∷ digits 19 (suc n)

abbrev pub lower : ℕ → ℕ
lower c = if leb b'A' c && leb c b'Z' then c + 32 else c

-- The value of a digit or a letter, 36 for any other byte.
unfoldable pub digit_value : ℕ → ℕ
digit_value c =
    if leb b'0' c && leb c b'9'
    then c - b'0'
    else if leb b'a' (lower c) && leb (lower c) b'z'
    then lower c - b'a' + 10
    else 36

-- The loop of `ParseUint`; `free` is whether underscores are skipped.
unfoldable pub parse_digits : Bool → ℕ → ℕ → Bytes → Option ℕ
parse_digits free base acc [] = some acc
parse_digits free base acc (c ∷ cs) =
    let next = parse_digits free base (acc * base + digit_value c) cs in
    let skip = parse_digits free base acc cs in
    if c == b'_' && free then skip else if ltb (digit_value c) base then next else none

-- What the loop of `underscoreOK` has seen last: the beginning, a digit or the base prefix, an
-- underscore, or another byte.
pub data Saw : Type 0 where
  beginning digit underscore another : Saw

abbrev ends_well : Saw → Bool
ends_well underscore = false
ends_well _ = true

underscores_from : Bool → Saw → Bytes → Bool
underscores_from hex saw [] = ends_well saw
underscores_from hex saw (c ∷ cs) =
    let after_digit = underscores_from hex digit cs in
    let after_underscore = underscores_from hex underscore cs in
    let after_another = underscores_from hex another cs in
    if leb b'0' c && leb c b'9' || (hex && (leb b'a' (lower c) && leb (lower c) b'f'))
    then after_digit
    else if c == b'_'
    then elim saw [ digit ↦ after_underscore | _ ↦ false ]
    else elim saw [ underscore ↦ false | _ ↦ after_another ]

abbrev is_prefix : ℕ → Bool
is_prefix c = lower c == b'b' || (lower c == b'o' || lower c == b'x')

-- `underscoreOK`, without the sign.
underscore_ok : Bytes → Bool
unfolding underscores_from
underscore_ok [] = underscores_from false beginning []
underscore_ok (a ∷ []) = underscores_from false beginning (a ∷ [])
underscore_ok (a ∷ b ∷ cs) =
    if a == b'0' && is_prefix b
    then underscores_from (lower b == b'x') digit cs
    else underscores_from false beginning (a ∷ b ∷ cs)

has_underscore : Bytes → Bool
has_underscore [] = false
has_underscore (c ∷ cs) = c == b'_' || has_underscore cs

-- The base that a prefix tells: 2, 8 or 16 behind `0b`, `0o` and `0x` with a digit behind, 8
-- behind another 0, and 10.
parse_prefixed : Bytes → Option ℕ
parse_prefixed [] = none
parse_prefixed (a ∷ []) = if a == b'0' then some 0 else parse_digits true 10 0 (a ∷ [])
parse_prefixed (a ∷ b ∷ []) =
    if a == b'0' then parse_digits true 8 0 (b ∷ []) else parse_digits true 10 0 (a ∷ b ∷ [])
parse_prefixed (a ∷ b ∷ c ∷ cs) =
    if a == b'0'
    then if lower b == b'b'
      then parse_digits true 2 0 (c ∷ cs)
      else if lower b == b'o'
      then parse_digits true 8 0 (c ∷ cs)
      else if lower b == b'x'
      then parse_digits true 16 0 (c ∷ cs)
      else parse_digits true 8 0 (b ∷ c ∷ cs)
    else parse_digits true 10 0 (a ∷ b ∷ c ∷ cs)

-- `ParseUint` with base 0.
parse_uint : Bytes → Option ℕ
unfolding parse_prefixed parse_digits underscore_ok has_underscore
parse_uint s = if has_underscore s && not (underscore_ok s) then none else parse_prefixed s

-- With base 10.
parse_decimal : Bytes → Option ℕ
parse_decimal [] = none
parse_decimal (c ∷ cs) = parse_digits false 10 0 (c ∷ cs)

-- The magnitude in range.
abbrev unsigned : Option ℕ → Option ℤ
unsigned none = none
unsigned (some n) = if ltb n int64_half then some (pos n) else none

abbrev negated : Option ℕ → Option ℤ
negated none = none
negated (some n) =
    if n == 0 then some (pos 0) else if leb n int64_half then some (negsuc (n - 1)) else none

-- The sign in front.
signed : (Bytes → Option ℕ) → Bytes → Option ℤ
signed parse [] = none
signed parse (c ∷ cs) =
    if c == b'-'
    then negated (parse cs)
    else if c == b'+'
    then unsigned (parse cs)
    else unsigned (parse (c ∷ cs))

-- `ParseInt(s, 0, 64)`.
unfoldable pub parse_int : Bytes → Option ℤ
unfolding signed parse_uint
parse_int s = signed parse_uint s

-- `Atoi`.
unfoldable pub atoi : Bytes → Option ℤ
unfolding signed parse_decimal
atoi s = signed parse_decimal s
