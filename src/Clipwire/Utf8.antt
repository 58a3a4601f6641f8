-- ===== src/Clipwire/Utf8.antt =====
-- `utf8.Valid` of Go's unicode/utf8, as the automaton that its tables describe.
use clippy.Base.{ℕ, ◌-◌, Bool, false, ◌&&◌, Option, none, some, [], ◌∷◌, leb, ◌==◌, if◌then◌else◌}
use clippy.Base.Bytes.{Bytes}

-- `pending` continuation bytes are due, the next of them between `lo` and `hi`.
pub record Scan : Type 0 where
  pub pending : ℕ
  pub lo : ℕ
  pub hi : ℕ

abbrev between : ℕ → ℕ → ℕ → Bool
between lo hi b = leb lo b && leb b hi

-- The first byte of a code point: how many bytes follow, and the range of the first of them.
start : ℕ → Option Scan
start b =
    if leb b 0x7F
    then some (record { pending = 0; lo = 0x80; hi = 0xBF })
    else if between 0xC2 0xDF b
    then some (record { pending = 1; lo = 0x80; hi = 0xBF })
    else if b == 0xE0
    then some (record { pending = 2; lo = 0xA0; hi = 0xBF })
    else if b == 0xED
    then some (record { pending = 2; lo = 0x80; hi = 0x9F })
    else if between 0xE1 0xEF b
    then some (record { pending = 2; lo = 0x80; hi = 0xBF })
    else if b == 0xF0
    then some (record { pending = 3; lo = 0x90; hi = 0xBF })
    else if between 0xF1 0xF3 b
    then some (record { pending = 3; lo = 0x80; hi = 0xBF })
    else if b == 0xF4
    then some (record { pending = 3; lo = 0x80; hi = 0x8F })
    else none

next : Scan → ℕ → Option Scan
unfolding start
next s b =
    if s.pending == 0
    then start b
    else if between s.lo s.hi b
    then some (record { pending = s.pending - 1; lo = 0x80; hi = 0xBF })
    else none

scan : Scan → Bytes → Bool
unfolding next
scan s [] = s.pending == 0
scan s (b ∷ bs) = elim (next s b) [ none ↦ false | some t ↦ scan t bs ]

-- `utf8.Valid`.
unfoldable pub valid_utf8 : Bytes → Bool
unfolding scan
valid_utf8 b = scan (record { pending = 0; lo = 0x80; hi = 0xBF }) b
