-- ===== src/Netmesh/Backoff.antt =====
-- `bumpBackoff` of internal/netmesh/connection.go and `withJitter` of discovery.go.
pub mod Schedule
use clippy.Base.{ℕ, suc, ◌+◌, ◌-◌, ◌*◌, ◌/◌, ◌%◌, ◌==◌, if◌then◌else◌}
use clippy.Base.Int.{ℤ, pos, negsuc, is_nonpos, ltb_ℤ, wrap_int64, int64_mod}

-- `d *= 2` in 64 bits.
unfoldable pub double : ℤ → ℤ
double (pos n) = wrap_int64 (2 * n)
double (negsuc n) = wrap_int64 (int64_mod - 2 * suc n % int64_mod)

-- The new value of the field `backoff`, which is also what the method returns.
unfoldable pub bump_backoff : ℤ → ℤ → ℤ → ℤ
unfolding double
bump_backoff backoff minimum maximum =
    if is_nonpos backoff
    then minimum
    else let doubled = double backoff in if ltb_ℤ maximum doubled then maximum else doubled

-- `roll half` is `rand.Int63n(half)`.
unfoldable pub with_jitter : (ℕ → ℕ) → ℤ → ℤ
with_jitter roll (negsuc n) = pos 0
with_jitter roll (pos base) =
    if base == 0
    then pos 0
    else let half = base / 2 in if half == 0 then pos base else pos (half + roll half)
