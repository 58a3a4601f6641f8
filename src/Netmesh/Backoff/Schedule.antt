-- ===== src/Netmesh/Backoff/Schedule.antt =====
-- The delays between dial attempts.
use clippy.Base.{
  ℕ, zero, suc, ◌+◌, ◌*◌, ◌/◌, ◌^◌, ◌≤◌, ◌<◌, ◌≡◌, refl, ap, ◌∙◌, arith, min, ◌==◌, Bool-cases, inl,
  inr, false,
}
use native.Mathlib.Nat.{pow-suc}
use clippy.Base.Int.{ℤ, pos, wrap_int64_small}
use clippy.Netmesh.Backoff.{bump_backoff, with_jitter}

abbrev pub max_half : ℕ
max_half = 4611686018427387904

-- The field `backoff` after `k` calls of `bumpBackoff`, from 0.
pub bumps : ℤ → ℤ → ℕ → ℤ
bumps minimum maximum zero = pos 0
bumps minimum maximum (suc k) = bump_backoff (bumps minimum maximum k) minimum maximum

bump_pos :
    (b lo hi : ℕ)
    → 0 < b
    → b ≤ hi
    → hi < max_half
    → bump_backoff (pos b) (pos lo) (pos hi) ≡ pos (min (2 * b) hi)
unfolding bump_backoff
bump_pos b lo hi p le h =
    let small = wrap_int64_small (2 * b) (omega arith) in ground (arith, small)

scaled_pos : (lo k : ℕ) → 0 < lo → 0 < lo * 2 ^ k
scaled_pos lo zero p = omega arith
scaled_pos lo (suc k) p = omega (arith, scaled_pos lo k p, ap (λ (n : ℕ). lo * n) (pow-suc 2 k))

-- From a fresh or reset backoff the delays are the minimum, doubled each time, up to the maximum,
-- for 0 < minimum ≤ maximum < 2^62 nanoseconds.
pub bumps-suc :
    (lo hi k : ℕ)
    → 0 < lo
    → lo ≤ hi
    → hi < max_half
    → bumps (pos lo) (pos hi) (suc k) ≡ pos (min (lo * 2 ^ k) hi)
unfolding bumps
bumps-suc lo hi zero p le h = unfold bump_backoff in ap pos (omega arith)
bumps-suc lo hi (suc k) p le h =
    ap (λ b. bump_backoff b (pos lo) (pos hi)) (bumps-suc lo hi k p le h)
    ∙ bump_pos (min (lo * 2 ^ k) hi) lo hi (omega (arith, scaled_pos lo k p)) (omega arith) h
    ∙ ap pos (omega (arith, ap (λ (n : ℕ). lo * n) (pow-suc 2 k)))

-- A jittered delay of a positive base is positive, at least half of the base, and never more
-- than the base, for a random source that returns numbers below its bound.
pub with_jitter_bounds :
    (roll : ℕ → ℕ) (base : ℕ)
    → ((n : ℕ) → 0 < n → roll n < n)
    → 0 < base
    → (d : ℕ) × (with_jitter roll (pos base) ≡ pos d) × (base / 2 ≤ d) × (d ≤ base) × (0 < d)
unfolding with_jitter
with_jitter_bounds roll base r p =
    let nonzero : base == 0 ≡ false = ground arith in
    elim (Bool-cases (base / 2 == 0)) [
      | inl small ↦
          let one : base / 2 ≡ 0 = ground arith in
          rw nonzero (rw small (base, refl, omega arith, omega arith, p))
      | inr large ↦
          let half : 0 < base / 2 = ground arith in
          let below = r (base / 2) half in
          rw nonzero
            (rw large (base / 2 + roll (base / 2), refl, omega arith, omega arith, omega arith))
    ]
