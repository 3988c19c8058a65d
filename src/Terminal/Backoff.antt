-- ===== src/Terminal/Backoff.antt =====
-- `nextReconnectDelay` of frontend/src/hooks/useTerminal.ts. The source computes with doubles: `base * 0.2` is
-- a whole number, `Math.random() * 2 - 1` is exact, and the product and the sum are rounded, so that `base + jitter`
-- is a fraction from 4/5 to 6/5 of the base, both included: the largest values of `Math.random()` are rounded up to
-- 6/5. The fraction k / n, with k <= n, says where between the two that double lies: it is `Math.random()` but for
-- the rounding.
use loci_terminal.Common.{ℕ, ◌+◌, ◌*◌, ◌/◌, ◌^◌, ◌≤◌, ◌<◌, ◌≡◌, min, max, arith}
use native.Mathlib.Nat.{
  one-le-pow, mul-div-le, lt-mul-div-succ, mul-le-mul_left, lt_of_mul-lt-mul_left,
}

-- 500ms, 1s, 2s, 4s, 8s, 10s, 10s, ...
unfoldable pub backoff_base : ℕ → ℕ
backoff_base attempts = min 10_000 (500 * 2 ^ attempts)

-- The double `base + jitter` is base * (4 * n + 2 * k) / (5 * n), as base + base * 0.2 * (2 * k / n - 1) is.
unfoldable pub next_reconnect_delay : ℕ → ℕ → ℕ → ℕ
unfolding backoff_base
next_reconnect_delay k n attempts = max 250 (backoff_base attempts * (4 * n + 2 * k) / (5 * n))

two-pow-pos : (a : ℕ) → 1 ≤ 2 ^ a
two-pow-pos a = one-le-pow a 2 (omega arith)

base_bounds : (a : ℕ) → (500 ≤ backoff_base a) × (backoff_base a ≤ 10_000)
unfolding backoff_base
base_bounds a = omega (arith, two-pow-pos a)

scaled_bounds :
    (b k n q : ℕ)
    → k ≤ n
    → 0 < n
    → 5 * n * q ≤ b * (4 * n + 2 * k)
    → b * (4 * n + 2 * k) < 5 * n * (q + 1)
    → (4 * b ≤ 5 * q + 4) × (5 * q ≤ 6 * b)
scaled_bounds b k n q h some_n lo hi =
    let below : n * (4 * b) < n * (5 * q + 5) = omega arith in
    let above : n * (5 * q) < n * (6 * b + 1) = omega (arith, mul-le-mul_left b h) in
    let least : 4 * b < 5 * q + 5 = lt_of_mul-lt-mul_left n below in
    let most : 5 * q < 6 * b + 1 = lt_of_mul-lt-mul_left n above in (omega arith, omega arith)

-- Where k <= n and n is not 0: the wait is within a fifth of the base, both ends included, rounded down; so it is
-- at least 400 ms and at most 12 s, and the bound of 250 ms never applies.
pub next_reconnect_delay_bounds :
    (k n attempts : ℕ)
    → k ≤ n
    → 0 < n
    → let d = next_reconnect_delay k n attempts in
      (4 * backoff_base attempts ≤ 5 * d + 4)
      × (5 * d ≤ 6 * backoff_base attempts)
      × (400 ≤ d)
      × (d ≤ 12_000)
unfolding next_reconnect_delay
next_reconnect_delay_bounds k n a h some_n =
    let b = backoff_base a in
    let x = b * (4 * n + 2 * k) in
    let q = x / (5 * n) in
    let (lo, hi) = base_bounds a in
    let (least, most) =
      scaled_bounds b k n q h some_n (mul-div-le x (5 * n)) (lt-mul-div-succ x (omega arith)) in
    let big : 250 ≤ q = omega arith in
    let same : next_reconnect_delay k n a ≡ q = omega arith in
    rw same (least, most, omega arith, omega arith)
