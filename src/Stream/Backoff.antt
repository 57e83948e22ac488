-- ===== src/Stream/Backoff.antt =====
-- How long a reconnect waits.
use frontdashboard.Prelude.{ℕ, zero, suc, ◌≤◌, ◌≡◌, ◌*◌, ◌^◌, ◌+◌, min, arith}
use native.Mathlib.Numerals.{unary_clauses}
use frontdashboard.Stream.{reconnect_ceiling_ms}

power_positive : (n : ℕ) → 1 ≤ 2 ^ n
power_positive zero = omega arith
power_positive (suc n) = omega (arith, power_positive n)

power_late : (n : ℕ) → 32 ≤ 2 ^ (n + 5)
power_late zero = omega arith
power_late (suc n) =
    let doubled : 2 ^ (suc n + 5) ≡ 2 * 2 ^ (n + 5) = simp unary_clauses (omega arith) in
    omega (arith, power_late n)

-- The longest that a reconnect waits is between a second and half a minute, is doubled by each
-- failed attempt until it reaches half a minute, and is half a minute from the sixth attempt on.
pub reconnect_ceiling_ms_lem :
    (attempt : ℕ)
    → (1000 ≤ reconnect_ceiling_ms attempt)
      × (reconnect_ceiling_ms attempt ≤ 30000)
      × (reconnect_ceiling_ms (suc attempt) ≡ min (2 * reconnect_ceiling_ms attempt) 30000)
      × (reconnect_ceiling_ms (attempt + 5) ≡ 30000)
unfolding reconnect_ceiling_ms
reconnect_ceiling_ms_lem attempt = (
  ground (arith, power_positive attempt),
  ground arith,
  ground arith,
  ground (arith, power_late attempt),
)
