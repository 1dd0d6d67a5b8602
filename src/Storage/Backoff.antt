-- ===== src/Storage/Backoff.antt =====
-- The delay before the client connects again.
use native.Mathlib.Nat.{
  div-mul-le_self, div-lt_iff_lt-mul, mul-le-mul_left, le_of_mul-le-mul_right,
  lt_of_mul-lt-mul_right, one-le-pow,
}
use droneengage_server.Base.{ℕ, suc, ◌≤◌, ◌<◌, ◌+◌, ◌-◌, ◌*◌, ◌/◌, arith}
use droneengage_server.Storage.Lifecycle.{base_delay, reconnect_delay}

base_delay_range : (attempts : ℕ) → (1000 ≤ base_delay attempts) × (base_delay attempts ≤ 60000)
unfolding base_delay
base_delay_range attempts = ground (arith, one-le-pow (attempts - 1) 2 (omega arith))

cancel_le : (x y d : ℕ) → x * suc d ≤ y * suc d → x ≤ y
cancel_le x y d h = le_of_mul-le-mul_right h (omega arith)

cancel_lt : (x y d : ℕ) → x * suc d < y * suc d → x < y
cancel_lt x y d h = lt_of_mul-lt-mul_right (suc d) h

-- a quotient by four times `1 + d` of a product with what lies between three and five times it
module _ (b m d : ℕ) (low : 3 * suc d ≤ m) (high : m ≤ 5 * suc d) where
  quarter_above : 4 * (b * m / (4 * suc d)) ≤ 5 * b
  quarter_above =
      let q = b * m / (4 * suc d) in
      cancel_le (4 * q) (5 * b) d
        (grind (arith, div-mul-le_self (b * m) (4 * suc d), mul-le-mul_left b high))

  quarter_below : 3 * b < 4 * (b * m / (4 * suc d)) + 4
  quarter_below =
      let q = b * m / (4 * suc d) in
      let above =
        (div-lt_iff_lt-mul {k = 4 * suc d} {x = b * m} {y = suc q} (omega arith)).0 (omega arith) in
      cancel_lt (3 * b) (4 * q + 4) d (grind (arith, above, mul-le-mul_left b low))

-- Whatever the random number below 1 is, the delay lies within a quarter of the base delay, which is at
-- least a second and at most a minute.
pub reconnect_delay-jitter :
    (attempts k d : ℕ)
    → k < suc d
    → (3 * base_delay attempts ≤ 4 * reconnect_delay attempts k d + 3)
      × (4 * reconnect_delay attempts k d ≤ 5 * base_delay attempts)
      × (750 ≤ reconnect_delay attempts k d)
      × (reconnect_delay attempts k d ≤ 75000)
unfolding reconnect_delay
reconnect_delay-jitter attempts k d h = ground (
  arith,
  base_delay_range attempts,
  quarter_above (base_delay attempts) (3 * suc d + 2 * k) d (omega arith) (omega arith),
  quarter_below (base_delay attempts) (3 * suc d + 2 * k) d (omega arith) (omega arith),
)
