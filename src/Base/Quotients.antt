-- ===== src/Base/Quotients.antt =====
-- The bounds that make a rounded quotient what it is.
use Prim.Native.Nat.{ℕ, ◌+◌, ◌-◌, ◌*◌, ◌/◌, ◌≤◌, ◌<◌}
use native.Mathlib.Nat.{div-mul-le_self, div-lt_iff_lt-mul, lt_of_mul-lt-mul_right}
use native.Mathlib.Omega.{arith}

-- `a / d` is the quotient rounded down.
pub floor-bounds : (a d : ℕ) → 0 < d → (a / d * d ≤ a) × (a < (a / d + 1) * d)
floor-bounds a d h =
    (div-mul-le_self a d, (div-lt_iff_lt-mul {k = d} {x = a} {y = a / d + 1} h).0 (omega arith))

-- `(a + d - 1) / d` is the quotient rounded up: the least number of times `d` that reaches `a`.
pub ceiling-bounds : (a d : ℕ) → 0 < d → (a ≤ (a + d - 1) / d * d) × ((a + d - 1) / d * d < a + d)
ceiling-bounds a d h =
    let (low, high) = floor-bounds (a + d - 1) d h in
    (omega (arith, high, h), omega (arith, low, h))

-- A rounded share of a hundred is at most a hundred.
pub share-le : (p a d : ℕ) → 0 < d → a ≤ d → p * d < a * 100 + d → p ≤ 100
share-le p a d h le less =
    let few : p < 101 = lt_of_mul-lt-mul_right d (omega (arith, less, le)) in omega (arith, few)
