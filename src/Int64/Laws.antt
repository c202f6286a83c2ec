-- ===== src/Int64/Laws.antt =====
-- Below half of the range a bit pattern is the number that it stands for.
use go_binsync.Prelude.{◌⊎◌, ℕ, ◌+◌, ◌^◌, ◌<◌, ◌≤◌, ◌≡◌, true, false, arith}
use go_binsync.Int64.{add64, lt64}

pub add64-eq : (a b : ℕ) → a + b < 2 ^ 64 → add64 a b ≡ a + b
unfolding add64
add64-eq a b h = omega arith

pub lt64-true : (a b : ℕ) → a < b → b < 2 ^ 63 → lt64 a b ≡ true
unfolding lt64
lt64-true a b h k = ground arith

pub lt64-false : (a b : ℕ) → b ≤ a → a < 2 ^ 63 → lt64 a b ≡ false
unfolding lt64
lt64-false a b h k = ground arith

-- The tests, where one side is any bit pattern.
pub lt64-lt : (a b : ℕ) → a < 2 ^ 64 → b < 2 ^ 63 → lt64 a b ≡ true → (a < b) ⊎ (2 ^ 63 ≤ a)
unfolding lt64
lt64-lt a b h k e = ground arith

pub lt64-le : (a b : ℕ) → a < 2 ^ 64 → b < 2 ^ 63 → lt64 a b ≡ false → b ≤ a
unfolding lt64
lt64-le a b h k e = ground arith

pub lt64-positive : (a b : ℕ) → a < 2 ^ 64 → b < 2 ^ 63 → lt64 a b ≡ false → a < 2 ^ 63
unfolding lt64
lt64-positive a b h k e = ground arith
