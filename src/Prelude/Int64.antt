-- ===== src/Prelude/Int64.antt =====
-- The int64 of Go: a number wraps around at 2 ^ 64, and its upper half stands below 0.
use yougpu_agent.Prelude.{ℕ, ℤ, pos, negsuc, ltb, ◌-◌, ◌%◌, ◌^◌, ◌<◌, ◌≡◌, if◌then◌else◌, arith}

unfoldable pub signed : ℕ → ℤ
signed n = if ltb (n % 2 ^ 64) (2 ^ 63) then pos (n % 2 ^ 64) else negsuc (2 ^ 64 - 1 - n % 2 ^ 64)

-- Below 2 ^ 63 a number is itself.
pub signed_small : (n : ℕ) → n < 2 ^ 63 → signed n ≡ pos n
unfolding signed
signed_small n h = ground arith
