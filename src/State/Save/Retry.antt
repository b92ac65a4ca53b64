-- ===== src/State/Save/Retry.antt =====
-- The pause after a failed upload, in internal/state/manager.go.
use yougpu_agent.Prelude.{
  ℕ, zero, suc, ◌*◌, ◌^◌, ◌≤◌, ◌<◌, min, ltb, ◌≡◌, inl, inr, arith, Bool-cases, false, ◌∙◌, ap,
}
use native.Mathlib.Nat.{pow-suc}
use yougpu_agent.State.Save.{doubled, retry_after, max_retry_delay}

pow_pos : (n : ℕ) → 0 < 2 ^ n
pow_pos zero = omega arith
pow_pos (suc n) = rw (pow-suc 2 n) (omega (arith, pow_pos n))

scaled : (d n : ℕ) → d ≤ d * 2 ^ n
scaled d n = grind (arith, pow_pos n)

double_pow : (d n : ℕ) → d * 2 * 2 ^ n ≡ d * 2 ^ suc n
double_pow d n = rw (pow-suc 2 n) (omega arith)

-- The n-th pause is the first one doubled n times, and never longer than the limit.
pub retry_after_exact : (n d : ℕ) → retry_after n d ≡ min (d * 2 ^ n) max_retry_delay
unfolding retry_after doubled
retry_after_exact zero d = omega arith
retry_after_exact (suc n) d = elim (Bool-cases (ltb d max_retry_delay)) [
  | inl short ↦
      rw short (retry_after_exact n (d * 2) ∙ ap (λ k. min k max_retry_delay) (double_pow d n))
  | inr long ↦ rw long (omega (arith, scaled d (suc n), not_below d long))
]
  where
    not_below : (d : ℕ) → ltb d max_retry_delay ≡ false → max_retry_delay ≤ d
    not_below d h = ground arith
