-- ===== src/Outbox/Backoff.antt =====
-- The delays of `backoffFor`.
use native.Mathlib.Numerals.{unary_clauses}
use go_auth_api.Base.{ap, arith, suc, zero, ℕ, ◌*◌, ◌+◌, ◌^◌, ◌≡◌, ◌≤◌}
use go_auth_api.Outbox.Processor.{backoff_for, base_backoff, max_backoff}

pow_suc : (n : ℕ) → 2 ^ suc n ≡ 2 * 2 ^ n
pow_suc n = simp unary_clauses (omega arith)

pow_pos : (n : ℕ) → 1 ≤ 2 ^ n
pow_pos zero = omega arith
pow_pos (suc n) = omega (arith, pow_pos n, pow_suc n)

pow_add_8 : (n : ℕ) → 256 ≤ 2 ^ (8 + n)
pow_add_8 zero = omega arith
pow_add_8 (suc n) = omega (arith, pow_add_8 n, pow_suc (8 + n), shift)
  where
    shift : 2 ^ (8 + suc n) ≡ 2 ^ suc (8 + n)
    shift = ap (λ k. 2 ^ k) (omega arith)

-- The delay before the next attempt is never below `baseBackoff` and never above `maxBackoff`, does
-- not fall with the number of failures, and is `maxBackoff` from the eighth on.
pub backoff_for_lem :
    (n : ℕ)
    → (base_backoff ≤ backoff_for n)
      × (backoff_for n ≤ max_backoff)
      × (backoff_for n ≤ backoff_for (suc n))
      × (backoff_for (8 + n) ≡ max_backoff)
unfolding backoff_for
backoff_for_lem n = (
  ground (arith, pow_pos n),
  ground arith,
  ground (arith, pow_suc n, pow_pos n),
  ground (arith, pow_add_8 n),
)
