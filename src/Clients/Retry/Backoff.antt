-- ===== src/Clients/Retry/Backoff.antt =====
-- The delay before each retry.
use native.Mathlib.Nat.{pow-le-pow_right}
use ferroly.Base.{ℕ, ◌*◌, ◌^◌, ◌≤◌, ◌<◌, min, ◌≡◌, true, arith, Option, none, some}
use ferroly.Clients.Retry.{
  RetryPolicy, max_duration, saturating_pow2, saturating_mul, backoff_for, cap_at,
}

saturating_pow2_mono : (a b : ℕ) → a ≤ b → saturating_pow2 a ≤ saturating_pow2 b
unfolding saturating_pow2
saturating_pow2_mono a b h = let p : 2 ^ a ≤ 2 ^ b = pow-le-pow_right (omega arith) h in omega arith

saturating_pow2_small : (a : ℕ) → a < 32 → saturating_pow2 a ≡ 2 ^ a
unfolding saturating_pow2
saturating_pow2_small a h =
    let p : 2 ^ a ≤ 2 ^ 31 = pow-le-pow_right (omega arith) {j = 31} (omega arith) in omega arith

saturating_mul_mono : (w a b : ℕ) → a ≤ b → saturating_mul w a ≤ saturating_mul w b
unfolding saturating_mul
saturating_mul_mono w a b h = grind arith

scaled_mono :
    (w a b : ℕ)
    → a ≤ b
    → saturating_mul w (saturating_pow2 a) ≤ saturating_mul w (saturating_pow2 b)
scaled_mono w a b h = saturating_mul_mono w _ _ (saturating_pow2_mono a b h)

cap_at_mono : (o : Option ℕ) (a b : ℕ) → a ≤ b → cap_at o a ≤ cap_at o b
cap_at_mono none a b h = h
cap_at_mono (some c) a b h = ground arith

-- A later retry never waits for less than an earlier one, whatever the policy.
pub backoff_for_mono : (p : RetryPolicy) (a b : ℕ) → a ≤ b → backoff_for p a ≤ backoff_for p b
unfolding backoff_for
backoff_for_mono p a b h = ground (arith, cap_at_mono p.max_backoff _ _ (scaled_mono p.wait a b h))

-- With exponential backoff and a cap that is a duration, the first 32 retries wait for the base wait
-- doubled once for each earlier retry, or for the cap where that is less.
pub backoff_for_exact :
    (p : RetryPolicy) (cap attempt : ℕ)
    → p.exponential ≡ true
    → p.max_backoff ≡ some cap
    → cap ≤ max_duration
    → attempt < 32
    → backoff_for p attempt ≡ min cap (p.wait * 2 ^ attempt)
unfolding backoff_for saturating_mul
backoff_for_exact p cap attempt e c fits small =
    rw (e, c, saturating_pow2_small attempt small) (ground arith)
