-- ===== src/Clients/Retry.antt =====
-- crates/ferroly/src/clients/retry.rs. A duration is a number of nanoseconds up to `max_duration`
-- (`Duration::MAX`); the operation is the list of the results of its calls, in order, and the time
-- slept is the list of the delays.
pub mod Laws
pub mod Backoff
use ferroly.Base.{
  ℕ, zero, suc, ◌+◌, ◌-◌, ◌*◌, ◌^◌, min, Bool, true, false, not, ◌||◌, List, [], ◌∷◌, Option, none,
  some, ltb, leb, if◌then◌else◌,
}

pub record RetryPolicy : Type 0 where
  pub max_retries : ℕ
  pub wait : ℕ
  pub exponential : Bool
  pub max_backoff : Option ℕ

-- `Default for RetryPolicy`.
unfoldable pub default_policy : RetryPolicy
default_policy = record {
  max_retries = 3;
  wait = 200_000_000;
  exponential = true;
  max_backoff = some 10_000_000_000;
}

unfoldable pub fixed : ℕ → ℕ → RetryPolicy
fixed max_retries wait = record {
  max_retries = max_retries;
  wait = wait;
  exponential = false;
  max_backoff = none;
}

-- `u32::MAX`, and `Duration::MAX`: 2^64 - 1 seconds and 999,999,999 nanoseconds.
abbrev pub max_u32 : ℕ
max_u32 = 2 ^ 32 - 1

abbrev pub max_duration : ℕ
max_duration = 2 ^ 64 * 1_000_000_000 - 1

-- `2u32.saturating_pow(attempt)`.
unfoldable pub saturating_pow2 : ℕ → ℕ
saturating_pow2 attempt = min max_u32 (2 ^ attempt)

-- `Duration::saturating_mul`.
unfoldable pub saturating_mul : ℕ → ℕ → ℕ
saturating_mul wait factor = min max_duration (wait * factor)

abbrev cap_at : Option ℕ → ℕ → ℕ
cap_at none scaled = scaled
cap_at (some cap) scaled = if ltb cap scaled then cap else scaled

unfoldable pub backoff_for : RetryPolicy → ℕ → ℕ
backoff_for policy attempt =
    if not policy.exponential
    then policy.wait
    else cap_at policy.max_backoff (saturating_mul policy.wait (saturating_pow2 attempt))

pub data Result {ℓ κ} (T : Type ℓ) (E : Type κ) : Type (ℓ ⊔ κ) where
  ok : T → Result T E
  err : E → Result T E

-- What `retry` did: its result (`none` only where the list of results was too short), the number of
-- calls of the operation, and the delays slept.
pub record Outcome {ℓ κ} (T : Type ℓ) (E : Type κ) : Type (ℓ ⊔ κ) where
  pub result : Option (Result T E)
  pub calls : ℕ
  pub delays : List ℕ

module _ {ℓ κ} {T : Type ℓ} {E : Type κ} (policy : RetryPolicy) (retry_if : E → Bool) where
  abbrev again : ℕ → Outcome T E → Outcome T E
  again delay rest = record {
    result = rest.result;
    calls = suc rest.calls;
    delays = delay ∷ rest.delays;
  }

  -- The `loop` of `retry`, from the given attempt on.
  pub retry_from : ℕ → List (Result T E) → Outcome T E
  retry_from attempt [] = record { result = none; calls = 0; delays = [] }
  retry_from attempt (ok v ∷ op) = record { result = some (ok v); calls = 1; delays = [] }
  retry_from attempt (err e ∷ op) =
      let rest = again (backoff_for policy attempt) (retry_from (attempt + 1) op) in
      if leb policy.max_retries attempt || not (retry_if e)
      then record { result = some (err e); calls = 1; delays = [] }
      else rest

  unfoldable pub retry : List (Result T E) → Outcome T E
  unfolding retry_from
  retry op = retry_from 0 op
