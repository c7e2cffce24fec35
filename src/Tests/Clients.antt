-- ===== src/Tests/Clients.antt =====
-- Runs of crates/ferroly/src/clients.
use ferroly.Base.{
  ℕ, zero, suc, ◌*◌, ◌^◌, ◌≤◌, min, ◌≡◌, ◌↔◌, refl, Bool, true, false, List, [], ◌∷◌, ◌++◌, map,
  some, length, All, arith,
}
use ferroly.Clients.Breaker.{CircuitBreakerConfig, State, closed, open_, new}
use ferroly.Clients.Breaker.Invariant.{IsConfig, IsValid, ask, tell, Call, run, run-IsValid}
use ferroly.Clients.Breaker.Trips.{report_all, outcomes, HasFailures, report_all-open_iff}
use ferroly.Clients.Breaker.Recovery.{probes, probes_close}
use ferroly.Clients.Retry.{
  RetryPolicy, Result, ok, err, retry, backoff_for, saturating_mul, saturating_pow2,
}
use ferroly.Clients.Retry.Backoff.{backoff_for_mono, backoff_for_exact}
use ferroly.Clients.Retry.Laws.{IsFinal, delays, retry_lem}

-- The configuration of the tests in breaker.rs: 20 ms of cooldown.
abbrev cfg : CircuitBreakerConfig
cfg = record {
  failure_threshold = 3;
  success_threshold = 2;
  max_half_open = 1;
  timeout = 20_000_000;
}

cfg-IsConfig : IsConfig cfg
cfg-IsConfig = omega arith

abbrev history : List (ℕ × Call)
history = (1, ask) ∷ (2, tell false) ∷ (3, tell true) ∷ (4, ask) ∷ []

run-IsValid_example : IsValid cfg (run cfg new history)
run-IsValid_example = run-IsValid cfg history cfg-IsConfig

abbrev reports : List (ℕ × Bool)
reports = (1, true) ∷ (2, false) ∷ (3, false) ∷ (4, false) ∷ (5, true) ∷ []

report_all-open_iff_example :
    ((report_all cfg new reports).circuit ≡ open_) ↔ HasFailures 3 (outcomes reports)
report_all-open_iff_example = report_all-open_iff cfg reports (omega arith) (omega arith)

trips_open : (report_all cfg new reports).circuit ≡ open_
trips_open = report_all-open_iff_example.1 (true ∷ [], true ∷ [], refl)

abbrev tripped : State
tripped = record {
  circuit = open_;
  failures = 0;
  successes = 0;
  half_open_in_flight = 0;
  opened_at = some 4;
}

probes_close_example : (probes cfg tripped (20_000_004 ∷ 20_000_005 ∷ [])).circuit ≡ closed
probes_close_example =
    probes_close cfg 4 tripped 20_000_004 (20_000_005 ∷ []) cfg-IsConfig (omega arith) refl refl
      (omega arith) (omega arith)

-- The policy of the test `exponential_backoff_is_capped`, in milliseconds.
abbrev policy : RetryPolicy
policy = record { max_retries = 2; wait = 100; exponential = true; max_backoff = some 500 }

backoffs :
    (backoff_for policy 0 ≡ 100)
    × (backoff_for policy 1 ≡ 200)
    × (backoff_for policy 2 ≡ 400)
    × (backoff_for policy 3 ≡ 500)
unfolding backoff_for saturating_mul saturating_pow2
backoffs = (refl, refl, refl, refl)

backoff_for_mono_example : backoff_for policy 1 ≤ backoff_for policy 40
backoff_for_mono_example = backoff_for_mono policy 1 40 (omega arith)

backoff_for_exact_example : backoff_for policy 2 ≡ min 500 (100 * 2 ^ 2)
backoff_for_exact_example = backoff_for_exact policy 500 2 refl refl (omega arith) (omega arith)

-- 0 is a transient error and 1 a fatal one.
abbrev transient : ℕ → Bool
transient zero = true
transient (suc n) = false

abbrev answers : List (Result ℕ ℕ)
answers = err 0 ∷ ok 7 ∷ err 1 ∷ []

retry_lem_example :
    (es : List ℕ) × (r : Result ℕ ℕ) × (rest : List (Result ℕ ℕ)) × (answers
      ≡ map err es ++ (r ∷ rest))
    × All (λ e. transient e ≡ true) es
    × (length es ≤ 2)
    × IsFinal policy transient (length es) r
    × (retry policy transient answers
        ≡ record { result = some r; calls = suc (length es); delays = delays policy 0 (length es) })
retry_lem_example = retry_lem policy transient answers (omega arith)
