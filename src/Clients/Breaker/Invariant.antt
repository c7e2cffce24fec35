-- ===== src/Clients/Breaker/Invariant.antt =====
-- What holds of a circuit breaker between two calls.
use ferroly.Base.{ℕ, ◌^◌, ◌≤◌, ◌<◌, max, ◌≡◌, ◌≢◌, Bool, List, [], ◌∷◌, none, arith}
use ferroly.Clients.Breaker.{
  closed, open_, half_open, CircuitBreakerConfig, State, new, can_execute, on_execution,
}

-- The thresholds are `u32` values.
pub record IsConfig (cfg : CircuitBreakerConfig) : Type 0 where
  pub failure_fits : cfg.failure_threshold < 2 ^ 32
  pub success_fits : cfg.success_threshold < 2 ^ 32
  pub trials_fit : cfg.max_half_open < 2 ^ 32

pub record IsValid (cfg : CircuitBreakerConfig) (s : State) : Type 0 where
  pub failures_below : s.failures < max 1 cfg.failure_threshold
  pub successes_below : s.successes < max 1 cfg.success_threshold
  pub trials_bounded : s.half_open_in_flight ≤ max 1 cfg.max_half_open
  pub closed_fresh : s.circuit ≡ closed → s.opened_at ≡ none
  pub open_dated : s.circuit ≡ open_ → s.opened_at ≢ none
  pub half_open_dated : s.circuit ≡ half_open → s.opened_at ≢ none
  pub open_idle : s.circuit ≡ open_ → s.half_open_in_flight ≡ 0
  pub counting_closed : s.circuit ≢ closed → s.failures ≡ 0

pub new-IsValid : (cfg : CircuitBreakerConfig) → IsValid cfg new
unfolding new
new-IsValid cfg = ground arith

pub can_execute-IsValid :
    (cfg : CircuitBreakerConfig) (now : ℕ) (s : State)
    → IsConfig cfg
    → IsValid cfg s
    → IsValid cfg (can_execute cfg now s).0
unfolding can_execute
can_execute-IsValid cfg now s c h = ground arith

pub on_execution-IsValid :
    (cfg : CircuitBreakerConfig) (now : ℕ) (success : Bool) (s : State)
    → IsConfig cfg
    → IsValid cfg s
    → IsValid cfg (on_execution cfg now success s)
unfolding on_execution
on_execution-IsValid cfg now success s c h = ground arith

-- One call of the breaker's interface by any task: a request for admission or a report.
pub data Call : Type 0 where
  ask : Call
  tell : Bool → Call

pub step : CircuitBreakerConfig → State → ℕ × Call → State
step cfg s (now, ask) = (can_execute cfg now s).0
step cfg s (now, tell success) = on_execution cfg now success s

-- The lock makes concurrent use a sequence of calls.
pub run : CircuitBreakerConfig → State → List (ℕ × Call) → State
run cfg s [] = s
run cfg s (c ∷ cs) = run cfg (step cfg s c) cs

run_from-IsValid :
    (cfg : CircuitBreakerConfig) (s : State) (calls : List (ℕ × Call))
    → IsConfig cfg
    → IsValid cfg s
    → IsValid cfg (run cfg s calls)
unfolding run step
run_from-IsValid cfg s [] c h = h
run_from-IsValid cfg s ((now, ask) ∷ cs) c h =
    run_from-IsValid cfg (can_execute cfg now s).0 cs c (can_execute-IsValid cfg now s c h)
run_from-IsValid cfg s ((now, tell success) ∷ cs) c h =
    run_from-IsValid cfg (on_execution cfg now success s) cs c
      (on_execution-IsValid cfg now success s c h)

-- With thresholds that fit a `u32`, every sequence of admissions and reports, at any times, takes a
-- new breaker to a state in which the failures counted stay below the failure threshold, the
-- successes below the success threshold and the trials in flight at most at the larger of one and
-- `max_half_open`; the opening time is set exactly while the breaker is not closed, and an open
-- breaker has no trial in flight.
pub run-IsValid :
    (cfg : CircuitBreakerConfig) (calls : List (ℕ × Call))
    → IsConfig cfg
    → IsValid cfg (run cfg new calls)
run-IsValid cfg calls c = run_from-IsValid cfg new calls c (new-IsValid cfg)
