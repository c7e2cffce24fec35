-- ===== src/Clients/Breaker/Recovery.antt =====
-- An open circuit breaker: the trials that close it. A half-open one without a free trial.
use ferroly.Base.{
  ℕ, suc, ◌+◌, ◌≤◌, ◌<◌, max, ◌≡◌, refl, Bool, true, false, List, [], ◌∷◌, arith, some, length, All,
  if◌then◌else◌,
}
use ferroly.Clients.Breaker.{
  closed, open_, half_open, CircuitBreakerConfig, State, can_execute, on_execution,
}
use ferroly.Clients.Breaker.Invariant.{IsConfig}

-- Requests for admission one after another, with the answers.
pub ask_all : CircuitBreakerConfig → State → List ℕ → State × List Bool
ask_all cfg s [] = (s, [])
ask_all cfg s (now ∷ nows) =
    let (s', ok) = can_execute cfg now s in let (s'', oks) = ask_all cfg s' nows in (s'', ok ∷ oks)

can_execute_full :
    (cfg : CircuitBreakerConfig) (now : ℕ) (s : State)
    → s.circuit ≡ half_open
    → cfg.max_half_open ≤ s.half_open_in_flight
    → can_execute cfg now s ≡ (s, false)
unfolding can_execute
can_execute_full cfg now s o h = ground arith

-- While no trial in flight is reported, a half-open breaker with all its trials in flight refuses
-- every request at every time and is left as it was: no timeout frees a trial that is never reported.
pub ask_all_full :
    (cfg : CircuitBreakerConfig) (s : State) (nows : List ℕ)
    → s.circuit ≡ half_open
    → cfg.max_half_open ≤ s.half_open_in_flight
    → ((ask_all cfg s nows).0 ≡ s) × All (λ ok. ok ≡ false) (ask_all cfg s nows).1
unfolding ask_all
ask_all_full cfg s [] o h = (refl, tt)
ask_all_full cfg s (now ∷ nows) o h =
    let (same, refused) = ask_all_full cfg s nows o h in
    rw (can_execute_full cfg now s o h) (same, (refl, refused))

-- A request at each time, whose call succeeds and is reported if it was admitted.
pub probe : CircuitBreakerConfig → ℕ → State → State
probe cfg now s =
    let (s', ok) = can_execute cfg now s in if ok then on_execution cfg now true s' else s'

pub probes : CircuitBreakerConfig → State → List ℕ → State
probes cfg s [] = s
probes cfg s (now ∷ nows) = probes cfg (probe cfg now s) nows

probe_more :
    (cfg : CircuitBreakerConfig) (now : ℕ) (s : State)
    → IsConfig cfg
    → 0 < cfg.max_half_open
    → s.circuit ≡ half_open
    → s.half_open_in_flight ≡ 0
    → s.successes + 1 < cfg.success_threshold
    → ((probe cfg now s).circuit ≡ half_open)
      × ((probe cfg now s).half_open_in_flight ≡ 0)
      × ((probe cfg now s).successes ≡ s.successes + 1)
unfolding probe can_execute on_execution
probe_more cfg now s c p o f h = ground arith

probe_last :
    (cfg : CircuitBreakerConfig) (now : ℕ) (s : State)
    → IsConfig cfg
    → 0 < cfg.max_half_open
    → s.circuit ≡ half_open
    → s.half_open_in_flight ≡ 0
    → s.successes + 1 ≡ max 1 cfg.success_threshold
    → (probe cfg now s).circuit ≡ closed
unfolding probe can_execute on_execution
probe_last cfg now s c p o f h = ground arith

probes_half_open :
    (cfg : CircuitBreakerConfig) (nows : List ℕ) (now : ℕ) (s : State)
    → IsConfig cfg
    → 0 < cfg.max_half_open
    → s.circuit ≡ half_open
    → s.half_open_in_flight ≡ 0
    → s.successes + suc (length nows) ≡ max 1 cfg.success_threshold
    → (probes cfg s (now ∷ nows)).circuit ≡ closed
unfolding probes
probes_half_open cfg [] now s c p o f h = probe_last cfg now s c p o f (omega arith)
probes_half_open cfg (n ∷ nows) now s c p o f h =
    let (o', f', k) = probe_more cfg now s c p o f (omega arith) in
    probes_half_open cfg nows n (probe cfg now s) c p o' f' (omega arith)

probe_open :
    (cfg : CircuitBreakerConfig) (now t : ℕ) (s : State)
    → IsConfig cfg
    → s.circuit ≡ open_
    → s.opened_at ≡ some t
    → t + cfg.timeout ≤ now
    → 1 < cfg.success_threshold
    → ((probe cfg now s).circuit ≡ half_open)
      × ((probe cfg now s).half_open_in_flight ≡ 0)
      × ((probe cfg now s).successes ≡ 1)
unfolding probe can_execute on_execution
probe_open cfg now t s c o a late h = ground arith

probe_open_last :
    (cfg : CircuitBreakerConfig) (now t : ℕ) (s : State)
    → s.circuit ≡ open_
    → s.opened_at ≡ some t
    → t + cfg.timeout ≤ now
    → cfg.success_threshold ≤ 1
    → (probe cfg now s).circuit ≡ closed
unfolding probe can_execute on_execution
probe_open_last cfg now t s o a late h = ground arith

-- With thresholds that fit a `u32` and at least one trial allowed, a breaker that opened at time `t`
-- is closed by as many successful trials in a row as the success threshold asks (one, if it is 0),
-- the first at a time when the timeout has passed and the others at any times.
pub probes_close :
    (cfg : CircuitBreakerConfig) (t : ℕ) (s : State) (now : ℕ) (nows : List ℕ)
    → IsConfig cfg
    → 0 < cfg.max_half_open
    → s.circuit ≡ open_
    → s.opened_at ≡ some t
    → t + cfg.timeout ≤ now
    → suc (length nows) ≡ max 1 cfg.success_threshold
    → (probes cfg s (now ∷ nows)).circuit ≡ closed
unfolding probes
probes_close cfg t s now [] c p o a late n = probe_open_last cfg now t s o a late (omega arith)
probes_close cfg t s now (n' ∷ nows) c p o a late n =
    let (o', f', k) = probe_open cfg now t s c o a late (omega arith) in
    probes_half_open cfg nows n' (probe cfg now s) c p o' f' (omega arith)
