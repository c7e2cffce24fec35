-- ===== src/Clients/Breaker.antt =====
-- crates/ferroly/src/clients/breaker.rs. Instants and durations are numbers of nanoseconds; the clock
-- reading of `Instant::now` is an argument. `u32` counters wrap.
pub mod Invariant
pub mod Trips
pub mod Recovery
use ferroly.Base.{
  ℕ, ◌+◌, ◌-◌, ◌%◌, ◌^◌, Bool, true, false, Option, none, some, ltb, leb, if◌then◌else◌,
}

pub data CircuitState : Type 0 where
  closed open_ half_open : CircuitState

pub record CircuitBreakerConfig : Type 0 where
  pub failure_threshold : ℕ
  pub success_threshold : ℕ
  pub max_half_open : ℕ
  pub timeout : ℕ

abbrev pub u32 : ℕ → ℕ
u32 n = n % 2 ^ 32

-- `Default for CircuitBreakerConfig`.
unfoldable pub default_config : CircuitBreakerConfig
default_config = record {
  failure_threshold = 5;
  success_threshold = 2;
  max_half_open = 1;
  timeout = 30_000_000_000;
}

pub record State : Type 0 where
  pub circuit : CircuitState
  pub failures : ℕ
  pub successes : ℕ
  pub half_open_in_flight : ℕ
  pub opened_at : Option ℕ

unfoldable pub new : State
new = record {
  circuit = closed;
  failures = 0;
  successes = 0;
  half_open_in_flight = 0;
  opened_at = none;
}

-- `s.opened_at.map(|t| t.elapsed()).unwrap_or_default()`; `elapsed` stops at zero.
abbrev pub elapsed : Option ℕ → ℕ → ℕ
elapsed none now = 0
elapsed (some t) now = now - t

-- The three arms of `can_execute`: the new state, and whether the call is admitted.
admit : CircuitBreakerConfig → ℕ → CircuitState → State → State × Bool
admit cfg now closed s = (s, true)
admit cfg now open_ s =
    if leb cfg.timeout (elapsed s.opened_at now)
    then (record s { circuit = half_open; successes = 0; half_open_in_flight = 1 }, true)
    else (s, false)
admit cfg now half_open s =
    if ltb s.half_open_in_flight cfg.max_half_open
    then (record s { half_open_in_flight = u32 (s.half_open_in_flight + 1) }, true)
    else (s, false)

unfoldable pub can_execute : CircuitBreakerConfig → ℕ → State → State × Bool
unfolding admit
can_execute cfg now s = admit cfg now s.circuit s

unfoldable pub trip : ℕ → State → State
trip now s = record s {
  circuit = open_;
  opened_at = some now;
  failures = 0;
  successes = 0;
  half_open_in_flight = 0;
}

-- The failure and the success of a call that was reported while closed.
count_failure : CircuitBreakerConfig → ℕ → State → State
unfolding trip
count_failure cfg now s =
    let t = record s { failures = u32 (s.failures + 1) } in
    if leb cfg.failure_threshold t.failures then trip now t else t

-- A successful trial: `s` has its slot given back already.
count_success : CircuitBreakerConfig → State → State
count_success cfg s =
    let t = record s { successes = u32 (s.successes + 1) } in
    if leb cfg.success_threshold t.successes
    then record t { circuit = closed; failures = 0; successes = 0; opened_at = none }
    else t

report : CircuitBreakerConfig → ℕ → Bool → CircuitState → State → State
unfolding count_failure count_success trip
report cfg now success closed s =
    if success then record s { failures = 0 } else count_failure cfg now s
report cfg now success half_open s =
    let t = record s { half_open_in_flight = s.half_open_in_flight - 1 } in
    if success then count_success cfg t else trip now t
report cfg now success open_ s = if success then s else record s { opened_at = some now }

unfoldable pub on_execution : CircuitBreakerConfig → ℕ → Bool → State → State
unfolding report
on_execution cfg now success s = report cfg now success s.circuit s
