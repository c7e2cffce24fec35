-- ===== src/Tests/Routing.antt =====
-- Runs of crates/ferroly/src/genai/router.
use Prim.Native.Nat.{compare}
use ferroly.Base.{
  ℕ, ◌+◌, ◌*◌, ◌/◌, ◌≡◌, ◌≢◌, ◌↔◌, refl, ap, ap₂, length, Bool, true, false, not, if◌then◌else◌,
  List, [], ◌∷◌, none, some, All, arith,
}
use ferroly.Base.Bytes.{Bytes, bytes_eq}
use ferroly.Clients.Breaker.{CircuitBreakerConfig, new, open_, default_config}
use ferroly.Clients.Breaker.Invariant.{IsConfig, new-IsValid}
use ferroly.Clients.Breaker.Recovery.{ask_all}
use ferroly.Clients.Retry.{Result, ok, err}
use ferroly.Router.Data.{
  Task, quality, cost, json_mode, ModelInfo, Candidate, Route, attempts, CompletionRequest,
  GenAiError, api, deadline_exceeded,
}
use ferroly.Router.Ranking.{Float, Exclusion, capability_rank}
use ferroly.Router.Ranking.Sorting.{IsIn, flip}
use ferroly.Router.Ranking.Offers.{IsDual, IsOffered, IsRefused}
use ferroly.Router.Ranking.Laws.{IsNegating, Precedes, capability_rank-Ranks}
use ferroly.Router.Ranking.Order.{IsOrder, IsSorted}
use ferroly.Router.Resolve.{capability_strategy, resolve_inner, route as route_by}
use ferroly.Router.Resolve.Laws.{Resolved, IsAllowed, resolve_inner-Resolved, route-IsAllowed}
use ferroly.Router.Execute.{Router, Breakers, Tick, key, execute, execute_stream}
use ferroly.Router.Execute.Breakers.{AllSettled, execute-AllSettled, execute_stream-stuck}
use ferroly.Router.Execute.Returns.{IsAnswered, execute-returns}
use ferroly.Router.Execute.Fallback.{Explains, InOrder, execute-Explains, execute-InOrder}

abbrev small : ModelInfo ℕ
small = record {
  name = b'm' ∷ [];
  provider = b'a' ∷ [];
  display_name = b'm' ∷ [];
  capabilities = [];
  max_input_tokens = 1000;
  max_output_tokens = 256;
  input_cost_per_mtok = 1;
  output_cost_per_mtok = 2;
  metadata = [];
}

-- The provider `b` answers 7, any other fails with the status 500; `c` is not registered.
abbrev answers : Bytes → ℕ → CompletionRequest ℕ → List (Result ℕ GenAiError)
answers p now req = if bytes_eq p (b'b' ∷ []) then ok 7 ∷ [] else err (api 500 []) ∷ []

abbrev known : Bytes → Bool
known p = not (bytes_eq p (b'c' ∷ []))

abbrev router : Router ℕ ℕ ℕ
router = record {
  registered = known;
  reply = answers;
  registry = λ p m. some small;
  retry = none;
  breaker_cfg = some default_config;
}

abbrev task : Task ℕ
task = record {
  kind = none;
  est_input_tokens = 10;
  est_output_tokens = 10;
  max_cost_usd = 0;
  priority = quality;
  required = json_mode ∷ [];
  pin = none;
  deadline = some 1000;
}

abbrev request : CompletionRequest ℕ
request = record { model = []; max_tokens = some 5000; response_format = none; rest = 0 }

abbrev candidate : ℕ → Candidate ℕ
candidate p = record { provider = p ∷ []; model = b'm' ∷ []; score = 0; est_cost = 0 }

abbrev route : Route ℕ
route = record { primary = candidate b'c'; fallbacks = candidate b'a' ∷ candidate b'b' ∷ [] }

abbrev on_time : ℕ → Tick
on_time i = record { start = i; admitted = i; finished = i; late = false }

abbrev fresh_breakers : Breakers
fresh_breakers k = new

router-IsAnswered : IsAnswered router
router-IsAnswered p now req = ground arith

execute-Explains_example :
    let ran = execute router task request on_time fresh_breakers route in
    Explains router task request ran.sent ran.result
execute-Explains_example = execute-Explains router task request on_time fresh_breakers route

execute-InOrder_example :
    InOrder router task request
      (attempts route)
      (execute router task request on_time fresh_breakers route).sent
execute-InOrder_example = execute-InOrder router task request on_time fresh_breakers route

execute-returns_example :
    ((execute router task request on_time fresh_breakers route).result ≢ none)
    × ((execute_stream router task request on_time fresh_breakers route).result ≢ none)
execute-returns_example =
    execute-returns router task request on_time fresh_breakers route router-IsAnswered

default_config-IsConfig : IsConfig default_config
unfolding default_config
default_config-IsConfig = omega arith

execute-AllSettled_example :
    AllSettled default_config fresh_breakers
      (execute router task request on_time fresh_breakers route).breakers
execute-AllSettled_example =
    execute-AllSettled router default_config task request on_time fresh_breakers route refl
      default_config-IsConfig (λ k. new-IsValid default_config) execute-returns_example.0

-- The breaker of `b/m` opened long ago, and the stream's first call outlasts the deadline.
abbrev open_breakers : Breakers
open_breakers k = record {
  circuit = open_;
  failures = 0;
  successes = 0;
  half_open_in_flight = 0;
  opened_at = some 1;
}

abbrev cfg : CircuitBreakerConfig
cfg = record { failure_threshold = 5; success_threshold = 2; max_half_open = 1; timeout = 30 }

abbrev late : ℕ → Tick
late i = record { start = 100; admitted = 100; finished = 1000; late = true }

abbrev guarded : Router ℕ ℕ ℕ
guarded = record router { breaker_cfg = some cfg }

abbrev direct : Route ℕ
direct = record { primary = candidate b'b'; fallbacks = [] }

execute_stream-stuck_example :
    let ran = execute_stream guarded task request late open_breakers direct in
    let s = ran.breakers (key (candidate b'b')) in
    (ran.result ≡ some (err deadline_exceeded))
    × (s.half_open_in_flight ≡ 1)
    × ((ask_all cfg s (200 ∷ 1_000_000 ∷ [])).0 ≡ s)
    × All (λ ok. ok ≡ false) (ask_all cfg s (200 ∷ 1_000_000 ∷ [])).1
execute_stream-stuck_example =
    execute_stream-stuck guarded cfg task request late open_breakers direct 1 1000
      (200 ∷ 1_000_000 ∷ []) refl (omega arith) b_known refl refl (omega arith) refl (omega arith)
      refl
  where
    b_known : known (b'b' ∷ []) ≡ true
    b_known = unfold bytes_eq in refl

-- Numbers in place of floats: exact, and their comparison is dual.
abbrev numbers : Float ℕ
numbers = record {
  from_nat = λ n. n;
  add = λ a b. a + b;
  mul = λ a b. a * b;
  div = λ a b. a / b;
  neg = λ a. 0;
  partial_cmp = λ a b. some (compare a b);
}

compare-dual : (a b : ℕ) → compare b a ≡ flip (compare a b)
compare-dual a b = ground arith

numbers-IsDual : IsDual numbers
numbers-IsDual a b = ap some (compare-dual a b)

abbrev large : ModelInfo ℕ
large = record small { name = b'n' ∷ []; capabilities = json_mode ∷ [] }

-- Differences of numbers, a pair for its first less its second: floats that know a sign.
abbrev differences : Float (ℕ × ℕ)
differences = record {
  from_nat = λ n. (n, 0);
  add = λ x y. (x.0 + y.0, x.1 + y.1);
  mul = λ x y. (x.0 * y.0 + x.1 * y.1, x.0 * y.1 + x.1 * y.0);
  div = λ x y. (x.0 / y.0, x.1 / y.0);
  neg = λ x. (x.1, x.0);
  partial_cmp = λ x y. some (compare (x.0 + y.1) (y.0 + x.1));
}

differences-IsDual : IsDual differences
differences-IsDual x y = ap some (compare-dual (x.0 + y.1) (y.0 + x.1))

differences-IsNegating : IsNegating differences
differences-IsNegating x y = ap some (ap₂ compare (add_comm x.1 y.0) (add_comm y.1 x.0))
  where
    add_comm : (a b : ℕ) → a + b ≡ b + a
    add_comm a b = omega arith

differences-IsOrder : IsOrder differences
differences-IsOrder = record { less = λ x y z h k. ground arith; alike = λ x y z h. ground arith }

abbrev priced : ℕ → ℕ → ModelInfo (ℕ × ℕ)
priced name price = record {
  name = name ∷ [];
  provider = b'a' ∷ [];
  display_name = [];
  capabilities = [];
  max_input_tokens = 0;
  max_output_tokens = 0;
  input_cost_per_mtok = (price, 0);
  output_cost_per_mtok = (price, 0);
  metadata = [];
}

-- Two million tokens of input, at the lowest cost.
abbrev cheapest : Task (ℕ × ℕ)
cheapest = record {
  kind = none;
  est_input_tokens = 2_000_000;
  est_output_tokens = 0;
  max_cost_usd = (0, 0);
  priority = cost;
  required = [];
  pin = none;
  deadline = none;
}

abbrev offers : List (ModelInfo (ℕ × ℕ))
offers = priced b'x' 9 ∷ priced b'y' 4 ∷ priced b'z' 4 ∷ []

capability_rank-Ranks_example :
    let ranking = capability_rank differences offers cheapest in
    ((c : Candidate (ℕ × ℕ)) → IsIn c ranking.candidates ↔ IsOffered differences cheapest offers c)
    × ((x : Exclusion (ℕ × ℕ)) → IsIn x ranking.excluded ↔ IsRefused differences cheapest offers x)
    × (length ranking.candidates + length ranking.excluded ≡ 3)
    × IsSorted (Precedes differences cheapest) ranking.candidates
capability_rank-Ranks_example =
    capability_rank-Ranks differences offers cheapest differences-IsDual differences-IsNegating
      differences-IsOrder (λ m n m_in n_in m_fits n_fits e. cc)

resolve_inner-Resolved_example :
    Resolved numbers
      (λ p m. some small)
      (capability_strategy numbers (small ∷ large ∷ []))
      2
      task
      none
      (resolve_inner numbers
        (λ p m. some small)
        (capability_strategy numbers (small ∷ large ∷ []))
        2
        task)
resolve_inner-Resolved_example =
    resolve_inner-Resolved numbers (λ p m. some small)
      (capability_strategy numbers (small ∷ large ∷ [])) 2 task

route-IsAllowed_example :
    All
      (IsAllowed numbers router (small ∷ large ∷ []) task request)
      (route_by numbers router
        (capability_strategy numbers (small ∷ large ∷ []))
        2
        false
        task
        request
        on_time
        fresh_breakers).sent
route-IsAllowed_example =
    route-IsAllowed numbers router (small ∷ large ∷ []) 2 task request on_time fresh_breakers
      numbers-IsDual refl
