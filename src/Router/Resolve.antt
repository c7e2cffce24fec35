-- ===== src/Router/Resolve.antt =====
-- Choosing a route: `resolve_inner` and `route` of
-- crates/ferroly/src/genai/router/default_router.rs, with the rule-based strategy of strategy.rs.
pub mod Laws
use ferroly.Base.{
  ℕ, zero, suc, ◌+◌, Bool, true, false, List, [], ◌∷◌, ◌++◌, Option, none, some, ltb, if◌then◌else◌,
  length, take,
}
use ferroly.Base.Bytes.{Bytes, ascii}
use ferroly.Clients.Retry.{Result, ok, err}
use ferroly.Router.Data.{
  TaskKind, TaskKind-discrete, ModelInfo, Pin, Task, Candidate, Route, RouterError, no_route,
  CompletionRequest,
}
use ferroly.Router.Ranking.{Float, Exclusion, Ranking, out_estimate, est_cost, capability_rank}
use ferroly.Router.Execute.{Router, Breakers, Tick, Ran, execute, execute_stream}

pub record Rule : Type 0 where
  pub kind : TaskKind
  pub provider : Bytes
  pub model : Bytes

pub record RouteDecision (F : Type 0) : Type 0 where
  pub strategy : Bytes
  pub chosen : Candidate F
  pub fallbacks : List (Candidate F)
  pub considered : List (Candidate F)
  pub excluded : List (Exclusion F)
  pub pinned : Bool

-- A `RoutingStrategy`.
pub record Strategy (F : Type 0) : Type 0 where
  pub name : Bytes
  pub rank : Task F → Ranking F

-- `CapabilityStrategy` over the models of the registry.
unfoldable pub capability_strategy : {F : Type 0} → Float F → List (ModelInfo F) → Strategy F
capability_strategy float models = record {
  name = ascii "capability";
  rank = capability_rank float models;
}

module _ {F : Type 0} (float : Float F) (get : Bytes → Bytes → Option (ModelInfo F)) where
  abbrev cost_for : Task F → Option (ModelInfo F) → F
  cost_for task none = float.from_nat 0
  cost_for task (some m) = est_cost float m task.est_input_tokens (out_estimate task)

  unfoldable pub make_candidate : Bytes → Bytes → Task F → F → Candidate F
  make_candidate provider model task score = record {
    provider = provider;
    model = model;
    score = score;
    est_cost = cost_for task (get provider model);
  }

  -- The matching rules, the first `i` of them being counted already.
  rule_candidates : Task F → TaskKind → ℕ → List Rule → List (Candidate F)
  unfolding make_candidate TaskKind-discrete
  rule_candidates task kind i [] = []
  rule_candidates task kind i (r ∷ rules) =
      let here = make_candidate r.provider r.model task (float.neg (float.from_nat i)) in
      let next = rule_candidates task kind (i + 1) rules in
      let same = rule_candidates task kind i rules in
      elim (TaskKind-discrete r.kind kind) [ yes _ ↦ here ∷ next | no _ ↦ same ]

  matched : Task F → Option TaskKind → List Rule → List (Candidate F)
  unfolding rule_candidates
  matched task none rules = []
  matched task (some kind) rules = rule_candidates task kind 0 rules

  default_candidate : Task F → ℕ → Option (Bytes × Bytes) → List (Candidate F)
  unfolding make_candidate
  default_candidate task n none = []
  default_candidate task n (some (p, m)) =
      make_candidate p m task
        (float.add (float.neg (float.from_nat n)) (float.neg (float.from_nat 1)))
      ∷ []

  -- `RuleBasedStrategy::rank`; `x - 1.0` is the sum of `x` and `-1.0`.
  unfoldable pub rule_based_rank : List Rule → Option (Bytes × Bytes) → Task F → Ranking F
  unfolding matched default_candidate
  rule_based_rank rules default task =
      let found = matched task task.kind rules in
      record { candidates = found ++ default_candidate task (length found) default; excluded = [] }

  pin_decision : Candidate F → RouteDecision F
  pin_decision chosen = record {
    strategy = ascii "pin";
    chosen = chosen;
    fallbacks = [];
    considered = chosen ∷ [];
    excluded = [];
    pinned = true;
  }

  -- The route of a ranking, with at most `depth` fallbacks.
  pub choose :
      Bytes
      → ℕ
      → List (Exclusion F)
      → List (Candidate F)
      → Result (Route F × RouteDecision F) RouterError
  choose name depth excluded [] =
      err (no_route (ascii "no model satisfied the task (strategy: " ++ (name ++ ascii ")")))
  choose name depth excluded (primary ∷ rest) = ok (
    record { primary = primary; fallbacks = take depth rest },
    record {
      strategy = name;
      chosen = primary;
      fallbacks = take depth rest;
      considered = primary ∷ rest;
      excluded = excluded;
      pinned = false;
    },
  )

  -- `resolve_inner`, by the pin or by the strategy.
  pub resolve_from :
      Strategy F → ℕ → Task F → Option Pin → Result (Route F × RouteDecision F) RouterError
  unfolding choose pin_decision make_candidate
  resolve_from strategy depth task (some pin) =
      let chosen = make_candidate pin.provider pin.model task (float.from_nat 0) in
      ok (record { primary = chosen; fallbacks = [] }, pin_decision chosen)
  resolve_from strategy depth task none =
      let ranking = strategy.rank task in
      choose strategy.name depth ranking.excluded ranking.candidates

  unfoldable pub resolve_inner :
      Strategy F → ℕ → Task F → Result (Route F × RouteDecision F) RouterError
  unfolding resolve_from
  resolve_inner strategy depth task = resolve_from strategy depth task task.pin

-- `route` (`false`) and `route_stream` (`true`): an error of `resolve_inner` is returned as it is.
module _ {F M R : Type 0} (float : Float F) (router : Router F M R) (strategy : Strategy F)
    (depth : ℕ) where
  pub route_on :
      Bool
      → Task F
      → CompletionRequest M
      → (ℕ → Tick)
      → Breakers
      → Result (Route F × RouteDecision F) RouterError
      → Ran F M R
  route_on streaming task request ticks bs (err e) = record {
    breakers = bs;
    sent = [];
    result = some (err e);
  }
  route_on streaming task request ticks bs (ok (r, _)) =
      if streaming
      then execute_stream router task request ticks bs r
      else execute router task request ticks bs r

  unfoldable pub route : Bool → Task F → CompletionRequest M → (ℕ → Tick) → Breakers → Ran F M R
  unfolding route_on
  route streaming task request ticks bs =
      route_on streaming task request ticks bs
        (resolve_inner float router.registry strategy depth task)
