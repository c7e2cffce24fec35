-- ===== src/Router/Execute.antt =====
-- crates/ferroly/src/genai/router/execute.rs and the calls of default_router.rs, for one request at a
-- time. The providers are parameters: `reply` gives the results of the calls that a provider answers,
-- in order, and a `Tick` the clock readings of one attempt and whether its time runs out.
pub mod Breakers
pub mod Fallback
pub mod Returns
use ferroly.Base.{
  ℕ, zero, suc, ◌+◌, ◌≤◌, ◌≡◌, ◌⊎◌, inl, inr, refl, Bool, true, false, not, ◌&&◌, ◌||◌, List, [],
  ◌∷◌, ◌++◌, Option, none, some, leb, ltb, ◌==◌, if◌then◌else◌, any,
}
use ferroly.Base.Bytes.{Bytes, ascii, bytes_eq}
use ferroly.Clients.Breaker.{CircuitBreakerConfig, State, can_execute, on_execution}
use ferroly.Clients.Retry.{RetryPolicy, Result, ok, err, retry}
use ferroly.Router.Data.{
  Capability, json_mode, ModelInfo, Task, Candidate, GenAiError, transport, api, RouterError,
  no_route, all_routes_failed, deadline_exceeded, gen_ai, ResponseFormat, json, CompletionRequest,
  has_capability, Route, attempts,
}

abbrev clamp_max : ℕ → Option ℕ → Option ℕ
clamp_max most none = none
clamp_max most (some max) = if ltb 0 most && ltb most max then some most else some max

abbrev set_json : Bool → Option ResponseFormat → Option ResponseFormat
set_json wanted none = if wanted then some json else none
set_json wanted (some f) = some f

unfoldable pub clamp_options :
    {F M : Type 0} → CompletionRequest M → ModelInfo F → Task F → CompletionRequest M
clamp_options request info task = record request {
  max_tokens = clamp_max info.max_output_tokens request.max_tokens;
  response_format = set_json (has_capability task.required json_mode) request.response_format;
}

-- `is_retryable` with no finish reason, as the router calls it.
unfoldable pub is_retryable : GenAiError → Bool
is_retryable (transport _) = true
is_retryable (api status _) = status == 429 || (leb 500 status && leb status 599)
is_retryable _ = false

-- The breakers by key; a key with no breaker yet reads as a new one.
abbrev pub Breakers : Type 0
Breakers = Bytes → State

unfoldable pub key : {F : Type 0} → Candidate F → Bytes
key c = c.provider ++ (b'/' ∷ c.model)

unfoldable pub update : Breakers → Bytes → State → Breakers
update bs k s j = if bytes_eq k j then s else bs j

-- What the clock reads during one attempt, and whether the call is cut off by its timeout.
pub record Tick : Type 0 where
  pub start : ℕ
  pub admitted : ℕ
  pub finished : ℕ
  pub late : Bool

-- What the router asked of a provider.
pub record Sent (F M : Type 0) : Type 0 where
  pub candidate : Candidate F
  pub request : CompletionRequest M
  pub time : ℕ

-- How a candidate ends: passed over, tried in vain with the next to follow, or the last.
pub data Verdict (F M R : Type 0) : Type 0 where
  skip : Breakers → Verdict F M R
  next : Breakers → Sent F M → GenAiError → Verdict F M R
  stop : Breakers → List (Sent F M) → Result R RouterError → Verdict F M R
  pending : Breakers → Sent F M → Verdict F M R

-- To split on a verdict and keep the equation.
pub Verdict-cases :
    {F M R : Type 0} (v : Verdict F M R)
    → ((bs : Breakers) × (v ≡ skip bs))
      ⊎ (((bs : Breakers) × (sent : Sent F M) × (e : GenAiError) × (v ≡ next bs sent e))
          ⊎ (((bs : Breakers) × (sent : List (Sent F M)) × (r : Result R RouterError) × (v
                  ≡ stop bs sent r))
              ⊎ ((bs : Breakers) × (sent : Sent F M) × (v ≡ pending bs sent))))
Verdict-cases (skip bs) = inl (bs, refl)
Verdict-cases (next bs sent e) = inr (inl (bs, sent, e, refl))
Verdict-cases (stop bs sent r) = inr (inr (inl (bs, sent, r, refl)))
Verdict-cases (pending bs sent) = inr (inr (inr (bs, sent, refl)))

-- What a run did. The result is `none` if a call without a deadline never came back.
pub record Ran (F M R : Type 0) : Type 0 where
  pub breakers : Breakers
  pub sent : List (Sent F M)
  pub result : Option (Result R RouterError)

-- The router's configuration, and the parts of it that are not the router's.
pub record Router (F M R : Type 0) : Type 0 where
  pub registered : Bytes → Bool
  pub reply : Bytes → ℕ → CompletionRequest M → List (Result R GenAiError)
  pub registry : Bytes → Bytes → Option (ModelInfo F)
  pub retry : Option RetryPolicy
  pub breaker_cfg : Option CircuitBreakerConfig

module _ {F M R : Type 0} (router : Router F M R) where
  -- `can_execute` of the candidate's breaker, if breakers are configured.
  pub admit : Breakers → Candidate F → ℕ → Breakers × Bool
  admit bs c now = elim router.breaker_cfg [
    | none ↦ (bs, true)
    | some cfg ↦
        let (s, admitted) = can_execute cfg now (bs (key c)) in (update bs (key c) s, admitted)
  ]

  pub report : Breakers → Candidate F → ℕ → Bool → Breakers
  report bs c now success = elim router.breaker_cfg [
    | none ↦ bs
    | some cfg ↦ update bs (key c) (on_execution cfg now success (bs (key c)))
  ]

  -- `remaining`: whether the deadline has passed.
  abbrev is_past : Task F → ℕ → Bool
  is_past task now = elim task.deadline [ none ↦ false | some dl ↦ leb dl now ]

  abbrev has_deadline : Task F → Bool
  has_deadline task = elim task.deadline [ none ↦ false | some dl ↦ true ]

  prepare : CompletionRequest M → Candidate F → Task F → CompletionRequest M
  prepare request c task =
      let req : CompletionRequest M = record request { model = c.model } in
      elim (router.registry c.provider c.model) [
        | none ↦ req
        | some info ↦ clamp_options req info task
      ]

  abbrev first : List (Result R GenAiError) → Option (Result R GenAiError)
  first [] = none
  first (r ∷ rs) = some r

  -- `call_with_retry`, over the answers that the provider gives to the calls.
  pub call_with_retry : List (Result R GenAiError) → Option (Result R GenAiError)
  call_with_retry replies = elim router.retry [
    | none ↦ first replies
    | some policy ↦ (retry policy is_retryable replies).result
  ]

  -- The end of an attempt: the result is reported to the breaker and classified.
  conclude : Breakers → Candidate F → ℕ → Sent F M → Option (Result R GenAiError) → Verdict F M R
  conclude bs c now sent none = pending bs sent
  conclude bs c now sent (some (ok resp)) = stop (report bs c now true) (sent ∷ []) (ok resp)
  conclude bs c now sent (some (err e)) =
      if is_retryable e
      then next (report bs c now false) sent e
      else stop (report bs c now false) (sent ∷ []) (err (gen_ai e))

  -- A call that its timeout cuts off. `execute` reports it as a failure; `execute_stream` does not.
  cut_off : Bool → Breakers → Candidate F → ℕ → Sent F M → Verdict F M R
  cut_off streaming bs c now sent =
      stop (if streaming then bs else report bs c now false) (sent ∷ []) (err deadline_exceeded)

  -- The body of the loop of `execute` (`false`) and of `execute_stream` (`true`).
  pub attempt : Bool → Task F → CompletionRequest M → Tick → Breakers → Candidate F → Verdict F M R
  unfolding conclude cut_off
  attempt streaming task request tick bs c =
      let (bs', admitted) = admit bs c tick.admitted in
      let req = prepare request c task in
      let sent : Sent F M = record { candidate = c; request = req; time = tick.start } in
      let replies = router.reply c.provider tick.start req in
      if is_past task tick.start
      then stop bs [] (err deadline_exceeded)
      else if not (router.registered c.provider)
      then skip bs
      else if not admitted
      then skip bs'
      else if has_deadline task && tick.late
      then cut_off streaming bs' c tick.finished sent
      else conclude bs' c tick.finished sent
          (if streaming then first replies else call_with_retry replies)

  abbrev exhausted : ℕ → Option GenAiError → RouterError
  exhausted tried none = no_route (ascii "no attemptable candidate (providers unregistered)")
  exhausted tried (some e) = all_routes_failed tried e

  -- The loop, with the error of the last attempt and the number of attempts so far.
  pub execute_from :
      Bool
      → Task F
      → CompletionRequest M
      → (ℕ → Tick)
      → ℕ
      → Option GenAiError
      → ℕ
      → Breakers
      → List (Candidate F)
      → Ran F M R
  execute_from streaming task request ticks i last tried bs [] = record {
    breakers = bs;
    sent = [];
    result = some (err (exhausted tried last));
  }
  execute_from streaming task request ticks i last tried bs (c ∷ cs) =
      elim (attempt streaming task request (ticks i) bs c) [
        | skip bs' ↦ execute_from streaming task request ticks (i + 1) last tried bs' cs
        | next bs' sent e ↦
            let ran =
              execute_from streaming task request ticks (i + 1) (some e) (tried + 1) bs' cs in
            record ran { sent = sent ∷ ran.sent }
        | stop bs' sent r ↦ record { breakers = bs'; sent = sent; result = some r }
        | pending bs' sent ↦ record { breakers = bs'; sent = sent ∷ []; result = none }
      ]

  unfoldable pub execute :
      Task F → CompletionRequest M → (ℕ → Tick) → Breakers → Route F → Ran F M R
  unfolding execute_from
  execute task request ticks bs route =
      execute_from false task request ticks 0 none 0 bs (attempts route)

  unfoldable pub execute_stream :
      Task F → CompletionRequest M → (ℕ → Tick) → Breakers → Route F → Ran F M R
  unfolding execute_from
  execute_stream task request ticks bs route =
      execute_from true task request ticks 0 none 0 bs (attempts route)
