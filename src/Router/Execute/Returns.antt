-- ===== src/Router/Execute/Returns.antt =====
-- Whether the runs of crates/ferroly/src/genai/router/default_router.rs return.
use ferroly.Base.{
  ℕ, ◌+◌, ◌<◌, ◌≡◌, ◌≢◌, inl, inr, refl, ap, sym, ◌∙◌, Bool, true, false, ◌&&◌, List, [], ◌∷◌,
  Option, none, some, length, arith, Bool-cases, Option-cases, if◌then◌else◌,
}
use ferroly.Base.Bytes.{Bytes}
use ferroly.Clients.Retry.{RetryPolicy, Result, ok, err, retry, Outcome}
use ferroly.Clients.Retry.Laws.{retry_lem}
use ferroly.Router.Data.{Candidate, Route, attempts, Task, CompletionRequest, GenAiError}
use ferroly.Router.Execute.{
  Router, Breakers, Tick, Verdict, pending, admit, attempt, Verdict-cases, conclude, cut_off,
  is_past, has_deadline, first, call_with_retry, is_retryable, Sent, execute_from, execute,
  execute_stream,
}

-- How often the router calls a provider again for one candidate.
abbrev pub retries : Option RetryPolicy → ℕ
retries none = 0
retries (some policy) = policy.max_retries

module _ {F M R : Type 0} (router : Router F M R) where
  -- Every call is answered, also when it is made again as often as the policy allows.
  abbrev pub IsAnswered : Type 0
  IsAnswered =
      (p : Bytes) (now : ℕ) (req : CompletionRequest M)
      → retries router.retry < length (router.reply p now req)

  first-returns :
      (replies : List (Result R GenAiError)) → 0 < length replies → first router replies ≢ none
  first-returns [] h = absurd (omega arith)
  first-returns (r ∷ rs) h = λ e. cc

  retried-returns :
      (policy : RetryPolicy) (replies : List (Result R GenAiError))
      → policy.max_retries < length replies
      → (retry policy is_retryable replies).result ≢ none
  retried-returns policy replies h e =
      let (_, r, _, _, _, _, _, same) = retry_lem policy is_retryable replies h in
      let clash : some r ≡ none = sym (ap (λ (o : Outcome R GenAiError). o.result) same) ∙ e in cc

  call_with_retry-returns :
      (replies : List (Result R GenAiError))
      → retries router.retry < length replies
      → call_with_retry router replies ≢ none
  unfolding call_with_retry
  call_with_retry-returns replies h = elim (Option-cases router.retry) [
    | inl plain ↦ rw plain (first-returns replies (omega arith))
    | inr (policy, e) ↦
        let few : retries (some policy) < length replies = rw e at h in
        rw e (retried-returns policy replies few)
  ]

  abbrev Ends : Verdict F M R → Type 0
  Ends (pending bs sent) = ⊥
  Ends _ = Unit

  conclude-Ends :
      (bs : Breakers) (c : Candidate F) (now : ℕ) (sent : Sent F M)
      (o : Option (Result R GenAiError))
      → o ≢ none
      → Ends (conclude router bs c now sent o)
  unfolding conclude
  conclude-Ends bs c now sent none h = h refl
  conclude-Ends bs c now sent (some (ok resp)) h = tt
  conclude-Ends bs c now sent (some (err e)) h = elim (Bool-cases (is_retryable e)) [
    | inl again ↦ rw again tt
    | inr fatal ↦ rw fatal tt
  ]

  answered :
      (streaming : Bool) (replies : List (Result R GenAiError))
      → retries router.retry < length replies
      → (if streaming then first router replies else call_with_retry router replies) ≢ none
  answered true replies h = first-returns replies (omega arith)
  answered false replies h = call_with_retry-returns replies h

  attempt-Ends :
      (streaming : Bool) (task : Task F) (request : CompletionRequest M) (tick : Tick)
      (bs : Breakers) (c : Candidate F)
      → IsAnswered
      → Ends (attempt router streaming task request tick bs c)
  unfolding attempt cut_off
  attempt-Ends streaming task request tick bs c h =
      elim (Bool-cases (is_past router task tick.start)) [
        | inl past ↦ rw past tt
        | inr before ↦ elim (Bool-cases (router.registered c.provider)) [
          | inr unknown ↦ rw (before, unknown) tt
          | inl known ↦ elim (Bool-cases (admit router bs c tick.admitted).1) [
            | inr refused ↦ rw (before, known, refused) tt
            | inl admitted ↦ elim (Bool-cases (has_deadline router task && tick.late)) [
              | inl late ↦ rw (before, known, admitted, late) tt
              | inr done ↦
                  rw (before, known, admitted, done)
                    (conclude-Ends _ c tick.finished _ _
                      (answered streaming _ (h c.provider tick.start _)))
            ]
          ]
        ]
      ]

  execute_from-returns :
      (streaming : Bool) (task : Task F) (request : CompletionRequest M) (ticks : ℕ → Tick)
      (cs : List (Candidate F)) (i : ℕ) (last : Option GenAiError) (tried : ℕ) (bs : Breakers)
      → IsAnswered
      → (execute_from router streaming task request ticks i last tried bs cs).result ≢ none
  unfolding execute_from
  execute_from-returns streaming task request ticks [] i last tried bs h = λ e. cc
  execute_from-returns streaming task request ticks (c ∷ cs) i last tried bs h =
      let here = attempt-Ends streaming task request (ticks i) bs c h in
      elim (Verdict-cases (attempt router streaming task request (ticks i) bs c)) [
        | inl (bs', e) ↦
            rw (e, execute_from)
              (execute_from-returns streaming task request ticks cs (i + 1) last tried bs' h)
        | inr (inl (bs', sent, x, e)) ↦
            rw (e, execute_from)
              (execute_from-returns streaming task request ticks cs (i + 1) (some x) (tried + 1) bs'
                h)
        | inr (inr (inl (bs', sent, r, e))) ↦ rw (e, execute_from) (λ e. cc)
        | inr (inr (inr (bs', sent, e))) ↦ absurd (rw e at here)
      ]

-- If the providers answer every call, also when it is made again as often as the retry policy allows,
-- then `execute` and `execute_stream` return a result on every task, route and reading of the clock.
pub execute-returns :
    {F M R : Type 0} (router : Router F M R) (task : Task F) (request : CompletionRequest M)
    (ticks : ℕ → Tick) (bs : Breakers) (route : Route F)
    → IsAnswered router
    → ((execute router task request ticks bs route).result ≢ none)
      × ((execute_stream router task request ticks bs route).result ≢ none)
unfolding execute execute_stream
execute-returns router task request ticks bs route h = (
  execute_from-returns router false task request ticks (attempts route) 0 none 0 bs h,
  execute_from-returns router true task request ticks (attempts route) 0 none 0 bs h,
)
