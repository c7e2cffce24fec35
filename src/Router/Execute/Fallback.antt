-- ===== src/Router/Execute/Fallback.antt =====
-- Which models a request is sent to, what is sent, and which answer is returned.
use mathlib.Core.List.{Sublistᴰ, append_assoc, append-nil}
use mathlib.Core.List.Sublistᴰ.{slnil, cons, cons-cons}
use ferroly.Base.{
  ℕ, ◌+◌, ◌≤◌, ◌<◌, ◌≡◌, ◌≢◌, ◌⊎◌, inl, inr, refl, ap, sym, ◌∙◌, subst, true, false, ◌&&◌, List, [],
  ◌∷◌, ◌++◌, map, Option, none, some, arith, length, length-append, All, All-append, leb,
  Bool-cases,
}
use ferroly.Clients.Retry.{Result, ok, err}
use ferroly.Router.Data.{
  json_mode, ResponseFormat, ModelInfo, Candidate, Route, attempts, Task, CompletionRequest,
  GenAiError, RouterError, all_routes_failed, gen_ai, deadline_exceeded, has_capability, no_route,
}
use ferroly.Router.Execute.{
  clamp_max, set_json, clamp_options, is_retryable, Breakers, Tick, Sent, Verdict, skip, next, stop,
  pending, Verdict-cases, Router, admit, is_past, has_deadline, prepare, call_with_retry, conclude,
  cut_off, attempt, exhausted, execute_from, execute,
}

clamp_max_bounded :
    (most : ℕ) (o : Option ℕ) (n : ℕ) → 0 < most → clamp_max most o ≡ some n → n ≤ most
clamp_max_bounded most none n p e = cc
clamp_max_bounded most (some max) n p e = ground arith

set_json_wanted : (o : Option ResponseFormat) → set_json true o ≢ none
set_json_wanted none = λ e. cc
set_json_wanted (some f) = λ e. cc

false_of_true : false ≡ true → ⊥
false_of_true e = cc

module _ {F M R : Type 0} (router : Router F M R) (task : Task F)
    (request : CompletionRequest M) where
  -- What the provider's call for this request came to, retries included.
  abbrev pub answer : Sent F M → Option (Result R GenAiError)
  answer s = call_with_retry router (router.reply s.candidate.provider s.time s.request)

  -- The provider is registered, the deadline has not passed, and the request names the candidate's
  -- model, stays within its known output limit and asks for JSON if the task does.
  pub record Fits (s : Sent F M) : Type 0 where
    pub registered : router.registered s.candidate.provider ≡ true
    pub in_time : (dl : ℕ) → task.deadline ≡ some dl → s.time < dl
    pub model : s.request.model ≡ s.candidate.model
    pub limited :
        (info : ModelInfo F) (n : ℕ)
        → router.registry s.candidate.provider s.candidate.model ≡ some info
        → 0 < info.max_output_tokens
        → s.request.max_tokens ≡ some n
        → n ≤ info.max_output_tokens
    pub json_asked :
        (info : ModelInfo F)
        → router.registry s.candidate.provider s.candidate.model ≡ some info
        → has_capability task.required json_mode ≡ true
        → s.request.response_format ≢ none
    pub rest : s.request.rest ≡ request.rest

  -- The call failed with an error after which another model is tried.
  abbrev pub HasFailed : Sent F M → Type 0
  HasFailed s = (e : GenAiError) × (answer s ≡ some (err e)) × (is_retryable e ≡ true)

  prepare_passes :
      (c : Candidate F)
      → ((prepare router request c task).model ≡ c.model)
        × ((prepare router request c task).rest ≡ request.rest)
  unfolding prepare clamp_options
  prepare_passes c = ground arith

  prepare_known :
      (c : Candidate F) (info : ModelInfo F)
      → router.registry c.provider c.model ≡ some info
      → prepare router request c task ≡ clamp_options (record request { model = c.model }) info task
  unfolding prepare
  prepare_known c info e = rw (e, prepare)

  clamp_limited :
      (req : CompletionRequest M) (info : ModelInfo F) (n : ℕ)
      → 0 < info.max_output_tokens
      → (clamp_options req info task).max_tokens ≡ some n
      → n ≤ info.max_output_tokens
  unfolding clamp_options
  clamp_limited req info n p h = clamp_max_bounded info.max_output_tokens req.max_tokens n p h

  clamp_json :
      (req : CompletionRequest M) (info : ModelInfo F)
      → has_capability task.required json_mode ≡ true
      → (clamp_options req info task).response_format ≢ none
  unfolding clamp_options
  clamp_json req info wanted =
      subst (λ b. set_json b req.response_format ≢ none) (sym wanted)
        (set_json_wanted req.response_format)

  prepare-Fits :
      (c : Candidate F) (time : ℕ)
      → router.registered c.provider ≡ true
      → is_past router task time ≡ false
      → Fits (record { candidate = c; request = prepare router request c task; time = time })
  prepare-Fits c time known early = record {
    registered = known;
    in_time = λ dl e. in_time dl e;
    model = (prepare_passes c).0;
    limited = λ info n e p h.
        clamp_limited (record request { model = c.model }) info n p
          (ap (λ (r : CompletionRequest M). r.max_tokens) (sym (prepare_known c info e)) ∙ h);
    json_asked = λ info e wanted h.
        clamp_json (record request { model = c.model }) info wanted
          (ap (λ (r : CompletionRequest M). r.response_format) (sym (prepare_known c info e)) ∙ h);
    rest = (prepare_passes c).1;
  }
    where
      in_time : (dl : ℕ) → task.deadline ≡ some dl → time < dl
      in_time dl e = let h : leb dl time ≡ false = rw e at early in ground arith

  -- What each verdict of `execute` tells.
  abbrev IsSound : Candidate F → Verdict F M R → Type 0
  IsSound c (skip bs) = Unit
  IsSound c (next bs s e) =
      (s.candidate ≡ c) × Fits s × (answer s ≡ some (err e)) × (is_retryable e ≡ true)
  IsSound c (stop bs ss (ok resp)) =
      (s : Sent F M) × (ss ≡ s ∷ []) × (s.candidate ≡ c) × Fits s × (answer s ≡ some (ok resp))
  IsSound c (stop bs [] (err x)) = (x ≡ deadline_exceeded) × (task.deadline ≢ none)
  IsSound c (stop bs (s ∷ ss) (err x)) =
      (ss ≡ [])
      × (s.candidate ≡ c)
      × Fits s
      × (((x ≡ deadline_exceeded) × (task.deadline ≢ none))
          ⊎ ((e : GenAiError) × (x ≡ gen_ai e)
              × (answer s ≡ some (err e))
              × (is_retryable e ≡ false)))
  IsSound c (pending bs s) = (s.candidate ≡ c) × Fits s × (answer s ≡ none)

  conclude-IsSound :
      (bs : Breakers) (c : Candidate F) (now : ℕ) (s : Sent F M) (o : Option (Result R GenAiError))
      → s.candidate ≡ c
      → Fits s
      → answer s ≡ o
      → IsSound c (conclude router bs c now s o)
  unfolding conclude
  conclude-IsSound bs c now s none same fit e = (same, fit, e)
  conclude-IsSound bs c now s (some (ok resp)) same fit e = (s, refl, same, fit, e)
  conclude-IsSound bs c now s (some (err x)) same fit e = elim (Bool-cases (is_retryable x)) [
    | inl again ↦ rw again (same, fit, e, again)
    | inr fatal ↦ rw fatal (refl, same, fit, inr (x, refl, e, fatal))
  ]

  attempt-IsSound :
      (tick : Tick) (bs : Breakers) (c : Candidate F)
      → IsSound c (attempt router false task request tick bs c)
  unfolding attempt cut_off
  attempt-IsSound tick bs c = elim (Bool-cases (is_past router task tick.start)) [
    | inl past ↦ rw past (refl, λ e. false_of_true (rw e at past))
    | inr before ↦ elim (Bool-cases (router.registered c.provider)) [
      | inr unknown ↦ rw (before, unknown) tt
      | inl known ↦ elim (Bool-cases (admit router bs c tick.admitted).1) [
        | inr refused ↦ rw (before, known, refused) tt
        | inl admitted ↦ elim (Bool-cases (has_deadline router task && tick.late)) [
          | inl late ↦
              rw (before, known, admitted, late)
                (
                  refl,
                  refl,
                  prepare-Fits c tick.start known before,
                  inl (refl, λ e. false_of_true (rw e at late)),
                )
          | inr done ↦
              rw (before, known, admitted, done)
                (conclude-IsSound _ c tick.finished
                  (record {
                    candidate = c;
                    request = prepare router request c task;
                    time = tick.start;
                  })
                  _ refl (prepare-Fits c tick.start known before) refl)
        ]
      ]
    ]
  ]

  -- The error of the last call, if any was sent.
  abbrev IsLast : Option GenAiError → List (Sent F M) → Type 0
  IsLast none sent = sent ≡ []
  IsLast (some e) sent =
      (pre : List (Sent F M)) × (s : Sent F M) × (sent ≡ pre ++ (s ∷ []))
      × (answer s ≡ some (err e))

  -- Calls that failed so that another model was tried, and one more.
  abbrev pub AfterFailures : List (Sent F M) → (Sent F M → Type 0) → Type 0
  AfterFailures sent P =
      (pre : List (Sent F M)) × (s : Sent F M) × (sent ≡ pre ++ (s ∷ [])) × All HasFailed pre × P s

  -- Why a run ended as it did, from the calls that it sent and their answers.
  abbrev pub Explains : List (Sent F M) → Option (Result R RouterError) → Type 0
  Explains sent (some (ok resp)) = AfterFailures sent (λ s. answer s ≡ some (ok resp))
  Explains sent (some (err (gen_ai e))) =
      AfterFailures sent (λ s. (answer s ≡ some (err e)) × (is_retryable e ≡ false))
  Explains sent (some (err (all_routes_failed n e))) =
      (n ≡ length sent) × All HasFailed sent × IsLast (some e) sent
  Explains sent (some (err (no_route _))) = sent ≡ []
  Explains sent (some (err deadline_exceeded)) =
      (task.deadline ≢ none) × (All HasFailed sent ⊎ AfterFailures sent (λ s. Unit))
  Explains sent (some (err _)) = ⊥
  Explains sent none = AfterFailures sent (λ s. answer s ≡ none)

  HasFailed-snoc :
      (done : List (Sent F M)) (s : Sent F M) (e : GenAiError)
      → All HasFailed done
      → answer s ≡ some (err e)
      → is_retryable e ≡ true
      → All HasFailed (done ++ (s ∷ []))
  HasFailed-snoc done s e good h again = All-append HasFailed done (s ∷ []) good ((e, h, again), tt)

  exhausted-Explains :
      (last : Option GenAiError) (done : List (Sent F M)) (tried : ℕ)
      → All HasFailed done
      → tried ≡ length done
      → IsLast last done
      → Explains done (some (err (exhausted router tried last)))
  exhausted-Explains none done tried good n l = l
  exhausted-Explains (some e) done tried good n l = (n, good, l)

  stop-Explains :
      (c : Candidate F) (bs : Breakers) (done sent : List (Sent F M)) (r : Result R RouterError)
      → All HasFailed done
      → IsSound c (stop bs sent r)
      → Explains (done ++ sent) (some r)
  stop-Explains c bs done sent (ok resp) good (s, one, _, _, h) =
      (done, s, ap (λ l. done ++ l) one, good, h)
  stop-Explains c bs done [] (err x) good (late, dl) = rw (late, append-nil done) (dl, inl good)
  stop-Explains c bs done (s ∷ ss) (err x) good (one, _, _, inl (late, dl)) =
      rw late (dl, inr (done, s, ap (λ l. done ++ (s ∷ l)) one, good, tt))
  stop-Explains c bs done (s ∷ ss) (err x) good (one, _, _, inr (e, fatal, h, no_retry)) =
      rw fatal (done, s, ap (λ l. done ++ (s ∷ l)) one, good, (h, no_retry))

  execute_from-Explains :
      (ticks : ℕ → Tick) (cs : List (Candidate F)) (i : ℕ) (last : Option GenAiError) (tried : ℕ)
      (bs : Breakers) (done : List (Sent F M))
      → All HasFailed done
      → tried ≡ length done
      → IsLast last done
      → let ran = execute_from router false task request ticks i last tried bs cs in
        Explains (done ++ ran.sent) ran.result
  unfolding execute_from
  execute_from-Explains ticks [] i last tried bs done good n l =
      rw (append-nil done) (exhausted-Explains last done tried good n l)
  execute_from-Explains ticks (c ∷ cs) i last tried bs done good n l =
      let here = attempt-IsSound (ticks i) bs c in
      elim (Verdict-cases (attempt router false task request (ticks i) bs c)) [
        | inl (bs', e) ↦
            rw (e, execute_from)
              (execute_from-Explains ticks cs (i + 1) last tried bs' done good n l)
        | inr (inl (bs', s, x, e)) ↦
            let (_, _, h, again) = subst (IsSound c) e here in
            let rest =
              execute_from-Explains ticks cs (i + 1) (some x) (tried + 1) bs' (done ++ (s ∷ []))
                (HasFailed-snoc done s x good h again) (omega (arith, length-append done (s ∷ [])))
                (done, s, refl, h) in
            rw (e, execute_from) (rw (append_assoc done (s ∷ [])) at rest)
        | inr (inr (inl (bs', sent, r, e))) ↦
            rw (e, execute_from) (stop-Explains c bs' done sent r good (subst (IsSound c) e here))
        | inr (inr (inr (bs', s, e))) ↦
            let (_, _, h) = subst (IsSound c) e here in
            rw (e, execute_from) (done, s, refl, good, h)
      ]

  -- Every call sent fits, and the candidates are called in their order, each at most once.
  abbrev pub InOrder : List (Candidate F) → List (Sent F M) → Type 0
  InOrder cs sent = All Fits sent × Sublistᴰ (map (λ s. s.candidate) sent) cs

  nothing-InOrder : (cs : List (Candidate F)) → Sublistᴰ [] cs
  nothing-InOrder [] = slnil
  nothing-InOrder (c ∷ cs) = cons (nothing-InOrder cs)

  stop-InOrder :
      (c : Candidate F) (cs : List (Candidate F)) (bs : Breakers) (sent : List (Sent F M))
      (r : Result R RouterError)
      → IsSound c (stop bs sent r)
      → InOrder (c ∷ cs) sent
  stop-InOrder c cs bs sent (ok resp) (s, one, same, fit, _) =
      rw one ((fit, tt), cons-cons same (nothing-InOrder cs))
  stop-InOrder c cs bs [] (err x) h = (tt, nothing-InOrder (c ∷ cs))
  stop-InOrder c cs bs (s ∷ ss) (err x) (one, same, fit, _) =
      rw one ((fit, tt), cons-cons same (nothing-InOrder cs))

  execute_from-InOrder :
      (ticks : ℕ → Tick) (cs : List (Candidate F)) (i : ℕ) (last : Option GenAiError) (tried : ℕ)
      (bs : Breakers)
      → InOrder cs (execute_from router false task request ticks i last tried bs cs).sent
  unfolding execute_from
  execute_from-InOrder ticks [] i last tried bs = (tt, slnil)
  execute_from-InOrder ticks (c ∷ cs) i last tried bs =
      let here = attempt-IsSound (ticks i) bs c in
      elim (Verdict-cases (attempt router false task request (ticks i) bs c)) [
        | inl (bs', e) ↦
            let (fits, sub) = execute_from-InOrder ticks cs (i + 1) last tried bs' in
            rw (e, execute_from) (fits, cons sub)
        | inr (inl (bs', s, x, e)) ↦
            let (same, fit, _, _) = subst (IsSound c) e here in
            let (fits, sub) = execute_from-InOrder ticks cs (i + 1) (some x) (tried + 1) bs' in
            rw (e, execute_from) ((fit, fits), cons-cons same sub)
        | inr (inr (inl (bs', sent, r, e))) ↦
            rw (e, execute_from) (stop-InOrder c cs bs' sent r (subst (IsSound c) e here))
        | inr (inr (inr (bs', s, e))) ↦
            let (same, fit, _) = subst (IsSound c) e here in
            rw (e, execute_from) ((fit, tt), cons-cons same (nothing-InOrder cs))
      ]

-- Whatever the providers and the clock do, the calls that `execute` sends explain how it ends: a
-- response is the answer of the last call, and all calls before it failed with a retryable error; so
-- for an error that is returned at once, which is not retryable. `AllRoutesFailed` counts exactly the
-- calls sent, all of which failed with a retryable error, and carries the last one's; `NoRoute` means
-- that none was sent; `DeadlineExceeded` needs a deadline. No other error is returned, and a run that
-- does not come back waits for its last call.
pub execute-Explains :
    {F M R : Type 0} (router : Router F M R) (task : Task F) (request : CompletionRequest M)
    (ticks : ℕ → Tick) (bs : Breakers) (route : Route F)
    → let ran = execute router task request ticks bs route in
      Explains router task request ran.sent ran.result
unfolding execute
execute-Explains router task request ticks bs route =
    execute_from-Explains router task request ticks (attempts route) 0 none 0 bs [] tt refl refl

-- `execute` calls the primary and the fallbacks in their order, each at most once, and every call goes
-- to a registered provider before the task's deadline, names the candidate's model, asks for no more
-- tokens than the known output limit of that model where the limit is above zero, asks for some
-- response format if the model is known and the task requires JSON mode, and leaves the rest of the
-- request alone.
pub execute-InOrder :
    {F M R : Type 0} (router : Router F M R) (task : Task F) (request : CompletionRequest M)
    (ticks : ℕ → Tick) (bs : Breakers) (route : Route F)
    → InOrder router task request (attempts route) (execute router task request ticks bs route).sent
unfolding execute
execute-InOrder router task request ticks bs route =
    execute_from-InOrder router task request ticks (attempts route) 0 none 0 bs
