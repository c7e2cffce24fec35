-- ===== src/Router/Execute/Breakers.antt =====
-- The circuit breakers around a request, before and after a run.
use ferroly.Base.{
  ℕ, ◌+◌, ◌≤◌, ◌<◌, ◌≡◌, ◌≢◌, inl, inr, refl, subst, Bool, true, false, List, [], ◌∷◌, Option, none,
  some, arith, All, Bool-cases, ◌&&◌,
}
use ferroly.Base.Bytes.{Bytes, bytes_eq, bytes_eq_iff, bytes_eq_refl}
use ferroly.Clients.Breaker.{
  open_, half_open, CircuitBreakerConfig, State, can_execute, on_execution,
}
use ferroly.Clients.Breaker.Invariant.{IsConfig, IsValid, can_execute-IsValid, on_execution-IsValid}
use ferroly.Clients.Breaker.Recovery.{ask_all, ask_all_full}
use ferroly.Clients.Retry.{Result, ok, err}
use ferroly.Router.Data.{
  Candidate, Route, attempts, Task, CompletionRequest, GenAiError, deadline_exceeded,
}
use ferroly.Router.Execute.{
  Router, Breakers, Tick, Verdict, skip, next, stop, pending, key, update, admit, report, attempt,
  Verdict-cases, conclude, cut_off, is_past, has_deadline, prepare, is_retryable, Sent,
  execute_from, execute, execute_stream,
}

module _ (cfg : CircuitBreakerConfig) where
  -- The breaker is valid, and has no more trials in flight than before.
  abbrev IsSettled : State → State → Type 0
  IsSettled s t = IsValid cfg t × (t.half_open_in_flight ≤ s.half_open_in_flight)

  cycle-IsSettled :
      (now now' : ℕ) (success : Bool) (s : State)
      → IsConfig cfg
      → IsValid cfg s
      → (can_execute cfg now s).1 ≡ true
      → IsSettled s (on_execution cfg now' success (can_execute cfg now s).0)
  cycle-IsSettled now now' success s c v a = (
    on_execution-IsValid cfg now' success _ c (can_execute-IsValid cfg now s c v),
    unfold can_execute on_execution in ground arith,
  )

  refused-IsSettled :
      (now : ℕ) (s : State)
      → IsValid cfg s
      → (can_execute cfg now s).1 ≡ false
      → IsSettled s (can_execute cfg now s).0
  unfolding can_execute
  refused-IsSettled now s v a = ground arith

  -- So for all the breakers.
  abbrev pub AllSettled : Breakers → Breakers → Type 0
  AllSettled bs bs' = (j : Bytes) → IsSettled (bs j) (bs' j)

  update-AllSettled :
      (bs : Breakers) (k : Bytes) (s : State)
      → ((j : Bytes) → IsValid cfg (bs j))
      → IsSettled (bs k) s
      → AllSettled bs (update bs k s)
  unfolding update
  update-AllSettled bs k s v h j = elim (Bool-cases (bytes_eq k j)) [
    | inl same ↦ let e = (bytes_eq_iff k j).0 same in rw same (subst (λ x. IsSettled (bs x) s) e h)
    | inr other ↦ rw other (v j, omega arith)
  ]

module _ {F M R : Type 0} (router : Router F M R) (cfg : CircuitBreakerConfig)
    (configured : router.breaker_cfg ≡ some cfg) where
  admit_lem :
      (bs : Breakers) (c : Candidate F) (now : ℕ)
      → admit router bs c now ≡ (
        update bs (key c) (can_execute cfg now (bs (key c))).0,
        (can_execute cfg now (bs (key c))).1,
      )
  unfolding admit
  admit_lem bs c now = rw configured

  report_lem :
      (bs : Breakers) (c : Candidate F) (now : ℕ) (success : Bool)
      → report router bs c now success
        ≡ update bs (key c) (on_execution cfg now success (bs (key c)))
  unfolding report
  report_lem bs c now success = rw configured

  update_self : (bs : Breakers) (k : Bytes) (s : State) → update bs k s k ≡ s
  unfolding update
  update_self bs k s = rw (bytes_eq_refl k)

  update_twice :
      (bs : Breakers) (k : Bytes) (s t : State) (j : Bytes)
      → update (update bs k s) k t j ≡ update bs k t j
  unfolding update
  update_twice bs k s t j = ground arith

  -- A trial that was admitted and reported leaves every breaker settled.
  cycle-AllSettled :
      (bs : Breakers) (c : Candidate F) (now now' : ℕ) (success : Bool)
      → IsConfig cfg
      → ((j : Bytes) → IsValid cfg (bs j))
      → (admit router bs c now).1 ≡ true
      → AllSettled cfg bs (report router (admit router bs c now).0 c now' success)
  cycle-AllSettled bs c now now' success g v a j =
      let k = key c in
      let s = (can_execute cfg now (bs k)).0 in
      let a' : (can_execute cfg now (bs k)).1 ≡ true = rw (admit_lem bs c now) at a in
      rw
        (
          admit_lem bs c now,
          report_lem (update bs k s) c now' success,
          update_self bs k s,
          update_twice bs k s (on_execution cfg now' success s) j,
        )
        (update-AllSettled cfg bs k (on_execution cfg now' success s) v
          (cycle-IsSettled cfg now now' success (bs k) g (v k) a') j)

  refused-AllSettled :
      (bs : Breakers) (c : Candidate F) (now : ℕ)
      → ((j : Bytes) → IsValid cfg (bs j))
      → (admit router bs c now).1 ≡ false
      → AllSettled cfg bs (admit router bs c now).0
  refused-AllSettled bs c now v a =
      let a' : (can_execute cfg now (bs (key c))).1 ≡ false = rw (admit_lem bs c now) at a in
      rw (admit_lem bs c now) (
        update-AllSettled cfg bs (key c) (can_execute cfg now (bs (key c))).0 v
          (refused-IsSettled cfg now (bs (key c)) (v (key c)) a'))

  abbrev Settles : Breakers → Verdict F M R → Type 0
  Settles bs (skip bs') = AllSettled cfg bs bs'
  Settles bs (next bs' sent e) = AllSettled cfg bs bs'
  Settles bs (stop bs' sent r) = AllSettled cfg bs bs'
  Settles bs (pending bs' sent) = Unit

  AllSettled-refl : (bs : Breakers) → ((j : Bytes) → IsValid cfg (bs j)) → AllSettled cfg bs bs
  AllSettled-refl bs v j = (v j, omega arith)

  conclude-Settles :
      (bs : Breakers) (c : Candidate F) (now now' : ℕ) (sent : Sent F M)
      (reply : Option (Result R GenAiError))
      → IsConfig cfg
      → ((j : Bytes) → IsValid cfg (bs j))
      → (admit router bs c now).1 ≡ true
      → Settles bs (conclude router (admit router bs c now).0 c now' sent reply)
  unfolding conclude
  conclude-Settles bs c now now' sent none g v a = tt
  conclude-Settles bs c now now' sent (some (ok resp)) g v a =
      cycle-AllSettled bs c now now' true g v a
  conclude-Settles bs c now now' sent (some (err e)) g v a = elim (Bool-cases (is_retryable e)) [
    | inl again ↦ rw again (cycle-AllSettled bs c now now' false g v a)
    | inr fatal ↦ rw fatal (cycle-AllSettled bs c now now' false g v a)
  ]

  attempt-Settles :
      (task : Task F) (request : CompletionRequest M) (tick : Tick) (bs : Breakers)
      (c : Candidate F)
      → IsConfig cfg
      → ((j : Bytes) → IsValid cfg (bs j))
      → Settles bs (attempt router false task request tick bs c)
  unfolding attempt
  attempt-Settles task request tick bs c g v = elim (Bool-cases (is_past router task tick.start)) [
    | inl past ↦ rw past (AllSettled-refl bs v)
    | inr before ↦ elim (Bool-cases (router.registered c.provider)) [
      | inr unknown ↦ rw (before, unknown) (AllSettled-refl bs v)
      | inl known ↦ elim (Bool-cases (admit router bs c tick.admitted).1) [
        | inr refused ↦
            rw (before, known, refused) (refused-AllSettled bs c tick.admitted v refused)
        | inl admitted ↦ elim (Bool-cases (has_deadline router task && tick.late)) [
          | inl late ↦
              rw (before, known, admitted, late)
                (cycle-AllSettled bs c tick.admitted tick.finished false g v admitted)
          | inr done ↦
              rw (before, known, admitted, done)
                (conclude-Settles bs c tick.admitted tick.finished _ _ g v admitted)
        ]
      ]
    ]
  ]

  AllSettled-trans :
      (bs bs' bs'' : Breakers)
      → AllSettled cfg bs bs'
      → AllSettled cfg bs' bs''
      → AllSettled cfg bs bs''
  AllSettled-trans bs bs' bs'' h k j = ((k j).0, omega (arith, (h j).1, (k j).1))

  execute_from-AllSettled :
      (task : Task F) (request : CompletionRequest M) (ticks : ℕ → Tick) (cs : List (Candidate F))
      (i : ℕ) (last : Option GenAiError) (tried : ℕ) (bs : Breakers)
      → IsConfig cfg
      → ((j : Bytes) → IsValid cfg (bs j))
      → (execute_from router false task request ticks i last tried bs cs).result ≢ none
      → AllSettled cfg bs (execute_from router false task request ticks i last tried bs cs).breakers
  unfolding execute_from
  execute_from-AllSettled task request ticks [] i last tried bs g v back = AllSettled-refl bs v
  execute_from-AllSettled task request ticks (c ∷ cs) i last tried bs g v back =
      let here = attempt-Settles task request (ticks i) bs c g v in
      elim (Verdict-cases (attempt router false task request (ticks i) bs c)) [
        | inl (bs', e) ↦
            let s : AllSettled cfg bs bs' = subst (Settles bs) e here in
            rw (e, execute_from)
              (AllSettled-trans bs bs' _ s (
                execute_from-AllSettled task request ticks cs (i + 1) last tried bs' g
                  (λ j. (s j).0) (rw (e, execute_from) at back)))
        | inr (inl (bs', sent, x, e)) ↦
            let s : AllSettled cfg bs bs' = subst (Settles bs) e here in
            rw (e, execute_from)
              (AllSettled-trans bs bs' _ s (
                execute_from-AllSettled task request ticks cs (i + 1) (some x) (tried + 1) bs' g
                  (λ j. (s j).0) (rw (e, execute_from) at back)))
        | inr (inr (inl (bs', sent, r, e))) ↦ rw (e, execute_from) (subst (Settles bs) e here)
        | inr (inr (inr (bs', sent, e))) ↦ absurd ((rw (e, execute_from) at back) refl)
      ]

-- With breakers configured by thresholds that fit a `u32` and every breaker valid, a run of `execute`
-- that returns leaves every breaker valid, with at most the trials in flight that it had before,
-- whatever the providers answer and whichever calls are cut off by the deadline.
pub execute-AllSettled :
    {F M R : Type 0} (router : Router F M R) (cfg : CircuitBreakerConfig) (task : Task F)
    (request : CompletionRequest M) (ticks : ℕ → Tick) (bs : Breakers) (route : Route F)
    → router.breaker_cfg ≡ some cfg
    → IsConfig cfg
    → ((j : Bytes) → IsValid cfg (bs j))
    → (execute router task request ticks bs route).result ≢ none
    → AllSettled cfg bs (execute router task request ticks bs route).breakers
unfolding execute
execute-AllSettled router cfg task request ticks bs route configured g v back =
    execute_from-AllSettled router cfg configured task request ticks (attempts route) 0 none 0 bs g
      v back

trial_kept :
    (cfg : CircuitBreakerConfig) (now t : ℕ) (s : State)
    → s.circuit ≡ open_
    → s.opened_at ≡ some t
    → t + cfg.timeout ≤ now
    → ((can_execute cfg now s).0.circuit ≡ half_open)
      × ((can_execute cfg now s).0.half_open_in_flight ≡ 1)
      × ((can_execute cfg now s).1 ≡ true)
unfolding can_execute
trial_kept cfg now t s o a late = ground arith

attempt_cut_off :
    {F M R : Type 0} (router : Router F M R) (task : Task F) (request : CompletionRequest M)
    (tick : Tick) (bs : Breakers) (c : Candidate F) (dl : ℕ)
    → router.registered c.provider ≡ true
    → (admit router bs c tick.admitted).1 ≡ true
    → task.deadline ≡ some dl
    → tick.start < dl
    → tick.late ≡ true
    → (sent : Sent F M) × (attempt router true task request tick bs c
        ≡ stop (admit router bs c tick.admitted).0 (sent ∷ []) (err deadline_exceeded))
unfolding attempt cut_off
attempt_cut_off router task request tick bs c dl known admitted deadline before late =
    let early : is_past router task tick.start ≡ false = rw deadline (ground arith) in
    let over : (has_deadline router task && tick.late) ≡ true = rw (deadline, late) in
    (
      record { candidate = c; request = prepare router request c task; time = tick.start },
      rw (early, known, admitted, over),
    )

-- A call of `execute_stream` that is cut off ends the run with the breakers as its admission left them.
stream_cut_off :
    {F M R : Type 0} (router : Router F M R) (task : Task F) (request : CompletionRequest M)
    (ticks : ℕ → Tick) (bs : Breakers) (route : Route F) (dl : ℕ)
    → router.registered route.primary.provider ≡ true
    → (admit router bs route.primary (ticks 0).admitted).1 ≡ true
    → task.deadline ≡ some dl
    → (ticks 0).start < dl
    → (ticks 0).late ≡ true
    → let ran = execute_stream router task request ticks bs route in
      (ran.result ≡ some (err deadline_exceeded))
      × (ran.breakers ≡ (admit router bs route.primary (ticks 0).admitted).0)
unfolding execute_stream attempts
stream_cut_off router task request ticks bs route dl known admitted deadline before late =
    let (sent, e) =
      attempt_cut_off router task request (ticks 0) bs route.primary dl known admitted deadline
        before late in
    rw (e, execute_from) (refl, refl)

-- At most one trial allowed and the primary candidate's breaker open for its timeout: if that
-- provider is registered, the deadline not passed, and the timeout cuts the stream's call off, then
-- `execute_stream` ends in `DeadlineExceeded` with one trial in flight, and that breaker refuses all
-- the requests that follow, at whatever times they come, and stays as it is.
pub execute_stream-stuck :
    {F M R : Type 0} (router : Router F M R) (cfg : CircuitBreakerConfig) (task : Task F)
    (request : CompletionRequest M) (ticks : ℕ → Tick) (bs : Breakers) (route : Route F) (t dl : ℕ)
    (nows : List ℕ)
    → router.breaker_cfg ≡ some cfg
    → cfg.max_half_open ≤ 1
    → router.registered route.primary.provider ≡ true
    → (bs (key route.primary)).circuit ≡ open_
    → (bs (key route.primary)).opened_at ≡ some t
    → t + cfg.timeout ≤ (ticks 0).admitted
    → task.deadline ≡ some dl
    → (ticks 0).start < dl
    → (ticks 0).late ≡ true
    → let ran = execute_stream router task request ticks bs route in
      let s = ran.breakers (key route.primary) in
      (ran.result ≡ some (err deadline_exceeded))
      × (s.half_open_in_flight ≡ 1)
      × ((ask_all cfg s nows).0 ≡ s)
      × All (λ ok. ok ≡ false) (ask_all cfg s nows).1
execute_stream-stuck router cfg task request ticks bs route t dl nows configured one known o a
      cooled deadline before late =
    let c = route.primary in
    let now = (ticks 0).admitted in
    let s = (can_execute cfg now (bs (key c))).0 in
    let (half, flight, admitted) = trial_kept cfg now t (bs (key c)) o a cooled in
    let same = admit_lem router cfg configured bs c now in
    let (result, kept) =
      stream_cut_off router task request ticks bs route dl known (rw same admitted) deadline before
        late in
    let at_key : (execute_stream router task request ticks bs route).breakers (key c) ≡ s =
      rw (kept, same) (update_self router cfg configured bs (key c) s) in
    let (unchanged, refused) = ask_all_full cfg s nows half (omega arith) in
    rw at_key (result, flight, unchanged, refused)
