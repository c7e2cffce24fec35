-- ===== src/Clients/Breaker/Trips.antt =====
-- When a closed circuit breaker trips, by the reports that it gets.
use ferroly.Base.{
  ℕ, zero, suc, ◌+◌, ◌-◌, ◌^◌, ◌<◌, ◌≡◌, ◌↔◌, ◌⊎◌, inl, inr, refl, ap, ◌∙◌, Bool, true, false, List,
  [], ◌∷◌, ◌++◌, arith, replicate,
}
use ferroly.Clients.Breaker.{closed, open_, CircuitBreakerConfig, State, new, on_execution}

-- Reports at times that no test of a closed or an open breaker reads.
pub report_all : CircuitBreakerConfig → State → List (ℕ × Bool) → State
report_all cfg s [] = s
report_all cfg s ((now, ok) ∷ rs) = report_all cfg (on_execution cfg now ok s) rs

abbrev pub outcomes : List (ℕ × Bool) → List Bool
outcomes [] = []
outcomes ((now, ok) ∷ rs) = ok ∷ outcomes rs

-- `n` consecutive failures stand somewhere in the reports.
abbrev pub HasFailures : ℕ → List Bool → Type 0
HasFailures n os = (xs : List Bool) × (ys : List Bool) × (os ≡ xs ++ (replicate n false ++ ys))

-- The reports begin with `k` failures, or hold `n` consecutive ones.
abbrev Trips : ℕ → ℕ → List Bool → Type 0
Trips k n os = ((ys : List Bool) × (os ≡ replicate k false ++ ys)) ⊎ HasFailures n os

on_execution_open :
    (cfg : CircuitBreakerConfig) (now : ℕ) (ok : Bool) (s : State)
    → s.circuit ≡ open_
    → (on_execution cfg now ok s).circuit ≡ open_
unfolding on_execution
on_execution_open cfg now ok s h = ground arith

report_all_open :
    (cfg : CircuitBreakerConfig) (s : State) (rs : List (ℕ × Bool))
    → s.circuit ≡ open_
    → (report_all cfg s rs).circuit ≡ open_
unfolding report_all
report_all_open cfg s [] h = h
report_all_open cfg s ((now, ok) ∷ rs) h =
    report_all_open cfg (on_execution cfg now ok s) rs (on_execution_open cfg now ok s h)

on_success_closed :
    (cfg : CircuitBreakerConfig) (now : ℕ) (s : State)
    → s.circuit ≡ closed
    → ((on_execution cfg now true s).circuit ≡ closed)
      × ((on_execution cfg now true s).failures ≡ 0)
unfolding on_execution
on_success_closed cfg now s h = ground arith

on_failure_closed :
    (cfg : CircuitBreakerConfig) (now : ℕ) (s : State)
    → cfg.failure_threshold < 2 ^ 32
    → s.circuit ≡ closed
    → s.failures + 1 < cfg.failure_threshold
    → ((on_execution cfg now false s).circuit ≡ closed)
      × ((on_execution cfg now false s).failures ≡ s.failures + 1)
unfolding on_execution
on_failure_closed cfg now s fits h lt = ground arith

on_failure_trips :
    (cfg : CircuitBreakerConfig) (now : ℕ) (s : State)
    → cfg.failure_threshold < 2 ^ 32
    → s.circuit ≡ closed
    → s.failures + 1 ≡ cfg.failure_threshold
    → (on_execution cfg now false s).circuit ≡ open_
unfolding on_execution
on_failure_trips cfg now s fits h e = ground arith

replicate-prefix :
    (k f : ℕ) (ys : List Bool)
    → (zs : List Bool) × (replicate (f + k) false ++ ys ≡ replicate k false ++ zs)
replicate-prefix zero f ys = (replicate (f + 0) false ++ ys, refl)
replicate-prefix (suc k) f ys =
    let (zs, e) = replicate-prefix k f ys in
    let shift : f + suc k ≡ suc (f + k) = omega arith in
    (zs, rw shift (ap (λ (l : List Bool). false ∷ l) e))

HasFailures-nil : (m : ℕ) → ¬ HasFailures (suc m) []
HasFailures-nil m ([], ys, e) = cc
HasFailures-nil m (x ∷ xs, ys, e) = cc

HasFailures-cons :
    (m : ℕ) (o : Bool) (os : List Bool)
    → HasFailures (suc m) (o ∷ os)
    → ((o ≡ false) × ((ys : List Bool) × (os ≡ replicate m false ++ ys))) ⊎ HasFailures (suc m) os
HasFailures-cons m o os ([], ys, e) = inl (cc, (ys, cc))
HasFailures-cons m o os (x ∷ xs, ys, e) = inr (xs, ys, cc)

Trips-cons : (o : Bool) (n : ℕ) (os : List Bool) → HasFailures n os → HasFailures n (o ∷ os)
Trips-cons o n os (xs, ys, e) = (o ∷ xs, ys, ap (λ (l : List Bool). o ∷ l) e)

module _ (cfg : CircuitBreakerConfig) (m : ℕ) (limit : cfg.failure_threshold ≡ suc m)
    (fits : suc m < 2 ^ 32) where
  Trips-sound :
      (rs : List (ℕ × Bool)) (k : ℕ) (s : State)
      → s.circuit ≡ closed
      → s.failures + suc k ≡ suc m
      → (report_all cfg s rs).circuit ≡ open_
      → Trips (suc k) (suc m) (outcomes rs)
  unfolding report_all
  Trips-sound [] k s c f h = cc
  Trips-sound ((now, true) ∷ rs) k s c f h =
      let (c', f') = on_success_closed cfg now s c in
      elim (Trips-sound rs m (on_execution cfg now true s) c' (omega arith) h) [
        | inl (ys, e) ↦ inr (true ∷ [], ys, ap (λ (l : List Bool). true ∷ l) e)
        | inr more ↦ inr (Trips-cons true (suc m) (outcomes rs) more)
      ]
  Trips-sound ((now, false) ∷ rs) zero s c f h = inl (outcomes rs, refl)
  Trips-sound ((now, false) ∷ rs) (suc k) s c f h =
      let (c', f') = on_failure_closed cfg now s (omega arith) c (omega arith) in
      elim (Trips-sound rs k (on_execution cfg now false s) c' (omega arith) h) [
        | inl (ys, e) ↦ inl (ys, ap (λ (l : List Bool). false ∷ l) e)
        | inr more ↦ inr (Trips-cons false (suc m) (outcomes rs) more)
      ]

  Trips-complete :
      (rs : List (ℕ × Bool)) (k : ℕ) (s : State)
      → s.circuit ≡ closed
      → s.failures + suc k ≡ suc m
      → Trips (suc k) (suc m) (outcomes rs)
      → (report_all cfg s rs).circuit ≡ open_
  unfolding report_all
  Trips-complete [] k s c f (inl (ys, e)) = cc
  Trips-complete [] k s c f (inr more) = absurd (HasFailures-nil m more)
  Trips-complete ((now, true) ∷ rs) k s c f (inl (ys, e)) = cc
  Trips-complete ((now, true) ∷ rs) k s c f (inr more) =
      let (c', f') = on_success_closed cfg now s c in
      elim (HasFailures-cons m true (outcomes rs) more) [
        | inl (bad, _) ↦ cc
        | inr rest ↦ Trips-complete rs m (on_execution cfg now true s) c' (omega arith) (inr rest)
      ]
  Trips-complete ((now, false) ∷ rs) zero s c f h =
      report_all_open cfg (on_execution cfg now false s) rs
        (on_failure_trips cfg now s (omega arith) c (omega arith))
  Trips-complete ((now, false) ∷ rs) (suc k) s c f h =
      let (c', f') = on_failure_closed cfg now s (omega arith) c (omega arith) in
      Trips-complete rs k (on_execution cfg now false s) c' (omega arith) (tail h)
    where
      tail : Trips (suc (suc k)) (suc m) (false ∷ outcomes rs) → Trips (suc k) (suc m) (outcomes rs)
      tail (inl (ys, e)) = inl (ys, cc)
      tail (inr more) = elim (HasFailures-cons m false (outcomes rs) more) [
        | inl (_, (ys, e)) ↦
            let (zs, e') = replicate-prefix (suc k) s.failures ys in
            let same : m ≡ s.failures + suc k = omega arith in inl (zs, e ∙ (rw same e'))
        | inr rest ↦ inr rest
      ]

-- With a failure threshold of at least one that fits a `u32`, the reports given to a new breaker
-- leave it open exactly when as many failures as the threshold stand in a row among them; a success
-- in between starts the count again.
pub report_all-open_iff :
    (cfg : CircuitBreakerConfig) (rs : List (ℕ × Bool))
    → 0 < cfg.failure_threshold
    → cfg.failure_threshold < 2 ^ 32
    → ((report_all cfg new rs).circuit ≡ open_) ↔ HasFailures cfg.failure_threshold (outcomes rs)
unfolding new
report_all-open_iff cfg rs pos fits =
    let m = cfg.failure_threshold - 1 in
    let limit : cfg.failure_threshold ≡ suc m = omega arith in
    (
      λ h. rw limit (
          both (suc m) (outcomes rs)
            (Trips-sound cfg m limit (omega arith) rs m new refl (omega arith) h)),
      λ h.
          Trips-complete cfg m limit (omega arith) rs m new refl (omega arith)
            (inr (rw limit at h)),
    )
  where
    both : (n : ℕ) (os : List Bool) → Trips n n os → HasFailures n os
    both n os (inl (ys, e)) = ([], ys, e)
    both n os (inr h) = h
