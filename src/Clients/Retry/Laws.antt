-- ===== src/Clients/Retry/Laws.antt =====
-- What `retry` returns, how often it calls the operation, and how long it sleeps.
use ferroly.Base.{
  ℕ, zero, suc, ◌+◌, ◌≤◌, ◌<◌, ◌≡◌, ◌⊎◌, inl, inr, refl, ap, ◌∙◌, Bool, true, false, List, [], ◌∷◌,
  ◌++◌, map, arith, some, length, All, Bool-cases, leb,
}
use ferroly.Clients.Retry.{RetryPolicy, Result, ok, err, backoff_for, retry_from, retry}

-- The delays before the `n` retries that follow the given attempt.
abbrev pub delays : RetryPolicy → ℕ → ℕ → List ℕ
delays p attempt zero = []
delays p attempt (suc n) = backoff_for p attempt ∷ delays p (attempt + 1) n

module _ {ℓ κ} {T : Type ℓ} {E : Type κ} (p : RetryPolicy) (retry_if : E → Bool) where
  -- `r`, the result of the given attempt, ends the loop.
  abbrev pub IsFinal : ℕ → Result T E → Type 0
  IsFinal attempt (ok v) = Unit
  IsFinal attempt (err e) = (p.max_retries ≤ attempt) ⊎ (retry_if e ≡ false)

  retry_from_lem :
      (es : List E) (r : Result T E) (rest : List (Result T E)) (attempt : ℕ)
      → All (λ e. retry_if e ≡ true) es
      → attempt + length es ≤ p.max_retries
      → IsFinal (attempt + length es) r
      → retry_from p retry_if attempt (map err es ++ (r ∷ rest))
        ≡ record { result = some r; calls = suc (length es); delays = delays p attempt (length es) }
  unfolding retry_from
  retry_from_lem [] (ok v) rest attempt good few final = refl
  retry_from_lem [] (err e) rest attempt good few final = ground arith
  retry_from_lem (e ∷ es) r rest attempt (g, good) few final =
      let shift : attempt + suc (length es) ≡ attempt + 1 + length es = omega arith in
      let ih = retry_from_lem es r rest (attempt + 1) good (omega arith) (rw shift at final) in
      let early : leb p.max_retries attempt ≡ false = ground arith in rw (early, g, ih)

  -- Whatever the operation returns, as long as it is called often enough: retryable errors, then a
  -- result that ends the loop.
  ends_within :
      (op : List (Result T E)) (attempt : ℕ)
      → attempt ≤ p.max_retries
      → p.max_retries < attempt + length op
      → (es : List E) × (r : Result T E) × (rest : List (Result T E)) × (op
          ≡ map err es ++ (r ∷ rest))
        × All (λ e. retry_if e ≡ true) es
        × (attempt + length es ≤ p.max_retries)
        × IsFinal (attempt + length es) r
  ends_within [] attempt low enough = absurd (omega arith)
  ends_within (ok v ∷ op) attempt low enough = ([], ok v, op, refl, tt, omega arith, tt)
  ends_within (err e ∷ op) attempt low enough = elim (Bool-cases (leb p.max_retries attempt)) [
    | inl last ↦ ([], err e, op, refl, tt, omega arith, inl (ground arith))
    | inr more ↦ elim (Bool-cases (retry_if e)) [
      | inr fatal ↦ ([], err e, op, refl, tt, omega arith, inr fatal)
      | inl again ↦
          let (es, r, rest, same, good, few, final) =
            ends_within op (attempt + 1) (ground arith) (omega arith) in
          let shift : attempt + 1 + length es ≡ attempt + suc (length es) = omega arith in
          (
            e ∷ es,
            r,
            rest,
            ap (λ (l : List (Result T E)). err e ∷ l) same,
            (again, good),
            omega arith,
            rw shift at final,
          )
    ]
  ]

-- For every operation that can be called `max_retries + 1` times, `retry` returns: the results of its
-- calls are retryable errors up to one last result, which is a success, an error that is not
-- retryable, or the result of the last allowed attempt. That result is returned, the operation is
-- called no further, and one delay of the policy is slept after each earlier call.
pub retry_lem {ℓ κ} :
    {T : Type ℓ} {E : Type κ} (p : RetryPolicy) (retry_if : E → Bool) (op : List (Result T E))
    → p.max_retries < length op
    → (es : List E) × (r : Result T E) × (rest : List (Result T E)) × (op
        ≡ map err es ++ (r ∷ rest))
      × All (λ e. retry_if e ≡ true) es
      × (length es ≤ p.max_retries)
      × IsFinal p retry_if (length es) r
      × (retry p retry_if op
          ≡ record { result = some r; calls = suc (length es); delays = delays p 0 (length es) })
unfolding retry
retry_lem {T} {E} p retry_if op enough =
    let (es, r, rest, same, good, few, final) =
      ends_within p retry_if op 0 (omega arith) (omega arith) in
    let none_before : 0 + length es ≡ length es = omega arith in
    (
      es,
      r,
      rest,
      same,
      good,
      omega arith,
      rw none_before at final,
      ap (retry_from p retry_if 0) same ∙ retry_from_lem p retry_if es r rest 0 good few final,
    )
