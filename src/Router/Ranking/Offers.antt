-- ===== src/Router/Ranking/Offers.antt =====
-- Which models the capability strategy of crates/ferroly/src/genai/router/strategy_capability.rs offers
-- and which it excludes.
use ferroly.Base.{
  ◌+◌, ◌<◌, ◌≤◌, ◌≡◌, ◌↔◌, ◌⊎◌, inl, inr, refl, ap, sym, ◌∙◌, true, false, List, [], ◌∷◌, Option,
  none, some, all, length, All, arith, Bool-cases, Option-cases,
}
use ferroly.Router.Data.{Capability, ModelInfo, Task, Candidate, has}
use ferroly.Router.Ranking.{
  Float, Reason, Exclusion, out_estimate, satisfies, est_cost, exceeds, reject_reason, candidate_of,
  place, sift, by_score, capability_rank,
}
use ferroly.Router.Ranking.Sorting.{IsIn, flip_option, sort_by-IsIn, sort_by-length}

module _ {F : Type 0} (float : Float F) where
  -- Turning a comparison around turns its answer around.
  abbrev pub IsDual : Type 0
  IsDual = (a b : F) → float.partial_cmp b a ≡ flip_option (float.partial_cmp a b)

  module _ (task : Task F) where
    -- The model has the required capabilities, room for the input, and fits the budget.
    pub record Suits (m : ModelInfo F) : Type 0 where
      pub capable : All (λ c. has m c ≡ true) task.required
      pub roomy :
          0 < task.est_input_tokens
          → 0 < m.max_input_tokens
          → task.est_input_tokens ≤ m.max_input_tokens
      pub affordable :
          exceeds float task.max_cost_usd (float.from_nat 0) ≡ true
          → exceeds float
              (est_cost float m task.est_input_tokens (out_estimate task))
              task.max_cost_usd
            ≡ false

    all-has :
        (m : ModelInfo F) (cs : List Capability)
        → all (has m) cs ≡ true
        → All (λ c. has m c ≡ true) cs
    all-has m [] h = tt
    all-has m (c ∷ cs) h = elim (Bool-cases (has m c)) [
      | inl yes_ ↦ (yes_, all-has m cs (rw yes_ at h))
      | inr no_ ↦ let clash : false ≡ true = rw no_ at h in cc
    ]

    has-all :
        (m : ModelInfo F) (cs : List Capability)
        → All (λ c. has m c ≡ true) cs
        → all (has m) cs ≡ true
    has-all m [] h = refl
    has-all m (c ∷ cs) (h, hs) = rw h (has-all m cs hs)

    reject_reason_iff :
        (m : ModelInfo F) → (reject_reason float m task (out_estimate task) ≡ none) ↔ Suits m
    unfolding reject_reason satisfies
    reject_reason_iff m = (
      (λ h. record {
        capable = all-has m task.required (ground arith);
        roomy = λ a b. ground arith;
        affordable = λ a. ground arith;
      }),
      (λ h.
          let c = has-all m task.required h.capable in
          let r = h.roomy in let a = h.affordable in rw c (ground arith)),
    )

    -- A model of the list that suits is behind the candidate.
    abbrev pub IsOffered : List (ModelInfo F) → Candidate F → Type 0
    IsOffered [] c = ⊥
    IsOffered (m ∷ ms) c = (Suits m × (c ≡ candidate_of float task m)) ⊎ IsOffered ms c

    -- A model of the list that does not suit is behind the exclusion.
    abbrev pub IsRefused : List (ModelInfo F) → Exclusion F → Type 0
    IsRefused [] x = ⊥
    IsRefused (m ∷ ms) x =
        ((¬ Suits m)
          × ((why : Reason F) × (reject_reason float m task (out_estimate task) ≡ some why)
              × (x ≡ record { provider = m.provider; model = m.name; reason = why })))
        ⊎ IsRefused ms x

    sift_at :
        (m : ModelInfo F) (ms : List (ModelInfo F)) (o : Option (Reason F))
        → reject_reason float m task (out_estimate task) ≡ o
        → sift float task (m ∷ ms) ≡ place float task m o (sift float task ms)
    unfolding sift
    sift_at m ms o e = ap (λ r. place float task m r (sift float task ms)) e

    sift-IsOffered :
        (ms : List (ModelInfo F)) (c : Candidate F)
        → IsIn c (sift float task ms).candidates ↔ IsOffered ms c
    sift-IsOffered [] c = unfold sift in (λ h. h, λ h. h)
    sift-IsOffered (m ∷ ms) c =
        let (to, from) = sift-IsOffered ms c in
        let (suits, passes) = reject_reason_iff m in
        elim (Option-cases (reject_reason float m task (out_estimate task))) [
          | inl passed ↦ rw (sift_at m ms none passed) (
            (λ h. elim h [ inl e ↦ inl (suits passed, e) | inr k ↦ inr (to k) ]),
            (λ h. elim h [ inl (_, e) ↦ inl e | inr k ↦ inr (from k) ]),
          )
          | inr (why, refused) ↦ rw (sift_at m ms (some why) refused) (
            (λ h. inr (to h)),
            (λ h. elim h [
              | inl (fit, _) ↦ let clash : some why ≡ none = sym refused ∙ passes fit in cc
              | inr k ↦ from k
            ]),
          )
        ]

    sift-IsRefused :
        (ms : List (ModelInfo F)) (x : Exclusion F)
        → IsIn x (sift float task ms).excluded ↔ IsRefused ms x
    sift-IsRefused [] x = unfold sift in (λ h. h, λ h. h)
    sift-IsRefused (m ∷ ms) x =
        let (to, from) = sift-IsRefused ms x in
        let (suits, passes) = reject_reason_iff m in
        elim (Option-cases (reject_reason float m task (out_estimate task))) [
          | inl passed ↦ rw (sift_at m ms none passed) (
            (λ h. inr (to h)),
            (λ h. elim h [ inl (misfit, _) ↦ absurd (misfit (suits passed)) | inr k ↦ from k ]),
          )
          | inr (why, refused) ↦ rw (sift_at m ms (some why) refused) (
            (λ h. elim h [
              | inl e ↦ inl (
                (λ fit. let clash : some why ≡ none = sym refused ∙ passes fit in cc),
                (why, refused, e),
              )
              | inr k ↦ inr (to k)
            ]),
            (λ h. elim h [
              | inl (_, (why', given, e)) ↦ inl (e ∙ same m why why' (sym refused ∙ given))
              | inr k ↦ inr (from k)
            ]),
          )
        ]
      where
        same :
            (m : ModelInfo F) (why why' : Reason F)
            → some why ≡ some why'
            → ◌≡◌ {A = Exclusion F}
                (record { provider = m.provider; model = m.name; reason = why' })
                (record { provider = m.provider; model = m.name; reason = why })
        same m why why' e =
            let r : why' ≡ why = cc in
            ap (λ w. record { provider = m.provider; model = m.name; reason = w }) r

    sift-length :
        (ms : List (ModelInfo F))
        → length (sift float task ms).candidates + length (sift float task ms).excluded ≡ length ms
    sift-length [] = unfold sift in refl
    sift-length (m ∷ ms) =
        let ih = sift-length ms in
        elim (Option-cases (reject_reason float m task (out_estimate task))) [
          | inl passed ↦ rw (sift_at m ms none passed) (omega arith)
          | inr (why, refused) ↦ rw (sift_at m ms (some why) refused) (omega arith)
        ]

    -- The ranking offers exactly the models that suit.
    pub capability_rank-IsOffered :
        (models : List (ModelInfo F)) (c : Candidate F)
        → IsIn c (capability_rank float models task).candidates ↔ IsOffered models c
    unfolding capability_rank
    capability_rank-IsOffered models c =
        let (to, from) = sort_by-IsIn (by_score float) c (sift float task models).candidates in
        let (to', from') = sift-IsOffered models c in (λ h. to' (to h), λ h. from (from' h))

    -- It excludes exactly the others, with their reasons.
    pub capability_rank-IsRefused :
        (models : List (ModelInfo F)) (x : Exclusion F)
        → IsIn x (capability_rank float models task).excluded ↔ IsRefused models x
    unfolding capability_rank
    capability_rank-IsRefused models x = sift-IsRefused models x

    pub capability_rank-length :
        (models : List (ModelInfo F))
        → let ranking = capability_rank float models task in
          length ranking.candidates + length ranking.excluded ≡ length models
    unfolding capability_rank
    capability_rank-length models = omega (
      arith,
      sort_by-length (by_score float) (sift float task models).candidates,
      sift-length models,
    )

    -- A candidate of the ranking is that of a model of the list that suits.
    pub offered_model :
        (models : List (ModelInfo F)) (c : Candidate F)
        → IsOffered models c
        → (m : ModelInfo F) × IsIn m models × Suits m × (c ≡ candidate_of float task m)
    offered_model [] c h = absurd h
    offered_model (m ∷ ms) c (inl (fit, e)) = (m, inl refl, fit, e)
    offered_model (m ∷ ms) c (inr h) =
        let (n, is, fit, e) = offered_model ms c h in (n, inr is, fit, e)
