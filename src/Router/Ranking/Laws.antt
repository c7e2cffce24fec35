-- ===== src/Router/Ranking/Laws.antt =====
-- The ranking of the capability strategy: what it holds, and that it puts the best models first.
use Prim.Native.Nat.{Ordering}
use ferroly.Base.{
  ◌+◌, ◌≡◌, ◌≢◌, ◌↔◌, ◌⊎◌, inl, inr, refl, sym, ap, ap₂, ◌∙◌, subst, false, List, Option, none,
  some, length,
}
use ferroly.Router.Data.{Priority, speed, cost, quality, ModelInfo, Task, Candidate}
use ferroly.Router.Ranking.{
  Float, Exclusion, out_estimate, compare_bytes, then_with, unwrap_or_equal, is_gt, est_cost, score,
  candidate_of, sift, by_score, capability_rank,
}
use ferroly.Router.Ranking.Sorting.{
  IsIn, flip, flip_option, IsAscending, sort_by-IsAscending, then_with-flip, compare_bytes-dual,
  unwrap_or_equal-flip,
}
use ferroly.Router.Ranking.Order.{
  then_with-lt_or_eq, IsOrder, by_score_trans, IsSorted, IsSorted-map, Le, IsSorted-IsAscending,
}
use ferroly.Router.Ranking.Offers.{
  IsDual, Suits, IsOffered, IsRefused, capability_rank-IsOffered, capability_rank-IsRefused,
  capability_rank-length, offered_model,
}

flipped_first :
    (o : Option Ordering) (p : Ordering)
    → o ≢ none
    → is_gt (then_with (unwrap_or_equal (flip_option o)) p) ≡ false
    → (o ≡ some Ordering.gt) ⊎ ((o ≡ some Ordering.eq) × (is_gt p ≡ false))
flipped_first none p there h = absurd (there refl)
flipped_first (some Ordering.lt) p there h = absurd cc
flipped_first (some Ordering.eq) p there h = inr (refl, h)
flipped_first (some Ordering.gt) p there h = inl refl

module _ {F : Type 0} (float : Float F) where
  -- Negation turns comparisons around.
  abbrev pub IsNegating : Type 0
  IsNegating = (a b : F) → float.partial_cmp (float.neg a) (float.neg b) ≡ float.partial_cmp b a

  by_score-dual :
      IsDual float → (a b : Candidate F) → by_score float b a ≡ flip (by_score float a b)
  unfolding by_score
  by_score-dual dual a b =
      ap₂ then_with
        (ap unwrap_or_equal (dual b.score a.score)
          ∙ unwrap_or_equal-flip (float.partial_cmp b.score a.score))
        (ap₂ then_with (compare_bytes-dual a.provider b.provider)
            (compare_bytes-dual a.model b.model)
          ∙ then_with-flip (compare_bytes a.provider b.provider) (compare_bytes a.model b.model))
      ∙ then_with-flip (unwrap_or_equal (float.partial_cmp b.score a.score)) _

  module _ (task : Task F) where
    -- How the first model compares with the second under the task's priority, `gt` if it is better: a
    -- lower estimated cost, a smaller context for speed, a larger one for quality.
    abbrev pub preference_by : Priority → ModelInfo F → ModelInfo F → Option Ordering
    preference_by cost m n =
        float.partial_cmp (est_cost float n task.est_input_tokens (out_estimate task))
          (est_cost float m task.est_input_tokens (out_estimate task))
    preference_by speed m n =
        float.partial_cmp (float.from_nat n.max_input_tokens) (float.from_nat m.max_input_tokens)
    preference_by quality m n =
        float.partial_cmp (float.from_nat m.max_input_tokens) (float.from_nat n.max_input_tokens)

    -- The first name, by provider and model, is not behind the second.
    abbrev pub IsNamedFirst : ModelInfo F → ModelInfo F → Type 0
    IsNamedFirst m n =
        (compare_bytes m.provider n.provider ≡ Ordering.lt)
        ⊎ ((compare_bytes m.provider n.provider ≡ Ordering.eq)
            × (is_gt (compare_bytes m.name n.name) ≡ false))

    -- The first model is better, or as good and not behind by name.
    abbrev pub IsPreferred : ModelInfo F → ModelInfo F → Type 0
    IsPreferred m n =
        (preference_by task.priority m n ≡ some Ordering.gt)
        ⊎ ((preference_by task.priority m n ≡ some Ordering.eq) × IsNamedFirst m n)

    -- The candidates belong to models of which the first is preferred.
    abbrev pub Precedes : Candidate F → Candidate F → Type 0
    Precedes c d =
        (m : ModelInfo F) × (n : ModelInfo F) × (c ≡ candidate_of float task m)
        × (d ≡ candidate_of float task n)
        × IsPreferred m n

    -- No comparison between models that suit meets a NaN.
    abbrev pub IsComparable : List (ModelInfo F) → Type 0
    IsComparable models =
        (m n : ModelInfo F)
        → IsIn m models
        → IsIn n models
        → Suits float task m
        → Suits float task n
        → preference_by task.priority m n ≢ none

    score-preference :
        (p : Priority) (m n : ModelInfo F)
        → IsNegating
        → float.partial_cmp
            (score float m p (est_cost float m task.est_input_tokens (out_estimate task)))
            (score float n p (est_cost float n task.est_input_tokens (out_estimate task)))
          ≡ preference_by p m n
    unfolding score
    score-preference cost m n negating = negating _ _
    score-preference speed m n negating = negating _ _
    score-preference quality m n negating = refl

    by_score-IsPreferred :
        (m n : ModelInfo F)
        → IsDual float
        → IsNegating
        → preference_by task.priority m n ≢ none
        → is_gt (by_score float (candidate_of float task m) (candidate_of float task n)) ≡ false
        → IsPreferred m n
    unfolding by_score candidate_of
    by_score-IsPreferred m n dual negating there h =
        let names = then_with (compare_bytes m.provider n.provider) (compare_bytes m.name n.name) in
        let turned = dual _ _ ∙ ap flip_option (score-preference task.priority m n negating) in
        elim (flipped_first (preference_by task.priority m n) names there
          (subst (λ o. is_gt (then_with (unwrap_or_equal o) names) ≡ false) turned h)) [
            | inl better ↦ inl better
            | inr (same, named) ↦ inr (same, then_with-lt_or_eq _ _ named)
          ]

    score-candidate_of :
        (m n : ModelInfo F)
        → IsNegating
        → float.partial_cmp (candidate_of float task m).score (candidate_of float task n).score
          ≡ preference_by task.priority m n
    unfolding candidate_of
    score-candidate_of m n negating = score-preference task.priority m n negating

    module _ (models : List (ModelInfo F)) (negating : IsNegating)
        (comparable : IsComparable models) where
      offered_comparable :
          (c d : Candidate F)
          → IsOffered float task models c
          → IsOffered float task models d
          → float.partial_cmp c.score d.score ≢ none
      offered_comparable c d hc hd e =
          let (m, m_in, m_fits, ec) = offered_model float task models c hc in
          let (n, n_in, n_fits, ed) = offered_model float task models d hd in
          comparable m n m_in n_in m_fits n_fits (
            sym (score-candidate_of m n negating)
            ∙ ap₂ (λ (a b : Candidate F). float.partial_cmp a.score b.score) (sym ec) (sym ed)
            ∙ e)

      by_score-Precedes :
          (c d : Candidate F)
          → IsDual float
          → IsOffered float task models c
          → IsOffered float task models d
          → Le (by_score float) c d
          → Precedes c d
      by_score-Precedes c d dual hc hd low =
          let (m, m_in, m_fits, ec) = offered_model float task models c hc in
          let (n, n_in, n_fits, ed) = offered_model float task models d hd in
          (
            m,
            n,
            ec,
            ed,
            by_score-IsPreferred m n dual negating (comparable m n m_in n_in m_fits n_fits) (
                subst (λ a. is_gt (by_score float (candidate_of float task m) a) ≡ false) ed
                  (subst (λ a. is_gt (by_score float a d) ≡ false) ec low)),
          )

      IsAscending-Precedes :
          (cs : List (Candidate F))
          → IsDual float
          → IsOrder float
          → ((c : Candidate F) → IsIn c cs → IsOffered float task models c)
          → IsAscending (by_score float) cs
          → IsSorted Precedes cs
      IsAscending-Precedes cs dual order offered up =
          IsSorted-map (Le (by_score float)) Precedes cs
            (λ c d p q. by_score-Precedes c d dual (offered c p) (offered d q))
            (IsSorted-IsAscending (by_score float) cs
              (λ a b c p q r.
                by_score_trans float a b c dual order
                  (offered_comparable b a (offered b q) (offered a p))
                  (offered_comparable c b (offered c r) (offered b q)))
              up)

  capability_rank-IsAscending :
      (models : List (ModelInfo F)) (task : Task F)
      → IsDual float
      → IsAscending (by_score float) (capability_rank float models task).candidates
  unfolding capability_rank
  capability_rank-IsAscending models task dual =
      sort_by-IsAscending (by_score float) (by_score-dual dual) (sift float task models).candidates

  -- The capability strategy ranks the candidates of exactly the models that suit the task, and excludes
  -- exactly the others, each with the reason that `reject_reason` gives; every model is counted once. If
  -- floats are ordered (a comparison turned around, or with both sides negated, turns its answer around;
  -- less is transitive; equal floats compare alike), and no comparison between the models that suit
  -- meets a NaN, the ranking puts the best models first: each is better than all that follow by the
  -- task's priority (lower estimated cost, smaller context for speed, larger for quality), or as good
  -- and not behind them in the order of providers and names.
  pub capability_rank-Ranks :
      (models : List (ModelInfo F)) (task : Task F)
      → IsDual float
      → IsNegating
      → IsOrder float
      → IsComparable task models
      → let ranking = capability_rank float models task in
        ((c : Candidate F) → IsIn c ranking.candidates ↔ IsOffered float task models c)
        × ((x : Exclusion F) → IsIn x ranking.excluded ↔ IsRefused float task models x)
        × (length ranking.candidates + length ranking.excluded ≡ length models)
        × IsSorted (Precedes task) ranking.candidates
  capability_rank-Ranks models task dual negating order comparable = (
    capability_rank-IsOffered float task models,
    capability_rank-IsRefused float task models,
    capability_rank-length float task models,
    IsAscending-Precedes task models negating comparable
        (capability_rank float models task).candidates dual order
        (λ c. (capability_rank-IsOffered float task models c).0)
        (capability_rank-IsAscending models task dual),
  )
