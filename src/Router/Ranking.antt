-- ===== src/Router/Ranking.antt =====
-- The routing strategies: strategy.rs, strategy_capability.rs and strategy_composite.rs of
-- crates/ferroly/src/genai/router, with `ModelInfo::est_cost`. The operations of `f64` are a parameter.
-- The registry is the list of its models in the order of their keys. `sort_by` is a stable sort; it is
-- modelled for comparisons that do not contradict themselves, on which all stable sorts agree: no NaN
-- among the scores, which Ranking/Laws takes as a hypothesis.
pub mod Sorting
pub mod Offers
pub mod Order
pub mod Laws
use Prim.Native.Nat.{Ordering, compare}
use ferroly.Base.{
  ℕ, zero, suc, ◌+◌, Bool, true, false, not, ◌&&◌, List, [], ◌∷◌, ◌++◌, Option, none, some, ltb,
  all, if◌then◌else◌, length,
}
use ferroly.Base.Bytes.{Bytes}
use ferroly.Router.Data.{
  Capability, TaskKind, chat, code_gen, summarize, extract, classify, reason, Priority, speed, cost,
  quality, ModelInfo, Task, Candidate, has,
}

-- The arithmetic of `f64` that the strategies use; `partial_cmp` is `none` on a NaN.
pub record Float (F : Type 0) : Type 0 where
  pub from_nat : ℕ → F
  pub add : F → F → F
  pub mul : F → F → F
  pub div : F → F → F
  pub neg : F → F
  pub partial_cmp : F → F → Option Ordering

-- The values that the text of a reason is made of.
pub data Reason (F : Type 0) : Type 0 where
  missing_capability : List Capability → Reason F
  input_over_limit : ℕ → ℕ → Reason F
  cost_over_budget : F → F → Reason F

pub record Exclusion (F : Type 0) : Type 0 where
  pub provider : Bytes
  pub model : Bytes
  pub reason : Reason F

pub record Ranking (F : Type 0) : Type 0 where
  pub candidates : List (Candidate F)
  pub excluded : List (Exclusion F)

-- `default_output_estimate`.
unfoldable pub default_output_estimate : Option TaskKind → ℕ
default_output_estimate (some classify) = 64
default_output_estimate (some extract) = 256
default_output_estimate (some chat) = 512
default_output_estimate (some summarize) = 512
default_output_estimate (some code_gen) = 1024
default_output_estimate (some reason) = 2048
default_output_estimate none = 512

unfoldable pub out_estimate : {F : Type 0} → Task F → ℕ
out_estimate task =
    if ltb 0 task.est_output_tokens
    then task.est_output_tokens
    else default_output_estimate task.kind

unfoldable pub satisfies : {F : Type 0} → ModelInfo F → List Capability → Bool
satisfies m required = all (has m) required

abbrev missing : {F : Type 0} → ModelInfo F → List Capability → List Capability
missing m [] = []
missing m (c ∷ required) = if has m c then missing m required else c ∷ missing m required

abbrev pub then_with : Ordering → Ordering → Ordering
then_with Ordering.lt o = Ordering.lt
then_with Ordering.eq o = o
then_with Ordering.gt o = Ordering.gt

-- The `Ordering` of the providers' and of the models' names.
pub compare_bytes : Bytes → Bytes → Ordering
compare_bytes [] [] = Ordering.eq
compare_bytes [] (b ∷ bs) = Ordering.lt
compare_bytes (a ∷ xs) [] = Ordering.gt
compare_bytes (a ∷ xs) (b ∷ ys) = then_with (compare a b) (compare_bytes xs ys)

abbrev pub unwrap_or_equal : Option Ordering → Ordering
unwrap_or_equal none = Ordering.eq
unwrap_or_equal (some o) = o

abbrev pub is_gt : Ordering → Bool
is_gt Ordering.gt = true
is_gt Ordering.lt = false
is_gt Ordering.eq = false

-- `sort_by`: the new element goes behind those that are not greater.
module _ {A : Type 0} (cmp : A → A → Ordering) where
  insert_by : A → List A → List A
  insert_by x [] = x ∷ []
  insert_by x (y ∷ ys) =
      let later = insert_by x ys in if is_gt (cmp x y) then y ∷ later else x ∷ y ∷ ys

  pub sort_by : List A → List A
  unfolding insert_by
  sort_by [] = []
  sort_by (x ∷ xs) = insert_by x (sort_by xs)

module _ {F : Type 0} (float : Float F) where
  -- `ModelInfo::est_cost`.
  unfoldable pub est_cost : ModelInfo F → ℕ → ℕ → F
  est_cost m in_tokens out_tokens =
      float.add
        (float.mul (float.div (float.from_nat in_tokens) (float.from_nat 1_000_000))
          m.input_cost_per_mtok)
        (float.mul (float.div (float.from_nat out_tokens) (float.from_nat 1_000_000))
          m.output_cost_per_mtok)

  -- `a > b`.
  unfoldable pub exceeds : F → F → Bool
  exceeds a b = elim (float.partial_cmp a b) [ some o ↦ is_gt o | none ↦ false ]

  unfoldable pub reject_reason : ModelInfo F → Task F → ℕ → Option (Reason F)
  unfolding satisfies exceeds
  reject_reason m task out =
      if not (satisfies m task.required)
      then some (missing_capability (missing m task.required))
      else if ltb 0 task.est_input_tokens
          && (ltb 0 m.max_input_tokens && ltb m.max_input_tokens task.est_input_tokens)
      then some (input_over_limit task.est_input_tokens m.max_input_tokens)
      else if exceeds task.max_cost_usd (float.from_nat 0)
          && exceeds (est_cost m task.est_input_tokens out) task.max_cost_usd
      then some (cost_over_budget (est_cost m task.est_input_tokens out) task.max_cost_usd)
      else none

  unfoldable pub score : ModelInfo F → Priority → F → F
  score m cost est = float.neg est
  score m speed est = float.neg (float.from_nat m.max_input_tokens)
  score m quality est = float.from_nat m.max_input_tokens

  -- The candidate that the loop pushes for a model.
  unfoldable pub candidate_of : Task F → ModelInfo F → Candidate F
  unfolding est_cost score out_estimate
  candidate_of task m =
      let est = est_cost m task.est_input_tokens (out_estimate task) in
      record {
        provider = m.provider;
        model = m.name;
        score = score m task.priority est;
        est_cost = est;
      }

  -- The two ends of a round of the loop: the model is excluded, or its candidate pushed.
  abbrev place : Task F → ModelInfo F → Option (Reason F) → Ranking F → Ranking F
  place task m (some why) rest = record rest {
    excluded = record { provider = m.provider; model = m.name; reason = why } ∷ rest.excluded;
  }
  place task m none rest = record rest { candidates = candidate_of task m ∷ rest.candidates }

  -- The loop over the models.
  sift : Task F → List (ModelInfo F) → Ranking F
  sift task [] = record { candidates = []; excluded = [] }
  sift task (m ∷ ms) = place task m (reject_reason m task (out_estimate task)) (sift task ms)

  -- Best first; ties by provider and model.
  unfoldable pub by_score : Candidate F → Candidate F → Ordering
  unfolding compare_bytes
  by_score a b =
      then_with (unwrap_or_equal (float.partial_cmp b.score a.score))
        (then_with (compare_bytes a.provider b.provider) (compare_bytes a.model b.model))

  -- `CapabilityStrategy::rank`.
  unfoldable pub capability_rank : List (ModelInfo F) → Task F → Ranking F
  unfolding sift sort_by by_score
  capability_rank models task =
      let found = sift task models in
      record found { candidates = sort_by by_score found.candidates }

-- `CompositeStrategy::rank`, over the rankings of its sub-strategies.
unfoldable pub composite_rank : {F : Type 0} → List (Task F → Ranking F) → Task F → Ranking F
composite_rank [] task = record { candidates = []; excluded = [] }
composite_rank (s ∷ ss) task =
    let ranking = s task in
    let rest = composite_rank ss task in if ltb 0 (length ranking.candidates) then ranking else rest
