-- ===== src/Router/Resolve/Laws.antt =====
-- What a resolved route holds, and which models a routed request is sent to.
use mathlib.Core.List.{Sublistᴰ}
use mathlib.Core.List.Sublistᴰ.{slnil, cons, cons-cons}
use ferroly.Base.{
  ℕ, zero, suc, ◌≤◌, ◌≡◌, inl, inr, refl, sym, subst, true, false, List, [], ◌∷◌, map, Option, none,
  some, length, take, All, arith,
}
use ferroly.Base.Bytes.{Bytes}
use ferroly.Clients.Retry.{Result, ok, err}
use ferroly.Router.Data.{
  ModelInfo, Pin, Task, Candidate, Route, attempts, RouterError, no_route, CompletionRequest,
}
use ferroly.Router.Ranking.{Float, Exclusion, Ranking, capability_rank}
use ferroly.Router.Ranking.Sorting.{IsIn}
use ferroly.Router.Ranking.Offers.{IsDual, IsOffered, capability_rank-IsOffered}
use ferroly.Router.Execute.{Router, Breakers, Tick, Sent, execute}
use ferroly.Router.Execute.Fallback.{Fits, execute-InOrder}
use ferroly.Router.Resolve.{
  RouteDecision, Strategy, capability_strategy, make_candidate, choose, resolve_from, resolve_inner,
  route_on, route,
}

module _ {A : Type 0} (P : A → Type 0) where
  All-of_IsIn : (xs : List A) → ((x : A) → IsIn x xs → P x) → All P xs
  All-of_IsIn [] h = tt
  All-of_IsIn (x ∷ xs) h = (h x (inl refl), All-of_IsIn xs (λ y k. h y (inr k)))

  All-take : (n : ℕ) (xs : List A) → All P xs → All P (take n xs)
  All-take zero xs h = tt
  All-take (suc n) [] h = tt
  All-take (suc n) (x ∷ xs) (h, hs) = (h, All-take n xs hs)

  All-of_Sublist : {xs ys : List A} → Sublistᴰ xs ys → All P ys → All P xs
  All-of_Sublist slnil h = tt
  All-of_Sublist (cons s) (_, h) = All-of_Sublist s h
  All-of_Sublist (cons-cons e s) (h, hs) = (subst P (sym e) h, All-of_Sublist s hs)

All-of_map :
    {A B : Type 0} (P : B → Type 0) (f : A → B) (xs : List A)
    → All P (map f xs)
    → All (λ x. P (f x)) xs
All-of_map P f [] h = tt
All-of_map P f (x ∷ xs) (h, hs) = (h, All-of_map P f xs hs)

All-both :
    {A : Type 0} (P Q : A → Type 0) (xs : List A) → All P xs → All Q xs → All (λ x. P x × Q x) xs
All-both P Q [] h k = tt
All-both P Q (x ∷ xs) (h, hs) (k, ks) = ((h, k), All-both P Q xs hs ks)

module _ {F : Type 0} (float : Float F) (get : Bytes → Bytes → Option (ModelInfo F)) where
  -- The route follows the ranking: it is its first candidates, at most `depth` of them behind the
  -- first, and the decision records the ranking.
  abbrev pub Follows :
      ℕ → Bytes → Ranking F → Result (Route F × RouteDecision F) RouterError → Type 0
  Follows depth name ranking (ok (r, d)) =
      (attempts r ≡ take (suc depth) ranking.candidates)
      × (length (attempts r) ≤ suc depth)
      × (d.considered ≡ ranking.candidates)
      × (d.excluded ≡ ranking.excluded)
      × (d.strategy ≡ name)
      × (d.chosen ≡ r.primary)
      × (d.fallbacks ≡ r.fallbacks)
      × (d.pinned ≡ false)
  Follows depth name ranking (err (no_route _)) = ranking.candidates ≡ []
  Follows depth name ranking (err _) = ⊥

  -- The pinned model alone, whatever the strategy says.
  abbrev pub IsPinned : Pin → Result (Route F × RouteDecision F) RouterError → Type 0
  IsPinned pin (ok (r, d)) =
      (attempts r ≡ r.primary ∷ [])
      × (r.primary.provider ≡ pin.provider)
      × (r.primary.model ≡ pin.model)
      × (d.chosen ≡ r.primary)
      × (d.considered ≡ attempts r)
      × (d.pinned ≡ true)
  IsPinned pin (err _) = ⊥

  abbrev pub Resolved :
      Strategy F → ℕ → Task F → Option Pin → Result (Route F × RouteDecision F) RouterError → Type 0
  Resolved strategy depth task (some pin) r = IsPinned pin r
  Resolved strategy depth task none r = Follows depth strategy.name (strategy.rank task) r

  choose-Follows :
      (depth : ℕ) (name : Bytes) (cs : List (Candidate F)) (xs : List (Exclusion F))
      → Follows depth name
          (record { candidates = cs; excluded = xs })
          (choose float get name depth xs cs)
  unfolding choose attempts
  choose-Follows depth name [] xs = refl
  choose-Follows depth name (c ∷ cs) xs =
      (refl, length-take_le depth cs, refl, refl, refl, refl, refl, refl)
    where
      length-take_le : (n : ℕ) (l : List (Candidate F)) → suc (length (take n l)) ≤ suc n
      length-take_le zero l = omega arith
      length-take_le (suc n) [] = omega arith
      length-take_le (suc n) (x ∷ l) = let ih = length-take_le n l in omega arith

  resolve_from-Resolved :
      (strategy : Strategy F) (depth : ℕ) (task : Task F) (pin : Option Pin)
      → Resolved strategy depth task pin (resolve_from float get strategy depth task pin)
  unfolding resolve_from make_candidate attempts
  resolve_from-Resolved strategy depth task (some pin) = (refl, refl, refl, refl, refl, refl)
  resolve_from-Resolved strategy depth task none =
      choose-Follows depth strategy.name (strategy.rank task).candidates
        (strategy.rank task).excluded

-- A pinned task is routed to the pinned model alone. Any other is routed by its strategy's ranking: to
-- the first candidate with at most `fallback_depth` of the following ones as fallbacks, in their
-- order; it fails exactly with `NoRoute`, and only when the ranking is empty. The decision records
-- the route, the whole ranking and what was excluded.
pub resolve_inner-Resolved :
    {F : Type 0} (float : Float F) (get : Bytes → Bytes → Option (ModelInfo F))
    (strategy : Strategy F) (depth : ℕ) (task : Task F)
    → Resolved float get strategy depth task task.pin (resolve_inner float get strategy depth task)
unfolding resolve_inner
resolve_inner-Resolved float get strategy depth task =
    resolve_from-Resolved float get strategy depth task task.pin

module _ {F M R : Type 0} (float : Float F) (router : Router F M R) (models : List (ModelInfo F))
    (task : Task F) (request : CompletionRequest M) where
  -- The call fits the task and goes to a model of the registry that suits it.
  abbrev pub IsAllowed : Sent F M → Type 0
  IsAllowed s = Fits router task request s × IsOffered float task models s.candidate

  execute-IsAllowed :
      (ticks : ℕ → Tick) (bs : Breakers) (r : Route F)
      → All (IsOffered float task models) (attempts r)
      → All IsAllowed (execute router task request ticks bs r).sent
  execute-IsAllowed ticks bs r offered =
      let (fits, order) = execute-InOrder router task request ticks bs r in
      let sent = (execute router task request ticks bs r).sent in
      All-both (Fits router task request) (λ s. IsOffered float task models s.candidate) sent fits
        (All-of_map (IsOffered float task models) (λ s. s.candidate) sent
          (All-of_Sublist (IsOffered float task models) order offered))

  route_on-IsAllowed :
      (depth : ℕ) (name : Bytes) (ticks : ℕ → Tick) (bs : Breakers)
      (o : Result (Route F × RouteDecision F) RouterError)
      → IsDual float
      → Follows float router.registry depth name (capability_rank float models task) o
      → All IsAllowed
          (route_on float router
            (capability_strategy float models)
            depth
            false
            task
            request
            ticks
            bs
            o).sent
  unfolding route_on
  route_on-IsAllowed depth name ticks bs (err e) dual h = tt
  route_on-IsAllowed depth name ticks bs (ok (r, d)) dual h =
      let cs = (capability_rank float models task).candidates in
      let offered = capability_rank-IsOffered float task models in
      execute-IsAllowed ticks bs r (
        subst (All (IsOffered float task models)) (sym h.0) (
          All-take (IsOffered float task models) (suc depth) cs
            (All-of_IsIn (IsOffered float task models) cs (λ c k. (offered c).0 k))))

-- A task without a pin, routed by the capability strategy over floats whose comparison is dual: every
-- call that `route` sends, to the primary or to a fallback, goes to a model of the registry that has
-- all the capabilities that the task requires, has room for its estimated input where both numbers
-- are known, and is not estimated to cost more than the budget where there is one; and every call
-- fits the task as those of `execute` do.
pub route-IsAllowed :
    {F M R : Type 0} (float : Float F) (router : Router F M R) (models : List (ModelInfo F))
    (depth : ℕ) (task : Task F) (request : CompletionRequest M) (ticks : ℕ → Tick) (bs : Breakers)
    → IsDual float
    → task.pin ≡ none
    → All
        (IsAllowed float router models task request)
        (route float router
          (capability_strategy float models)
          depth
          false
          task
          request
          ticks
          bs).sent
unfolding route capability_strategy
route-IsAllowed float router models depth task request ticks bs dual free =
    let strategy = capability_strategy float models in
    let resolved = resolve_inner-Resolved float router.registry strategy depth task in
    let follows =
      subst
        (λ p.
          Resolved float router.registry strategy depth task p
            (resolve_inner float router.registry strategy depth task))
        free resolved in
    route_on-IsAllowed float router models task request depth strategy.name ticks bs
      (resolve_inner float router.registry strategy depth task) dual follows
