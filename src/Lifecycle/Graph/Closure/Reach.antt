-- ===== src/Lifecycle/Graph/Closure/Reach.antt =====
-- The closures, against reachability.
use ferroly.Base.{
  ℕ, zero, suc, ◌+◌, ◌≤◌, ◌<◌, ◌≡◌, ◌↔◌, inl, inr, refl, sym, subst, true, List, [], ◌∷◌, ◌++◌,
  some, ◌==◌, ==_iff, ltb, if◌then◌else◌, Bool-cases, length, length-append, arith,
}
use ferroly.Lifecycle.Graph.{Deps, contains}
use ferroly.Lifecycle.Graph.Count.{occ, occ-append, contains-occ}
use ferroly.Lifecycle.Graph.Degrees.{Depends, open_of}
use ferroly.Lifecycle.Graph.Closure.{
  get, users, closure_loop, entries, dependency_closure, dependent_closure,
}
use ferroly.Lifecycle.Graph.Closure.Steps.{HasKeys, Supports, get-Depends, users-Supports}

-- The names that are reached from `id` in steps of a relation.
pub data Reaches (R : ℕ → ℕ → Type 0) (id : ℕ) : ℕ → Type 0 where
  start : Reaches R id id
  step : (x d : ℕ) → Reaches R id x → R x d → Reaches R id d

-- Exactly the names that are reached.
abbrev pub IsClosure : (ℕ → ℕ → Type 0) → ℕ → List ℕ → Type 0
IsClosure R id seen = (x : ℕ) → (0 < occ x seen) ↔ Reaches R id x

Reaches-map :
    (R S : ℕ → ℕ → Type 0) (id x : ℕ)
    → ((n d : ℕ) → R n d → S n d)
    → Reaches R id x
    → Reaches S id x
Reaches-map R S id x h start = start
Reaches-map R S id x h (step y d r is) = step y d (Reaches-map R S id y h r) (h y d is)

IsClosure-iff :
    (R S : ℕ → ℕ → Type 0) (id : ℕ) (all : List ℕ)
    → ((n d : ℕ) → R n d ↔ S n d)
    → IsClosure R id all
    → IsClosure S id all
IsClosure-iff R S id all h closure x =
    let (to, from) = closure x in
    (
      (λ is. Reaches-map R S id x (λ n d. (h n d).0) (to is)),
      (λ r. from (Reaches-map S R id x (λ n d. (h n d).1) r)),
    )

-- One step to what `next` gives.
abbrev Leads : (ℕ → List ℕ) → ℕ → ℕ → Type 0
Leads next n d = 0 < occ d (next n)

-- The loop, with a bound for what is still to be pushed.
module _ (next : ℕ → List ℕ) (pending : List ℕ → ℕ)
    (pays : (n : ℕ) (seen : List ℕ)
      → occ n seen ≡ 0
      → pending (n ∷ seen) + length (next n) ≤ pending seen)
    (id : ℕ) where
  record IsWalk (stack seen : List ℕ) : Type 0 where
    reached : (x : ℕ) → 0 < occ x stack + occ x seen → Reaches (Leads next) id x
    closed : (x d : ℕ) → 0 < occ x seen → 0 < occ d (next x) → 0 < occ d seen + occ d stack
    first : 0 < occ id seen + occ id stack

  finished : (seen : List ℕ) → IsWalk [] seen → (x : ℕ) → Reaches (Leads next) id x → 0 < occ x seen
  unfolding occ
  finished seen w x start = omega (arith, w.first)
  finished seen w x (step y d r is) = omega (arith, w.closed y d (finished seen w y r) is)

  passed :
      (n : ℕ) (stack seen : List ℕ)
      → IsWalk (n ∷ stack) seen
      → contains n seen ≡ true
      → IsWalk stack seen
  unfolding occ
  passed n stack seen w old = record {
    reached = λ x is. w.reached x (omega arith);
    closed = λ x d is dep. grind (arith, w.closed x d, contains-occ n seen);
    first = grind (arith, w.first, contains-occ n seen);
  }

  pushed :
      (n : ℕ) (stack seen : List ℕ) → IsWalk (n ∷ stack) seen → IsWalk (next n ++ stack) (n ∷ seen)
  unfolding occ
  pushed n stack seen w = record {
    reached = λ x is. elim (Bool-cases (ltb 0 (occ x (next n)))) [
      | inl new ↦ step n x (w.reached n (ground arith)) (ground arith)
      | inr old ↦ w.reached x (ground (arith, occ-append x (next n) stack))
    ];
    closed = λ x d is dep. elim (Bool-cases (x == n)) [
      | inl same ↦
          let here : 0 < occ d (next n) =
            subst (λ y. 0 < occ d (next y)) ((==_iff x n).0 same) dep in
          omega (arith, occ-append d (next n) stack)
      | inr apart ↦
          let inside : 0 < occ x seen = ground arith in
          omega (arith, w.closed x d inside dep, occ-append d (next n) stack)
    ];
    first = omega (arith, w.first, occ-append id (next n) stack);
  }

  closure_loop-IsClosure :
      (fuel : ℕ) (stack seen : List ℕ)
      → IsWalk stack seen
      → length stack + pending seen ≤ fuel
      → (all : List ℕ) × (closure_loop next fuel stack seen ≡ some all)
        × IsClosure (Leads next) id all
  unfolding closure_loop occ
  closure_loop-IsClosure fuel [] seen w enough =
      (seen, refl, λ x. (λ is. w.reached x (omega arith), finished seen w x))
  closure_loop-IsClosure zero (n ∷ stack) seen w enough = absurd (omega arith)
  closure_loop-IsClosure (suc fuel) (n ∷ stack) seen w enough =
      elim (Bool-cases (contains n seen)) [
        | inl old ↦
            rw (closure_loop, old)
              (closure_loop-IsClosure fuel stack seen (passed n stack seen w old) (omega arith))
        | inr new ↦
            let fresh : occ n seen ≡ 0 = ground (arith, contains-occ n seen) in
            rw (closure_loop, new)
              (closure_loop-IsClosure fuel (next n ++ stack) (n ∷ seen) (pushed n stack seen w)
                (omega (arith, pays n seen fresh, length-append (next n) stack)))
      ]

  closure_loop_lem :
      (fuel : ℕ)
      → 1 + pending [] ≤ fuel
      → (all : List ℕ) × (closure_loop next fuel (id ∷ []) [] ≡ some all)
        × IsClosure (Leads next) id all
  unfolding occ
  closure_loop_lem fuel enough =
      closure_loop-IsClosure fuel (id ∷ []) []
        (record {
          reached =
              λ x is. subst (Reaches (Leads next) id) (sym ((==_iff x id).0 (ground arith))) start;
          closed = λ x d is dep. absurd (omega arith);
          first = ground arith;
        })
        enough

-- What the names that are not seen yet can still push.
unseen : Deps → List ℕ → ℕ
unseen [] seen = 0
unseen ((k, ds) ∷ deps) seen = (if contains k seen then 0 else length ds) + unseen deps seen

unseen-nil : (deps : Deps) → unseen deps [] ≡ entries deps
unfolding unseen entries contains
unseen-nil [] = refl
unseen-nil ((k, ds) ∷ deps) = omega (arith, unseen-nil deps)

unseen-cons : (deps : Deps) (n : ℕ) (seen : List ℕ) → unseen deps (n ∷ seen) ≤ unseen deps seen
unfolding unseen contains
unseen-cons [] n seen = omega arith
unseen-cons ((k, ds) ∷ deps) n seen = ground (arith, unseen-cons deps n seen)

get-unseen :
    (deps : Deps) (n : ℕ) (seen : List ℕ)
    → occ n seen ≡ 0
    → unseen deps (n ∷ seen) + length (get deps n) ≤ unseen deps seen
unfolding unseen get contains
get-unseen [] n seen h = omega arith
get-unseen ((k, ds) ∷ deps) n seen h =
    grind (arith, get-unseen deps n seen h, unseen-cons deps n seen, contains-occ n seen)

dependency_closure-Leads :
    (deps : Deps) (id : ℕ)
    → (all : List ℕ) × (dependency_closure deps id ≡ some all) × IsClosure (Leads (get deps)) id all
unfolding dependency_closure
dependency_closure-Leads deps id =
    closure_loop_lem (get deps) (unseen deps) (get-unseen deps) id (1 + entries deps)
      (omega (arith, unseen-nil deps))

-- What the dependents of names that are not seen yet can still push.
open_entries : Deps → List ℕ → ℕ
open_entries [] seen = 0
open_entries ((k, ds) ∷ deps) seen = open_of seen ds + open_entries deps seen

all_open : (ds : List ℕ) → open_of [] ds ≡ length ds
unfolding open_of occ
all_open [] = refl
all_open (d ∷ ds) = omega (arith, all_open ds)

open_entries-nil : (deps : Deps) → open_entries deps [] ≡ entries deps
unfolding open_entries entries
open_entries-nil [] = refl
open_entries-nil ((k, ds) ∷ deps) = omega (arith, open_entries-nil deps, all_open ds)

open_of-cons :
    (n : ℕ) (seen ds : List ℕ)
    → occ n seen ≡ 0
    → open_of (n ∷ seen) ds + (if contains n ds then 1 else 0) ≤ open_of seen ds
unfolding open_of contains occ
open_of-cons n seen [] h = omega arith
open_of-cons n seen (d ∷ ds) h = grind (arith, open_of-cons n seen ds h)

users-open_entries :
    (deps : Deps) (n : ℕ) (seen : List ℕ)
    → occ n seen ≡ 0
    → open_entries deps (n ∷ seen) + length (users deps n) ≤ open_entries deps seen
unfolding open_entries users
users-open_entries [] n seen h = omega arith
users-open_entries ((k, ds) ∷ deps) n seen h =
    ground (arith, users-open_entries deps n seen h, open_of-cons n seen ds h)

dependent_closure-Leads :
    (deps : Deps) (id : ℕ)
    → (all : List ℕ) × (dependent_closure deps id ≡ some all)
      × IsClosure (Leads (users deps)) id all
unfolding dependent_closure
dependent_closure-Leads deps id =
    closure_loop_lem (users deps) (open_entries deps) (users-open_entries deps) id
      (1 + entries deps) (omega (arith, open_entries-nil deps))

pub dependency_closure-IsClosure :
    (deps : Deps) (id : ℕ)
    → HasKeys deps
    → (all : List ℕ) × (dependency_closure deps id ≡ some all) × IsClosure (Depends deps) id all
dependency_closure-IsClosure deps id set =
    let (all, e, closure) = dependency_closure-Leads deps id in
    (all, e, IsClosure-iff (Leads (get deps)) (Depends deps) id all (get-Depends deps set) closure)

-- The work lists of the two closures come to an end, for a map with different keys:
-- `dependency_closure` with exactly the names that `id` depends on in some steps, `dependent_closure`
-- with exactly those that depend on it in some steps, `id` included. One name depends on another when
-- some entry of the map says so.
pub closures-IsClosure :
    (deps : Deps) (id : ℕ)
    → HasKeys deps
    → ((all : List ℕ) × (dependency_closure deps id ≡ some all) × IsClosure (Depends deps) id all)
      × ((all : List ℕ) × (dependent_closure deps id ≡ some all) × IsClosure (Supports deps) id all)
closures-IsClosure deps id set =
    let (all, e, closure) = dependent_closure-Leads deps id in
    (
      dependency_closure-IsClosure deps id set,
      (
        all,
        e,
        IsClosure-iff (Leads (users deps)) (Supports deps) id all (users-Supports deps) closure,
      ),
    )
