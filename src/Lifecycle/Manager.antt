-- ===== src/Lifecycle/Manager.antt =====
-- `ComponentManager` of crates/ferroly/src/lifecycle/manager.rs, with state.rs and error.rs. An operation
-- gives its outcome and the manager that it leaves; a lock is held for a step, one caller runs at a time.
-- The components are third parties: their answers are parameters.
pub mod Single
pub mod Closed
pub mod Runs
pub mod Starts
pub mod Stuck
pub mod Acyclic
use ferroly.Base.{
  ℕ, zero, suc, ◌+◌, ◌*◌, Bool, true, false, not, ◌||◌, ◌&&◌, List, [], ◌∷◌, ◌++◌, Option, none,
  some, ◌==◌, if◌then◌else◌, length,
}
use ferroly.Lifecycle.Graph.{
  Deps, Topo, sorted, cyclic, out_of_fuel, contains, add, filter, update, topo_order,
}

pub data ComponentState : Type 0 where
  unknown error stopped stopping running starting : ComponentState

pub data LifecycleError : Type 0 where
  component_not_found component_already_started timeout failure : ℕ → LifecycleError
  cyclic_dependency : LifecycleError
  timeout_of_all : LifecycleError

-- What the component says; `hung` if it does not answer in time.
pub data Answer : Type 0 where
  done failed hung : Answer

-- `blocked`: a component hangs, and nothing bounds the wait.
pub data Outcome : Type 0 where
  ok : Outcome
  err : LifecycleError → Outcome
  blocked : Outcome

pub data Which : Type 0 where
  start_call stop_call : Which

-- A call of a component, with the states when it was made.
pub record Call : Type 0 where
  pub which : Which
  pub id : ℕ
  pub states : ℕ → Option ComponentState

-- `Inner`, and the calls that the components got, the last one first.
pub record Manager : Type 0 where
  pub components : List ℕ
  pub deps : Deps
  pub watchers : ℕ → Option ComponentState
  pub calls : List Call

abbrev pub empty : Manager
empty = record { components = []; deps = []; watchers = λ n. none; calls = [] }

-- `deps.entry(id).or_default()`.
unfoldable pub or_default : ℕ → Deps → Deps
or_default id [] = (id, []) ∷ []
or_default id ((k, ds) ∷ deps) =
    let rest = or_default id deps in if id == k then (k, ds) ∷ deps else (k, ds) ∷ rest

-- A change of the set of `id`, if there is one.
unfoldable pub modify : (List ℕ → List ℕ) → ℕ → Deps → Deps
modify f id [] = []
modify f id ((k, ds) ∷ deps) =
    let rest = modify f id deps in if id == k then (k, f ds) ∷ deps else (k, ds) ∷ rest

unfoldable pub drop_key : ℕ → Deps → Deps
drop_key id [] = []
drop_key id ((k, ds) ∷ deps) =
    let rest = drop_key id deps in if id == k then rest else (k, ds) ∷ rest

unfoldable pub without : ℕ → List ℕ → List ℕ
unfolding filter
without x xs = filter (λ y. not (y == x)) xs

unfoldable pub drop_value : ℕ → Deps → Deps
unfolding without
drop_value id [] = []
drop_value id ((k, ds) ∷ deps) = (k, without id ds) ∷ drop_value id deps

unfoldable pub register : ℕ → Manager → Manager
unfolding or_default add
register id m = record m {
  components = add id m.components;
  deps = or_default id m.deps;
  watchers = update m.watchers id (some unknown);
}

unfoldable pub unregister : ℕ → Manager → Manager
unfolding without drop_key drop_value
unregister id m = record m {
  components = without id m.components;
  deps = drop_value id (drop_key id m.deps);
  watchers = update m.watchers id none;
}

-- The test of `add_dependency` on the new map.
abbrev pub keep_or : Topo → Outcome × Manager → Outcome × Manager → Outcome × Manager
keep_or (sorted order) yes' no' = yes'
keep_or (cyclic stuck) yes' no' = no'
keep_or out_of_fuel yes' no' = no'

unfoldable pub add_dependency : ℕ → ℕ → Manager → Outcome × Manager
unfolding contains add or_default modify without topo_order
add_dependency id depends_on m =
    if not (contains id m.components)
    then (err (component_not_found id), m)
    else if not (contains depends_on m.components)
    then (err (component_not_found depends_on), m)
    else (let entered = modify (add depends_on) id (or_default id m.deps) in
        keep_or (topo_order entered) (ok, record m { deps = entered })
          (err cyclic_dependency, record m { deps = modify (without depends_on) id entered }))

-- `transition`, on a registered component.
unfoldable pub transition : ℕ → ComponentState → Manager → Manager
transition id new m = elim (m.watchers id) [
  | none ↦ m
  | some s ↦ record m { watchers = update m.watchers id (some new) }
]

abbrev pub is_claimed : ComponentState → Bool
is_claimed running = true
is_claimed starting = true
is_claimed _ = false

abbrev pub is_idle : ComponentState → Bool
is_idle stopped = true
is_idle unknown = true
is_idle _ = false

abbrev pub log : Which → ℕ → Manager → Manager
log which id m = record m {
  calls = record { which = which; id = id; states = m.watchers } ∷ m.calls;
}

-- What becomes of a component that was called: `good` if it succeeds. A call that hangs leaves the state.
unfoldable pub settle : ComponentState → ℕ → Answer → Manager → Outcome × Manager
unfolding transition
settle good id done m = (ok, transition id good m)
settle good id failed m = (err (failure id), transition id error m)
settle good id hung m = (blocked, m)

-- A step for each id, up to the first that does not succeed.
unfoldable pub each : (ℕ → Manager → Outcome × Manager) → List ℕ → Manager → Outcome × Manager
each f [] m = (ok, m)
each f (id ∷ ids) m =
    let rest = each f ids (f id m).1 in
    elim (f id m).0 [ ok ↦ rest | err e ↦ (err e, (f id m).1) | blocked ↦ (blocked, (f id m).1) ]

abbrev pub reverse : List ℕ → List ℕ
reverse [] = []
reverse (x ∷ xs) = reverse xs ++ (x ∷ [])

abbrev pub ordered : Topo → Manager → (List ℕ → Manager → Outcome × Manager) → Outcome × Manager
ordered (sorted order) m f = f order m
ordered (cyclic stuck) m f = (err cyclic_dependency, m)
ordered out_of_fuel m f = (blocked, m)

-- `tokio::time::timeout`: the future is dropped where it hangs.
abbrev pub with_timeout : LifecycleError → Outcome → Outcome
with_timeout e ok = ok
with_timeout e (err f) = err f
with_timeout e blocked = err e

-- The body of the loop of `stop_all_with_timeout`, on the outcome of the component.
abbrev pub marked : ℕ → Outcome → Manager → Manager
marked id ok m = m
marked id (err e) m = transition id error m
marked id blocked m = transition id error m

abbrev pub first_of : Outcome → Outcome → Outcome
first_of ok next = next
first_of (err e) next = err e
first_of blocked next = blocked

-- The answers may depend on the calls so far.
module _ (on_start on_stop : List Call → ℕ → Answer) where
  unfoldable pub start_one : ℕ → Manager → Outcome × Manager
  unfolding contains settle transition
  start_one id m =
      if contains id m.components
      then elim (m.watchers id) [
        | none ↦ (ok, m)
        | some s ↦
            if is_claimed s
            then (ok, m)
            else settle running id (on_start m.calls id)
                (log start_call id (transition id starting m))
      ]
      else (err (component_not_found id), m)

  unfoldable pub stop_one : ℕ → Manager → Outcome × Manager
  unfolding contains settle transition
  stop_one id m =
      if contains id m.components
      then elim (m.watchers id) [
        | none ↦ (ok, m)
        | some s ↦
            if is_idle s
            then (ok, m)
            else settle stopped id (on_stop m.calls id)
                (log stop_call id (transition id stopping m))
      ]
      else (err (component_not_found id), m)

  unfoldable pub start_all : Manager → Outcome × Manager
  unfolding each start_one topo_order
  start_all m = ordered (topo_order m.deps) m (each start_one)

  unfoldable pub start_all_with_timeout : Manager → Outcome × Manager
  unfolding start_all
  start_all_with_timeout m = (with_timeout timeout_of_all (start_all m).0, (start_all m).1)

  unfoldable pub stop_all : Manager → Outcome × Manager
  unfolding each stop_one topo_order
  stop_all m = ordered (topo_order m.deps) m (λ order. each stop_one (reverse order))

  -- The loop of `stop_all_with_timeout`; the outcome is the first error.
  unfoldable pub sweep : List ℕ → Manager → Outcome × Manager
  unfolding stop_one transition
  sweep [] m = (ok, m)
  sweep (id ∷ ids) m =
      let r = stop_one id m in
      let out = with_timeout (timeout id) r.0 in
      let rest = sweep ids (marked id out r.1) in (first_of out rest.0, rest.1)

  unfoldable pub stop_all_with_timeout : Manager → Outcome × Manager
  unfolding sweep topo_order
  stop_all_with_timeout m = ordered (topo_order m.deps) m (λ order. sweep (reverse order))
