-- ===== src/Tests/Lifecycle.antt =====
-- Runs of crates/ferroly/src/lifecycle.
use ferroly.Base.{ℕ, ◌<◌, ◌≡◌, refl, List, [], ◌∷◌, some, ◌==◌, if◌then◌else◌, arith, All}
use ferroly.Lifecycle.Graph.{Deps, sorted, topo_order}
use ferroly.Lifecycle.Graph.Count.{occ}
use ferroly.Lifecycle.Graph.Built.{keys}
use ferroly.Lifecycle.Graph.Orders.{IsNames, Sorts}
use ferroly.Lifecycle.Graph.Kahn.{topo_order-Sorts}
use ferroly.Lifecycle.Graph.Knots.{IsOrderable}
use ferroly.Lifecycle.Manager.{
  unknown, running, starting, Answer, done, hung, Call, start_call, Manager, empty, start_all,
  start_all_with_timeout, stop_all_with_timeout, ok,
}
use ferroly.Lifecycle.Manager.Runs.{IsDown, stop_all_with_timeout-IsDown}
use ferroly.Lifecycle.Manager.Starts.{IsSafe, Started, start_all-Started}
use ferroly.Lifecycle.Graph.Closure.{dependency_closure, dependent_closure}
use ferroly.Lifecycle.Graph.Closure.Steps.{HasKeys, Supports}
use ferroly.Lifecycle.Graph.Degrees.{Depends}
use ferroly.Lifecycle.Graph.Closure.Reach.{Reaches, IsClosure, closures-IsClosure}
use ferroly.Lifecycle.Manager.Single.{start}
use ferroly.Lifecycle.Manager.Closed.{start-Started}
use ferroly.Lifecycle.Manager.Stuck.{start_all-stuck}
use ferroly.Lifecycle.Manager.Acyclic.{
  registered, unregistered, depends, apply_all, apply_all-IsOrderable,
}

-- The server 2 depends on the database 1 and on the cache 3, which depends on 1.
abbrev services : Deps
services = (2, 1 ∷ 3 ∷ []) ∷ (3, 1 ∷ []) ∷ (1, []) ∷ []

services_order : topo_order services ≡ sorted (1 ∷ 3 ∷ 2 ∷ [])
unfolding topo_order
services_order = refl

topo_order-Sorts_example :
    (nodes : List ℕ) × IsNames services nodes × Sorts services nodes (topo_order services)
topo_order-Sorts_example = topo_order-Sorts services

abbrev fresh : Manager
fresh = record {
  components = 1 ∷ 2 ∷ 3 ∷ [];
  deps = services;
  watchers = λ x. some unknown;
  calls = [];
}

abbrev always : Answer → List Call → ℕ → Answer
always a calls id = a

abbrev server_hangs : List Call → ℕ → Answer
server_hangs calls id = if id == 2 then hung else done

start_all-Started_example :
    Started services (1 ∷ 3 ∷ 2 ∷ []) (start_all (always done) (always done) fresh)
start_all-Started_example =
    start_all-Started (always done) (always done) services fresh (1 ∷ 3 ∷ 2 ∷ []) refl
      services_order (λ x e. cc) (λ x is e. cc) refl

abbrev up : Manager
up = record {
  components = 1 ∷ 2 ∷ 3 ∷ [];
  deps = services;
  watchers = λ x. some running;
  calls = [];
}

one_named : 0 < occ 1 (keys up.deps)
unfolding occ
one_named = omega arith

stop_all_with_timeout-IsDown_example :
    IsDown ((stop_all_with_timeout (always done) server_hangs up).1.watchers 1)
stop_all_with_timeout-IsDown_example =
    stop_all_with_timeout-IsDown (always done) server_hangs up (1 ∷ 3 ∷ 2 ∷ []) 1 services_order
      one_named

-- What `start_all_with_timeout` leaves when the server hangs.
abbrev half_started : Manager
half_started = (start_all_with_timeout server_hangs (always done) fresh).1

half_stuck : half_started.watchers 2 ≡ some starting
unfolding start_all_with_timeout
half_stuck = refl

start_all-stuck_example :
    ((start_all (always done) (always done) half_started).1.watchers 2 ≡ some starting)
    × ((start_all_with_timeout (always done) (always done) half_started).1.watchers 2
        ≡ some starting)
start_all-stuck_example = start_all-stuck (always done) (always done) 2 half_started half_stuck

apply_all-IsOrderable_example :
    IsOrderable
      (apply_all
        (registered 1 ∷ registered 2 ∷ depends 1 2 ∷ depends 2 1 ∷ unregistered 1 ∷ [])
        empty).deps
apply_all-IsOrderable_example =
    apply_all-IsOrderable
      (registered 1 ∷ registered 2 ∷ depends 1 2 ∷ depends 2 1 ∷ unregistered 1 ∷ [])

services_set : HasKeys services
unfolding occ
services_set x = ground arith

closures-IsClosure_example :
    ((all : List ℕ) × (dependency_closure services 3 ≡ some all)
      × IsClosure (Depends services) 3 all)
    × ((all : List ℕ) × (dependent_closure services 3 ≡ some all)
        × IsClosure (Supports services) 3 all)
closures-IsClosure_example = closures-IsClosure services 3 services_set

three_named : 0 < occ 3 (keys services)
unfolding occ
three_named = omega arith

start-Started_example :
    All (IsSafe services) (start (always done) (always done) 3 fresh).1.calls
    × All
        (λ c. (c.which ≡ start_call) × Reaches (Depends services) 3 c.id)
        (start (always done) (always done) 3 fresh).1.calls
    × ((start (always done) (always done) 3 fresh).0 ≡ ok
        → (x : ℕ) → Reaches (Depends services) 3 x
        → (start (always done) (always done) 3 fresh).1.watchers x ≡ some running)
start-Started_example =
    start-Started (always done) (always done) services services_set fresh (1 ∷ 3 ∷ 2 ∷ []) 3 unknown
      refl services_order (λ x e. cc) (λ x is e. cc) refl three_named refl refl
