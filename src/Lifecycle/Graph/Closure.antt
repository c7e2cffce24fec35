-- ===== src/Lifecycle/Graph/Closure.antt =====
-- The two closures of crates/ferroly/src/lifecycle/manager.rs.
pub mod Steps
pub mod Reach
use ferroly.Base.{
  ℕ, zero, suc, ◌+◌, Bool, true, false, List, [], ◌∷◌, ◌++◌, Option, none, some, ◌==◌,
  if◌then◌else◌, length,
}
use ferroly.Lifecycle.Graph.{Deps, contains}

-- `deps.get(n)`; no entry pushes nothing.
unfoldable pub get : Deps → ℕ → List ℕ
get [] n = []
get ((id, ds) ∷ deps) n = let rest = get deps n in if n == id then ds else rest

-- The ids whose dependencies contain `n`.
unfoldable pub users : Deps → ℕ → List ℕ
unfolding contains
users [] n = []
users ((id, ds) ∷ deps) n = let rest = users deps n in if contains n ds then id ∷ rest else rest

-- The loop of a closure; `next` are the ids that are pushed. The order of the stack is not observed.
unfoldable pub closure_loop : (ℕ → List ℕ) → ℕ → List ℕ → List ℕ → Option (List ℕ)
unfolding contains
closure_loop next fuel [] seen = some seen
closure_loop next zero (n ∷ stack) seen = none
closure_loop next (suc fuel) (n ∷ stack) seen =
    let again = closure_loop next fuel stack seen in
    let onward = closure_loop next fuel (next n ++ stack) (n ∷ seen) in
    if contains n seen then again else onward

-- The entries of a map.
unfoldable pub entries : Deps → ℕ
entries [] = 0
entries ((id, ds) ∷ deps) = length ds + entries deps

unfoldable pub dependency_closure : Deps → ℕ → Option (List ℕ)
unfolding closure_loop get entries
dependency_closure deps id = closure_loop (get deps) (1 + entries deps) (id ∷ []) []

unfoldable pub dependent_closure : Deps → ℕ → Option (List ℕ)
unfolding closure_loop users entries
dependent_closure deps id = closure_loop (users deps) (1 + entries deps) (id ∷ []) []
