-- ===== src/Lifecycle/Graph/Orders.antt =====
-- What an order of the names of a dependency map is.
use mathlib.Core.List.{append_assoc}
use ferroly.Base.{ℕ, ◌≤◌, ◌<◌, ◌≡◌, refl, sym, subst, List, [], ◌∷◌, ◌++◌, arith}
use ferroly.Lifecycle.Graph.{Deps, Topo, sorted, cyclic, out_of_fuel}
use ferroly.Lifecycle.Graph.Count.{occ, occ-append}
use ferroly.Lifecycle.Graph.Degrees.{Depends}
use ferroly.Lifecycle.Graph.Built.{keys}

-- An order in which every node stands behind the nodes that it depends on; `done` stands in front.
unfoldable pub IsOrdered : Deps → List ℕ → List ℕ → Type 0
IsOrdered deps done [] = Unit
IsOrdered deps done (n ∷ order) =
    ((d : ℕ) → Depends deps n d → 0 < occ d done) × IsOrdered deps (done ++ (n ∷ [])) order

pub occ_nil : (x : ℕ) → occ x [] ≡ 0
unfolding occ
occ_nil x = refl

pub IsOrdered-snoc :
    (deps : Deps) (done order : List ℕ) (n : ℕ)
    → IsOrdered deps done order
    → ((d : ℕ) → Depends deps n d → 0 < occ d (done ++ order))
    → IsOrdered deps done (order ++ (n ∷ []))
unfolding IsOrdered
IsOrdered-snoc deps done [] n h ready =
    (λ d is. omega (arith, ready d is, occ-append d done [], occ_nil d), tt)
IsOrdered-snoc deps done (k ∷ order) n h ready = (
  h.0,
  IsOrdered-snoc deps (done ++ (k ∷ [])) order n h.1
      (λ d is. subst (λ l. 0 < occ d l) (sym (append_assoc done (k ∷ []) order)) (ready d is)),
)

-- The names of a map: its keys and its entries, each once.
unfoldable pub IsNames : Deps → List ℕ → Type 0
IsNames deps nodes =
    ((x : ℕ) → occ x nodes ≤ 1)
    × ((x : ℕ) → 0 < occ x (keys deps) → 0 < occ x nodes)
    × ((m n : ℕ) → Depends deps m n → 0 < occ n nodes)

-- An answer of `topo_order`: every name once, behind the names that it depends on; or names each of
-- which depends on one of them, so that none of them can come first.
unfoldable pub Sorts : Deps → List ℕ → Topo → Type 0
Sorts deps nodes (sorted order) = ((x : ℕ) → occ x order ≡ occ x nodes) × IsOrdered deps [] order
Sorts deps nodes (cyclic stuck) =
    ((x : ℕ) × (0 < occ x stuck))
    × ((x : ℕ) → 0 < occ x stuck → (d : ℕ) × Depends deps x d × (0 < occ d stuck))
Sorts deps nodes out_of_fuel = ⊥
