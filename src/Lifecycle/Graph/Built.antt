-- ===== src/Lifecycle/Graph/Built.antt =====
-- The graph that `topo_order` builds.
use ferroly.Base.{
  ℕ, ◌+◌, ◌≤◌, ◌<◌, ◌≡◌, inl, inr, true, ◌&&◌, List, [], ◌∷◌, ◌==◌, ltb, if◌then◌else◌, Bool-cases,
  arith,
}
use ferroly.Lifecycle.Graph.{Deps, Graph, contains, add, touch, edge, edges, build_from, build}
use ferroly.Lifecycle.Graph.Count.{occ, occ-append, contains-occ}
use ferroly.Lifecycle.Graph.Degrees.{count, Depends, open_of, remaining}

pub occ-add :
    (x n : ℕ) (xs : List ℕ)
    → occ x (add n xs) ≡ occ x xs + (if (x == n) && (occ n xs == 0) then 1 else 0)
unfolding add occ
occ-add x n xs = elim (Bool-cases (contains n xs)) [
  | inl old ↦ rw (add, old) (grind (arith, contains-occ n xs))
  | inr new ↦ rw (add, new) (grind (arith, contains-occ n xs, occ-append x xs (n ∷ [])))
]

module _ (n : ℕ) (xs : List ℕ) where
  add_mono : (x : ℕ) → occ x xs ≤ occ x (add n xs)
  add_mono x = omega (arith, occ-add x n xs)

  add_member : (x : ℕ) → (x == n) ≡ true → 0 < occ x (add n xs)
  add_member x same = grind (arith, occ-add x n xs)

  add_set : (x : ℕ) → occ x xs ≤ 1 → occ x (add n xs) ≤ 1
  add_set x h = grind (arith, occ-add x n xs)

-- The steps of the construction: degrees, dependents, nodes.
module _ (id : ℕ) where
  edges-in_degree :
      (ds : List ℕ) (g : Graph) (m : ℕ)
      → (edges id ds g).in_degree m ≡ g.in_degree m + (if m == id then open_of [] ds else 0)
  unfolding edges edge touch open_of occ
  edges-in_degree [] g m = ground arith
  edges-in_degree (d ∷ ds) g m = grind (arith, edges-in_degree ds (edge id d g) m)

  edges-dependents :
      (ds : List ℕ) (g : Graph) (m n : ℕ)
      → occ m ((edges id ds g).dependents n)
        ≡ occ m (g.dependents n) + (if m == id then occ n ds else 0)
  unfolding edges edge touch occ
  edges-dependents [] g m n = ground arith
  edges-dependents (d ∷ ds) g m n =
      grind (arith, edges-dependents ds (edge id d g) m n, occ-append m (g.dependents d) (id ∷ []))

  Keeps : Graph → List ℕ → Graph → Type 0
  Keeps g ds h =
      (x : ℕ)
      → (occ x g.nodes ≤ occ x h.nodes)
        × (0 < occ x ds → 0 < occ x h.nodes)
        × (occ x g.nodes ≤ 1 → occ x h.nodes ≤ 1)

  edges-Keeps : (ds : List ℕ) (g : Graph) → Keeps g ds (edges id ds g)
  unfolding Keeps edges edge touch occ
  edges-Keeps [] g x = (omega arith, λ h. absurd (omega arith), λ h. h)
  edges-Keeps (d ∷ ds) g x =
      let (mono, members, set) = edges-Keeps ds (edge id d g) x in
      let first = add id g.nodes in
      let second = add d first in
      (
        omega (arith, add_mono id g.nodes x, add_mono d first x),
        λ h. elim (Bool-cases (x == d)) [
          | inl same ↦ omega (arith, add_member d first x same)
          | inr other ↦ members (ground arith)
        ],
        λ h. set (add_set d first x (add_set id g.nodes x h)),
      )

abbrev pub keys : Deps → List ℕ
keys [] = []
keys ((id, ds) ∷ deps) = id ∷ keys deps

-- The nodes and the counts, after the entries of a map.
record IsBuilt (deps : Deps) (g h : Graph) : Type 0 where
  degrees : (m : ℕ) → h.in_degree m ≡ g.in_degree m + remaining deps [] m
  users : (m n : ℕ) → occ m (h.dependents n) ≡ occ m (g.dependents n) + count deps m n
  mono : (x : ℕ) → occ x g.nodes ≤ occ x h.nodes
  set : (x : ℕ) → occ x g.nodes ≤ 1 → occ x h.nodes ≤ 1
  ends : (m n : ℕ) → Depends deps m n → (0 < occ m h.nodes) × (0 < occ n h.nodes)
  named : (x : ℕ) → 0 < occ x (keys deps) → 0 < occ x h.nodes

build_from-IsBuilt : (deps : Deps) (g : Graph) → IsBuilt deps g (build_from deps g)
unfolding build_from remaining count Keeps touch occ
build_from-IsBuilt [] g = record {
  degrees = λ m. omega arith;
  users = λ m n. omega arith;
  mono = λ x. omega arith;
  set = λ x h. h;
  ends = λ m n h. absurd (omega arith);
  named = λ x h. absurd (omega arith);
}
build_from-IsBuilt ((id, ds) ∷ deps) g =
    let t = touch id g in
    let mid = edges id ds t in
    let rest = build_from-IsBuilt deps mid in
    record {
      degrees = λ m. omega (arith, rest.degrees m, edges-in_degree id ds t m);
      users = λ m n. omega (arith, rest.users m n, edges-dependents id ds t m n);
      mono = λ x. omega (arith, rest.mono x, (edges-Keeps id ds t x).0, add_mono id g.nodes x);
      set = λ x h. rest.set x ((edges-Keeps id ds t x).2 (add_set id g.nodes x h));
      ends = λ m n h. elim (Bool-cases ((m == id) && ltb 0 (occ n ds))) [
        | inl here ↦ (
          omega (
            arith,
            rest.mono m,
            (edges-Keeps id ds t m).0,
            add_member id g.nodes m (ground arith),
          ),
          omega (arith, rest.mono n, (edges-Keeps id ds t n).1 (ground arith)),
        )
        | inr other ↦ rest.ends m n (ground arith)
      ];
      named = λ x h. elim (Bool-cases (x == id)) [
        | inl same ↦
            omega (arith, rest.mono x, (edges-Keeps id ds t x).0, add_member id g.nodes x same)
        | inr other ↦ rest.named x (ground arith)
      ];
    }

-- The graph of a map: the degrees count the dependencies, the dependents are their reverse.
pub record IsGraph (deps : Deps) (g : Graph) : Type 0 where
  pub degrees : (m : ℕ) → g.in_degree m ≡ remaining deps [] m
  pub users : (m n : ℕ) → occ m (g.dependents n) ≡ count deps m n
  pub set : (x : ℕ) → occ x g.nodes ≤ 1
  pub ends : (m n : ℕ) → Depends deps m n → (0 < occ m g.nodes) × (0 < occ n g.nodes)
  pub named : (x : ℕ) → 0 < occ x (keys deps) → 0 < occ x g.nodes

pub build-IsGraph : (deps : Deps) → IsGraph deps (build deps)
unfolding build occ
build-IsGraph deps =
    let built =
      build_from-IsBuilt deps (record { nodes = []; in_degree = λ n. 0; dependents = λ n. [] }) in
    record {
      degrees = λ m. omega (arith, built.degrees m);
      users = λ m n. omega (arith, built.users m n);
      set = λ x. built.set x (omega arith);
      ends = built.ends;
      named = built.named;
    }
