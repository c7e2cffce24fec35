-- ===== src/Lifecycle/Graph/Kahn.antt =====
-- The loop of `topo_order`, which is Kahn's algorithm.
use ferroly.Base.{
  ℕ, zero, suc, ◌+◌, ◌-◌, ◌≤◌, ◌<◌, ◌≡◌, ◌⊎◌, inl, inr, refl, sym, ◌∙◌, subst, Bool, true, false,
  ◌&&◌, List, [], ◌∷◌, ◌++◌, some, ◌==◌, ltb, if◌then◌else◌, Bool-cases, length, length-append,
  arith,
}
use ferroly.Lifecycle.Graph.{
  Deps, Graph, build, update, sort, filter, release, topo_loop, conclude, seed, topo_order,
}
use ferroly.Lifecycle.Graph.Count.{occ, occ-append, occ-sort, occ-filter, occ-length, occ-same}
use ferroly.Lifecycle.Graph.Degrees.{
  count, Depends, remaining, remaining-snoc, remaining-some, remaining-none,
}
use ferroly.Lifecycle.Graph.Orders.{IsOrdered, IsOrdered-snoc, IsNames, Sorts}
use ferroly.Lifecycle.Graph.Built.{IsGraph, build-IsGraph}

-- `m` is released: it was waiting for these nodes alone.
abbrev freed : ℕ → ℕ → ℕ
freed waiting degree = if ltb 0 waiting && (degree == waiting) then 1 else 0

release-in_degree :
    (ms : List ℕ) (degree : ℕ → ℕ) (ready : List ℕ) (m : ℕ)
    → (release ms degree ready).0 m ≡ degree m - occ m ms
unfolding release occ
release-in_degree [] degree ready m = omega arith
release-in_degree (k ∷ ms) degree ready m =
    grind (arith, release-in_degree ms (update degree k (degree k - 1)))

occ-pushed :
    (t : Bool) (k : ℕ) (ready : List ℕ) (m : ℕ)
    → occ m (if t then ready ++ (k ∷ []) else ready)
      ≡ occ m ready + (if t && (m == k) then 1 else 0)
unfolding occ
occ-pushed true k ready m = ground (arith, occ-append m ready (k ∷ []))
occ-pushed false k ready m = omega arith

release-ready :
    (ms : List ℕ) (degree : ℕ → ℕ) (ready : List ℕ)
    → ((m : ℕ) → occ m ms ≤ degree m)
    → (m : ℕ) → occ m (release ms degree ready).1 ≡ occ m ready + freed (occ m ms) (degree m)
unfolding release occ
release-ready [] degree ready h m = ground arith
release-ready (k ∷ ms) degree ready h m =
    let pushed : List ℕ = if degree k - 1 == 0 then ready ++ (k ∷ []) else ready in
    let fits : (x : ℕ) → occ x ms ≤ update degree k (degree k - 1) x =
      λ x. grind (arith, h x, h k) in
    release-ready ms (update degree k (degree k - 1)) pushed fits m
    ∙ grind (arith, occ-pushed (degree k - 1 == 0) k ready m, h m, h k)

module _ (deps : Deps) (g : Graph) (graph : IsGraph deps g) where
  -- What holds whenever the loop looks at its queue.
  record IsLoop (queue : List ℕ) (degree : ℕ → ℕ) (order : List ℕ) : Type 0 where
    degrees : (m : ℕ) → degree m ≡ remaining deps order m
    nodes : (x : ℕ) → occ x order + occ x queue ≤ occ x g.nodes
    ready : (x : ℕ) → 0 < occ x order + occ x queue → degree x ≡ 0
    all : (x : ℕ) → degree x ≡ 0 → 0 < occ x g.nodes → 0 < occ x order + occ x queue
    ordered : IsOrdered deps [] order

  step-IsLoop :
      (n : ℕ) (queue : List ℕ) (degree : ℕ → ℕ) (order : List ℕ)
      → IsLoop (n ∷ queue) degree order
      → IsLoop
          (queue ++ sort (release (g.dependents n) degree []).1)
          (release (g.dependents n) degree []).0
          (order ++ (n ∷ []))
  unfolding occ
  step-IsLoop n queue degree order h =
      let ms = g.dependents n in
      let once : (occ n order ≡ 0) × (degree n ≡ 0) =
        (ground (arith, h.nodes n, graph.set n), ground (arith, h.ready n)) in
      let waiting : (m : ℕ)
          → (occ m ms ≡ count deps m n)
            × (degree m ≡ remaining deps (order ++ (n ∷ [])) m + count deps m n) =
        λ m. (graph.users m n, omega (arith, h.degrees m, remaining-snoc deps order n m once.0)) in
      let less : (m : ℕ) → (release ms degree []).0 m ≡ degree m - occ m ms =
        release-in_degree ms degree [] in
      let new_queue : (x : ℕ)
          → occ x (queue ++ sort (release ms degree []).1)
            ≡ occ x queue + freed (occ x ms) (degree x) =
        λ x. omega (
          arith,
          occ-append x queue (sort (release ms degree []).1),
          occ-sort x (release ms degree []).1,
          release-ready ms degree [] (λ m. omega (arith, waiting m)) x,
        ) in
      let new_order : (x : ℕ)
          → occ x (order ++ (n ∷ [])) ≡ occ x order + (if x == n then 1 else 0) =
        λ x. omega (arith, occ-append x order (n ∷ [])) in
      record {
        degrees = λ m. omega (arith, less m, waiting m);
        nodes = λ x.
            ground
              (arith, new_queue x, new_order x, h.nodes x, h.ready x, waiting x, graph.ends x n);
        ready = λ x some. ground (arith, new_queue x, new_order x, h.ready x, less x, waiting x);
        all = λ x free node. ground (arith, new_queue x, new_order x, h.all x, less x, waiting x);
        ordered =
            IsOrdered-snoc deps [] order n h.ordered
              (λ d is. remaining-none deps order n d (omega (arith, h.degrees n, once.1)) is);
      }

  topo_loop-IsLoop :
      (fuel : ℕ) (queue : List ℕ) (degree : ℕ → ℕ) (order : List ℕ)
      → IsLoop queue degree order
      → length g.nodes ≤ fuel + length order
      → (done : List ℕ) × (left : ℕ → ℕ) × (topo_loop g.dependents fuel queue degree order
          ≡ some (done, left))
        × IsLoop [] left done
  unfolding topo_loop occ
  topo_loop-IsLoop fuel [] degree order h enough = (order, degree, refl, h)
  topo_loop-IsLoop zero (n ∷ queue) degree order h enough =
      let longer =
        occ-length (order ++ (n ∷ [])) g.nodes
          (λ z. omega (arith, h.nodes z, occ-append z order (n ∷ []))) in
      absurd (omega (arith, longer, length-append order (n ∷ [])))
  topo_loop-IsLoop (suc fuel) (n ∷ queue) degree order h enough =
      topo_loop-IsLoop fuel (queue ++ sort (release (g.dependents n) degree []).1)
        (release (g.dependents n) degree []).0 (order ++ (n ∷ []))
        (step-IsLoop n queue degree order h) (omega (arith, length-append order (n ∷ [])))

  seed-IsLoop : IsLoop (seed g) g.in_degree []
  unfolding occ IsOrdered
  seed-IsLoop =
      let seeded : (x : ℕ) → occ x (seed g) ≡ (if g.in_degree x == 0 then occ x g.nodes else 0) =
        λ x.
          occ-sort x (filter (λ n. g.in_degree n == 0) g.nodes)
          ∙ occ-filter (λ n. g.in_degree n == 0) x g.nodes in
      record {
        degrees = graph.degrees;
        nodes = λ x. ground (arith, seeded x);
        ready = λ x some. ground (arith, seeded x);
        all = λ x free node. ground (arith, seeded x);
        ordered = tt;
      }

  missing :
      (xs order : List ℕ)
      → ((x : ℕ) × (0 < occ x xs) × (occ x order ≡ 0)) ⊎ ((z : ℕ) → 0 < occ z xs → 0 < occ z order)
  unfolding occ
  missing [] order = inr (λ z h. absurd (omega arith))
  missing (x ∷ xs) order = elim (Bool-cases (occ x order == 0)) [
    | inl here ↦ inl (x, ground arith, ground arith)
    | inr there ↦ elim (missing xs order) [
      | inl (y, is, out) ↦ inl (y, omega arith, out)
      | inr all ↦ inr (λ z h. grind (arith, all z))
    ]
  ]

  conclude-Sorts :
      (order : List ℕ) (degree : ℕ → ℕ)
      → IsLoop [] degree order
      → Sorts deps g.nodes (conclude g.nodes (some (order, degree)))
  unfolding Sorts occ
  conclude-Sorts order degree h = elim (Bool-cases (length order == length g.nodes)) [
    | inl whole ↦ rw whole (
      λ x. omega (
        arith,
        h.nodes x,
        occ-same order g.nodes (λ z. omega (arith, h.nodes z)) (ground arith) x,
      ),
      h.ordered,
    )
    | inr part ↦ rw part (some_stuck part, each_stuck)
  ]
    where
      stuck :
          (x : ℕ)
          → occ x (filter (λ n. ltb 0 (degree n)) g.nodes)
            ≡ (if ltb 0 (degree x) then occ x g.nodes else 0)
      stuck x = occ-filter (λ n. ltb 0 (degree n)) x g.nodes

      some_stuck :
          (length order == length g.nodes) ≡ false
          → (x : ℕ) × (0 < occ x (filter (λ n. ltb 0 (degree n)) g.nodes))
      some_stuck part = elim (missing g.nodes order) [
        | inl (x, is, out) ↦ (x, ground (arith, stuck x, h.all x))
        | inr all ↦
            let longer = occ-length g.nodes order (λ z. ground (arith, all z, graph.set z)) in
            let shorter = occ-length order g.nodes (λ z. omega (arith, h.nodes z)) in
            absurd (ground (arith, longer, shorter))
      ]

      each_stuck :
          (x : ℕ)
          → 0 < occ x (filter (λ n. ltb 0 (degree n)) g.nodes)
          → (d : ℕ) × Depends deps x d × (0 < occ d (filter (λ n. ltb 0 (degree n)) g.nodes))
      each_stuck x is =
          let (d, dep, out) = remaining-some deps order x (ground (arith, stuck x, h.degrees x)) in
          let node : 0 < occ d g.nodes = (graph.ends x d dep).1 in
          (d, dep, ground (arith, stuck d, h.all d))

-- `topo_order` comes to an end with every name of the map once, each behind the names that it depends
-- on, or with a list of names each of which depends on one of them.
pub topo_order-Sorts :
    (deps : Deps) → (nodes : List ℕ) × IsNames deps nodes × Sorts deps nodes (topo_order deps)
unfolding IsNames topo_order
topo_order-Sorts deps =
    let g = build deps in
    let graph = build-IsGraph deps in
    let (order, degree, e, h) =
      topo_loop-IsLoop deps g graph (length g.nodes) (seed g) g.in_degree []
        (seed-IsLoop deps g graph) (omega arith) in
    (
      g.nodes,
      (graph.set, graph.named, λ m n is. (graph.ends m n is).1),
      subst (λ r. Sorts deps g.nodes (conclude g.nodes r)) (sym e)
          (conclude-Sorts deps g graph order degree h),
    )
