-- ===== src/Lifecycle/Graph/Knots.antt =====
-- Which dependency maps `topo_order` orders.
use ferroly.Base.{
  ℕ, ◌<◌, ◌≡◌, inl, inr, refl, sym, subst, List, [], ◌∷◌, ◌++◌, ◌==◌, ==_iff, Bool-cases, arith,
}
use ferroly.Lifecycle.Graph.{Deps, Topo, sorted, cyclic, out_of_fuel, topo_order}
use ferroly.Lifecycle.Graph.Count.{occ, occ-append}
use ferroly.Lifecycle.Graph.Degrees.{Depends}
use ferroly.Lifecycle.Graph.Orders.{IsOrdered, IsNames, Sorts, occ_nil}
use ferroly.Lifecycle.Graph.Kahn.{topo_order-Sorts}

abbrev pub IsOrderable : Deps → Type 0
IsOrderable deps = (order : List ℕ) × (topo_order deps ≡ sorted order)

-- Names each of which depends on one of them, in a map or in a part of it.
abbrev IsKnot : Deps → List ℕ → Type 0
IsKnot deps stuck = (x : ℕ) → 0 < occ x stuck → (d : ℕ) × Depends deps x d × (0 < occ d stuck)

-- No name of a knot stands in an order.
knot_free :
    (deps : Deps) (stuck : List ℕ)
    → IsKnot deps stuck
    → (done order : List ℕ) → IsOrdered deps done order
    → ((x : ℕ) → 0 < occ x done → occ x stuck ≡ 0)
    → (x : ℕ) → 0 < occ x order
    → occ x stuck ≡ 0
unfolding IsOrdered occ
knot_free deps stuck knot done [] h free x is = absurd (omega arith)
knot_free deps stuck knot done (n ∷ order) h free x is =
    let not_n : occ n stuck ≡ 0 = elim (Bool-cases (occ n stuck == 0)) [
      | inl out ↦ ground arith
      | inr knotted ↦
          let (d, dep, inside) = knot n (ground arith) in absurd (omega (arith, free d (h.0 d dep)))
    ] in
    elim (Bool-cases (x == n)) [
      | inl same ↦ subst (λ y. occ y stuck ≡ 0) (sym ((==_iff x n).0 same)) not_n
      | inr apart ↦
          knot_free deps stuck knot (done ++ (n ∷ [])) order h.1
            (λ y there. elim (Bool-cases (y == n)) [
              | inl same ↦ subst (λ z. occ z stuck ≡ 0) (sym ((==_iff y n).0 same)) not_n
              | inr away ↦ free y (ground (arith, occ-append y done (n ∷ [])))
            ])
            x (ground arith)
    ]

-- A part of a map that can be ordered can be ordered.
pub IsOrderable-part :
    (deps part : Deps)
    → ((m n : ℕ) → Depends part m n → Depends deps m n)
    → IsOrderable deps
    → IsOrderable part
unfolding IsNames Sorts
IsOrderable-part deps part within (order, e) =
    let (nodes, names, sorts) = topo_order-Sorts deps in
    let sorts' : Sorts deps nodes (sorted order) = subst (Sorts deps nodes) e sorts in
    let (nodes', names', answer) = topo_order-Sorts part in
    decide nodes' (topo_order part) answer (λ stuck knot.
      let whole : IsKnot deps stuck =
        λ x is. let (d, dep, inside) = knot.1 x is in (d, within x d dep, inside) in
      let (x, is) = knot.0 in
      let (d, dep, inside) = whole x is in
      let in_order : 0 < occ d order = omega (arith, sorts'.0 d, names.2 x d dep) in
      absurd (
        omega (
          arith,
          knot_free deps stuck whole [] order sorts'.1 (λ y is. absurd (omega (arith, occ_nil y))) d
              in_order,
        )))
  where
    decide :
        (ns : List ℕ) (t : Topo)
        → Sorts part ns t
        → ((stuck : List ℕ) → Sorts part ns (cyclic stuck) → ⊥)
        → (o : List ℕ) × (t ≡ sorted o)
    decide ns (sorted o) h never = (o, refl)
    decide ns (cyclic stuck) h never = absurd (never stuck h)
    decide ns out_of_fuel h never = absurd h
