-- ===== src/Lifecycle/Manager/Acyclic.antt =====
-- The dependency map of a manager can always be ordered.
use ferroly.Base.{
  ℕ, ◌≤◌, ◌≡◌, inl, inr, refl, ap, sym, ◌∙◌, subst, true, false, not, List, [], ◌∷◌, ◌==◌,
  if◌then◌else◌, Bool-cases, arith,
}
use ferroly.Lifecycle.Graph.{Deps, Topo, sorted, cyclic, out_of_fuel, add, contains, topo_order}
use ferroly.Lifecycle.Graph.Count.{occ, occ-filter}
use ferroly.Lifecycle.Graph.Degrees.{count}
use ferroly.Lifecycle.Graph.Built.{occ-add}
use ferroly.Lifecycle.Graph.Knots.{IsOrderable, IsOrderable-part}
use ferroly.Lifecycle.Manager.{
  ok, err, cyclic_dependency, Manager, empty, or_default, modify, drop_key, without, drop_value,
  register, unregister, add_dependency, keep_or,
}

count-or_default :
    (id : ℕ) (deps : Deps) (m n : ℕ) → count (or_default id deps) m n ≡ count deps m n
unfolding or_default count occ
count-or_default id [] m n = ground arith
count-or_default id ((k, ds) ∷ deps) m n = elim (Bool-cases (id == k)) [
  | inl same ↦ rw same refl
  | inr apart ↦ rw apart (omega (arith, count-or_default id deps m n))
]

occ-without : (n x : ℕ) (xs : List ℕ) → occ n (without x xs) ≡ (if n == x then 0 else occ n xs)
unfolding without
occ-without n x xs = occ-filter (λ y. not (y == x)) n xs ∙ ground arith

count-drop_value :
    (id : ℕ) (deps : Deps) (m n : ℕ) → count (drop_value id deps) m n ≤ count deps m n
unfolding drop_value count
count-drop_value id [] m n = omega arith
count-drop_value id ((k, ds) ∷ deps) m n =
    ground (arith, count-drop_value id deps m n, occ-without n id ds)

count-drop_key : (id : ℕ) (deps : Deps) (m n : ℕ) → count (drop_key id deps) m n ≤ count deps m n
unfolding drop_key count
count-drop_key id [] m n = omega arith
count-drop_key id ((k, ds) ∷ deps) m n = elim (Bool-cases (id == k)) [
  | inl same ↦ rw same (omega (arith, count-drop_key id deps m n))
  | inr apart ↦ rw apart (omega (arith, count-drop_key id deps m n))
]

module _ (f : List ℕ → List ℕ) (id k : ℕ) (ds : List ℕ) (deps : Deps) where
  modify_same : (id == k) ≡ true → modify f id ((k, ds) ∷ deps) ≡ (k, f ds) ∷ deps
  unfolding modify
  modify_same h = rw h refl

  modify_other : (id == k) ≡ false → modify f id ((k, ds) ∷ deps) ≡ (k, ds) ∷ modify f id deps
  unfolding modify
  modify_other h = rw (modify, h) refl

-- To enter a dependency and to take it back leaves no more than there was.
count-reverted :
    (id d : ℕ) (deps : Deps) (m n : ℕ)
    → count (modify (without d) id (modify (add d) id deps)) m n ≤ count deps m n
unfolding count modify
count-reverted id d [] m n = omega arith
count-reverted id d ((k, ds) ∷ deps) m n = elim (Bool-cases (id == k)) [
  | inl same ↦
      let e =
        ap (modify (without d) id) (modify_same (add d) id k ds deps same)
        ∙ modify_same (without d) id k (add d ds) deps same in
      subst (λ l. count l m n ≤ count ((k, ds) ∷ deps) m n) (sym e)
        (ground (arith, occ-without n d (add d ds), occ-add n d ds))
  | inr apart ↦
      let e =
        ap (modify (without d) id) (modify_other (add d) id k ds deps apart)
        ∙ modify_other (without d) id k ds (modify (add d) id deps) apart in
      subst (λ l. count l m n ≤ count ((k, ds) ∷ deps) m n) (sym e)
        (omega (arith, count-reverted id d deps m n))
]

keep_or-IsOrderable :
    (deps back : Deps) (m : Manager) (t : Topo)
    → topo_order deps ≡ t
    → IsOrderable back
    → IsOrderable
        (keep_or t
          (ok, record m { deps = deps })
          (err cyclic_dependency, record m { deps = back })).1.deps
keep_or-IsOrderable deps back m (sorted order) e h = (order, e)
keep_or-IsOrderable deps back m (cyclic stuck) e h = h
keep_or-IsOrderable deps back m out_of_fuel e h = h

add_dependency-IsOrderable :
    (id d : ℕ) (m : Manager) → IsOrderable m.deps → IsOrderable (add_dependency id d m).1.deps
unfolding add_dependency
add_dependency-IsOrderable id d m h = elim (Bool-cases (contains id m.components)) [
  | inr out ↦ rw (add_dependency, out) h
  | inl here ↦ elim (Bool-cases (contains d m.components)) [
    | inr out ↦ rw (add_dependency, here, out) h
    | inl there ↦
        let start = or_default id m.deps in
        let entered = modify (add d) id start in
        let back = modify (without d) id entered in
        rw (add_dependency, here, there)
          (keep_or-IsOrderable entered back m (topo_order entered) refl (
            IsOrderable-part m.deps back
              (λ a b is.
                omega (arith, count-reverted id d start a b, count-or_default id m.deps a b))
              h))
  ]
]

pub data Change : Type 0 where
  registered unregistered : ℕ → Change
  depends : ℕ → ℕ → Change

abbrev pub apply : Change → Manager → Manager
apply (registered id) m = register id m
apply (unregistered id) m = unregister id m
apply (depends id d) m = (add_dependency id d m).1

abbrev pub apply_all : List Change → Manager → Manager
apply_all [] m = m
apply_all (c ∷ cs) m = apply_all cs (apply c m)

apply-IsOrderable : (c : Change) (m : Manager) → IsOrderable m.deps → IsOrderable (apply c m).deps
unfolding register unregister
apply-IsOrderable (registered id) m h =
    IsOrderable-part m.deps (or_default id m.deps)
      (λ a b is. omega (arith, count-or_default id m.deps a b)) h
apply-IsOrderable (unregistered id) m h =
    IsOrderable-part m.deps (drop_value id (drop_key id m.deps))
      (λ a b is.
        omega (arith, count-drop_value id (drop_key id m.deps) a b, count-drop_key id m.deps a b))
      h
apply-IsOrderable (depends id d) m h = add_dependency-IsOrderable id d m h

apply_from-IsOrderable :
    (cs : List Change) (m : Manager) → IsOrderable m.deps → IsOrderable (apply_all cs m).deps
apply_from-IsOrderable [] m h = h
apply_from-IsOrderable (c ∷ cs) m h =
    apply_from-IsOrderable cs (apply c m) (apply-IsOrderable c m h)

-- Whatever components are registered and removed and whatever dependencies are asked for, `topo_order`
-- gives an order for the dependencies of the manager: no change lets a cycle in.
pub apply_all-IsOrderable : (cs : List Change) → IsOrderable (apply_all cs empty).deps
unfolding topo_order
apply_all-IsOrderable cs = apply_from-IsOrderable cs empty ([], refl)
