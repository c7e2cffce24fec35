-- ===== src/Lifecycle/Graph/Count.antt =====
-- Occurrences in lists, with which the order of `topo_order` is followed.
use ferroly.Base.{
  ℕ, ◌+◌, ◌-◌, ◌≤◌, ◌<◌, ◌≡◌, inl, inr, refl, Bool, List, [], ◌∷◌, ◌++◌, ◌==◌, ltb, leb,
  if◌then◌else◌, Bool-cases, length, arith,
}
use ferroly.Lifecycle.Graph.{contains, insert, sort, filter}

unfoldable pub occ : ℕ → List ℕ → ℕ
occ x [] = 0
occ x (y ∷ ys) = (if x == y then 1 else 0) + occ x ys

pub occ-append : (x : ℕ) (xs ys : List ℕ) → occ x (xs ++ ys) ≡ occ x xs + occ x ys
unfolding occ
occ-append x [] ys = omega arith
occ-append x (y ∷ xs) ys = omega (arith, occ-append x xs ys)

occ-insert : (x y : ℕ) (ys : List ℕ) → occ x (insert y ys) ≡ (if x == y then 1 else 0) + occ x ys
unfolding occ insert
occ-insert x y [] = refl
occ-insert x y (z ∷ ys) = elim (Bool-cases (leb y z)) [
  | inl at ↦ rw (insert, at) refl
  | inr behind ↦ rw (insert, behind) (omega (arith, occ-insert x y ys))
]

pub occ-sort : (x : ℕ) (xs : List ℕ) → occ x (sort xs) ≡ occ x xs
unfolding occ sort
occ-sort x [] = refl
occ-sort x (y ∷ xs) = omega (arith, occ-insert x y (sort xs), occ-sort x xs)

pub occ-filter :
    (p : ℕ → Bool) (x : ℕ) (xs : List ℕ) → occ x (filter p xs) ≡ (if p x then occ x xs else 0)
unfolding occ filter
occ-filter p x [] = elim (Bool-cases (p x)) [ inl yes' ↦ rw yes' refl | inr no' ↦ rw no' refl ]
occ-filter p x (y ∷ xs) = grind (arith, occ-filter p x xs)

pub contains-occ : (x : ℕ) (xs : List ℕ) → contains x xs ≡ ltb 0 (occ x xs)
unfolding occ contains
contains-occ x [] = refl
contains-occ x (y ∷ xs) = ground (arith, contains-occ x xs)

-- Lists that contain no more of anything are no longer; as long ones contain the same.
remove : ℕ → List ℕ → List ℕ
remove x [] = []
remove x (y ∷ ys) = if x == y then ys else y ∷ remove x ys

occ-remove : (z x : ℕ) (ys : List ℕ) → occ z (remove x ys) ≡ occ z ys - (if z == x then 1 else 0)
unfolding occ remove
occ-remove z x [] = omega arith
occ-remove z x (y ∷ ys) = ground (arith, occ-remove z x ys)

length-remove : (x : ℕ) (ys : List ℕ) → 0 < occ x ys → length (remove x ys) + 1 ≡ length ys
unfolding occ remove
length-remove x [] h = absurd (omega arith)
length-remove x (y ∷ ys) h = ground (arith, length-remove x ys)

pub occ-length : (xs ys : List ℕ) → ((z : ℕ) → occ z xs ≤ occ z ys) → length xs ≤ length ys
unfolding occ
occ-length [] ys h = omega arith
occ-length (x ∷ xs) ys h =
    let some_x : 0 < occ x ys = ground (arith, h x) in
    let shorter = occ-length xs (remove x ys) (λ z. omega (arith, occ-remove z x ys, h z)) in
    omega (arith, length-remove x ys some_x)

pub occ-same :
    (xs ys : List ℕ)
    → ((z : ℕ) → occ z xs ≤ occ z ys)
    → length ys ≤ length xs
    → (z : ℕ) → occ z ys ≤ occ z xs
unfolding occ
occ-same [] [] h short z = omega arith
occ-same [] (y ∷ ys) h short z = absurd (omega arith)
occ-same (x ∷ xs) ys h short z =
    let some_x : 0 < occ x ys = ground (arith, h x) in
    let rest =
      occ-same xs (remove x ys) (λ w. omega (arith, occ-remove w x ys, h w))
        (omega (arith, length-remove x ys some_x)) z in
    omega (arith, occ-remove z x ys, h z)
