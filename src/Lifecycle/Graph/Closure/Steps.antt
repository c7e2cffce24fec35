-- ===== src/Lifecycle/Graph/Closure/Steps.antt =====
-- What the loops of the closures push, against the entries of the map.
use ferroly.Base.{ℕ, ◌≤◌, ◌<◌, ◌≡◌, ◌↔◌, refl, [], ◌∷◌, arith}
use ferroly.Lifecycle.Graph.{Deps}
use ferroly.Lifecycle.Graph.Count.{occ, contains-occ}
use ferroly.Lifecycle.Graph.Degrees.{count, Depends}
use ferroly.Lifecycle.Graph.Built.{keys}
use ferroly.Lifecycle.Graph.Closure.{get, users}

-- The keys of a hash map differ.
abbrev pub HasKeys : Deps → Type 0
HasKeys deps = (x : ℕ) → occ x (keys deps) ≤ 1

count_absent : (deps : Deps) (m n : ℕ) → occ m (keys deps) ≡ 0 → count deps m n ≡ 0
unfolding count occ
count_absent [] m n h = refl
count_absent ((k, ds) ∷ deps) m n h = ground (arith, count_absent deps m n)

count-get : (deps : Deps) (m n : ℕ) → occ m (keys deps) ≤ 1 → count deps m n ≡ occ n (get deps m)
unfolding count get occ
count-get [] m n h = refl
count-get ((k, ds) ∷ deps) m n h = ground (arith, count-get deps m n, count_absent deps m n)

-- `get` gives what a name depends on.
pub get-Depends :
    (deps : Deps) → HasKeys deps → (n d : ℕ) → (0 < occ d (get deps n)) ↔ Depends deps n d
get-Depends deps set n d = (
  λ is. omega (arith, count-get deps n d (set n)),
  λ is. omega (arith, count-get deps n d (set n)),
)

-- The other way around: `m` is one of those that depend on `n`.
abbrev pub Supports : Deps → ℕ → ℕ → Type 0
Supports deps n m = Depends deps m n

-- `users` gives what depends on a name.
pub users-Supports : (deps : Deps) (n m : ℕ) → (0 < occ m (users deps n)) ↔ Supports deps n m
unfolding count users occ
users-Supports [] n m = (λ is. is, λ is. is)
users-Supports ((k, ds) ∷ deps) n m =
    let (to, from) = users-Supports deps n m in
    ((λ is. ground (arith, contains-occ n ds, to)), (λ is. ground (arith, contains-occ n ds, from)))
