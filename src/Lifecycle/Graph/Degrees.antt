-- ===== src/Lifecycle/Graph/Degrees.antt =====
-- What the graph of `topo_order` counts.
use ferroly.Base.{
  ℕ, ◌+◌, ◌<◌, ◌≡◌, inl, inr, refl, ◌&&◌, List, [], ◌∷◌, ◌++◌, ◌==◌, ltb, if◌then◌else◌, Bool-cases,
  arith,
}
use ferroly.Lifecycle.Graph.{Deps}
use ferroly.Lifecycle.Graph.Count.{occ, occ-append}

-- How often `m` is entered as depending on `n`.
unfoldable pub count : Deps → ℕ → ℕ → ℕ
count [] m n = 0
count ((id, ds) ∷ deps) m n = (if m == id then occ n ds else 0) + count deps m n

-- `m` depends on `n`.
abbrev pub Depends : Deps → ℕ → ℕ → Type 0
Depends deps m n = 0 < count deps m n

-- The entries that are not among `done`.
unfoldable pub open_of : List ℕ → List ℕ → ℕ
open_of done [] = 0
open_of done (d ∷ ds) = (if occ d done == 0 then 1 else 0) + open_of done ds

unfoldable pub remaining : Deps → List ℕ → ℕ → ℕ
remaining [] done m = 0
remaining ((id, ds) ∷ deps) done m =
    (if m == id then open_of done ds else 0) + remaining deps done m

open_of-snoc :
    (done ds : List ℕ) (n : ℕ)
    → occ n done ≡ 0
    → open_of (done ++ (n ∷ [])) ds + occ n ds ≡ open_of done ds
unfolding open_of occ
open_of-snoc done [] n h = refl
open_of-snoc done (d ∷ ds) n h = grind (arith, open_of-snoc done ds n h, occ-append d done (n ∷ []))

pub remaining-snoc :
    (deps : Deps) (done : List ℕ) (n m : ℕ)
    → occ n done ≡ 0
    → remaining deps (done ++ (n ∷ [])) m + count deps m n ≡ remaining deps done m
unfolding remaining count
remaining-snoc [] done n m h = refl
remaining-snoc ((id, ds) ∷ deps) done n m h =
    ground (arith, remaining-snoc deps done n m h, open_of-snoc done ds n h)

-- What is open is open because of some entry.
open_of-some :
    (done ds : List ℕ) → 0 < open_of done ds → (d : ℕ) × (0 < occ d ds) × (occ d done ≡ 0)
unfolding open_of occ
open_of-some done [] h = absurd (omega arith)
open_of-some done (d ∷ ds) h = elim (Bool-cases (occ d done == 0)) [
  | inl here ↦ (d, ground arith, ground arith)
  | inr other ↦
      let (e, is, opened) = open_of-some done ds (ground arith) in (e, omega arith, opened)
]

pub remaining-some :
    (deps : Deps) (done : List ℕ) (m : ℕ)
    → 0 < remaining deps done m
    → (d : ℕ) × Depends deps m d × (occ d done ≡ 0)
unfolding remaining count
remaining-some [] done m h = absurd (omega arith)
remaining-some ((id, ds) ∷ deps) done m h = elim (Bool-cases (m == id && ltb 0 (open_of done ds))) [
  | inl here ↦
      let (d, is, opened) = open_of-some done ds (ground arith) in (d, ground arith, opened)
  | inr other ↦
      let (d, is, opened) = remaining-some deps done m (ground arith) in (d, omega arith, opened)
]

open_of-none : (done ds : List ℕ) (d : ℕ) → open_of done ds ≡ 0 → 0 < occ d ds → 0 < occ d done
unfolding open_of occ
open_of-none done [] d h is = absurd (omega arith)
open_of-none done (e ∷ ds) d h is = grind (arith, open_of-none done ds d)

pub remaining-none :
    (deps : Deps) (done : List ℕ) (m d : ℕ)
    → remaining deps done m ≡ 0
    → Depends deps m d
    → 0 < occ d done
unfolding remaining count
remaining-none [] done m d h is = absurd (omega arith)
remaining-none ((id, ds) ∷ deps) done m d h is = elim (Bool-cases (m == id && ltb 0 (occ d ds))) [
  | inl here ↦ open_of-none done ds d (ground arith) (ground arith)
  | inr other ↦ remaining-none deps done m d (omega arith) (ground arith)
]
