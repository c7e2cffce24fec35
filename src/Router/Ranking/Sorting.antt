-- ===== src/Router/Ranking/Sorting.antt =====
-- `sort_by` and the comparisons of crates/ferroly/src/genai/router/strategy_capability.rs: what is in a
-- sorted list, and in which order.
use Prim.Native.Nat.{Ordering, compare}
use ferroly.Base.{
  ℕ, suc, ◌≡◌, ◌↔◌, ◌⊎◌, inl, inr, refl, ap, ap₂, ◌∙◌, true, false, List, [], ◌∷◌, Option, none,
  some, length, arith, Bool-cases,
}
use ferroly.Base.Bytes.{Bytes}
use ferroly.Router.Ranking.{compare_bytes, then_with, unwrap_or_equal, is_gt, insert_by, sort_by}

-- `x` stands in the list.
abbrev pub IsIn : {A : Type 0} → A → List A → Type 0
IsIn x [] = ⊥
IsIn x (y ∷ ys) = (x ≡ y) ⊎ IsIn x ys

abbrev pub flip : Ordering → Ordering
flip Ordering.lt = Ordering.gt
flip Ordering.eq = Ordering.eq
flip Ordering.gt = Ordering.lt

abbrev pub flip_option : Option Ordering → Option Ordering
flip_option none = none
flip_option (some o) = some (flip o)

module _ {A : Type 0} (cmp : A → A → Ordering) where
  -- No element is greater than the one behind it.
  abbrev pub IsAscending : List A → Type 0
  IsAscending [] = Unit
  IsAscending (x ∷ []) = Unit
  IsAscending (x ∷ y ∷ ys) = (is_gt (cmp x y) ≡ false) × IsAscending (y ∷ ys)

  insert_by-IsIn : (x y : A) (ys : List A) → IsIn x (insert_by cmp y ys) ↔ IsIn x (y ∷ ys)
  unfolding insert_by
  insert_by-IsIn x y [] = (λ h. h, λ h. h)
  insert_by-IsIn x y (z ∷ zs) = elim (Bool-cases (is_gt (cmp y z))) [
    | inr here ↦ rw here (λ h. h, λ h. h)
    | inl after ↦
        let (to, from) = insert_by-IsIn x y zs in
        rw after (
          (λ h. elim h [
            | inl e ↦ inr (inl e)
            | inr later ↦ elim (to later) [ inl e ↦ inl e | inr k ↦ inr (inr k) ]
          ]),
          (λ h. elim h [
            | inl e ↦ inr (from (inl e))
            | inr k ↦ elim k [ inl e ↦ inl e | inr m ↦ inr (from (inr m)) ]
          ]),
        )
  ]

  pub sort_by-IsIn : (x : A) (ys : List A) → IsIn x (sort_by cmp ys) ↔ IsIn x ys
  unfolding sort_by
  sort_by-IsIn x [] = (λ h. h, λ h. h)
  sort_by-IsIn x (y ∷ ys) =
      let (to, from) = insert_by-IsIn x y (sort_by cmp ys) in
      let (to', from') = sort_by-IsIn x ys in
      (
        (λ h. elim (to h) [ inl e ↦ inl e | inr k ↦ inr (to' k) ]),
        (λ h. elim h [ inl e ↦ from (inl e) | inr k ↦ from (inr (from' k)) ]),
      )

  insert_by-length : (y : A) (ys : List A) → length (insert_by cmp y ys) ≡ suc (length ys)
  unfolding insert_by
  insert_by-length y [] = refl
  insert_by-length y (z ∷ zs) = elim (Bool-cases (is_gt (cmp y z))) [
    | inl after ↦ rw after (ap suc (insert_by-length y zs))
    | inr here ↦ rw here
  ]

  pub sort_by-length : (ys : List A) → length (sort_by cmp ys) ≡ length ys
  unfolding sort_by
  sort_by-length [] = refl
  sort_by-length (y ∷ ys) = insert_by-length y (sort_by cmp ys) ∙ ap suc (sort_by-length ys)

  module _ (dual : (a b : A) → cmp b a ≡ flip (cmp a b)) where
    turned : (a b : A) → is_gt (cmp a b) ≡ true → is_gt (cmp b a) ≡ false
    turned a b h = rw (dual a b) (turned_at (cmp a b) h)
      where
        turned_at : (o : Ordering) → is_gt o ≡ true → is_gt (flip o) ≡ false
        turned_at Ordering.gt h = refl
        turned_at Ordering.lt h = cc
        turned_at Ordering.eq h = cc

    -- The new element goes behind a first element that is smaller, or in front.
    insert_by-behind :
        (y z : A) (zs : List A)
        → is_gt (cmp y z) ≡ true
        → IsAscending (z ∷ zs)
        → IsAscending (insert_by cmp y zs)
        → IsAscending (z ∷ insert_by cmp y zs)
    unfolding insert_by
    insert_by-behind y z [] after up h = (turned y z after, tt)
    insert_by-behind y z (w ∷ ws) after (low, up) h = elim (Bool-cases (is_gt (cmp y w))) [
      | inl more ↦ rw more (low, rw more at h)
      | inr here ↦ rw here (turned y z after, rw here at h)
    ]

    tail-IsAscending : (z : A) (zs : List A) → IsAscending (z ∷ zs) → IsAscending zs
    tail-IsAscending z [] h = tt
    tail-IsAscending z (w ∷ ws) h = h.1

    insert_by-IsAscending :
        (y : A) (ys : List A) → IsAscending ys → IsAscending (insert_by cmp y ys)
    unfolding insert_by
    insert_by-IsAscending y [] up = tt
    insert_by-IsAscending y (z ∷ zs) up = elim (Bool-cases (is_gt (cmp y z))) [
      | inr here ↦ rw here (here, up)
      | inl after ↦
          rw after (
            insert_by-behind y z zs after up
              (insert_by-IsAscending y zs (tail-IsAscending z zs up)))
    ]

    pub sort_by-IsAscending : (ys : List A) → IsAscending (sort_by cmp ys)
    unfolding sort_by
    sort_by-IsAscending [] = tt
    sort_by-IsAscending (y ∷ ys) = insert_by-IsAscending y (sort_by cmp ys) (sort_by-IsAscending ys)

compare-dual : (a b : ℕ) → compare b a ≡ flip (compare a b)
compare-dual a b = ground arith

pub then_with-flip : (o p : Ordering) → then_with (flip o) (flip p) ≡ flip (then_with o p)
then_with-flip Ordering.lt p = refl
then_with-flip Ordering.eq p = refl
then_with-flip Ordering.gt p = refl

pub compare_bytes-dual : (xs ys : Bytes) → compare_bytes ys xs ≡ flip (compare_bytes xs ys)
unfolding compare_bytes
compare_bytes-dual [] [] = refl
compare_bytes-dual [] (b ∷ ys) = refl
compare_bytes-dual (a ∷ xs) [] = refl
compare_bytes-dual (a ∷ xs) (b ∷ ys) =
    ap₂ then_with (compare-dual a b) (compare_bytes-dual xs ys)
    ∙ then_with-flip (compare a b) (compare_bytes xs ys)

pub unwrap_or_equal-flip :
    (o : Option Ordering) → unwrap_or_equal (flip_option o) ≡ flip (unwrap_or_equal o)
unwrap_or_equal-flip none = refl
unwrap_or_equal-flip (some o) = refl
