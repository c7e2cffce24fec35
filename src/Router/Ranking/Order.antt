-- ===== src/Router/Ranking/Order.antt =====
-- The comparison of candidates in crates/ferroly/src/genai/router/strategy_capability.rs is transitive,
-- so that a sorted list is sorted throughout.
use Prim.Native.Nat.{Ordering, compare}
use ferroly.Base.{
  ℕ, ◌≡◌, ◌≢◌, ◌⊎◌, inl, inr, refl, ap, ap₂, sym, ◌∙◌, subst, false, List, [], ◌∷◌, Option, none,
  some, All, arith,
}
use ferroly.Base.Bytes.{Bytes}
use ferroly.Router.Data.{Candidate}
use ferroly.Router.Ranking.{Float, compare_bytes, then_with, unwrap_or_equal, is_gt, by_score}
use ferroly.Router.Ranking.Sorting.{IsIn, flip_option, IsAscending}
use ferroly.Router.Ranking.Offers.{IsDual}

-- What a comparison with a second key says when the answer is not `Greater`.
pub then_with-lt_or_eq :
    (o p : Ordering)
    → is_gt (then_with o p) ≡ false
    → (o ≡ Ordering.lt) ⊎ ((o ≡ Ordering.eq) × (is_gt p ≡ false))
then_with-lt_or_eq Ordering.lt p h = inl refl
then_with-lt_or_eq Ordering.eq p h = inr (refl, h)
then_with-lt_or_eq Ordering.gt p h = absurd cc

then_with-eq :
    (o p : Ordering) → then_with o p ≡ Ordering.eq → (o ≡ Ordering.eq) × (p ≡ Ordering.eq)
then_with-eq Ordering.lt p h = absurd cc
then_with-eq Ordering.eq p h = (refl, h)
then_with-eq Ordering.gt p h = absurd cc

lt_or_eq : (o : Ordering) → is_gt o ≡ false → (o ≡ Ordering.lt) ⊎ (o ≡ Ordering.eq)
lt_or_eq Ordering.lt h = inl refl
lt_or_eq Ordering.eq h = inr refl
lt_or_eq Ordering.gt h = absurd cc

compare_eq : (a b : ℕ) → compare a b ≡ Ordering.eq → a ≡ b
compare_eq a b h = ground arith

compare_trans :
    (a b c : ℕ) → compare a b ≡ Ordering.lt → compare b c ≡ Ordering.lt → compare a c ≡ Ordering.lt
compare_trans a b c h k = ground arith

compare_bytes-eq : (xs ys : Bytes) → compare_bytes xs ys ≡ Ordering.eq → xs ≡ ys
unfolding compare_bytes
compare_bytes-eq [] [] h = refl
compare_bytes-eq [] (b ∷ ys) h = absurd cc
compare_bytes-eq (a ∷ xs) [] h = absurd cc
compare_bytes-eq (a ∷ xs) (b ∷ ys) h =
    let (e, f) = then_with-eq (compare a b) (compare_bytes xs ys) h in
    ap₂ (λ c l. c ∷ l) (compare_eq a b e) (compare_bytes-eq xs ys f)

then_with-lt :
    (o p : Ordering)
    → then_with o p ≡ Ordering.lt
    → (o ≡ Ordering.lt) ⊎ ((o ≡ Ordering.eq) × (p ≡ Ordering.lt))
then_with-lt Ordering.lt p h = inl refl
then_with-lt Ordering.eq p h = inr (refl, h)
then_with-lt Ordering.gt p h = absurd cc

compare_bytes_trans :
    (xs ys zs : Bytes)
    → compare_bytes xs ys ≡ Ordering.lt
    → compare_bytes ys zs ≡ Ordering.lt
    → compare_bytes xs zs ≡ Ordering.lt
unfolding compare_bytes
compare_bytes_trans [] [] zs h k = absurd cc
compare_bytes_trans [] (b ∷ ys) [] h k = absurd cc
compare_bytes_trans [] (b ∷ ys) (c ∷ zs) h k = refl
compare_bytes_trans (a ∷ xs) [] zs h k = absurd cc
compare_bytes_trans (a ∷ xs) (b ∷ ys) [] h k = absurd cc
compare_bytes_trans (a ∷ xs) (b ∷ ys) (c ∷ zs) h k =
    elim (then_with-lt (compare a b) (compare_bytes xs ys) h) [
      | inl ab ↦ elim (then_with-lt (compare b c) (compare_bytes ys zs) k) [
        | inl bc ↦ rw (compare_trans a b c ab bc) refl
        | inr (bc, _) ↦
            let e : compare a c ≡ Ordering.lt =
              subst (λ d. compare a d ≡ Ordering.lt) (compare_eq b c bc) ab in
            rw e refl
      ]
      | inr (ab, later) ↦
          let same = compare_eq a b ab in
          elim (then_with-lt (compare b c) (compare_bytes ys zs) k) [
            | inl bc ↦
                let e : compare a c ≡ Ordering.lt =
                  subst (λ d. compare d c ≡ Ordering.lt) (sym same) bc in
                rw e refl
            | inr (bc, later') ↦
                let e : compare a c ≡ Ordering.eq =
                  subst (λ d. compare d c ≡ Ordering.eq) (sym same) bc in
                rw e (compare_bytes_trans xs ys zs later later')
          ]
    ]

-- The names of one pair stand at or before those of another.
abbrev IsNamed : (p q x y : Bytes) → Type 0
IsNamed p q x y = is_gt (then_with (compare_bytes p q) (compare_bytes x y)) ≡ false

compare_bytes_le_trans :
    (x y z : Bytes)
    → is_gt (compare_bytes x y) ≡ false
    → is_gt (compare_bytes y z) ≡ false
    → is_gt (compare_bytes x z) ≡ false
compare_bytes_le_trans x y z h k = elim (lt_or_eq (compare_bytes x y) h) [
  | inr e ↦ subst (λ w. is_gt (compare_bytes w z) ≡ false) (sym (compare_bytes-eq x y e)) k
  | inl less ↦ elim (lt_or_eq (compare_bytes y z) k) [
    | inr e ↦ subst (λ w. is_gt (compare_bytes x w) ≡ false) (compare_bytes-eq y z e) h
    | inl less' ↦ ap is_gt (compare_bytes_trans x y z less less')
  ]
]

IsNamed-trans : (p q r x y z : Bytes) → IsNamed p q x y → IsNamed q r y z → IsNamed p r x z
IsNamed-trans p q r x y z h k =
    elim (then_with-lt_or_eq (compare_bytes p q) (compare_bytes x y) h) [
      | inr (e, low) ↦ elim (then_with-lt_or_eq (compare_bytes q r) (compare_bytes y z) k) [
        | inr (f, low') ↦
            let g : compare_bytes p r ≡ Ordering.eq =
              subst (λ w. compare_bytes w r ≡ Ordering.eq) (sym (compare_bytes-eq p q e)) f in
            rw g (compare_bytes_le_trans x y z low low')
        | inl less ↦
            let g : compare_bytes p r ≡ Ordering.lt =
              subst (λ w. compare_bytes w r ≡ Ordering.lt) (sym (compare_bytes-eq p q e)) less in
            rw g refl
      ]
      | inl less ↦ elim (then_with-lt_or_eq (compare_bytes q r) (compare_bytes y z) k) [
        | inr (f, low') ↦
            let g : compare_bytes p r ≡ Ordering.lt =
              subst (λ w. compare_bytes p w ≡ Ordering.lt) (compare_bytes-eq q r f) less in
            rw g refl
        | inl less' ↦ rw (compare_bytes_trans p q r less less') refl
      ]
    ]

module _ {F : Type 0} (float : Float F) where
  -- What is less than something less is less, and equal floats compare alike with a third one.
  pub record IsOrder : Type 0 where
    pub less :
        (a b c : F)
        → float.partial_cmp a b ≡ some Ordering.lt
        → float.partial_cmp b c ≡ some Ordering.lt
        → float.partial_cmp a c ≡ some Ordering.lt
    pub alike :
        (a b c : F)
        → float.partial_cmp a b ≡ some Ordering.eq
        → float.partial_cmp a c ≡ float.partial_cmp b c

  compared :
      (o : Option Ordering) (p : Ordering)
      → o ≢ none
      → is_gt (then_with (unwrap_or_equal o) p) ≡ false
      → (o ≡ some Ordering.lt) ⊎ ((o ≡ some Ordering.eq) × (is_gt p ≡ false))
  compared none p there h = absurd (there refl)
  compared (some o) p there h = elim (then_with-lt_or_eq o p h) [
    | inl e ↦ inl (ap some e)
    | inr (e, low) ↦ inr (ap some e, low)
  ]

  pub by_score_trans :
      (a b c : Candidate F)
      → IsDual float
      → IsOrder
      → float.partial_cmp b.score a.score ≢ none
      → float.partial_cmp c.score b.score ≢ none
      → is_gt (by_score float a b) ≡ false
      → is_gt (by_score float b c) ≡ false
      → is_gt (by_score float a c) ≡ false
  unfolding by_score
  by_score_trans a b c dual order there there' h k =
      elim (compared (float.partial_cmp b.score a.score) _ there h) [
        | inl less ↦ elim (compared (float.partial_cmp c.score b.score) _ there' k) [
          | inl less' ↦ rw (order.less c.score b.score a.score less' less) refl
          | inr (same, _) ↦ rw (order.alike c.score b.score a.score same, less) refl
        ]
        | inr (same, low) ↦
            let moved : float.partial_cmp c.score a.score ≡ float.partial_cmp c.score b.score =
              dual a.score c.score
              ∙ ap flip_option (sym (order.alike b.score a.score c.score same))
              ∙ sym (dual b.score c.score) in
            elim (compared (float.partial_cmp c.score b.score) _ there' k) [
              | inl less' ↦ rw (moved, less') refl
              | inr (same', low') ↦
                  rw (moved, same')
                    (IsNamed-trans a.provider b.provider c.provider a.model b.model c.model low
                      low')
            ]
      ]

-- Every element is below all that stand behind it.
abbrev pub IsSorted : {A : Type 0} → (A → A → Type 0) → List A → Type 0
IsSorted R [] = Unit
IsSorted R (x ∷ xs) = All (R x) xs × IsSorted R xs

All-in :
    {A : Type 0} (P Q : A → Type 0) (zs : List A)
    → ((z : A) → IsIn z zs → P z → Q z)
    → All P zs
    → All Q zs
All-in P Q [] h all = tt
All-in P Q (z ∷ zs) h (p, all) = (h z (inl refl) p, All-in P Q zs (λ w is. h w (inr is)) all)

pub IsSorted-map :
    {A : Type 0} (R S : A → A → Type 0) (xs : List A)
    → ((a b : A) → IsIn a xs → IsIn b xs → R a b → S a b)
    → IsSorted R xs
    → IsSorted S xs
IsSorted-map R S [] h up = tt
IsSorted-map R S (x ∷ xs) h (low, up) = (
  All-in (R x) (S x) xs (λ z is. h x z (inl refl) (inr is)) low,
  IsSorted-map R S xs (λ a b p q. h a b (inr p) (inr q)) up,
)

module _ {A : Type 0} (cmp : A → A → Ordering) where
  abbrev pub Le : A → A → Type 0
  Le a b = is_gt (cmp a b) ≡ false

  pub IsSorted-IsAscending :
      (xs : List A)
      → ((a b c : A) → IsIn a xs → IsIn b xs → IsIn c xs → Le a b → Le b c → Le a c)
      → IsAscending cmp xs
      → IsSorted Le xs
  IsSorted-IsAscending [] trans up = tt
  IsSorted-IsAscending (x ∷ []) trans up = (tt, tt)
  IsSorted-IsAscending (x ∷ y ∷ ys) trans (low, up) =
      let rest =
        IsSorted-IsAscending (y ∷ ys) (λ a b c p q r. trans a b c (inr p) (inr q) (inr r)) up in
      (
        (
          low,
          All-in (Le y) (Le x) ys
              (λ z is. trans x y z (inl refl) (inr (inl refl)) (inr (inr is)) low) rest.0,
        ),
        rest,
      )
