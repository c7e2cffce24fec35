-- ===== src/Turbo/Path/Laws.antt =====
-- When a path matches a pattern, what is captured, and how slashes count.
use ferroly.Base.{
  ℕ, suc, ◌≡◌, ◌≢◌, ◌⊎◌, inl, inr, refl, ap, sym, subst, ◌∙◌, false, List, [], ◌∷◌, ◌++◌, Option,
  none, some, ◌==◌, if◌then◌else◌, length, arith, Bool-cases,
}
use ferroly.Base.Bytes.{Bytes, bytes_eq, bytes_eq_iff}
use ferroly.Turbo.Path.{
  push_head, split_slash, drop_empty, parts, Seg, static, param, Params, get, match_from,
  match_path,
}

split_slash-ne-nil : (path : Bytes) → split_slash path ≢ []
unfolding split_slash
split_slash-ne-nil [] = λ e. cc
split_slash-ne-nil (c ∷ path) = λ e. no_list c (split_slash path) e
  where
    no_push : (c : ℕ) (l : List Bytes) → push_head c l ≡ [] → ⊥
    no_push c [] e = cc
    no_push c (p ∷ ps) e = cc

    no_list : (c : ℕ) (l : List Bytes) → (if c == b'/' then [] ∷ l else push_head c l) ≡ [] → ⊥
    no_list c l e = elim (Bool-cases (c == b'/')) [
      | inl slash ↦ let h : [] ∷ l ≡ [] = rw slash at e in cc
      | inr other ↦ no_push c l (rw other at e)
    ]

push_head-append : (c : ℕ) (l k : List Bytes) → l ≢ [] → push_head c (l ++ k) ≡ push_head c l ++ k
unfolding push_head
push_head-append c [] k h = absurd (h refl)
push_head-append c (p ∷ ps) k h = refl

split_slash-append : (p q : Bytes) → split_slash (p ++ (b'/' ∷ q)) ≡ split_slash p ++ split_slash q
unfolding split_slash
split_slash-append [] q = refl
split_slash-append (c ∷ p) q = elim (Bool-cases (c == b'/')) [
  | inl slash ↦ rw (slash, split_slash-append p q)
  | inr other ↦
      rw (other, split_slash-append p q)
        (push_head-append c (split_slash p) (split_slash q) (split_slash-ne-nil p))
]

drop_empty-append : (l k : List Bytes) → drop_empty (l ++ k) ≡ drop_empty l ++ drop_empty k
unfolding drop_empty
drop_empty-append [] k = refl
drop_empty-append ([] ∷ l) k = drop_empty-append l k
drop_empty-append ((c ∷ p) ∷ l) k = ap (λ r. (c ∷ p) ∷ r) (drop_empty-append l k)

-- A slash separates the parts before it from the parts behind it.
pub parts-append : (p q : Bytes) → parts (p ++ (b'/' ∷ q)) ≡ parts p ++ parts q
unfolding parts
parts-append p q =
    ap drop_empty (split_slash-append p q) ∙ drop_empty-append (split_slash p) (split_slash q)

pub parts-slash : (q : Bytes) → parts (b'/' ∷ q) ≡ parts q
parts-slash q = parts-append [] q ∙ parts_nil
  where
    parts_nil : parts [] ++ parts q ≡ parts q
    parts_nil = unfold parts in refl

match_parts : List Seg → List Bytes → Option Params
match_parts segs ps = if length ps == length segs then match_from segs ps [] else none

match_path_lem :
    (segs : List Seg) (path : Bytes) → match_path segs path ≡ match_parts segs (parts path)
unfolding match_path match_parts
match_path_lem segs path = refl

-- Matching reads nothing of a path but its parts.
pub match_path_of_parts :
    (segs : List Seg) (p q : Bytes) → parts p ≡ parts q → match_path segs p ≡ match_path segs q
match_path_of_parts segs p q e =
    match_path_lem segs p ∙ ap (match_parts segs) e ∙ sym (match_path_lem segs q)

-- The parts fit the pattern, one for each segment.
abbrev pub Fits : List Seg → List Bytes → Type 0
Fits [] [] = Unit
Fits [] (p ∷ ps) = ⊥
Fits (seg ∷ segs) [] = ⊥
Fits (static s ∷ segs) (p ∷ ps) = (s ≡ p) × Fits segs ps
Fits (param name ∷ segs) (p ∷ ps) = Fits segs ps

abbrev or_else : Option Bytes → Option Bytes → Option Bytes
or_else none o = o
or_else (some v) o = some v

-- The part that stands at the last segment named `name`.
abbrev pub captured : Bytes → List Seg → List Bytes → Option Bytes
captured name [] ps = none
captured name (seg ∷ segs) [] = none
captured name (static s ∷ segs) (p ∷ ps) = captured name segs ps
captured name (param k ∷ segs) (p ∷ ps) =
    or_else (captured name segs ps) (if bytes_eq k name then some p else none)

-- What matching comes to, from the parameters captured before.
abbrev Matched : List Seg → List Bytes → Params → Option Params → Type 0
Matched segs ps before o =
    (Fits segs ps
      × ((after : Params) × (o ≡ some after)
          × ((name : Bytes) → get name after ≡ or_else (captured name segs ps) (get name before))))
    ⊎ ((¬ Fits segs ps) × (o ≡ none))

get_cons :
    (name k p : Bytes) (before : Params) (later : Option Bytes)
    → or_else later (get name ((k, p) ∷ before))
      ≡ or_else (or_else later (if bytes_eq k name then some p else none)) (get name before)
unfolding get
get_cons name k p before none = ground arith
get_cons name k p before (some v) = refl

differ : (s p : Bytes) → bytes_eq s p ≡ false → ¬ (s ≡ p)
differ s p h e = let same = (bytes_eq_iff s p).1 e in cc

match_from-Matched :
    (segs : List Seg) (ps : List Bytes) (before : Params)
    → length ps ≡ length segs
    → Matched segs ps before (match_from segs ps before)
unfolding match_from
match_from-Matched [] [] before e = inl (tt, (before, refl, λ name. refl))
match_from-Matched [] (p ∷ ps) before e = absurd (omega arith)
match_from-Matched (seg ∷ segs) [] before e = absurd (omega arith)
match_from-Matched (static s ∷ segs) (p ∷ ps) before e = elim (Bool-cases (bytes_eq s p)) [
  | inl same ↦ elim (match_from-Matched segs ps before (omega arith)) [
    | inl (fits, rest) ↦ rw same (inl (((bytes_eq_iff s p).0 same, fits), rest))
    | inr (misfit, e) ↦ rw same (inr (λ h. misfit h.1, e))
  ]
  | inr other ↦ rw other (inr (λ h. differ s p other h.0, refl))
]
match_from-Matched (param k ∷ segs) (p ∷ ps) before e =
    elim (match_from-Matched segs ps ((k, p) ∷ before) (omega arith)) [
      | inl (fits, (after, found, values)) ↦ inl (
        fits,
        (after, found, λ name. values name ∙ get_cons name k p before (captured name segs ps)),
      )
      | inr (misfit, e) ↦ inr (misfit, e)
    ]

length_of_Fits : (segs : List Seg) (ps : List Bytes) → Fits segs ps → length ps ≡ length segs
length_of_Fits [] [] h = refl
length_of_Fits [] (p ∷ ps) h = absurd h
length_of_Fits (seg ∷ segs) [] h = absurd h
length_of_Fits (static s ∷ segs) (p ∷ ps) (_, h) = ap suc (length_of_Fits segs ps h)
length_of_Fits (param k ∷ segs) (p ∷ ps) h = ap suc (length_of_Fits segs ps h)

or_else-none : (o : Option Bytes) → or_else o none ≡ o
or_else-none none = refl
or_else-none (some v) = refl

-- The statement of `match_path-Matched` over the parts.
abbrev Decided : List Seg → List Bytes → Option Params → Type 0
Decided segs ps o =
    (Fits segs ps
      × ((params : Params) × (o ≡ some params)
          × ((name : Bytes) → get name params ≡ captured name segs ps)))
    ⊎ ((¬ Fits segs ps) × (o ≡ none))

Decided-of_Matched :
    (segs : List Seg) (ps : List Bytes) (o : Option Params)
    → Matched segs ps [] o
    → Decided segs ps o
unfolding get
Decided-of_Matched segs ps o (inl (fits, (after, found, values))) =
    inl (fits, (after, found, λ name. values name ∙ or_else-none (captured name segs ps)))
Decided-of_Matched segs ps o (inr h) = inr h

match_parts-Decided : (segs : List Seg) (ps : List Bytes) → Decided segs ps (match_parts segs ps)
unfolding match_parts
match_parts-Decided segs ps = elim (Bool-cases (length ps == length segs)) [
  | inl same ↦ rw same (Decided-of_Matched segs ps _ (match_from-Matched segs ps [] (ground arith)))
  | inr other ↦ rw other (inr (λ h. clash (length_of_Fits segs ps h) other, refl))
]
  where
    clash : {m n : ℕ} → m ≡ n → (m == n) ≡ false → ⊥
    clash e h = ground arith

-- A pattern matches a path exactly when the path has one part for each segment and every static
-- segment is its part, and then `param` gives, for each name, the part at the last segment of that
-- name, and nothing for other names.
pub match_path-Matched :
    (segs : List Seg) (path : Bytes)
    → (Fits segs (parts path)
        × ((params : Params) × (match_path segs path ≡ some params)
            × ((name : Bytes) → get name params ≡ captured name segs (parts path))))
      ⊎ ((¬ Fits segs (parts path)) × (match_path segs path ≡ none))
match_path-Matched segs path =
    subst (Decided segs (parts path)) (sym (match_path_lem segs path))
      (match_parts-Decided segs (parts path))
