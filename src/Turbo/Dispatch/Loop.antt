-- ===== src/Turbo/Dispatch/Loop.antt =====
-- The loop of `core_dispatch` over the routes: which one it finds, and what it collects for a 405.
use ferroly.Base.{
  ◌≡◌, ◌≢◌, inl, inr, refl, ap, sym, ◌∙◌, Bool, true, false, ◌&&◌, ◌||◌, List, [], ◌∷◌, ◌++◌,
  Option, none, some, if◌then◌else◌, arith, Bool-cases, Option-cases, All, any,
}
use ferroly.Base.Bytes.{Bytes}
use ferroly.Turbo.Path.{Params, match_path}
use ferroly.Turbo.Dispatch.{
  Method, Method-discrete, Route, contains, add_methods, Found, is_visible, consider, consider_all,
}

abbrev is_some : {A : Type 0} → Option A → Bool
is_some none = false
is_some (some a) = true

contains-cons_eq : (k m : Method) (ms : List Method) → k ≡ m → contains (k ∷ ms) m ≡ true
unfolding contains
contains-cons_eq k m ms e = ground arith

contains-cons_ne : (k m : Method) (ms : List Method) → k ≢ m → contains (k ∷ ms) m ≡ contains ms m
unfolding contains
contains-cons_ne k m ms h = ground arith

or_true : (a b : Bool) → b ≡ true → (a || b) ≡ true
or_true true b h = refl
or_true false b h = h

or_false : (a : Bool) → (a || false) ≡ a
or_false true = refl
or_false false = refl

contains-append :
    (xs ys : List Method) (m : Method) → contains (xs ++ ys) m ≡ (contains xs m || contains ys m)
unfolding contains
contains-append [] ys m = refl
contains-append (x ∷ xs) ys m = ground (arith, contains-append xs ys m)

or_assoc : (a b c : Bool) → ((a || b) || c) ≡ (a || (b || c))
or_assoc true b c = refl
or_assoc false b c = refl

add_method :
    (allowed : List Method) (k m : Method) (ms : List Method)
    → (contains (if contains allowed k then allowed else allowed ++ (k ∷ [])) m || contains ms m)
      ≡ (contains allowed m || contains (k ∷ ms) m)
unfolding contains
add_method allowed k m ms = elim (Bool-cases (contains allowed k)) [
  | inl old ↦ rw old (elim (Method-discrete k m) [
    | yes e ↦ let there : contains allowed m ≡ true = rw e at old in rw there
    | no h ↦ rw (contains-cons_ne k m ms h)
  ])
  | inr new ↦
      rw
        (
          new,
          contains-append allowed (k ∷ []) m,
          or_assoc (contains allowed m) (contains (k ∷ []) m) (contains ms m),
        )
        (elim (Method-discrete k m) [
          | yes e ↦ rw (contains-cons_eq k m [] e, contains-cons_eq k m ms e)
          | no h ↦ rw (contains-cons_ne k m [] h, contains-cons_ne k m ms h, contains)
        ])
]

contains-add_methods :
    (allowed ms : List Method) (m : Method)
    → contains (add_methods allowed ms) m ≡ (contains allowed m || contains ms m)
unfolding add_methods
contains-add_methods allowed [] m = unfold contains in sym (or_false (contains allowed m))
contains-add_methods allowed (k ∷ ms) m =
    contains-add_methods (if contains allowed k then allowed else allowed ++ (k ∷ [])) ms m
    ∙ add_method allowed k m ms

module _ {H : Type 0} (strict : Bool) (method : Method) (path : Bytes) where
  -- The route is for this path.
  abbrev pub matches : Route H → Bool
  matches r = is_visible strict method path r && is_some (match_path r.segments path)

  -- The route serves the request.
  abbrev pub serves : Route H → Bool
  serves r = matches r && contains r.methods method

  consider_exists :
      (found : Found H) (r : Route H)
      → (consider strict method path found r).path_exists ≡ (found.path_exists || matches r)
  unfolding consider
  consider_exists found r = ground arith

  consider_allowed :
      (found : Found H) (r : Route H) (m : Method)
      → contains (consider strict method path found r).allowed m
        ≡ (contains found.allowed m || (matches r && contains r.methods m))
  unfolding consider
  consider_allowed found r m = elim (Bool-cases (is_visible strict method path r)) [
    | inr hidden ↦ rw hidden (sym (or_false (contains found.allowed m)))
    | inl seen ↦ elim (Option-cases (match_path r.segments path)) [
      | inl none_ ↦ rw (seen, none_) (sym (or_false (contains found.allowed m)))
      | inr (ps, e) ↦ rw (seen, e) (contains-add_methods found.allowed r.methods m)
    ]
  ]

  -- How the route answers the request, if it serves it.
  pub answer : Route H → Option (H × Params)
  answer r = elim (match_path r.segments path) [
    | none ↦ none
    | some ps ↦ if serves r then some (r.handler, ps) else none
  ]

  abbrev or_else : Option (H × Params) → Option (H × Params) → Option (H × Params)
  or_else none o = o
  or_else (some c) o = some c

  consider_chosen :
      (found : Found H) (r : Route H)
      → (consider strict method path found r).chosen ≡ or_else found.chosen (answer r)
  unfolding consider answer
  consider_chosen found r = ground arith

  abbrev first_answer : List (Route H) → Option (H × Params)
  first_answer [] = none
  first_answer (r ∷ rs) = or_else (answer r) (first_answer rs)

  or_else_assoc : (a b c : Option (H × Params)) → or_else (or_else a b) c ≡ or_else a (or_else b c)
  or_else_assoc none b c = refl
  or_else_assoc (some a) b c = refl

  pub consider_all_chosen :
      (found : Found H) (rs : List (Route H))
      → (consider_all strict method path found rs).chosen ≡ or_else found.chosen (first_answer rs)
  unfolding consider_all
  consider_all_chosen found [] = or_else_none found.chosen
    where
      or_else_none : (o : Option (H × Params)) → o ≡ or_else o none
      or_else_none none = refl
      or_else_none (some c) = refl
  consider_all_chosen found (r ∷ rs) =
      consider_all_chosen (consider strict method path found r) rs
      ∙ ap (λ o. or_else o (first_answer rs)) (consider_chosen found r)
      ∙ or_else_assoc found.chosen (answer r) (first_answer rs)

  pub consider_all_exists :
      (found : Found H) (rs : List (Route H))
      → (consider_all strict method path found rs).path_exists
        ≡ (found.path_exists || any matches rs)
  unfolding consider_all
  consider_all_exists found [] = sym (or_false found.path_exists)
  consider_all_exists found (r ∷ rs) =
      consider_all_exists (consider strict method path found r) rs
      ∙ ap (λ b. b || any matches rs) (consider_exists found r)
      ∙ or_assoc found.path_exists (matches r) (any matches rs)

  abbrev pub offers : Method → Route H → Bool
  offers m r = matches r && contains r.methods m

  pub consider_all_allowed :
      (found : Found H) (rs : List (Route H)) (m : Method)
      → contains (consider_all strict method path found rs).allowed m
        ≡ (contains found.allowed m || any (offers m) rs)
  unfolding consider_all
  consider_all_allowed found [] m = sym (or_false (contains found.allowed m))
  consider_all_allowed found (r ∷ rs) m =
      consider_all_allowed (consider strict method path found r) rs m
      ∙ ap (λ b. b || any (offers m) rs) (consider_allowed found r m)
      ∙ or_assoc (contains found.allowed m) (offers m r) (any (offers m) rs)

  -- The first route that serves the request, with no such route before it.
  abbrev pub IsFirst : List (Route H) → H → Params → Type 0
  IsFirst routes handler params =
      (pre : List (Route H)) × (r : Route H) × (post : List (Route H)) × (routes
        ≡ pre ++ (r ∷ post))
      × All (λ q. serves q ≡ false) pre
      × (serves r ≡ true)
      × (handler ≡ r.handler)
      × (match_path r.segments path ≡ some params)

  answer_sound :
      (r : Route H) (handler : H) (params : Params)
      → answer r ≡ some (handler, params)
      → (serves r ≡ true) × (handler ≡ r.handler) × (match_path r.segments path ≡ some params)
  unfolding answer
  answer_sound r handler params e = ground arith

  answer-none : (r : Route H) → answer r ≡ none → serves r ≡ false
  unfolding answer
  answer-none r e = ground arith

  pub first_answer-IsFirst :
      (rs : List (Route H)) (handler : H) (params : Params)
      → first_answer rs ≡ some (handler, params)
      → IsFirst rs handler params
  first_answer-IsFirst [] handler params e = cc
  first_answer-IsFirst (r ∷ rs) handler params e = elim (Option-cases (answer r)) [
    | inl missed ↦
        let (pre, q, post, same, before, serving, h, m) =
          first_answer-IsFirst rs handler params (rw missed at e) in
        (r ∷ pre, q, post, ap (λ l. r ∷ l) same, (answer-none r missed, before), serving, h, m)
    | inr (c, found) ↦
        let here : answer r ≡ some (handler, params) = found ∙ (rw found at e) in
        let (serving, h, m) = answer_sound r handler params here in
        ([], r, rs, refl, tt, serving, h, m)
  ]

  pub first_answer-none :
      (rs : List (Route H)) → first_answer rs ≡ none → All (λ r. serves r ≡ false) rs
  first_answer-none [] e = tt
  first_answer-none (r ∷ rs) e = elim (Option-cases (answer r)) [
    | inl missed ↦ (answer-none r missed, first_answer-none rs (rw missed at e))
    | inr (c, found) ↦ let clash : some c ≡ none = rw found at e in cc
  ]

abbrev pub fresh : {H : Type 0} → Found H
fresh = record { chosen = none; path_exists = false; allowed = [] }
