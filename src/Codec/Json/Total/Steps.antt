-- ===== src/Codec/Json/Total/Steps.antt =====
-- The steps of the parser of containers on every input: the input that is left, and the depth.
use ferroly.Base.{
  ℕ, ◌+◌, ◌≤◌, ◌≡◌, inl, inr, refl, ◌∙◌, Bool, [], ◌∷◌, ◌==◌, if◌then◌else◌, Bool-cases, length,
  arith, ltb, max,
}
use ferroly.Base.Bytes.{Bytes}
use ferroly.Codec.Value.{Value, Items, Fields, array, object, no_items, no_fields}
use ferroly.Codec.Fmt.{FloatText}
use ferroly.Codec.Json.Read.{
  Parser, Read, err, Error, M, ◌>>=◌, ◌>>◌, pure, enter, leave, skip_ws, begins, expect, skip_if,
  unexpected_character, unexpected_end,
}
use ferroly.Codec.Json.Read.Post.{
  Post, Post-bind, Reads, if_Read, if_Post, skip_ws-Reads, expect-Reads, skip_if-Reads,
}
use ferroly.Codec.Json.Height.{height, height_items, height_fields}
use ferroly.Codec.Json.Parse.{
  parse_object, parse_array, separator, Start, starts_object, starts_array, starts_string,
  starts_bool, starts_null, starts_number, starts_other, starts_nothing,
}
use ferroly.Codec.Json.Total.Atoms.{Within}

-- A loop over the entries behind a byte that is read, as the containers run it.
unfoldable pub Runs : {A : Type 0} → Parser → (A → ℕ) → M A → Type 0
Runs p h loop =
    (q : Parser)
    → length q.rest + 1 ≤ length p.rest
    → q.depth ≡ p.depth
    → Post (Within h 128 q) (loop q)

module _ {F : Type 0} (text : FloatText F) where
  module _ (p : Parser) (deep : p.depth ≤ 128) where
    pub parse_array-Within :
        (loop : M (Items F))
        → Runs p height_items loop
        → Post (Within height 129 p) (parse_array text loop p)
    unfolding parse_array Runs height
    parse_array-Within loop runs =
        let Q = Within (height {F = F}) 129 p in
        let entries : M (Value F) = loop >>= λ x. pure (array x) in
        let closed_or : Bool → M (Value F) =
          λ closed. if closed then pure (array no_items) else entries in
        let in_front : M (Value F) = skip_ws >> (skip_if b']' >>= closed_or) in
        Post-bind (Reads 1 p) Q (expect b'[') (λ _. in_front) p (expect-Reads b'[' p.rest p.depth)
          (λ _ q r.
            Post-bind (Reads 0 q) Q skip_ws (λ _. skip_if b']' >>= closed_or) q (skip_ws-Reads q)
              (λ _ q1 r1.
                Post-bind (Reads 0 q1) Q (skip_if b']') closed_or q1
                  (skip_if-Reads b']' q1.rest q1.depth)
                  (λ closed q2 r2.
                    if_Post Q closed (pure (array no_items)) entries q2
                      ((omega (arith, r.0, r1.0, r2.0), r2.1 ∙ r1.1 ∙ r.1), omega arith)
                      (Post-bind (Within height_items 128 q2) Q loop (λ x. pure (array x)) q2
                        (runs q2 (omega (arith, r.0, r1.0, r2.0)) (r2.1 ∙ r1.1 ∙ r.1))
                        (λ x q3 r3. (
                          (omega (arith, r.0, r1.0, r2.0, r3.0.0), r3.0.1 ∙ r2.1 ∙ r1.1 ∙ r.1),
                          omega (arith, r3.1, r2.1, r1.1, r.1),
                        ))))))

    pub parse_object-Within :
        (loop : M (Fields F))
        → Runs p height_fields loop
        → Post (Within height 129 p) (parse_object text loop p)
    unfolding parse_object Runs height
    parse_object-Within loop runs =
        let Q = Within (height {F = F}) 129 p in
        let entries : M (Value F) = loop >>= λ x. pure (object x) in
        let closed_or : Bool → M (Value F) =
          λ closed. if closed then pure (object no_fields) else entries in
        let in_front : M (Value F) = skip_ws >> (skip_if b'}' >>= closed_or) in
        Post-bind (Reads 1 p) Q (expect b'{') (λ _. in_front) p (expect-Reads b'{' p.rest p.depth)
          (λ _ q r.
            Post-bind (Reads 0 q) Q skip_ws (λ _. skip_if b'}' >>= closed_or) q (skip_ws-Reads q)
              (λ _ q1 r1.
                Post-bind (Reads 0 q1) Q (skip_if b'}') closed_or q1
                  (skip_if-Reads b'}' q1.rest q1.depth)
                  (λ closed q2 r2.
                    if_Post Q closed (pure (object no_fields)) entries q2
                      ((omega (arith, r.0, r1.0, r2.0), r2.1 ∙ r1.1 ∙ r.1), omega arith)
                      (Post-bind (Within height_fields 128 q2) Q loop (λ x. pure (object x)) q2
                        (runs q2 (omega (arith, r.0, r1.0, r2.0)) (r2.1 ∙ r1.1 ∙ r.1))
                        (λ x q3 r3. (
                          (omega (arith, r.0, r1.0, r2.0, r3.0.0), r3.0.1 ∙ r2.1 ∙ r1.1 ∙ r.1),
                          omega (arith, r3.1, r2.1, r1.1, r.1),
                        ))))))

  abbrev Entered : Parser → Unit {0} → Parser → Type 0
  Entered p _ q = (length q.rest ≤ length p.rest) × (q.depth ≡ p.depth + 1) × (q.depth ≤ 128)

  enter_lem : (p : Parser) → Post (Entered p) (enter p)
  unfolding enter
  enter_lem p = elim (Bool-cases (ltb 128 (p.depth + 1))) [
    | inl deeper ↦ rw (enter, deeper) tt
    | inr room ↦ rw (enter, room) (omega arith, refl, ground arith)
  ]

  -- `enter` and `leave` around the parser of a container.
  pub nested-Within :
      (p : Parser) (m : M (Value F))
      → ((q : Parser)
          → length q.rest ≤ length p.rest
          → q.depth ≡ p.depth + 1
          → q.depth ≤ 128
          → Post (Within height 129 q) (m q))
      → Post (Within height 128 p) ((enter >> (m >>= λ v. leave >> pure v)) p)
  unfolding leave
  nested-Within p m h =
      let Q = Within (height {F = F}) 128 p in
      Post-bind (Entered p) Q enter (λ _. m >>= λ v. leave >> pure v) p (enter_lem p)
        (λ _ q r.
          Post-bind (Within height 129 q) Q m (λ v. leave >> pure v) q (h q r.0 r.1 r.2)
            (λ v s w.
              ((omega (arith, r.0, w.0.0), omega (arith, r.1, w.0.1)), omega (arith, w.1, r.1))))

  pub separator-Reads :
      (close : ℕ) (e : Error) (bs : Bytes) (d : ℕ)
      → Post
          (Reads 1 (record { rest = bs; depth = d }))
          (separator text close e (record { rest = bs; depth = d }))
  unfolding separator begins
  separator-Reads close e [] d = tt
  separator-Reads close e (b ∷ bs) d =
      if_Read (Reads 1 (record { rest = b ∷ bs; depth = d })) (b == b',') _ _ (omega arith, refl)
        (if_Read (Reads 1 (record { rest = b ∷ bs; depth = d })) (b == close) _ _
          (omega arith, refl) tt)

  -- What stands behind an entry: its separator, and the entries behind that one.
  pub rest-Within :
      {A : Type 0} (h : A → ℕ) (close : ℕ) (e : Error) (n : ℕ) (loop : M A) (add : A → A) (last : A)
      (p : Parser)
      → Runs p h loop
      → ((a : A) → h (add a) ≤ max n (h a))
      → h last ≤ n
      → n + p.depth ≤ 128
      → Post (Within h 128 p) (
          (skip_ws
              >> (separator text close e >>= λ more.
                  if more then (loop >>= λ a. pure (add a)) else pure last))
            p)
  unfolding Runs
  rest-Within {A = A} h close e n loop add last p runs grows ends fits =
      let Q = Within h 128 p in
      let more_of : M A = loop >>= λ a. pure (add a) in
      let behind : Bool → M A = λ more. if more then more_of else pure last in
      Post-bind (Reads 0 p) Q skip_ws (λ _. separator text close e >>= behind) p (skip_ws-Reads p)
        (λ _ q r.
          Post-bind (Reads 1 q) Q (separator text close e) behind q
            (separator-Reads close e q.rest q.depth)
            (λ more s t.
              if_Post Q more more_of (pure last) s
                (Post-bind (Within h 128 s) Q loop (λ a. pure (add a)) s
                  (runs s (omega (arith, r.0, t.0)) (t.1 ∙ r.1))
                  (λ a u w. (
                    (omega (arith, r.0, t.0, w.0.0), w.0.1 ∙ t.1 ∙ r.1),
                    omega (arith, grows a, w.1, t.1, r.1),
                  )))
                ((omega (arith, r.0, t.0), t.1 ∙ r.1), omega (arith, ends))))

  pub start_Post :
      (P : Value F → Parser → Type 0) (s : Start text) (o a t b n m : Read (Value F))
      → Post P o
      → Post P a
      → Post P t
      → Post P b
      → Post P n
      → Post P m
      → Post P (elim s [
        | starts_object ↦ o
        | starts_array ↦ a
        | starts_string ↦ t
        | starts_bool ↦ b
        | starts_null ↦ n
        | starts_number ↦ m
        | starts_other c ↦ err (unexpected_character c)
        | starts_nothing ↦ err unexpected_end
      ])
  start_Post P starts_object o a t b n m ho ha ht hb hn hm = ho
  start_Post P starts_array o a t b n m ho ha ht hb hn hm = ha
  start_Post P starts_string o a t b n m ho ha ht hb hn hm = ht
  start_Post P starts_bool o a t b n m ho ha ht hb hn hm = hb
  start_Post P starts_null o a t b n m ho ha ht hb hn hm = hn
  start_Post P starts_number o a t b n m ho ha ht hb hn hm = hm
  start_Post P (starts_other c) o a t b n m ho ha ht hb hn hm = tt
  start_Post P starts_nothing o a t b n m ho ha ht hb hn hm = tt
