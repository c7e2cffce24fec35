-- ===== src/Codec/Json/Total.antt =====
-- The parser on every input: its fuel is enough, and how deep its values nest.
mod Atoms
mod Steps
use ferroly.Base.{
  ℕ, zero, suc, ◌+◌, ◌*◌, ◌≤◌, ◌≡◌, ◌≢◌, refl, ap, sym, ◌∙◌, subst, Bool, true, false, List, [],
  ◌∷◌, if◌then◌else◌, length, arith, max,
}
use ferroly.Base.Bytes.{Bytes}
use ferroly.Codec.Value.{Value, Items, Fields, str, no_items, item, no_fields, field}
use ferroly.Codec.Fmt.{FloatText}
use ferroly.Codec.Json.Read.{
  Parser, Read, ok, err, spent, M, ◌>>=◌, ◌>>◌, pure, leave, enter, skip_ws, expect, parse_string,
  array_separator, object_separator, trailing_characters,
}
use ferroly.Codec.Json.Read.Post.{
  Post, Post-map, Post-bind, Reads, if_Post, skip_ws-Reads, expect-Reads, parse_string-Reads,
}
use ferroly.Codec.Json.Height.{height, height_items, height_fields}
use ferroly.Codec.Json.Parse.{
  start, separator, parse_number, parse_bool, parse_null, parse_array, parse_object, parse_value,
  parse_fields, parse_items, fuel_for, at_end, from_str,
}
use ferroly.Codec.Json.Total.Atoms.{
  Within, parse_number-Within, parse_bool-Within, parse_null-Within, string_value-Within,
}
use ferroly.Codec.Json.Total.Steps.{
  Runs, parse_array-Within, parse_object-Within, nested-Within, rest-Within, separator-Reads,
  start_Post,
}

module _ {F : Type 0} (text : FloatText F) where
  mutual
    unfolding parse_value height Runs

    parse_value-Within :
        (fuel : ℕ) (p : Parser)
        → 2 * length p.rest + 1 ≤ fuel
        → p.depth ≤ 128
        → Post (Within (height {F = F}) 128 p) (parse_value text fuel p)
    parse_value-Within zero p enough deep = absurd (omega arith)
    parse_value-Within (suc fuel) p enough deep =
        let Q = Within (height {F = F}) 128 p in
        Post-bind (Reads 0 p) Q skip_ws _ p (skip_ws-Reads p) (λ _ q r.
          let level : q.depth ≤ 128 = omega (arith, r.1) in
          Post-map (Within height 128 q) Q _
            (λ v s w. ((omega (arith, r.0, w.0.0), w.0.1 ∙ r.1), omega (arith, w.1, r.1)))
            (start_Post text (Within height 128 q) (start text q.rest) _ _ _ _ _ _
              (nested-Within text q (parse_object text (parse_fields text fuel)) (λ s short up low.
                parse_object-Within text s low (parse_fields text fuel) (λ t shorter same.
                  parse_fields-Within fuel t (omega (arith, r.0)) (omega arith))))
              (nested-Within text q (parse_array text (parse_items text fuel)) (λ s short up low.
                parse_array-Within text s low (parse_items text fuel)
                  (λ t shorter same. parse_items-Within fuel t (omega (arith, r.0)) (omega arith))))
              (string_value-Within text q level) (parse_bool-Within text q level)
              (parse_null-Within text q level) (parse_number-Within text q level)))

    parse_items-Within :
        (fuel : ℕ) (p : Parser)
        → 2 * length p.rest + 2 ≤ fuel
        → p.depth ≤ 128
        → Post (Within (height_items {F = F}) 128 p) (parse_items text fuel p)
    parse_items-Within zero p enough deep = absurd (omega arith)
    parse_items-Within (suc fuel) p enough deep =
        let Q = Within (height_items {F = F}) 128 p in
        Post-bind (Within height 128 p) Q (parse_value text fuel) _ p
          (parse_value-Within fuel p (omega arith) deep)
          (λ v q r.
            Post-map (Within height_items 128 q) Q _
              (λ a s w. ((omega (arith, r.0.0, w.0.0), w.0.1 ∙ r.0.1), omega (arith, w.1, r.0.1)))
              (rest-Within text height_items b']' array_separator (height v) (parse_items text fuel)
                (item v) (item v no_items) q
                (λ s short same.
                  parse_items-Within fuel s (omega (arith, r.0.0)) (omega (arith, r.0.1)))
                (λ a. omega arith) (omega arith) (omega (arith, r.1, r.0.1))))

    parse_fields-Within :
        (fuel : ℕ) (p : Parser)
        → 2 * length p.rest + 2 ≤ fuel
        → p.depth ≤ 128
        → Post (Within (height_fields {F = F}) 128 p) (parse_fields text fuel p)
    parse_fields-Within zero p enough deep = absurd (omega arith)
    parse_fields-Within (suc fuel) p enough deep =
        let Q = Within (height_fields {F = F}) 128 p in
        let behind : Bytes → Value F → M (Fields F) = λ k v.
          skip_ws
          >> (separator text b'}' object_separator >>= λ more.
              if more
              then (parse_fields text fuel >>= λ o. pure (field k v o))
              else pure (field k v no_fields)) in
        let on_value : Bytes → M (Fields F) = λ k. parse_value text fuel >>= behind k in
        let on_colon : Bytes → M (Fields F) = λ k. expect b':' >> on_value k in
        let on_key : Bytes → M (Fields F) = λ k. skip_ws >> on_colon k in
        Post-bind (Reads 0 p) Q skip_ws (λ _. parse_string >>= on_key) p (skip_ws-Reads p)
          (λ _ p1 r1.
            Post-bind (Reads 1 p1) Q parse_string on_key p1 (parse_string-Reads p1) (λ k p2 r2.
              Post-bind (Reads 0 p2) Q skip_ws (λ _. on_colon k) p2 (skip_ws-Reads p2)
                (λ _ p3 r3.
                  Post-bind (Reads 1 p3) Q (expect b':') (λ _. on_value k) p3
                    (expect-Reads b':' p3.rest p3.depth)
                    (λ _ p4 r4.
                      let short : length p4.rest + 2 ≤ length p.rest =
                        omega (arith, r1.0, r2.0, r3.0, r4.0) in
                      let same : p4.depth ≡ p.depth = r4.1 ∙ r3.1 ∙ r2.1 ∙ r1.1 in
                      Post-bind (Within height 128 p4) Q (parse_value text fuel) (behind k) p4
                        (parse_value-Within fuel p4 (omega arith) (omega arith))
                        (λ v q r.
                          Post-map (Within height_fields 128 q) Q _
                            (λ o s w. (
                              (omega (arith, r.0.0, w.0.0), w.0.1 ∙ r.0.1 ∙ same),
                              omega (arith, w.1, r.0.1),
                            ))
                            (rest-Within text height_fields b'}' object_separator (height v)
                              (parse_fields text fuel) (field k v) (field k v no_fields) q
                              (λ s shorter level.
                                parse_fields-Within fuel s (omega (arith, r.0.0))
                                  (omega (arith, r.0.1)))
                              (λ o. omega arith) (omega arith) (omega (arith, r.1, r.0.1))))))))

  ended_Post :
      (P : Value F → Parser → Type 0) (v : Value F) (q : Parser)
      → P v q
      → (bs : Bytes) → q.rest ≡ bs
      → Post
          (λ w s. P w s × (s.rest ≡ []))
          (elim bs [ [] ↦ ok v q | b ∷ more ↦ err trailing_characters ])
  ended_Post P v q h [] e = (h, e)
  ended_Post P v q h (b ∷ bs) e = tt

  at_end-Post :
      (P : Value F → Parser → Type 0) (r : Read (Value F))
      → Post P r
      → Post (λ v q. P v q × (q.rest ≡ [])) (at_end text r)
  at_end-Post P (ok v q) h = ended_Post P v q h q.rest refl
  at_end-Post P (err e) h = tt
  at_end-Post P spent h = h

  abbrev Whole : Value F → Parser → Type 0
  Whole v q = (height v ≤ 128) × (q.rest ≡ [])

  from_str_Post : (input : Bytes) → Post Whole (from_str text input)
  unfolding from_str
  from_str_Post input =
      let p : Parser = record { rest = input; depth = 0 } in
      let fuel = fuel_for text input in
      let P : Value F → Parser → Type 0 = λ v q. height v ≤ 128 in
      at_end-Post P ((skip_ws >> (parse_value text fuel >>= λ v. skip_ws >> pure v)) p) (
        Post-bind (Reads 0 p) P skip_ws (λ _. parse_value text fuel >>= λ v. skip_ws >> pure v) p
          (skip_ws-Reads p)
          (λ _ q r.
            Post-bind (Within height 128 q) P (parse_value text fuel) (λ v. skip_ws >> pure v) q
              (parse_value-Within fuel q (omega (arith, r.0)) (omega (arith, r.1)))
              (λ v s w.
                Post-bind (Reads 0 s) P skip_ws (λ _. pure v) s (skip_ws-Reads s)
                  (λ _ t u. omega (arith, w.1)))))

  -- The parser comes to an end on every input: two units of fuel for each byte, and two more, are never
  -- used up.
  pub from_str-fuel_for : (input : Bytes) → from_str text input ≢ spent
  from_str-fuel_for input e = subst (Post Whole) e (from_str_Post input)

  -- When `from_str` gives a value, the value nests at most 128 containers deep and no input is left.
  pub height-from_str :
      (input : Bytes) (v : Value F) (q : Parser)
      → from_str text input ≡ ok v q
      → (height v ≤ 128) × (q.rest ≡ [])
  height-from_str input v q e = subst (Post Whole) e (from_str_Post input)
