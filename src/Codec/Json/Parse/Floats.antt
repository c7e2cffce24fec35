-- ===== src/Codec/Json/Parse/Floats.antt =====
-- The floats of the JSON text, with the standard library's text of an `f64` as a parameter.
use mathlib.Core.List.{append_assoc, append-nil}
use ferroly.Base.{
  ℕ, ◌≡◌, refl, ap, sym, subst, ◌∙◌, Bool, true, false, ◌||◌, [], ◌∷◌, ◌++◌, some, ◌==◌, any, All,
  All-append, arith,
}
use ferroly.Base.Bytes.{Bytes, ascii}
use ferroly.Codec.Value.{float}
use ferroly.Codec.Fmt.{FloatText, is_float_mark}
use ferroly.Codec.Fmt.Laws.{IsDigit}
use ferroly.Codec.Json.Write.Render.{float_text}
use ferroly.Codec.Json.Read.{begins}
use ferroly.Codec.Json.Parse.{is_mark, number_of, as_float}
use ferroly.Codec.Json.Parse.Numbers.{
  IsNumberByte, Stands, has_mark-minus, has_mark-plain, IsDigit-IsNumberByte,
}

abbrev pub sign : Bool → Bytes
sign true = b'-' ∷ []
sign false = []

abbrev pub fraction : Bytes → Bytes
fraction [] = []
fraction (d ∷ ds) = b'.' ∷ d ∷ ds

-- What the standard library documents of a finite `f64`: `Display` writes a sign, digits and, for a
-- number that is not whole, a point and digits, never an exponent; `FromStr` reads the same number
-- back, also with `.0` behind a whole one.
pub record DisplaysBack {F : Type 0} (text : FloatText F) (f : F) : Type 0 where
  pub minus : Bool
  pub first : ℕ
  pub whole : Bytes
  pub frac : Bytes
  pub finite : text.is_finite f ≡ true
  pub displayed : text.display f ≡ sign minus ++ ((first ∷ whole) ++ fraction frac)
  pub whole_digits : All IsDigit (first ∷ whole)
  pub frac_digits : All IsDigit frac
  pub back : text.from_str (text.display f) ≡ some f
  pub back_pointed : frac ≡ [] → text.from_str (text.display f ++ ascii ".0") ≡ some f

or_true : (a : Bool) → (a || true) ≡ true
or_true true = refl
or_true false = refl

any-middle :
    (p : ℕ → Bool) (ws : Bytes) (x : ℕ) (ds : Bytes) → p x ≡ true → any p (ws ++ (x ∷ ds)) ≡ true
any-middle p [] x ds h = rw h refl
any-middle p (w ∷ ws) x ds h = rw (any-middle p ws x ds h) (or_true (p w))

unmarked : (ds : Bytes) → All IsDigit ds → any is_float_mark ds ≡ false
unmarked [] h = refl
unmarked (d ∷ ds) (here, h) = rw (unmarked ds h) (ground arith)

unmarked_whole :
    (minus : Bool) (ds : Bytes) → All IsDigit ds → any is_float_mark (sign minus ++ ds) ≡ false
unmarked_whole true ds h = unmarked ds h
unmarked_whole false ds h = unmarked ds h

pointed :
    (c : ℕ) (ws ds : Bytes)
    → All IsDigit (c ∷ ws)
    → All IsDigit ds
    → All IsNumberByte ((c ∷ ws) ++ (b'.' ∷ ds))
pointed c ws ds hw hd =
    All-append IsNumberByte (c ∷ ws) (b'.' ∷ ds) (IsDigit-IsNumberByte (c ∷ ws) hw)
      (refl, IsDigit-IsNumberByte ds hd)

module _ {F : Type 0} (text : FloatText F) where
  Stands-point :
      (minus : Bool) (c : ℕ) (ws ds : Bytes) (f : F)
      → All IsDigit (c ∷ ws)
      → All IsDigit ds
      → text.from_str (sign minus ++ ((c ∷ ws) ++ (b'.' ∷ ds))) ≡ some f
      → Stands text (sign minus ++ ((c ∷ ws) ++ (b'.' ∷ ds))) (float f)
  unfolding Stands begins number_of as_float
  Stands-point true c ws ds f hw hd back =
      let t : Bytes = (c ∷ ws) ++ (b'.' ∷ ds) in
      (
        b'-',
        t,
        refl,
        refl,
        (refl, pointed c ws ds hw hd),
        ap (number_of text (b'-' ∷ t))
              (has_mark-minus (b'-' ∷ t) refl ∙ any-middle is_mark (c ∷ ws) b'.' ds refl)
            ∙ ap (as_float text (b'-' ∷ t)) back,
      )
  Stands-point false c ws ds f hw hd back =
      let t : Bytes = (c ∷ ws) ++ (b'.' ∷ ds) in
      let digit : IsDigit c = hw.0 in
      let other : (c == b'-') ≡ false = ground arith in
      (
        c,
        ws ++ (b'.' ∷ ds),
        refl,
        ground arith,
        pointed c ws ds hw hd,
        ap (number_of text t) (has_mark-plain t other ∙ any-middle is_mark (c ∷ ws) b'.' ds refl)
            ∙ ap (as_float text t) back,
      )

  module _ (f : F) (finite : text.is_finite f ≡ true) where
    float_text-marked :
        any is_float_mark (text.display f) ≡ true → float_text text f ≡ text.display f
    unfolding float_text
    float_text-marked h = rw (finite, h) refl

    float_text-unmarked :
        any is_float_mark (text.display f) ≡ false
        → float_text text f ≡ text.display f ++ ascii ".0"
    unfolding float_text
    float_text-unmarked h = rw (finite, h) refl

  module _ (f : F) (minus : Bool) (c : ℕ) (ws : Bytes) where
    float_text-frac :
        (frac : Bytes)
        → text.is_finite f ≡ true
        → text.display f ≡ sign minus ++ ((c ∷ ws) ++ fraction frac)
        → All IsDigit (c ∷ ws)
        → All IsDigit frac
        → text.from_str (text.display f) ≡ some f
        → (frac ≡ [] → text.from_str (text.display f ++ ascii ".0") ≡ some f)
        → Stands text (float_text text f) (float f)
    float_text-frac [] finite shown hw hf back pointed_back =
        let whole : text.display f ≡ sign minus ++ (c ∷ ws) =
          shown ∙ ap (λ l. sign minus ++ l) (append-nil (c ∷ ws)) in
        let same : text.display f ++ ascii ".0" ≡ sign minus ++ ((c ∷ ws) ++ (b'.' ∷ b'0' ∷ [])) =
          ap (λ l. l ++ ascii ".0") whole ∙ append_assoc (sign minus) (c ∷ ws) (ascii ".0") in
        let none_marked = ap (any is_float_mark) whole ∙ unmarked_whole minus (c ∷ ws) hw in
        subst (λ t. Stands text t (float f)) (sym (float_text-unmarked f finite none_marked ∙ same))
          (Stands-point minus c ws (b'0' ∷ []) f hw (omega arith, tt)
            (ap text.from_str (sym same) ∙ pointed_back refl))
    float_text-frac (d ∷ ds) finite shown hw hf back pointed_back =
        let marked =
          ap (any is_float_mark) (shown ∙ sym (append_assoc (sign minus) (c ∷ ws) (b'.' ∷ d ∷ ds)))
          ∙ any-middle is_float_mark (sign minus ++ (c ∷ ws)) b'.' (d ∷ ds) refl in
        subst (λ t. Stands text t (float f)) (sym (float_text-marked f finite marked ∙ shown))
          (Stands-point minus c ws (d ∷ ds) f hw hf (ap text.from_str (sym shown) ∙ back))

  pub float_text-Stands : (f : F) → DisplaysBack text f → Stands text (float_text text f) (float f)
  float_text-Stands f h =
      float_text-frac f h.minus h.first h.whole h.frac h.finite h.displayed h.whole_digits
        h.frac_digits h.back h.back_pointed
