-- ===== src/Codec/Fmt/Laws.antt =====
-- Printed numbers, as they are read again.
use native.Mathlib.Nat.{pow-suc}
use mathlib.Core.List.{append_assoc}
use ferroly.Base.{
  ℕ, zero, suc, ◌+◌, ◌*◌, ◌-◌, ◌/◌, ◌%◌, ◌^◌, ◌<◌, ◌≤◌, ◌≡◌, inl, inr, refl, ap, ◌∙◌, true, [], ◌∷◌,
  ◌++◌, ◌==◌, arith, All, Bool-cases,
}
use ferroly.Base.Bytes.{Bytes}
use ferroly.Codec.Value.{ℤ, pos, negsuc}
use ferroly.Codec.Fmt.{digits, write_u64, write_i64}

abbrev pub IsDigit : ℕ → Type 0
IsDigit c = (b'0' ≤ c) × (c ≤ b'9')

-- The digits of a number, as `write_u64` appends them.
unfoldable pub decimal : ℕ → Bytes
unfolding digits
decimal u = digits 20 u []

pub write_u64-decimal : (out : Bytes) (u : ℕ) → write_u64 out u ≡ out ++ decimal u
unfolding write_u64 decimal
write_u64-decimal out u = refl

digits-IsDigit : (room n : ℕ) (buf : Bytes) → All IsDigit buf → All IsDigit (digits room n buf)
unfolding digits
digits-IsDigit zero n buf h = h
digits-IsDigit (suc room) n buf h = elim (Bool-cases (n / 10 == 0)) [
  | inl done ↦ rw done (omega arith, h)
  | inr more ↦ rw more (digits-IsDigit room (n / 10) ((b'0' + n % 10) ∷ buf) (omega arith, h))
]

pub decimal-IsDigit : (u : ℕ) → All IsDigit (decimal u)
unfolding decimal
decimal-IsDigit u = digits-IsDigit 20 u [] tt

digits-cons :
    (room n c : ℕ) (buf : Bytes) → (d : ℕ) × (ds : Bytes) × (digits room n (c ∷ buf) ≡ d ∷ ds)
unfolding digits
digits-cons zero n c buf = (c, buf, refl)
digits-cons (suc room) n c buf = elim (Bool-cases (n / 10 == 0)) [
  | inl done ↦ (b'0' + n % 10, c ∷ buf, rw done)
  | inr more ↦
      let (d, ds, e) = digits-cons room (n / 10) (b'0' + n % 10) (c ∷ buf) in (d, ds, rw more e)
]

-- There is a first digit.
pub decimal-cons : (u : ℕ) → (d : ℕ) × (ds : Bytes) × (decimal u ≡ d ∷ ds) × IsDigit d
unfolding decimal digits
decimal-cons u =
    let (d, ds, e) = cons_of u in
    let h : All IsDigit (decimal u) = decimal-IsDigit u in
    let h' : All IsDigit (d ∷ ds) = rw e at h in (d, ds, e, h'.0)
  where
    cons_of : (u : ℕ) → (d : ℕ) × (ds : Bytes) × (decimal u ≡ d ∷ ds)
    cons_of u = elim (Bool-cases (u / 10 == 0)) [
      | inl done ↦ (b'0' + u % 10, [], rw done)
      | inr more ↦ let (d, ds, e) = digits-cons 19 (u / 10) (b'0' + u % 10) [] in (d, ds, rw more e)
    ]

-- Reading decimal digits from the left: the accumulated number.
abbrev pub read_digits : ℕ → Bytes → ℕ
read_digits n [] = n
read_digits n (c ∷ cs) = read_digits (n * 10 + (c - b'0')) cs

read_digits-digits :
    (room n : ℕ) (buf : Bytes)
    → n < 10 ^ suc room
    → read_digits 0 (digits (suc room) n buf) ≡ read_digits n buf
unfolding digits
read_digits-digits zero n buf h =
    let done : (n / 10 == 0) ≡ true = ground arith in
    rw done (ap (λ k. read_digits k buf) (omega arith))
read_digits-digits (suc room) n buf h = elim (Bool-cases (n / 10 == 0)) [
  | inl done ↦ rw done (ap (λ k. read_digits k buf) (ground arith))
  | inr more ↦
      let ih =
        read_digits-digits room (n / 10) ((b'0' + n % 10) ∷ buf)
          (omega (arith, pow-suc 10 (suc room))) in
      rw more (ih ∙ ap (λ k. read_digits k buf) (omega arith))
]

pub read_digits-decimal : (u : ℕ) → u < 10 ^ 20 → read_digits 0 (decimal u) ≡ u
unfolding decimal
read_digits-decimal u h = read_digits-digits 19 u [] h

abbrev pub int_text : ℤ → Bytes
int_text (pos n) = decimal n
int_text (negsuc n) = b'-' ∷ decimal (suc n)

pub write_i64_lem : (out : Bytes) (i : ℤ) → write_i64 out i ≡ out ++ int_text i
unfolding write_i64
write_i64_lem out (pos n) = write_u64-decimal out n
write_i64_lem out (negsuc n) =
    write_u64-decimal (out ++ (b'-' ∷ [])) (suc n) ∙ append_assoc out (b'-' ∷ []) (decimal (suc n))
