-- ===== src/Ws/Conn/RoundTrip.antt =====
-- `read_frame` on what `encode` writes.
use mathlib.Core.List.{append_assoc}
use ferroly.Base.{
  ℕ, ◌-◌, ◌^◌, ◌≤◌, ◌<◌, ◌≡◌, inl, inr, refl, ap, sym, ◌∙◌, subst, Bool, true, false, [], ◌∷◌, ◌++◌,
  Option, none, some, ltb, leb, ◌==◌, if◌then◌else◌, length, drop, take-append, drop-append,
  length-append, arith, All, get_or, Bool-cases,
}
use ferroly.Base.Bytes.{Bytes}
use ferroly.Ws.Frame.{Opcode, Frame, Header, parse_header, to_be, from_be, apply_mask, encode}
use ferroly.Ws.Frame.Bits.{
  IsByte, apply_mask_twice, length-apply_mask, first, second, parse_header-first, from_be-to_be,
  length-to_be, marker, extended, marker_small, is_masked, body, encode_lem,
}
use ferroly.Ws.Reader.{Reader, stream}
use ferroly.Ws.Reader.Laws.{read_exact-Delivers}
use ferroly.Ws.Conn.{
  length_exceeds_maximum, ok, M, ◌>>=◌, pure, fail, read, header, short_len, long_len, payload_len,
  check_len, mask_key, unmask, read_frame,
}

-- On a stream that begins with the bytes consumed, the step returns `a` and leaves the rest.
abbrev pub Returns : {A : Type 0} → M A → Bytes → Bytes → A → Type 0
Returns m input rest a =
    (r : Reader) → stream r ≡ input → (r' : Reader) × (m r ≡ ok a r') × (stream r' ≡ rest)

bind-Returns :
    {A B : Type 0} (m : M A) (f : A → M B) (a : A) (b : B) (input middle rest : Bytes)
    → Returns m input middle a
    → Returns (f a) middle rest b
    → Returns (m >>= f) input rest b
bind-Returns m f a b input middle rest h k r e =
    let (r', p, left) = h r e in rw (p, ◌>>=◌) (k r' left)

pure-Returns : {A : Type 0} (a : A) (input : Bytes) → Returns (pure a) input input a
unfolding pure
pure-Returns a input r e = (r, refl, e)

-- `read` takes a prefix of its length.
read-Returns : (n : ℕ) (xs rest : Bytes) → n ≡ length xs → Returns (read n) (xs ++ rest) rest xs
unfolding read
read-Returns n xs rest size r e = elim (read_exact-Delivers n r) [
  | inl (short, _) ↦ absurd (omega (arith, length-append xs rest, ap (length {0}) e))
  | inr (_, (r', got, left)) ↦ (
    r',
    rw (got, e, read) (ap (λ l. ok l r') (take-append n xs rest size)),
    left ∙ ap (drop n) e ∙ drop-append n xs rest size,
  )
]

header-Returns :
    (b0 b1 : ℕ) (h : Header) (input : Bytes)
    → parse_header b0 b1 ≡ some h
    → Returns (header (b0 ∷ b1 ∷ [])) input input h
unfolding header
header-Returns b0 b1 h input e r s = (r, rw (e, header), s)

short_len-Returns :
    (len : ℕ) (rest : Bytes) → len ≤ 65535 → Returns short_len (to_be 2 len ++ rest) rest len
unfolding short_len
short_len-Returns len rest h =
    bind-Returns (read 2) _ (to_be 2 len) len (to_be 2 len ++ rest) rest rest
      (read-Returns 2 (to_be 2 len) rest (sym (length-to_be 2 len)))
      (subst (λ n. Returns (pure n) rest rest len) (sym (from_be-to_be 2 len (omega arith)))
        (pure-Returns len rest))

accept_long :
    (b : Bytes) (len : ℕ) (rest : Bytes)
    → from_be b ≡ len
    → len < 2 ^ 63
    → Returns
        (if ltb (2 ^ 63 - 1) (from_be b) then fail length_exceeds_maximum else pure (from_be b))
        rest
        rest
        len
accept_long b len rest e h =
    let fits : ltb (2 ^ 63 - 1) (from_be b) ≡ false = ground arith in
    rw (fits, e) (pure-Returns len rest)

long_len-Returns :
    (len : ℕ) (rest : Bytes) → len < 2 ^ 63 → Returns long_len (to_be 8 len ++ rest) rest len
unfolding long_len
long_len-Returns len rest h =
    bind-Returns (read 8) _ (to_be 8 len) len (to_be 8 len ++ rest) rest rest
      (read-Returns 8 (to_be 8 len) rest (sym (length-to_be 8 len)))
      (accept_long (to_be 8 len) len rest (from_be-to_be 8 len (omega arith)) h)

payload_len-Returns :
    (len : ℕ) (rest : Bytes)
    → len < 2 ^ 63
    → Returns (payload_len (marker len)) (extended len ++ rest) rest len
unfolding payload_len
payload_len-Returns len rest h = elim (Bool-cases (ltb len 126)) [
  | inl small ↦
      let a : (len == 126) ≡ false = ground arith in
      let b : (len == 127) ≡ false = ground arith in rw (small, a, b) (pure-Returns len rest)
  | inr large ↦ elim (Bool-cases (leb len 65535)) [
    | inl two ↦ rw (large, two) (short_len-Returns len rest (ground arith))
    | inr eight ↦ rw (large, eight) (long_len-Returns len rest h)
  ]
]

-- The payload as it is sent, behind the key.
abbrev scrambled : Option Bytes → Bytes → Bytes
scrambled none payload = payload
scrambled (some key) payload = apply_mask key payload

-- A masking key has four bytes.
abbrev pub IsKey : Option Bytes → Type 0
IsKey none = Unit
IsKey (some key) = (length key ≡ 4) × ((j : ℕ) → IsByte (get_or key j 0))

mask_key-Returns :
    (key : Option Bytes) (payload rest : Bytes)
    → IsKey key
    → Returns
        (mask_key (is_masked key))
        (body key payload ++ rest)
        (scrambled key payload ++ rest)
        key
unfolding mask_key
mask_key-Returns none payload rest k = pure-Returns none (payload ++ rest)
mask_key-Returns (some key) payload rest (size, _) =
    subst (λ l. Returns (mask_key true) l (apply_mask key payload ++ rest) (some key))
      (sym (append_assoc key (apply_mask key payload) rest))
      (bind-Returns (read 4) _ key (some key) (key ++ (apply_mask key payload ++ rest)) _ _
        (read-Returns 4 key (apply_mask key payload ++ rest) (sym size))
        (pure-Returns (some key) (apply_mask key payload ++ rest)))

length-scrambled :
    (key : Option Bytes) (payload : Bytes) → length (scrambled key payload) ≡ length payload
length-scrambled none payload = refl
length-scrambled (some key) payload = length-apply_mask key payload

unmask-scrambled :
    (key : Option Bytes) (payload : Bytes)
    → IsKey key
    → All IsByte payload
    → unmask key (scrambled key payload) ≡ payload
unfolding unmask
unmask-scrambled none payload k h = refl
unmask-scrambled (some key) payload (_, k) h = apply_mask_twice key payload k h

abbrev pub FitsIn : Option ℕ → ℕ → Type 0
FitsIn none len = Unit
FitsIn (some most) len = len ≤ most

check_len-Returns :
    (max : Option ℕ) (len : ℕ) (input : Bytes)
    → FitsIn max len
    → Returns (check_len max len) input input tt
unfolding check_len
check_len-Returns none len input h = pure-Returns tt input
check_len-Returns (some most) len input h =
    let fits : ltb most len ≡ false = ground arith in rw fits (pure-Returns tt input)

module _ (fin : Bool) (opcode : Opcode) (payload : Bytes) (key : Option Bytes) (max : Option ℕ)
    (rest : Bytes) (k : IsKey key) (bytes : All IsByte payload) (short : length payload < 2 ^ 63)
    (fits : FitsIn max (length payload)) where
  abbrev frame : Frame
  frame = record { fin = fin; opcode = opcode; payload = payload }

  payload-Returns :
      Returns
        (read (length payload) >>= λ bs.
          pure (record { fin = fin; opcode = opcode; payload = unmask key bs }))
        (scrambled key payload ++ rest)
        rest
        frame
  payload-Returns =
      bind-Returns (read (length payload)) _ (scrambled key payload) frame _ rest rest
        (read-Returns (length payload) (scrambled key payload) rest
          (sym (length-scrambled key payload)))
        (rw (unmask-scrambled key payload k bytes) (pure-Returns frame rest))

  read_frame-Returns :
      Returns
        (read_frame max)
        (first fin opcode
          ∷ second (is_masked key) (marker (length payload))
          ∷ (extended (length payload) ++ (body key payload ++ rest)))
        rest
        frame
  unfolding read_frame
  read_frame-Returns =
      let b0 = first fin opcode in
      let b1 = second (is_masked key) (marker (length payload)) in
      let tail = extended (length payload) ++ (body key payload ++ rest) in
      let h : Header = record {
        fin = fin;
        opcode = opcode;
        masked = is_masked key;
        len7 = marker (length payload);
      } in
      bind-Returns (read 2) _ (b0 ∷ b1 ∷ []) frame (b0 ∷ b1 ∷ tail) tail rest
        (read-Returns 2 (b0 ∷ b1 ∷ []) tail refl)
        (bind-Returns (header (b0 ∷ b1 ∷ [])) _ h frame tail tail rest
          (header-Returns b0 b1 h tail (
            parse_header-first fin opcode (is_masked key) (marker (length payload))
              (marker_small (length payload))))
          (bind-Returns (payload_len (marker (length payload))) _ (length payload) frame tail
            (body key payload ++ rest) rest
            (payload_len-Returns (length payload) (body key payload ++ rest) short)
            (bind-Returns (check_len max (length payload)) _ tt frame (body key payload ++ rest)
              (body key payload ++ rest) rest
              (check_len-Returns max (length payload) (body key payload ++ rest) fits)
              (bind-Returns (mask_key (is_masked key)) _ key frame (body key payload ++ rest)
                (scrambled key payload ++ rest) rest (mask_key-Returns key payload rest k)
                payload-Returns))))

-- Reading a frame gives back what was encoded: if the stream begins with the encoding of a payload of
-- bytes, shorter than 2^63 and within `max_frame_size`, masked by four bytes or not masked, then
-- `read_frame` returns its flag, opcode and payload, and leaves exactly the bytes behind it, however
-- the stream is divided between the buffer and the reads of the connection.
pub read_frame-encode :
    (fin : Bool) (opcode : Opcode) (payload : Bytes) (key : Option Bytes) (max : Option ℕ)
    (rest : Bytes) (r : Reader)
    → IsKey key
    → All IsByte payload
    → length payload < 2 ^ 63
    → FitsIn max (length payload)
    → stream r ≡ encode fin opcode payload key ++ rest
    → (r' : Reader) × (read_frame max r
        ≡ ok (record { fin = fin; opcode = opcode; payload = payload }) r')
      × (stream r' ≡ rest)
read_frame-encode fin opcode payload key max rest r k bytes short fits e =
    read_frame-Returns fin opcode payload key max rest k bytes short fits r (
      e
      ∙ ap (λ l. l ++ rest) (encode_lem fin opcode payload key)
      ∙ ap (λ l. first fin opcode ∷ second (is_masked key) (marker (length payload)) ∷ l)
          (append_assoc (extended (length payload)) (body key payload) rest))
