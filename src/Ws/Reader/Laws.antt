-- ===== src/Ws/Reader/Laws.antt =====
-- `read_exact` against the bytes of the stream.
use mathlib.Core.List.{append_assoc, append-nil}
use ferroly.Base.{
  ℕ, zero, suc, ◌+◌, ◌-◌, ◌≤◌, ◌<◌, min, ◌≡◌, ◌⊎◌, inl, inr, refl, ap, sym, ◌∙◌, false, List, [],
  ◌∷◌, ◌++◌, Option, none, some, ltb, leb, ◌==◌, length, take, drop, arith, length-append,
  length-take, length-drop, take-append-drop, take-append_le, drop-append_le, drop-drop, drop_all,
  Bool-cases, ltb→lt,
}
use ferroly.Base.Bytes.{Bytes}
use ferroly.Ws.Reader.{Reader, read_chunk, inner_read, read_loop, read_exact, join, stream}

join-cons :
    (piece : Bytes) (pieces : List Bytes)
    → 0 < length piece
    → join (piece ∷ pieces) ≡ piece ++ join pieces
join-cons [] pieces h = absurd (omega arith)
join-cons (b ∷ bs) pieces h = refl

-- The outcome of one read: the next bytes, or the end of the stream.
abbrev Reads : ℕ → List Bytes → Bytes → List Bytes → Type 0
Reads room pieces got rest =
    (length got ≤ room)
    × (((join pieces ≡ []) × (got ≡ [])) ⊎ ((0 < length got) × (join pieces ≡ got ++ join rest)))

split_piece :
    (room : ℕ) (piece : Bytes) (pieces : List Bytes)
    → 0 < room
    → room < length piece
    → Reads room (piece ∷ pieces) (take room piece) (drop room piece ∷ pieces)
split_piece room piece pieces p h = (
  omega (arith, length-take room piece),
  inr (
    omega (arith, length-take room piece),
    join-cons piece pieces (omega arith)
        ∙ ap (λ l. l ++ join pieces) (sym (take-append-drop room piece))
        ∙ append_assoc (take room piece) (drop room piece) (join pieces)
        ∙ ap (λ l. take room piece ++ l)
            (sym (join-cons (drop room piece) pieces (omega (arith, length-drop room piece)))),
  ),
)

whole_piece :
    (room : ℕ) (piece : Bytes) (pieces : List Bytes)
    → length piece ≤ room
    → Reads room (piece ∷ pieces) piece pieces
whole_piece room [] pieces h = (h, inl (refl, refl))
whole_piece room (b ∷ bs) pieces h = (h, inr (omega arith, refl))

inner_read-Reads :
    (room : ℕ) (pieces : List Bytes)
    → 0 < room
    → Reads room pieces (inner_read room pieces).0 (inner_read room pieces).1
unfolding inner_read
inner_read-Reads room [] p = (omega arith, inl (refl, refl))
inner_read-Reads room (piece ∷ pieces) p = elim (Bool-cases (leb (length piece) room)) [
  | inl fits ↦ rw fits (whole_piece room piece pieces (ground arith))
  | inr long ↦ rw long (split_piece room piece pieces p (ground arith))
]

-- What a call of `read_exact` does when `want` bytes are wanted and `s` is still to come.
abbrev pub Delivers : ℕ → Bytes → Bytes → Option (Bytes × Reader) → Type 0
Delivers want out s o =
    ((length s < want) × (o ≡ none))
    ⊎ ((want ≤ length s)
        × ((r' : Reader) × (o ≡ some (out ++ take want s, r')) × (stream r' ≡ drop want s)))

-- A round that appends `got` leaves the rest to the following rounds.
Delivers-more :
    (want : ℕ) (out got s : Bytes) (o : Option (Bytes × Reader))
    → length got ≤ want
    → Delivers (want - length got) (out ++ got) s o
    → Delivers want out (got ++ s) o
Delivers-more want out got s o h (inl (short, e)) = inl (omega (arith, length-append got s), e)
Delivers-more want out got s o h (inr (enough, (r', e, left))) = inr (
  omega (arith, length-append got s),
  (
    r',
    e
        ∙ ap (λ l. some (l, r'))
            (append_assoc out got _ ∙ ap (λ l. out ++ l) (sym (take-append_le got s want h))),
    left ∙ sym (drop-append_le got s want h),
  ),
)

Delivers-done :
    (n : ℕ) (out : Bytes) (r : Reader)
    → length out ≡ n
    → Delivers (n - length out) out (stream r) (some (out, r))
Delivers-done n out r e =
    let zero_left : n - length out ≡ 0 = omega arith in
    rw zero_left (inr (omega arith, (r, ap (λ l. some (l, r)) (sym (append-nil out)), refl)))

-- The bytes that a round takes from the buffer stand first in the stream.
stream_buf :
    (m : ℕ) (r : Reader)
    → stream r ≡ take m (drop r.pos r.buf) ++ stream (record r { pos = r.pos + m })
unfolding stream
stream_buf m r =
    ap (λ l. l ++ join r.inner) (sym (take-append-drop m (drop r.pos r.buf)))
    ∙ append_assoc (take m (drop r.pos r.buf)) (drop m (drop r.pos r.buf)) (join r.inner)
    ∙ ap (λ l. take m (drop r.pos r.buf) ++ (l ++ join r.inner)) (sym (drop-drop r.pos m r.buf))

stream_empty : (r : Reader) → length r.buf ≤ r.pos → stream r ≡ join r.inner
unfolding stream
stream_empty r h = ap (λ l. l ++ join r.inner) (drop_all r.pos r.buf h)

read_loop-Delivers :
    (fuel n : ℕ) (out : Bytes) (r : Reader)
    → length out ≤ n
    → n ≤ length out + fuel
    → Delivers (n - length out) out (stream r) (read_loop fuel n out r)
unfolding read_loop
read_loop-Delivers zero n out r low enough =
    let done : ltb (length out) n ≡ false = ground arith in
    rw done (Delivers-done n out r (omega arith))
read_loop-Delivers (suc fuel) n out r low enough = elim (Bool-cases (ltb (length out) n)) [
  | inr done ↦ rw done (Delivers-done n out r (ground arith))
  | inl more ↦ elim (Bool-cases (ltb r.pos (length r.buf))) [
    | inl buffered ↦
        let m = min (n - length out) (length r.buf - r.pos) in
        let got = take m (drop r.pos r.buf) in
        let r1 : Reader = record r { pos = r.pos + m } in
        let size : length got ≡ m =
          omega (arith, length-take m (drop r.pos r.buf), length-drop r.pos r.buf) in
        let some_got : 0 < m = ground arith in
        let shift : n - length (out ++ got) ≡ n - length out - length got =
          omega (arith, length-append out got) in
        let ih =
          read_loop-Delivers fuel n (out ++ got) r1 (omega (arith, length-append out got))
            (omega (arith, length-append out got)) in
        rw (more, buffered, stream_buf m r)
          (Delivers-more (n - length out) out got (stream r1) _ (omega arith) (rw shift at ih))
    | inr empty ↦
        let room = min (n - length out) read_chunk in
        let got = (inner_read room r.inner).0 in
        let r1 : Reader = record r { inner = (inner_read room r.inner).1 } in
        let used : stream r ≡ join r.inner = stream_empty r (ground arith) in
        let left : stream r1 ≡ join r1.inner = stream_empty r1 (ground arith) in
        let (size, read) = inner_read-Reads room r.inner (ground arith) in
        elim read [
          | inl (over, nothing) ↦ rw (more, empty, used, over, nothing) (inl (ground arith, refl))
          | inr (some_got, next) ↦
              let test : (length got == 0) ≡ false = ground arith in
              let shift : n - length (out ++ got) ≡ n - length out - length got =
                omega (arith, length-append out got) in
              let ih =
                read_loop-Delivers fuel n (out ++ got) r1
                  (omega (arith, length-append out got, ltb→lt (length out) n more))
                  (omega (arith, length-append out got)) in
              rw (more, empty, test, used, next, ← left)
                (Delivers-more (n - length out) out got (stream r1) _ (omega arith)
                  (rw shift at ih))
        ]
  ]
]

-- `read_exact` returns the next `n` bytes of the stream and leaves the rest if there are so many, and
-- fails if there are fewer, however the buffer and the pieces of the connection divide them.
pub read_exact-Delivers : (n : ℕ) (r : Reader) → Delivers n [] (stream r) (read_exact n r)
unfolding read_exact
read_exact-Delivers n r =
    let e : n - 0 ≡ n = omega arith in
    rw e at (read_loop-Delivers n n [] r (omega arith) (omega arith))
