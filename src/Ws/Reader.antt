-- ===== src/Ws/Reader.antt =====
-- The buffered reader of crates/ferroly/src/ws/conn.rs (`Reader`, `read_exact`). The connection is the
-- list of the pieces that its reads return; a read asks for at most `READ_CHUNK` bytes, an empty piece
-- or the end of the list is the end of the stream.
-- A read that fails is not told apart from the end of the stream.
pub mod Laws
use ferroly.Base.{
  ℕ, zero, suc, ◌+◌, ◌-◌, ◌≤◌, ◌<◌, min, ◌≡◌, Bool, true, false, List, [], ◌∷◌, ◌++◌, Option, none,
  some, ltb, leb, ◌==◌, if◌then◌else◌, length, take, drop,
}
use ferroly.Base.Bytes.{Bytes}

abbrev pub read_chunk : ℕ
read_chunk = 65536

pub record Reader : Type 0 where
  pub inner : List Bytes
  pub buf : Bytes
  pub pos : ℕ

-- `self.inner.read(&mut tmp)` with a buffer of `room` bytes: what was read, and what is left.
unfoldable pub inner_read : ℕ → List Bytes → Bytes × List Bytes
inner_read room [] = ([], [])
inner_read room (piece ∷ pieces) =
    if leb (length piece) room then (piece, pieces) else (take room piece, drop room piece ∷ pieces)

-- The loop of `read_exact`; every round adds a byte or ends, so `n` rounds are enough.
pub read_loop : ℕ → ℕ → Bytes → Reader → Option (Bytes × Reader)
read_loop zero n out r = if ltb (length out) n then none else some (out, r)
read_loop (suc fuel) n out r =
    let want = n - length out in
    let available = length r.buf - r.pos in
    let (got, inner') = inner_read (min want read_chunk) r.inner in
    let from_buf =
      read_loop fuel n (out ++ take (min want available) (drop r.pos r.buf))
        (record r { pos = r.pos + min want available }) in
    let from_conn = read_loop fuel n (out ++ got) (record r { inner = inner' }) in
    if ltb (length out) n
    then (if ltb r.pos (length r.buf)
        then from_buf
        else if length got == 0
        then none
        else from_conn)
    else some (out, r)

-- `none` is the error `UnexpectedEof`.
unfoldable pub read_exact : ℕ → Reader → Option (Bytes × Reader)
unfolding read_loop
read_exact n r = read_loop n n [] r

-- The bytes that are still to come.
abbrev pub join : List Bytes → Bytes
join [] = []
join ([] ∷ pieces) = []
join ((b ∷ bs) ∷ pieces) = (b ∷ bs) ++ join pieces

unfoldable pub stream : Reader → Bytes
stream r = drop r.pos r.buf ++ join r.inner
