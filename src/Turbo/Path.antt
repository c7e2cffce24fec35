-- ===== src/Turbo/Path.antt =====
-- Route patterns and the matching of a path: `parse_pattern`, `match_path` and `Ctx::param` of
-- crates/ferroly/src/turbo/mod.rs.
pub mod Laws
use ferroly.Base.{
  ℕ, zero, suc, ◌+◌, Bool, true, false, List, [], ◌∷◌, ◌++◌, map, Option, none, some, ◌==◌,
  if◌then◌else◌, length,
}
use ferroly.Base.Bytes.{Bytes, bytes_eq}

unfoldable pub push_head : ℕ → List Bytes → List Bytes
push_head c [] = (c ∷ []) ∷ []
push_head c (part ∷ parts) = (c ∷ part) ∷ parts

-- `path.split('/')`.
unfoldable pub split_slash : Bytes → List Bytes
unfolding push_head
split_slash [] = [] ∷ []
split_slash (c ∷ path) =
    let rest = split_slash path in if c == b'/' then [] ∷ rest else push_head c rest

-- `.filter(|s| !s.is_empty())`.
unfoldable pub drop_empty : List Bytes → List Bytes
drop_empty [] = []
drop_empty ([] ∷ parts) = drop_empty parts
drop_empty ((c ∷ part) ∷ parts) = (c ∷ part) ∷ drop_empty parts

unfoldable pub parts : Bytes → List Bytes
unfolding split_slash drop_empty
parts path = drop_empty (split_slash path)

pub data Seg : Type 0 where
  static : Bytes → Seg
  param : Bytes → Seg

-- `strip_prefix(':')`.
unfoldable pub seg_of : Bytes → Seg
seg_of [] = static []
seg_of (c ∷ s) = if c == b':' then param s else static (c ∷ s)

unfoldable pub parse_pattern : Bytes → List Seg
unfolding seg_of parts
parse_pattern path = map seg_of (parts path)

-- The `HashMap` of the captured parameters: a later entry, at the head, hides an earlier one.
abbrev pub Params : Type 0
Params = List (Bytes × Bytes)

-- `Ctx::param`.
unfoldable pub get : Bytes → Params → Option Bytes
get name [] = none
get name ((k, v) ∷ params) = if bytes_eq k name then some v else get name params

-- The loop of `match_path` over the zipped segments and parts.
unfoldable pub match_from : List Seg → List Bytes → Params → Option Params
match_from [] ps params = some params
match_from (seg ∷ segs) [] params = some params
match_from (static s ∷ segs) (p ∷ ps) params =
    if bytes_eq s p then match_from segs ps params else none
match_from (param name ∷ segs) (p ∷ ps) params = match_from segs ps ((name, p) ∷ params)

unfoldable pub match_path : List Seg → Bytes → Option Params
unfolding match_from parts
match_path segs path =
    let ps = parts path in if length ps == length segs then match_from segs ps [] else none
