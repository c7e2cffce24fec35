-- ===== src/Tests/Turbo.antt =====
-- Runs of crates/ferroly/src/turbo.
use ferroly.Base.{
  ℕ, ◌≡◌, ◌⊎◌, refl, Bool, false, ◌==◌, ◌||◌, List, [], ◌∷◌, map, Option, none, some, arith, ltb,
  if◌then◌else◌,
}
use ferroly.Base.Bytes.{Bytes, ascii, bytes_eq}
use ferroly.Turbo.Path.{
  match_from, split_slash, drop_empty, push_head, parse_pattern, seg_of, Seg, static, param, Params,
  get, parts, match_path,
}
use ferroly.Turbo.Path.Laws.{Fits, captured, match_path-Matched}
use ferroly.Turbo.Dispatch.{
  get as get_method, post, Request, Router, register, route_of, scoped, core_dispatch, handled,
  first_reply, conclude, consider_all, consider, is_visible, choose, add_methods, contains,
  Method-discrete, is_trailing, ends_with_slash, starts_with,
}
use ferroly.Turbo.Dispatch.Laws.{Explains, core_dispatch-Explains}
use ferroly.Turbo.Dispatch.Groups.{core_dispatch-unfiltered}
use ferroly.Turbo.Build.{handle, layer}
use ferroly.Turbo.Build.Laws.{onion, handle-onion}
use ferroly.Turbo.Dispatch.Register.{register-stable}
use ferroly.Turbo.Percent.{percent_decode}
use ferroly.Turbo.Percent.Laws.{percent_encode, percent_decode-encode}

abbrev empty : Router ℕ ℕ ℕ
empty = record {
  routes = [];
  filters = [];
  auth = none;
  not_found = none;
  method_not_allowed = none;
  strict_slash = false;
}

-- A filter that refuses everything.
abbrev refuse : Request ℕ → Option ℕ
refuse req = some 403

abbrev users : Router ℕ ℕ ℕ
users = record empty { routes = []; filters = map (scoped (ascii "/api")) (refuse ∷ []) }

abbrev router : Router ℕ ℕ ℕ
router =
    register (register users (ascii "/users/:id") 1 (get_method ∷ [])) (ascii "/users/:id") 2
      (post ∷ [])

abbrev request : Request ℕ
request = record { method = post; path = ascii "/users/42/"; rest = 0 }

core_dispatch-Explains_example : Explains router request (core_dispatch router request)
core_dispatch-Explains_example = core_dispatch-Explains router request

abbrev guarded : Router ℕ ℕ ℕ
guarded = record users { routes = route_of (ascii "/api/x") 7 (get_method ∷ []) ∷ [] }

core_dispatch-unfiltered_example :
    core_dispatch guarded (record { method = get_method; path = ascii "//api/x"; rest = 0 })
    ≡ core_dispatch
        (record guarded { filters = [] })
        (record { method = get_method; path = ascii "/api/x"; rest = 0 })
core_dispatch-unfiltered_example =
    core_dispatch-unfiltered guarded b'a' (ascii "pi") (ascii "api/x") (refuse ∷ []) get_method 0
      refl refl (omega arith) refl

abbrev pattern_ : List Seg
pattern_ = static (ascii "users") ∷ param (ascii "id") ∷ []

match_path-Matched_example :
    (Fits pattern_ (parts (ascii "/users//42"))
      × ((params : Params) × (match_path pattern_ (ascii "/users//42") ≡ some params)
          × ((name : Bytes)
              → get name params ≡ captured name pattern_ (parts (ascii "/users//42")))))
    ⊎ ((¬ Fits pattern_ (parts (ascii "/users//42")))
        × (match_path pattern_ (ascii "/users//42") ≡ none))
match_path-Matched_example = match_path-Matched pattern_ (ascii "/users//42")

-- Letters are kept.
abbrev is_letter : ℕ → Bool
is_letter c = c == b'a' || c == b'b'

-- A stand-in for `from_utf8_lossy`: every byte above 127 becomes U+FFFD.
abbrev lossy : Bytes → Bytes
lossy [] = []
lossy (c ∷ s) = let rest = lossy s in if ltb c 128 then c ∷ rest else 0xEF ∷ 0xBF ∷ 0xBD ∷ rest

percent_decode-encode_example :
    percent_decode lossy (percent_encode is_letter (0xFF ∷ ascii "a+ %"))
    ≡ lossy (0xFF ∷ ascii "a+ %")
percent_decode-encode_example =
    percent_decode-encode lossy is_letter (0xFF ∷ ascii "a+ %") refl refl
      (omega arith, (omega arith, (omega arith, (omega arith, (omega arith, tt)))))

abbrev echo : ℕ → List ℕ
echo q = q ∷ []

-- A middleware that adds its number in front of what comes from behind it.
abbrev tag : ℕ → ℕ → (ℕ → List ℕ) → List ℕ
tag n req next = n ∷ next req

handle-onion_example :
    (handle (tag 1 ∷ []) echo ≡ onion (tag 1 ∷ []) echo)
    × (handle [] echo ≡ echo)
    × (handle (layer (tag 1 ∷ []) (tag 2)) echo ≡ handle (tag 1 ∷ []) (λ req. tag 2 req echo))
handle-onion_example = handle-onion (tag 1 ∷ []) (tag 2) echo

abbrev get_users : Request ℕ
get_users = record { method = get_method; path = ascii "/users/42/"; rest = 0 }

serves_users : core_dispatch router get_users ≡ handled 1 ((ascii "id", ascii "42") ∷ [])
unfolding core_dispatch first_reply conclude consider_all consider is_visible choose add_methods
    contains Method-discrete match_path match_from parts split_slash drop_empty push_head
    parse_pattern seg_of bytes_eq register route_of is_trailing ends_with_slash scoped starts_with
serves_users = refl

register-stable_example :
    core_dispatch (register router (ascii "/:any/:thing") 9 (get_method ∷ [])) get_users
    ≡ handled 1 ((ascii "id", ascii "42") ∷ [])
register-stable_example =
    register-stable router get_users 1 ((ascii "id", ascii "42") ∷ []) (ascii "/:any/:thing") 9
      (get_method ∷ []) serves_users
