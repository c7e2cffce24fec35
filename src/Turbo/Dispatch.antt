-- ===== src/Turbo/Dispatch.antt =====
-- Routing a request: `Route`, `Router`, `Group` and `core_dispatch` of crates/ferroly/src/turbo/mod.rs,
-- with `Method` of crates/ferroly/src/http/core.rs. `H` stands for the registered handlers, `Q` for the
-- parts of a request that routing does not read, and `R` for the responses of filters.
pub mod Loop
pub mod Laws
pub mod Groups
pub mod Register
use ferroly.Base.{
  ℕ, suc, Bool, true, false, not, ◌&&◌, ◌||◌, List, [], ◌∷◌, ◌++◌, Option, none, some, ◌==◌, ltb,
  if◌then◌else◌, length,
}
use native.Mathlib.Decide.{ℕ_discrete}
use mathlib.Core.Option.{IsSome}
use ferroly.Base.Bytes.{Bytes, bytes_eq}
use ferroly.Turbo.Path.{Seg, Params, parse_pattern, match_path}

pub data Method : Type 0 where
  get post put delete patch head options trace connect : Method
  other : Bytes → Method

unfoldable pub Method-discrete : Discrete Method
Method-discrete = hlevel ℕ_discrete

pub record Route (H : Type 0) : Type 0 where
  pub methods : List Method
  pub segments : List Seg
  pub trailing_slash : Bool
  pub handler : H

pub record Request (Q : Type 0) : Type 0 where
  pub method : Method
  pub path : Bytes
  pub rest : Q

-- `auth` and `filters` answer a request or let it pass. Middlewares wrap `core_dispatch` from outside
-- and stand in Turbo/Build.
pub record Router (H Q R : Type 0) : Type 0 where
  pub routes : List (Route H)
  pub filters : List (Request Q → Option R)
  pub auth : Option (Request Q → Option R)
  pub not_found : Option H
  pub method_not_allowed : Option H
  pub strict_slash : Bool

-- `path.len() > 1 && path.ends_with('/')`.
unfoldable pub ends_with_slash : Bytes → Bool
ends_with_slash [] = false
ends_with_slash (c ∷ []) = c == b'/'
ends_with_slash (c ∷ d ∷ path) = ends_with_slash (d ∷ path)

unfoldable pub is_trailing : Bytes → Bool
unfolding ends_with_slash
is_trailing path = ltb 1 (length path) && ends_with_slash path

-- `register`.
unfoldable pub route_of : {H : Type 0} → Bytes → H → List Method → Route H
route_of path handler methods = record {
  methods = methods;
  segments = parse_pattern path;
  trailing_slash = is_trailing path;
  handler = handler;
}

unfoldable pub register : {H Q R : Type 0} → Router H Q R → Bytes → H → List Method → Router H Q R
unfolding route_of
register router path handler methods = record router {
  routes = router.routes ++ (route_of path handler methods ∷ []);
}

-- `methods.contains(m)`.
unfoldable pub contains : List Method → Method → Bool
unfolding Method-discrete
contains [] m = false
contains (k ∷ ms) m = elim (Method-discrete k m) [ yes _ ↦ true | no _ ↦ contains ms m ]

-- The inner loop that collects the `Allow` header.
unfoldable pub add_methods : List Method → List Method → List Method
unfolding contains
add_methods allowed [] = allowed
add_methods allowed (m ∷ ms) =
    add_methods (if contains allowed m then allowed else allowed ++ (m ∷ [])) ms

-- The loop variables of `core_dispatch`.
pub record Found (H : Type 0) : Type 0 where
  pub chosen : Option (H × Params)
  pub path_exists : Bool
  pub allowed : List Method

unfoldable pub choose : {H : Type 0} → Option (H × Params) → Bool → H × Params → Option (H × Params)
choose (some c) listed new = some c
choose none listed new = if listed then some new else none

module _ {H : Type 0} (strict : Bool) (method : Method) (path : Bytes) where
  -- Whether the strict-slash test lets the route be considered.
  unfoldable pub is_visible : Route H → Bool
  is_visible route =
      not (strict && (if route.trailing_slash then not (is_trailing path) else is_trailing path))

  -- One round of the loop over the routes.
  unfoldable pub consider : Found H → Route H → Found H
  unfolding is_visible choose add_methods contains
  consider found route =
      if not (is_visible route) then found else elim (match_path route.segments path) [
        | none ↦ found
        | some params ↦ record {
          chosen = choose found.chosen (contains route.methods method) (route.handler, params);
          path_exists = true;
          allowed = add_methods found.allowed route.methods;
        }
      ]

  unfoldable pub consider_all : Found H → List (Route H) → Found H
  consider_all found [] = found
  consider_all found (route ∷ routes) = consider_all (consider found route) routes

-- How the request is answered: by the authenticator or a filter, by a route's handler, or by the
-- (custom or built-in) 405 with its `Allow` header or 404.
pub data Outcome (H R : Type 0) : Type 0 where
  replied : R → Outcome H R
  handled : H → Params → Outcome H R
  not_allowed : Option H → List Method → Outcome H R
  missing : Option H → Outcome H R

module _ {H Q R : Type 0} (router : Router H Q R) (req : Request Q) where
  -- The filters in their order; the first answer counts.
  unfoldable pub first_reply : List (Request Q → Option R) → Option R
  first_reply [] = none
  first_reply (f ∷ fs) = elim (f req) [ none ↦ first_reply fs | some r ↦ some r ]

  abbrev authenticate : Option (Request Q → Option R) → Option R
  authenticate none = none
  authenticate (some auth) = auth req

  unfoldable pub conclude : Found H → Outcome H R
  conclude found = elim found.chosen [
    | some (handler, params) ↦ handled handler params
    | none ↦
        if found.path_exists
        then not_allowed router.method_not_allowed found.allowed
        else missing router.not_found
  ]

  unfoldable pub core_dispatch : Outcome H R
  unfolding first_reply conclude consider_all
  core_dispatch = elim (authenticate router.auth) [
    | some r ↦ replied r
    | none ↦ elim (first_reply router.filters) [
      | some r ↦ replied r
      | none ↦ conclude (
          consider_all router.strict_slash req.method req.path
            (record { chosen = none; path_exists = false; allowed = [] }) router.routes)
    ]
  ]

-- `Group`: routes and filters under a prefix.
pub record Group (H Q R : Type 0) : Type 0 where
  pub prefix : Bytes
  pub routes : List (Route H)
  pub filters : List (Request Q → Option R)

-- `prefix.trim_end_matches('/')`.
trim_slashes : Bytes → Bytes
trim_slashes [] = []
trim_slashes (c ∷ path) = elim (trim_slashes path) [
  | [] ↦ if c == b'/' then [] else c ∷ []
  | d ∷ rest ↦ c ∷ d ∷ rest
]

unfoldable pub starts_with : Bytes → Bytes → Bool
starts_with path [] = true
starts_with [] (c ∷ prefix) = false
starts_with (d ∷ path) (c ∷ prefix) = d == c && starts_with path prefix

-- A group's filter asks `f` only about paths that begin with the prefix.
unfoldable pub scoped : {Q R : Type 0} → Bytes → (Request Q → Option R) → Request Q → Option R
unfolding starts_with
scoped prefix f req = if starts_with req.path prefix then f req else none

module _ {H Q R : Type 0} where
  unfoldable pub new_group : Bytes → Group H Q R
  unfolding trim_slashes
  new_group prefix = record { prefix = trim_slashes prefix; routes = []; filters = [] }

  unfoldable pub group_register : Group H Q R → Bytes → H → List Method → Group H Q R
  unfolding route_of
  group_register g path handler methods = record g {
    routes = g.routes ++ (route_of (g.prefix ++ path) handler methods ∷ []);
  }

  unfoldable pub group_filter : Group H Q R → (Request Q → Option R) → Group H Q R
  unfolding scoped
  group_filter g f = record g { filters = g.filters ++ (scoped g.prefix f ∷ []) }

  -- `Router::group`, for the group that the closure built.
  unfoldable pub add_group : Router H Q R → Group H Q R → Router H Q R
  add_group router g = record router {
    routes = router.routes ++ g.routes;
    filters = router.filters ++ g.filters;
  }
