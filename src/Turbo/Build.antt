-- ===== src/Turbo/Build.antt =====
-- The builder methods of `Router` and `Group` and the chain of middlewares (`layer`, `Next::run`) in
-- crates/ferroly/src/turbo/mod.rs. A middleware is a function of the request and of what comes behind it.
pub mod Laws
use ferroly.Base.{ℕ, zero, suc, ◌+◌, Bool, false, List, [], ◌∷◌, ◌++◌, Option, none, some, length}
use ferroly.Base.Bytes.{Bytes}
use ferroly.Turbo.Dispatch.{Method, Request, Router, register, Group, group_register}

module _ {H Q R : Type 0} where
  -- `Router::new`.
  abbrev pub new : Router H Q R
  new = record {
    routes = [];
    filters = [];
    auth = none;
    not_found = none;
    method_not_allowed = none;
    strict_slash = false;
  }

  -- `get`, `post`, `put`, `delete`, `patch`, `head` and `options`, each for its method.
  unfoldable pub on_method : Method → Router H Q R → Bytes → H → Router H Q R
  on_method m router path handler = register router path handler (m ∷ [])

  -- So for a group, without `head` and `options`.
  unfoldable pub group_on_method : Method → Group H Q R → Bytes → H → Group H Q R
  group_on_method m g path handler = group_register g path handler (m ∷ [])

  unfoldable pub filter : Router H Q R → (Request Q → Option R) → Router H Q R
  filter router f = record router { filters = router.filters ++ (f ∷ []) }

  unfoldable pub auth : Router H Q R → (Request Q → Option R) → Router H Q R
  auth router f = record router { auth = some f }

  unfoldable pub on_not_found : Router H Q R → H → Router H Q R
  on_not_found router handler = record router { not_found = some handler }

  unfoldable pub on_method_not_allowed : Router H Q R → H → Router H Q R
  on_method_not_allowed router handler = record router { method_not_allowed = some handler }

abbrev pub Middleware : Type 0 → Type 0 → Type 0
Middleware Q R = Q → (Q → R) → R

module _ {Q R : Type 0} where
  -- `self.shared.middlewares[i]`, with the test of the index.
  abbrev pub get_elem? : List (Middleware Q R) → ℕ → Option (Middleware Q R)
  get_elem? [] i = none
  get_elem? (mw ∷ mws) zero = some mw
  get_elem? (mw ∷ mws) (suc i) = get_elem? mws i

  abbrev call : Option (Middleware Q R) → Q → (Q → R) → (Q → R) → R
  call none req next core = core req
  call (some mw) req next core = mw req next

  -- `Next::run` at an index. At most `fuel` middlewares stand behind it.
  pub run_from : ℕ → List (Middleware Q R) → (Q → R) → ℕ → Q → R
  run_from zero mws core i req = core req
  run_from (suc fuel) mws core i req =
      call (get_elem? mws i) req (run_from fuel mws core (i + 1)) core

  -- `handle`, with `core_dispatch` and the handlers as `core`.
  unfoldable pub handle : List (Middleware Q R) → (Q → R) → Q → R
  unfolding run_from
  handle mws core req = run_from (length mws) mws core 0 req

  unfoldable pub layer : List (Middleware Q R) → Middleware Q R → List (Middleware Q R)
  layer mws mw = mws ++ (mw ∷ [])
