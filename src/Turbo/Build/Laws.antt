-- ===== src/Turbo/Build/Laws.antt =====
-- The order of the middlewares.
use mathlib.Core.List.{append_assoc}
use ferroly.Base.{
  ◌+◌, ◌≡◌, refl, ap, ap₂, sym, ◌∙◌, List, [], ◌∷◌, ◌++◌, Option, some, length, length-append,
  arith,
}
use ferroly.Turbo.Build.{Middleware, get_elem?, call, run_from, handle, layer}

module _ {Q R : Type 0} where
  -- The first middleware around the second, and so on around the core.
  abbrev pub onion : List (Middleware Q R) → (Q → R) → Q → R
  onion [] core req = core req
  onion (mw ∷ mws) core req = mw req (onion mws core)

  get_elem?-append :
      (pre : List (Middleware Q R)) (mw : Middleware Q R) (mws : List (Middleware Q R))
      → get_elem? (pre ++ (mw ∷ mws)) (length pre) ≡ some mw
  get_elem?-append [] mw mws = refl
  get_elem?-append (p ∷ pre) mw mws = get_elem?-append pre mw mws

  run_from-onion :
      (pre mws : List (Middleware Q R)) (core : Q → R)
      → run_from (length mws) (pre ++ mws) core (length pre) ≡ onion mws core
  unfolding run_from
  run_from-onion pre [] core = λ i req. core req
  run_from-onion pre (mw ∷ mws) core =
      let ih = run_from-onion (pre ++ (mw ∷ [])) mws core in
      let shift : length (pre ++ (mw ∷ [])) ≡ length pre + 1 =
        omega (arith, length-append pre (mw ∷ [])) in
      let ih' : run_from (length mws) (pre ++ (mw ∷ mws)) core (length pre + 1) ≡ onion mws core =
        rw (shift, append_assoc pre (mw ∷ [])) at ih in
      let step : Option (Middleware Q R) → (Q → R) → Q → R = λ o next req. call o req next core in
      ap₂ step (get_elem?-append pre mw mws) ih'

  onion-append :
      (mws ks : List (Middleware Q R)) (core : Q → R)
      → onion (mws ++ ks) core ≡ onion mws (onion ks core)
  onion-append [] ks core = refl
  onion-append (mw ∷ mws) ks core =
      let around : (Q → R) → Q → R = λ next req. mw req next in ap around (onion-append mws ks core)

-- Running the chain by its index puts the middlewares around the core, the first one outermost, each
-- called with the rest of the chain; so a router with no middleware runs the core, and `layer` puts
-- its middleware directly around the core, inside all that were added before.
pub handle-onion :
    {Q R : Type 0} (mws : List (Middleware Q R)) (mw : Middleware Q R) (core : Q → R)
    → (handle mws core ≡ onion mws core)
      × (handle [] core ≡ core)
      × (handle (layer mws mw) core ≡ handle mws (λ req. mw req core))
unfolding handle layer
handle-onion mws mw core = (
  run_from-onion [] mws core,
  run_from-onion [] [] core,
  run_from-onion [] (mws ++ (mw ∷ [])) core
      ∙ onion-append mws (mw ∷ []) core
      ∙ sym (run_from-onion [] mws (λ req. mw req core)),
)
