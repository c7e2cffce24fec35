-- ===== src/Turbo/Dispatch/Register.antt =====
-- Registering a route later.
use ferroly.Base.{
  ◌≡◌, inl, inr, refl, Bool, List, [], ◌∷◌, ◌++◌, Option, some, Bool-cases, Option-cases,
}
use ferroly.Base.Bytes.{Bytes}
use ferroly.Turbo.Path.{Params, match_path}
use ferroly.Turbo.Dispatch.{
  Method, Route, Request, Router, register, route_of, Found, choose, Outcome, handled, not_allowed,
  missing, replied, is_visible, consider, consider_all, core_dispatch, conclude, authenticate,
  first_reply,
}
use ferroly.Turbo.Dispatch.Loop.{fresh}

module _ {H : Type 0} (strict : Bool) (method : Method) (path : Bytes) where
  consider_all-append :
      (found : Found H) (rs : List (Route H)) (r : Route H)
      → consider_all strict method path found (rs ++ (r ∷ []))
        ≡ consider strict method path (consider_all strict method path found rs) r
  unfolding consider_all
  consider_all-append found [] r = refl
  consider_all-append found (s ∷ rs) r =
      consider_all-append (consider strict method path found s) rs r

  consider_keeps :
      (found : Found H) (r : Route H) (c : H × Params)
      → found.chosen ≡ some c
      → (consider strict method path found r).chosen ≡ some c
  unfolding consider choose
  consider_keeps found r c e = elim (Bool-cases (is_visible strict method path r)) [
    | inr hidden ↦ rw hidden e
    | inl seen ↦ elim (Option-cases (match_path r.segments path)) [
      | inl missed ↦ rw (seen, missed) e
      | inr (ps, hit) ↦ rw (seen, hit, e, choose)
    ]
  ]

module _ {H Q R : Type 0} (router : Router H Q R) (req : Request Q) (handler : H)
    (params : Params) where
  conclude_keeps :
      (router' : Router H Q R) (found found' : Found H)
      → ((c : H × Params) → found.chosen ≡ some c → found'.chosen ≡ some c)
      → conclude router req found ≡ handled handler params
      → conclude router' req found' ≡ handled handler params
  unfolding conclude
  conclude_keeps router' found found' keeps h = elim (Option-cases found.chosen) [
    | inr (c, e) ↦ let h' = rw (e, conclude) at h in rw (keeps c e, conclude) h'
    | inl e ↦ elim (Bool-cases found.path_exists) [
      | inl there ↦ let clash = rw (e, there, conclude) at h in absurd (not_handled clash)
      | inr absent ↦ let clash = rw (e, absent, conclude) at h in absurd (missing_handled clash)
    ]
  ]
    where
      not_handled :
          {o : Option H} {ms : List Method}
          → ◌≡◌ {A = Outcome H R} (not_allowed o ms) (handled handler params)
          → ⊥
      not_handled e = cc

      missing_handled :
          {o : Option H} → ◌≡◌ {A = Outcome H R} (missing o) (handled handler params) → ⊥
      missing_handled e = cc

-- A request that a router answers by a handler is answered by the same handler, with the same
-- parameters, after a further route has been registered.
pub register-stable :
    {H Q R : Type 0} (router : Router H Q R) (req : Request Q) (handler : H) (params : Params)
    (path : Bytes) (late : H) (methods : List Method)
    → core_dispatch router req ≡ handled handler params
    → core_dispatch (register router path late methods) req ≡ handled handler params
unfolding core_dispatch register
register-stable {H} {Q} {R} router req handler params path late methods h =
    let s = router.strict_slash in
    let found = consider_all s req.method req.path fresh router.routes in
    let r = route_of path late methods in
    elim (Option-cases (authenticate router req router.auth)) [
      | inr (a, e) ↦ absurd (replied_handled (rw (e, core_dispatch) at h))
      | inl passed ↦ elim (Option-cases (first_reply router req router.filters)) [
        | inr (a, e) ↦ absurd (replied_handled (rw (passed, e, core_dispatch) at h))
        | inl free ↦
            rw
              (
                passed,
                free,
                core_dispatch,
                consider_all-append s req.method req.path fresh router.routes r,
              )
              (conclude_keeps router req handler params (register router path late methods) found
                (consider s req.method req.path found r)
                (consider_keeps s req.method req.path found r)
                (rw (passed, free, core_dispatch) at h))
      ]
    ]
  where
    replied_handled :
        {H R : Type 0} {a : R} {handler : H} {params : Params}
        → ◌≡◌ {A = Outcome H R} (replied a) (handled handler params)
        → ⊥
    replied_handled e = cc
