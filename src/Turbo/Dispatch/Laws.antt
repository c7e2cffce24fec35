-- ===== src/Turbo/Dispatch/Laws.antt =====
-- Which route a request is given to, and when it ends in 405 or 404.
use ferroly.Base.{
  ◌≡◌, ◌⊎◌, inl, inr, refl, ap, sym, ◌∙◌, true, false, List, [], ◌∷◌, ◌++◌, Option, none, some,
  Bool-cases, Option-cases, All, any,
}
use ferroly.Turbo.Dispatch.{
  Method, Request, Router, contains, Found, consider_all, Outcome, replied, handled, not_allowed,
  missing, first_reply, authenticate, conclude, core_dispatch,
}
use ferroly.Turbo.Dispatch.Loop.{
  matches, serves, offers, IsFirst, first_answer-IsFirst, first_answer-none, consider_all_chosen,
  consider_all_exists, consider_all_allowed, fresh,
}

module _ {H Q R : Type 0} (router : Router H Q R) (req : Request Q) where
  -- The authenticator, if there is one, lets the request pass.
  abbrev pub IsAdmitted : Option (Request Q → Option R) → Type 0
  IsAdmitted none = Unit
  IsAdmitted (some auth) = auth req ≡ none

  -- The authenticator answers.
  abbrev pub IsDenied : R → Option (Request Q → Option R) → Type 0
  IsDenied r none = ⊥
  IsDenied r (some auth) = auth req ≡ some r

  -- The filters let the request pass.
  abbrev pub IsUnanswered : List (Request Q → Option R) → Type 0
  IsUnanswered fs = All (λ (f : Request Q → Option R). f req ≡ none) fs

  -- A filter answers, and those before it let the request pass.
  abbrev pub IsReply : R → List (Request Q → Option R) → Type 0
  IsReply r fs =
      (pre : List (Request Q → Option R)) × (f : Request Q → Option R) × (post : List
        (Request Q → Option R))
      × (fs ≡ pre ++ (f ∷ post))
      × IsUnanswered pre
      × (f req ≡ some r)

  -- The request reaches the routes.
  abbrev pub IsLetIn : Type 0
  IsLetIn = IsAdmitted router.auth × IsUnanswered router.filters

  -- Why a request is answered as it is.
  abbrev pub Explains : Outcome H R → Type 0
  Explains (replied r) =
      IsDenied r router.auth ⊎ (IsAdmitted router.auth × IsReply r router.filters)
  Explains (handled handler params) =
      IsLetIn × IsFirst router.strict_slash req.method req.path router.routes handler params
  Explains (not_allowed handler allow) =
      IsLetIn
      × (handler ≡ router.method_not_allowed)
      × All (λ r. serves router.strict_slash req.method req.path r ≡ false) router.routes
      × (any (matches router.strict_slash req.method req.path) router.routes ≡ true)
      × ((m : Method)
          → contains allow m ≡ any (offers router.strict_slash req.method req.path m) router.routes)
  Explains (missing handler) =
      IsLetIn
      × (handler ≡ router.not_found)
      × (any (matches router.strict_slash req.method req.path) router.routes ≡ false)

  admitted :
      (auth : Option (Request Q → Option R)) → authenticate router req auth ≡ none → IsAdmitted auth
  admitted none e = tt
  admitted (some auth) e = e

  denied :
      (r : R) (auth : Option (Request Q → Option R))
      → authenticate router req auth ≡ some r
      → IsDenied r auth
  denied r none e = absurd cc
  denied r (some auth) e = e

  first_reply-none :
      (fs : List (Request Q → Option R)) → first_reply router req fs ≡ none → IsUnanswered fs
  unfolding first_reply
  first_reply-none [] e = tt
  first_reply-none (f ∷ fs) e = elim (Option-cases (f req)) [
    | inl passed ↦ (passed, first_reply-none fs (rw passed at e))
    | inr (r, answered) ↦ let clash : some r ≡ none = rw answered at e in absurd cc
  ]

  first_reply-some :
      (r : R) (fs : List (Request Q → Option R)) → first_reply router req fs ≡ some r → IsReply r fs
  unfolding first_reply
  first_reply-some r [] e = absurd cc
  first_reply-some r (f ∷ fs) e = elim (Option-cases (f req)) [
    | inl passed ↦
        let (pre, g, post, same, before, answered) = first_reply-some r fs (rw passed at e) in
        (f ∷ pre, g, post, ap (λ l. f ∷ l) same, (passed, before), answered)
    | inr (r', answered) ↦
        let here : some r' ≡ some r = rw answered at e in ([], f, fs, refl, tt, answered ∙ here)
  ]

  abbrev found_all : Found H
  found_all = consider_all router.strict_slash req.method req.path fresh router.routes

  conclude-Explains : IsLetIn → Explains (conclude router req found_all)
  unfolding conclude contains
  conclude-Explains free =
      let s = router.strict_slash in
      let picked = consider_all_chosen s req.method req.path fresh router.routes in
      let seen = consider_all_exists s req.method req.path fresh router.routes in
      elim (Option-cases found_all.chosen) [
        | inr ((handler, params), e) ↦
            rw (e, conclude)
              (
                free,
                first_answer-IsFirst s req.method req.path router.routes handler params
                    (sym picked ∙ e),
              )
        | inl e ↦ elim (Bool-cases found_all.path_exists) [
          | inl there ↦
              rw (e, there, conclude)
                (
                  free,
                  refl,
                  first_answer-none s req.method req.path router.routes (sym picked ∙ e),
                  sym seen ∙ there,
                  λ m. consider_all_allowed s req.method req.path fresh router.routes m,
                )
          | inr absent ↦ rw (e, absent, conclude) (free, refl, sym seen ∙ absent)
        ]
      ]

-- Every way to answer a request has its reason. A reply comes from the authenticator, or, if there is
-- none or it lets the request pass, from the first filter that answers. Any other outcome means that
-- the authenticator and every filter let the request pass. A handler then runs for the first route
-- that serves the request: it is visible under the trailing-slash policy, matches the path and lists
-- the method; it is given the parameters of that match. A 405 means that some route is for the path
-- and none serves the request, and its `Allow` list holds exactly the methods that the routes for the
-- path list. A 404 means that no route is for the path.
pub core_dispatch-Explains :
    {H Q R : Type 0} (router : Router H Q R) (req : Request Q)
    → Explains router req (core_dispatch router req)
unfolding core_dispatch
core_dispatch-Explains router req = elim (Option-cases (authenticate router req router.auth)) [
  | inr (r, e) ↦ rw (e, core_dispatch) (inl (denied router req r router.auth e))
  | inl passed ↦
      let admission = admitted router req router.auth passed in
      elim (Option-cases (first_reply router req router.filters)) [
        | inr (r, e) ↦
            rw (passed, e, core_dispatch)
              (inr (admission, first_reply-some router req r router.filters e))
        | inl free ↦
            rw (passed, free, core_dispatch)
              (conclude-Explains router req
                (admission, first_reply-none router req router.filters free))
      ]
]
