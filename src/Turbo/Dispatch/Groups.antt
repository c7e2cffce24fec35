-- ===== src/Turbo/Dispatch/Groups.antt =====
-- The filters of a group against the routes of the group.
use ferroly.Base.{
  ℕ, ◌≡◌, ◌≢◌, refl, ap, sym, subst, ◌∙◌, false, List, map, [], ◌∷◌, Option, none, arith,
}
use ferroly.Base.Bytes.{Bytes}
use ferroly.Turbo.Path.{parts}
use ferroly.Turbo.Path.Laws.{parts-slash, match_path_of_parts}
use ferroly.Turbo.Dispatch.Loop.{fresh}
use ferroly.Turbo.Dispatch.{
  Method, Route, Request, Router, scoped, starts_with, first_reply, Found, consider, consider_all,
  core_dispatch, conclude, authenticate,
}

starts_with_double :
    (c : ℕ) (prefix path : Bytes)
    → c ≢ b'/'
    → starts_with (b'/' ∷ b'/' ∷ path) (b'/' ∷ c ∷ prefix) ≡ false
unfolding starts_with
starts_with_double c prefix path h = ground arith

-- Without strict slashes, routing reads nothing of a path but its parts.
module _ {H : Type 0} (method : Method) (p q : Bytes) (same : parts p ≡ parts q) where
  consider_of_parts :
      (found : Found H) (r : Route H)
      → consider false method p found r ≡ consider false method q found r
  unfolding consider
  consider_of_parts found r = rw (match_path_of_parts r.segments p q same)

  consider_all_of_parts :
      (found : Found H) (rs : List (Route H))
      → consider_all false method p found rs ≡ consider_all false method q found rs
  unfolding consider_all
  consider_all_of_parts found [] = refl
  consider_all_of_parts found (r ∷ rs) =
      rw (consider_of_parts found r) (consider_all_of_parts (consider false method q found r) rs)

-- No filter under the prefix is asked.
module _ {H Q R : Type 0} (router : Router H Q R) (prefix : Bytes) (req : Request Q)
    (outside : starts_with req.path prefix ≡ false) where
  first_reply_skipped :
      (fs : List (Request Q → Option R)) → first_reply router req (map (scoped prefix) fs) ≡ none
  unfolding first_reply scoped
  first_reply_skipped [] = refl
  first_reply_skipped (f ∷ fs) = rw (outside, first_reply) (first_reply_skipped fs)

-- A request that nothing answers beforehand is routed.
core_dispatch_routed :
    {H Q R : Type 0} (router : Router H Q R) (req : Request Q)
    → authenticate router req router.auth ≡ none
    → first_reply router req router.filters ≡ none
    → core_dispatch router req
      ≡ conclude router req (
          consider_all router.strict_slash req.method req.path
            (record { chosen = none; path_exists = false; allowed = [] })
            router.routes)
unfolding core_dispatch
core_dispatch_routed router req a f = rw (a, f, core_dispatch)

-- A router without strict slashes and without an authenticator, whose filters are those of groups with
-- a prefix that begins with one slash: a request for the path with a second slash in front of it is
-- answered as if there were no filters, by the route that serves the path itself.
pub core_dispatch-unfiltered :
    {H Q R : Type 0} (router : Router H Q R) (c : ℕ) (prefix path : Bytes)
    (fs : List (Request Q → Option R)) (method : Method) (rest : Q)
    → router.strict_slash ≡ false
    → router.auth ≡ none
    → c ≢ b'/'
    → router.filters ≡ map (scoped (b'/' ∷ c ∷ prefix)) fs
    → core_dispatch router (record { method = method; path = b'/' ∷ b'/' ∷ path; rest = rest })
      ≡ core_dispatch
          (record router { filters = [] })
          (record { method = method; path = b'/' ∷ path; rest = rest })
unfolding conclude first_reply
core_dispatch-unfiltered {Q} router c prefix path fs method rest lenient unguarded head filters =
    let before : Request Q = record { method = method; path = b'/' ∷ b'/' ∷ path; rest = rest } in
    let plain : Request Q = record { method = method; path = b'/' ∷ path; rest = rest } in
    let skipped =
      first_reply_skipped router (b'/' ∷ c ∷ prefix) before (starts_with_double c prefix path head)
        fs in
    let same =
      subst
        (λ s.
          consider_all s method before.path fresh router.routes
          ≡ consider_all s method plain.path fresh router.routes)
        (sym lenient)
        (consider_all_of_parts method before.path plain.path (parts-slash plain.path) fresh
          router.routes) in
    core_dispatch_routed router before (ap (authenticate router before) unguarded)
      (ap (first_reply router before) filters ∙ skipped)
    ∙ ap (conclude router before) same
    ∙ sym (
        core_dispatch_routed (record router { filters = [] }) plain
          (ap (authenticate (record router { filters = [] }) plain) unguarded) refl)
