-- ===== src/Lifecycle/Manager/Runs.antt =====
-- Runs of the manager: what starting and stopping everything leaves behind.
use ferroly.Base.{
  ℕ, ◌<◌, ◌≡◌, ◌⊎◌, inl, inr, refl, ap, sym, ◌∙◌, subst, true, false, List, [], ◌∷◌, Option, none,
  some, ◌==◌, ==_refl, ==_iff, if◌then◌else◌, Bool-cases, Option-cases, arith,
}
use ferroly.Lifecycle.Graph.{sorted, contains, topo_order}
use ferroly.Lifecycle.Graph.Count.{occ, occ-append}
use ferroly.Lifecycle.Graph.Built.{keys}
use ferroly.Lifecycle.Graph.Orders.{IsNames, Sorts}
use ferroly.Lifecycle.Graph.Kahn.{topo_order-Sorts}
use ferroly.Lifecycle.Manager.{
  ComponentState, unknown, error, stopped, stopping, running, starting, Answer, done, failed, hung,
  Outcome, ok, err, blocked, component_not_found, timeout, stop_call, Call, Manager, transition,
  is_idle, log, settle, reverse, ordered, with_timeout, stop_one, marked, sweep,
  stop_all_with_timeout,
}

-- What `transition` does to the states.
abbrev pub moved : ComponentState → Option ComponentState → Option ComponentState
moved new none = none
moved new (some s) = some new

transition-watchers :
    (id : ℕ) (new : ComponentState) (m : Manager) (x : ℕ)
    → (transition id new m).watchers x
      ≡ (if x == id then moved new (m.watchers id) else m.watchers x)
unfolding transition
transition-watchers id new m x = elim (Option-cases (m.watchers id)) [
  | inl gone ↦ rw (transition, gone) (grind (arith, gone))
  | inr (s, there) ↦ rw (transition, there) refl
]

settled : ComponentState → Answer → Option ComponentState → Option ComponentState
settled good done o = moved good o
settled good failed o = moved error o
settled good hung o = o

settle-watchers :
    (good : ComponentState) (id : ℕ) (a : Answer) (m : Manager) (x : ℕ)
    → (settle good id a m).1.watchers x
      ≡ (if x == id then settled good a (m.watchers id) else m.watchers x)
unfolding settle settled
settle-watchers good id done m x = transition-watchers id good m x
settle-watchers good id failed m x = transition-watchers id error m x
settle-watchers good id hung m x = grind arith

-- Nothing runs.
abbrev pub IsDown : Option ComponentState → Type 0
IsDown none = Unit
IsDown (some unknown) = Unit
IsDown (some error) = Unit
IsDown (some stopped) = Unit
IsDown (some stopping) = ⊥
IsDown (some running) = ⊥
IsDown (some starting) = ⊥

IsDown-moved_error : (o : Option ComponentState) → IsDown (moved error o)
IsDown-moved_error none = tt
IsDown-moved_error (some s) = tt

IsDown-moved_stopped : (o : Option ComponentState) → IsDown (moved stopped o)
IsDown-moved_stopped none = tt
IsDown-moved_stopped (some s) = tt

is_idle-IsDown : (s : ComponentState) → is_idle s ≡ true → IsDown (some s)
is_idle-IsDown unknown h = tt
is_idle-IsDown error h = tt
is_idle-IsDown stopped h = tt
is_idle-IsDown stopping h = absurd cc
is_idle-IsDown running h = absurd cc
is_idle-IsDown starting h = absurd cc

pub transition_self :
    (id : ℕ) (new : ComponentState) (m : Manager)
    → (transition id new m).watchers id ≡ moved new (m.watchers id)
transition_self id new m = transition-watchers id new m id ∙ rw (==_refl id) refl

pub transition_other :
    (id : ℕ) (new : ComponentState) (m : Manager) (x : ℕ)
    → (x == id) ≡ false
    → (transition id new m).watchers x ≡ m.watchers x
transition_other id new m x h = transition-watchers id new m x ∙ rw h refl

-- What one step of the sweep makes of the outcome of a component.
finish : ℕ → Outcome × Manager → Manager
finish id r = marked id (with_timeout (timeout id) r.0) r.1

marked_other :
    (id : ℕ) (o : Outcome) (m : Manager) (x : ℕ)
    → (x == id) ≡ false
    → (marked id o m).watchers x ≡ m.watchers x
marked_other id ok m x h = refl
marked_other id (err e) m x h = transition_other id error m x h
marked_other id blocked m x h = transition_other id error m x h

finish-settle :
    (id : ℕ) (a : Answer) (m : Manager) → IsDown ((finish id (settle stopped id a m)).watchers id)
unfolding finish settle
finish-settle id done m =
    subst IsDown (sym (transition_self id stopped m)) (IsDown-moved_stopped (m.watchers id))
finish-settle id failed m =
    subst IsDown (sym (transition_self id error (transition id error m)))
      (IsDown-moved_error ((transition id error m).watchers id))
finish-settle id hung m =
    subst IsDown (sym (transition_self id error m)) (IsDown-moved_error (m.watchers id))

pub settle_other :
    (good : ComponentState) (id : ℕ) (a : Answer) (m : Manager) (x : ℕ)
    → (x == id) ≡ false
    → (settle good id a m).1.watchers x ≡ m.watchers x
settle_other good id a m x h = settle-watchers good id a m x ∙ rw h refl

module _ (on_start on_stop : List Call → ℕ → Answer) where
  -- The ways of `stop_one`.
  Stops : ℕ → Manager → Outcome × Manager → Type 0
  Stops id m r =
      (r ≡ (err (component_not_found id), m))
      ⊎ ((r ≡ (ok, m)) × IsDown (m.watchers id))
      ⊎ (r ≡ settle stopped id (on_stop m.calls id) (log stop_call id (transition id stopping m)))

  stop_one-Stops : (id : ℕ) (m : Manager) → Stops id m (stop_one on_start on_stop id m)
  unfolding stop_one Stops
  stop_one-Stops id m = elim (Bool-cases (contains id m.components)) [
    | inr out ↦ rw out (inl refl)
    | inl here ↦ elim (Option-cases (m.watchers id)) [
      | inl gone ↦ rw (here, gone) (inr (inl (refl, tt)))
      | inr (s, there) ↦ elim (Bool-cases (is_idle s)) [
        | inl idle ↦ rw (here, there, idle) (inr (inl (refl, is_idle-IsDown s idle)))
        | inr busy ↦ rw (here, there, busy) (inr (inr refl))
      ]
    ]
  ]

  stop_one_other :
      (id : ℕ) (m : Manager) (x : ℕ)
      → (x == id) ≡ false
      → (stop_one on_start on_stop id m).1.watchers x ≡ m.watchers x
  unfolding Stops
  stop_one_other id m x h = elim (stop_one-Stops id m) [
    | inl e ↦ ap (λ r. r.1.watchers x) e
    | inr (inl (e, down)) ↦ ap (λ r. r.1.watchers x) e
    | inr (inr e) ↦
        ap (λ r. r.1.watchers x) e
        ∙ settle_other stopped id (on_stop m.calls id) (log stop_call id (transition id stopping m))
            x h
        ∙ transition_other id stopping m x h
  ]

  abbrev swept : ℕ → Manager → Manager
  swept id m = finish id (stop_one on_start on_stop id m)

  swept-IsDown : (id : ℕ) (m : Manager) → IsDown ((swept id m).watchers id)
  unfolding Stops finish
  swept-IsDown id m = elim (stop_one-Stops id m) [
    | inl e ↦
        subst (λ r. IsDown ((finish id r).watchers id)) (sym e)
          (subst IsDown (sym (transition_self id error m)) (IsDown-moved_error (m.watchers id)))
    | inr (inl (e, down)) ↦ subst (λ r. IsDown ((finish id r).watchers id)) (sym e) down
    | inr (inr e) ↦
        subst (λ r. IsDown ((finish id r).watchers id)) (sym e)
          (finish-settle id (on_stop m.calls id) _)
  ]

  swept_keeps :
      (id : ℕ) (m : Manager) (x : ℕ) → IsDown (m.watchers x) → IsDown ((swept id m).watchers x)
  unfolding finish
  swept_keeps id m x down = elim (Bool-cases (x == id)) [
    | inl same ↦
        subst (λ y. IsDown ((swept id m).watchers y)) (sym ((==_iff x id).0 same))
          (swept-IsDown id m)
    | inr other ↦
        subst IsDown
          (sym (
            marked_other id (with_timeout (timeout id) (stop_one on_start on_stop id m).0)
              (stop_one on_start on_stop id m).1 x other
            ∙ stop_one_other id m x other))
          down
  ]

  sweep_keeps :
      (ids : List ℕ) (m : Manager) (x : ℕ)
      → IsDown (m.watchers x)
      → IsDown ((sweep on_start on_stop ids m).1.watchers x)
  unfolding sweep finish
  sweep_keeps [] m x down = down
  sweep_keeps (id ∷ ids) m x down = sweep_keeps ids (swept id m) x (swept_keeps id m x down)

  sweep-IsDown :
      (ids : List ℕ) (m : Manager) (x : ℕ)
      → 0 < occ x ids
      → IsDown ((sweep on_start on_stop ids m).1.watchers x)
  unfolding sweep finish occ
  sweep-IsDown [] m x is = absurd (omega arith)
  sweep-IsDown (id ∷ ids) m x is = elim (Bool-cases (x == id)) [
    | inl same ↦ sweep_keeps ids (swept id m) x (
        subst (λ y. IsDown ((swept id m).watchers y)) (sym ((==_iff x id).0 same))
          (swept-IsDown id m))
    | inr other ↦ sweep-IsDown ids (swept id m) x (ground arith)
  ]

  occ-reverse : (x : ℕ) (xs : List ℕ) → occ x (reverse xs) ≡ occ x xs
  unfolding occ
  occ-reverse x [] = refl
  occ-reverse x (y ∷ xs) = omega (arith, occ-append x (reverse xs) (y ∷ []), occ-reverse x xs)

  -- When the dependencies can be ordered, `stop_all_with_timeout` leaves no registered component running,
  -- starting or stopping, whatever the components answer and even if they hang.
  pub stop_all_with_timeout-IsDown :
      (m : Manager) (order : List ℕ) (x : ℕ)
      → topo_order m.deps ≡ sorted order
      → 0 < occ x (keys m.deps)
      → IsDown ((stop_all_with_timeout on_start on_stop m).1.watchers x)
  unfolding stop_all_with_timeout IsNames Sorts
  stop_all_with_timeout-IsDown m order x e named =
      let (nodes, names, sorts) = topo_order-Sorts m.deps in
      let sorts' : Sorts m.deps nodes (sorted order) = subst (Sorts m.deps nodes) e sorts in
      subst (λ t. IsDown ((ordered t m (λ o. sweep on_start on_stop (reverse o))).1.watchers x))
        (sym e)
        (sweep-IsDown (reverse order) m x
          (omega (arith, occ-reverse x order, sorts'.0 x, names.1 x named)))
