-- ===== src/Lifecycle/Manager/Starts.antt =====
-- Runs of `start_all`: which calls the components get, and in which states.
use mathlib.Core.List.{append_assoc}
use ferroly.Base.{
  ℕ, ◌<◌, ◌≡◌, ◌≢◌, inl, inr, refl, ap, sym, ◌∙◌, subst, true, false, List, [], ◌∷◌, ◌++◌, none,
  some, ◌==◌, ==_iff, Bool-cases, Option-cases, All, arith,
}
use ferroly.Lifecycle.Graph.{Deps, sorted, contains, topo_order}
use ferroly.Lifecycle.Graph.Count.{occ, occ-append}
use ferroly.Lifecycle.Graph.Degrees.{Depends}
use ferroly.Lifecycle.Graph.Orders.{IsOrdered, occ_nil, Sorts}
use ferroly.Lifecycle.Graph.Kahn.{topo_order-Sorts}
use ferroly.Lifecycle.Manager.{
  ComponentState, unknown, error, stopped, stopping, running, starting, Answer, done, failed, hung,
  Outcome, ok, err, blocked, start_call, Call, Manager, transition, is_claimed, log, settle, each,
  ordered, start_one, start_all,
}
use ferroly.Lifecycle.Manager.Runs.{moved, transition_self, transition_other, settle_other}

-- A start with all dependencies running.
unfoldable pub IsSafe : Deps → Call → Type 0
IsSafe deps c = c.which ≡ start_call → (d : ℕ) → Depends deps c.id d → c.states d ≡ some running

-- No component is left in the middle of its start.
abbrev pub IsFresh : Manager → Type 0
IsFresh m = (x : ℕ) → m.watchers x ≢ some starting

abbrev pub Watched : List ℕ → Manager → Type 0
Watched xs m = (x : ℕ) → 0 < occ x xs → m.watchers x ≢ none

-- What holds after a run: all calls are safe, and if it succeeds the components run.
unfoldable pub Started : Deps → List ℕ → Outcome × Manager → Type 0
Started deps names r =
    All (IsSafe deps) r.1.calls
    × (r.0 ≡ ok → (x : ℕ) → 0 < occ x names → r.1.watchers x ≡ some running)

claimed-running : (s : ComponentState) → is_claimed s ≡ true → s ≢ starting → s ≡ running
claimed-running unknown h fresh = absurd cc
claimed-running error h fresh = absurd cc
claimed-running stopped h fresh = absurd cc
claimed-running stopping h fresh = absurd cc
claimed-running running h fresh = refl
claimed-running starting h fresh = absurd (fresh refl)

pub each_Post :
    (P : Outcome × Manager → Type 0) (o : Outcome) (m : Manager) (rest : Outcome × Manager)
    → (o ≡ ok → P rest)
    → (o ≢ ok → P (o, m))
    → P (elim o [ ok ↦ rest | err e ↦ (err e, m) | blocked ↦ (blocked, m) ])
each_Post P ok m rest h k = h refl
each_Post P (err e) m rest h k = k (λ same. cc)
each_Post P blocked m rest h k = k (λ same. cc)

pub transition-calls :
    (id : ℕ) (new : ComponentState) (m : Manager) → (transition id new m).calls ≡ m.calls
unfolding transition
transition-calls id new m = elim (Option-cases (m.watchers id)) [
  | inl gone ↦ rw (transition, gone) refl
  | inr (s, there) ↦ rw (transition, there) refl
]

module _ (good : ComponentState) (id : ℕ) where
  pub settle-calls : (a : Answer) (m : Manager) → (settle good id a m).1.calls ≡ m.calls
  unfolding settle
  settle-calls done m = transition-calls id good m
  settle-calls failed m = transition-calls id error m
  settle-calls hung m = refl

  settle_runs :
      (a : Answer) (m : Manager) (s : ComponentState)
      → m.watchers id ≡ some s
      → (settle good id a m).0 ≡ ok
      → (settle good id a m).1.watchers id ≡ some good
  unfolding settle
  settle_runs done m s there h = transition_self id good m ∙ ap (moved good) there
  settle_runs failed m s there h = absurd cc
  settle_runs hung m s there h = absurd cc

  settle-some :
      (a : Answer) (m : Manager) (s : ComponentState)
      → m.watchers id ≡ some s
      → (settle good id a m).1.watchers id ≢ none
  unfolding settle
  settle-some done m s there gone =
      let e = sym (transition_self id good m ∙ ap (moved good) there) ∙ gone in absurd cc
  settle-some failed m s there gone =
      let e = sym (transition_self id error m ∙ ap (moved error) there) ∙ gone in absurd cc
  settle-some hung m s there gone = absurd cc

module _ (on_start on_stop : List Call → ℕ → Answer) (deps : Deps) where
  -- What one step does, from a manager where no start is under way.
  record IsStep (id : ℕ) (m : Manager) (r : Outcome × Manager) : Type 0 where
    safe :
        ((d : ℕ) → Depends deps id d → m.watchers d ≡ some running)
        → All (IsSafe deps) m.calls
        → All (IsSafe deps) r.1.calls
    runs : r.0 ≡ ok → m.watchers id ≢ none → r.1.watchers id ≡ some running
    keeps : (x : ℕ) → m.watchers x ≡ some running → r.1.watchers x ≡ some running
    fresh : r.0 ≡ ok → IsFresh r.1
    watched : (x : ℕ) → m.watchers x ≢ none → r.1.watchers x ≢ none

  called-IsStep :
      (id : ℕ) (m : Manager) (s : ComponentState)
      → m.watchers id ≡ some s
      → is_claimed s ≡ false
      → IsFresh m
      → (a : Answer)
      → IsStep id m (settle running id a (log start_call id (transition id starting m)))
  unfolding IsSafe
  called-IsStep id m s there free fresh a =
      let t = transition id starting m in
      let call : Call = record { which = start_call; id = id; states = t.watchers } in
      let claimed : t.watchers id ≡ some starting =
        transition_self id starting m ∙ ap (moved starting) there in
      let other : (x : ℕ) → m.watchers x ≡ some running → (x == id) ≡ false = λ x h.
        elim (Bool-cases (x == id)) [
          | inl same ↦
              let e : some s ≡ some running =
                sym there ∙ ap m.watchers (sym ((==_iff x id).0 same)) ∙ h in
              absurd cc
          | inr apart ↦ apart
        ] in
      let rest : (x : ℕ)
          → (x == id) ≡ false
          → (settle running id a (log start_call id t)).1.watchers x ≡ m.watchers x =
        λ x apart.
          settle_other running id a (log start_call id t) x apart
          ∙ transition_other id starting m x apart in
      record {
        safe = λ ready h.
            subst (All (IsSafe deps))
              (sym (
                settle-calls running id a (log start_call id t)
                ∙ ap (λ l. call ∷ l) (transition-calls id starting m)))
              (
                (λ is d dep.
                    transition_other id starting m d (other d (ready d dep)) ∙ ready d dep),
                h,
              );
        runs = λ good named. settle_runs running id a (log start_call id t) starting claimed good;
        keeps = λ x h. rest x (other x h) ∙ h;
        fresh = λ good x is. elim (Bool-cases (x == id)) [
          | inl same ↦
              let e : some running ≡ some starting =
                sym (settle_runs running id a (log start_call id t) starting claimed good)
                ∙ ap (settle running id a (log start_call id t)).1.watchers
                    (sym ((==_iff x id).0 same))
                ∙ is in
              absurd cc
          | inr apart ↦ fresh x (sym (rest x apart) ∙ is)
        ];
        watched = λ x named gone. elim (Bool-cases (x == id)) [
          | inl same ↦ settle-some running id a (log start_call id t) starting claimed (
              ap (settle running id a (log start_call id t)).1.watchers (sym ((==_iff x id).0 same))
              ∙ gone)
          | inr apart ↦ named (sym (rest x apart) ∙ gone)
        ];
      }

  start_one-IsStep :
      (id : ℕ) (m : Manager) → IsFresh m → IsStep id m (start_one on_start on_stop id m)
  unfolding start_one
  start_one-IsStep id m fresh = elim (Bool-cases (contains id m.components)) [
    | inr out ↦ rw out record {
      safe = λ ready h. h;
      runs = λ same. absurd cc;
      keeps = λ x h. h;
      fresh = λ same. absurd cc;
      watched = λ x h. h;
    }
    | inl here ↦ elim (Option-cases (m.watchers id)) [
      | inl gone ↦
          rw (here, gone)
            record {
              safe = λ ready h. h;
              runs = λ same named. absurd (named gone);
              keeps = λ x h. h;
              fresh = λ same. fresh;
              watched = λ x h. h;
            }
      | inr (s, there) ↦ elim (Bool-cases (is_claimed s)) [
        | inl claimed ↦
            rw (here, there, claimed)
              record {
                safe = λ ready h. h;
                runs = λ same named.
                    there ∙ ap some (claimed-running s claimed (λ e. fresh id (there ∙ ap some e)));
                keeps = λ x h. h;
                fresh = λ same. fresh;
                watched = λ x h. h;
              }
        | inr free ↦
            rw (here, there, free) (called-IsStep id m s there free fresh (on_start m.calls id))
      ]
    ]
  ]

  pub each-Started :
      (order : List ℕ) (names : List ℕ) (m : Manager)
      → IsOrdered deps names order
      → IsFresh m
      → Watched order m
      → All (IsSafe deps) m.calls
      → ((x : ℕ) → 0 < occ x names → m.watchers x ≡ some running)
      → Started deps (names ++ order) (each (start_one on_start on_stop) order m)
  unfolding each IsOrdered Started occ
  each-Started [] names m ordered fresh watched safe up =
      (safe, λ good x is. up x (omega (arith, occ-append x names [])))
  each-Started (id ∷ order) names m ordered fresh watched safe up =
      let r = start_one on_start on_stop id m in
      let step = start_one-IsStep id m fresh in
      let safe' = step.safe (λ d dep. up d (ordered.0 d dep)) safe in
      each_Post (Started deps (names ++ (id ∷ order))) r.0 r.1
        (each (start_one on_start on_stop) order r.1)
        (λ good.
          subst (λ l. Started deps l (each (start_one on_start on_stop) order r.1))
            (append_assoc names (id ∷ []) order)
            (each-Started order (names ++ (id ∷ [])) r.1 ordered.1 (step.fresh good)
              (λ x is. step.watched x (watched x (omega arith))) safe'
              (λ x is. elim (Bool-cases (x == id)) [
                | inl same ↦
                    subst (λ y. r.1.watchers y ≡ some running) (sym ((==_iff x id).0 same))
                      (step.runs good (watched id (ground arith)))
                | inr apart ↦ step.keeps x (up x (ground (arith, occ-append x names (id ∷ []))))
              ])))
        (λ bad. (safe', λ good. absurd (bad good)))

  -- When the dependencies can be ordered, every name of the order has a state, none is in the middle of
  -- its start and no call was made yet: `start_all` calls `start` only on components whose dependencies
  -- all run, and if it returns `Ok` every component of the order runs, whatever the components answer.
  pub start_all-Started :
      (m : Manager) (order : List ℕ)
      → m.deps ≡ deps
      → topo_order deps ≡ sorted order
      → IsFresh m
      → Watched order m
      → m.calls ≡ []
      → Started deps order (start_all on_start on_stop m)
  unfolding start_all Sorts
  start_all-Started m order same e fresh watched none_yet =
      let (nodes, names, sorts) = topo_order-Sorts deps in
      let sorts' : Sorts deps nodes (sorted order) = subst (Sorts deps nodes) e sorts in
      subst (λ t. Started deps order (ordered t m (each (start_one on_start on_stop))))
        (sym (ap topo_order same ∙ e))
        (each-Started order [] m sorts'.1 fresh watched
          (subst (All (IsSafe deps)) (sym none_yet) tt) (λ x is. absurd (omega (arith, occ_nil x))))
