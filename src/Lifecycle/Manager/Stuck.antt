-- ===== src/Lifecycle/Manager/Stuck.antt =====
-- Runs of `start_all` with a component that was left in the middle of its start.
use ferroly.Base.{
  ℕ, ◌≡◌, inl, inr, refl, ◌∙◌, subst, false, List, [], ◌∷◌, some, ◌==◌, ==_iff, Bool-cases,
  Option-cases,
}
use ferroly.Lifecycle.Graph.{Topo, sorted, cyclic, out_of_fuel, contains, topo_order}
use ferroly.Lifecycle.Manager.{
  running, starting, Answer, Outcome, start_call, Call, Manager, transition, is_claimed, log, each,
  ordered, start_one, start_all, start_all_with_timeout,
}
use ferroly.Lifecycle.Manager.Runs.{transition_other, settle_other}
use ferroly.Lifecycle.Manager.Starts.{each_Post}

IsStuck : ℕ → Manager → Type 0
IsStuck id m = m.watchers id ≡ some starting

ordered_keeps :
    (id : ℕ) (t : Topo) (m : Manager) (f : List ℕ → Manager → Outcome × Manager)
    → IsStuck id m
    → ((order : List ℕ) → IsStuck id (f order m).1)
    → IsStuck id (ordered t m f).1
ordered_keeps id (sorted order) m f h k = k order
ordered_keeps id (cyclic stuck) m f h k = h
ordered_keeps id out_of_fuel m f h k = h

module _ (on_start on_stop : List Call → ℕ → Answer) (id : ℕ) where
  -- On the stuck component the start does nothing; on another one it does not touch it.
  start_one_same : (m : Manager) → IsStuck id m → IsStuck id (start_one on_start on_stop id m).1
  unfolding start_one IsStuck
  start_one_same m h = elim (Bool-cases (contains id m.components)) [
    | inr out ↦ rw out h
    | inl here ↦ rw (here, h) h
  ]

  start_one_other :
      (k : ℕ) (m : Manager)
      → (id == k) ≡ false
      → (start_one on_start on_stop k m).1.watchers id ≡ m.watchers id
  unfolding start_one
  start_one_other k m apart = elim (Bool-cases (contains k m.components)) [
    | inr out ↦ rw out refl
    | inl here ↦ elim (Option-cases (m.watchers k)) [
      | inl gone ↦ rw (here, gone) refl
      | inr (s, there) ↦ elim (Bool-cases (is_claimed s)) [
        | inl claimed ↦ rw (here, there, claimed) refl
        | inr free ↦
            rw (here, there, free)
              (settle_other running k (on_start m.calls k)
                  (log start_call k (transition k starting m)) id apart
                ∙ transition_other k starting m id apart)
      ]
    ]
  ]

  start_one_keeps :
      (k : ℕ) (m : Manager) → IsStuck id m → IsStuck id (start_one on_start on_stop k m).1
  unfolding IsStuck
  start_one_keeps k m h = elim (Bool-cases (id == k)) [
    | inl same ↦
        subst (λ j. (start_one on_start on_stop j m).1.watchers id ≡ some starting)
          ((==_iff id k).0 same) (start_one_same m h)
    | inr apart ↦ start_one_other k m apart ∙ h
  ]

  each_keeps :
      (order : List ℕ) (m : Manager)
      → IsStuck id m
      → IsStuck id (each (start_one on_start on_stop) order m).1
  unfolding each
  each_keeps [] m h = h
  each_keeps (k ∷ order) m h =
      let r = start_one on_start on_stop k m in
      each_Post (λ r. IsStuck id r.1) r.0 r.1 (each (start_one on_start on_stop) order r.1)
        (λ good. each_keeps order r.1 (start_one_keeps k m h)) (λ bad. start_one_keeps k m h)

  -- A component in the state `Starting`, where `start_all_with_timeout` leaves one that hangs, stays in it
  -- through every later `start_all` and `start_all_with_timeout`, whatever these return.
  pub start_all-stuck :
      (m : Manager)
      → m.watchers id ≡ some starting
      → ((start_all on_start on_stop m).1.watchers id ≡ some starting)
        × ((start_all_with_timeout on_start on_stop m).1.watchers id ≡ some starting)
  unfolding start_all start_all_with_timeout IsStuck
  start_all-stuck m h =
      let kept =
        ordered_keeps id (topo_order m.deps) m (each (start_one on_start on_stop)) h
          (λ order. each_keeps order m h) in
      (kept, kept)
