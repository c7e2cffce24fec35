-- ===== src/Lifecycle/Manager/Closed.antt =====
-- Runs of `start`: a component and what it depends on.
use ferroly.Base.{
  ℕ, ◌<◌, ◌≡◌, inl, inr, refl, ap, sym, ◌∙◌, subst, Bool, true, false, List, [], ◌∷◌, ◌++◌, some,
  ◌==◌, ==_iff, Bool-cases, Option-cases, All, arith,
}
use ferroly.Lifecycle.Graph.{Deps, sorted, contains, filter, topo_order}
use ferroly.Lifecycle.Graph.Count.{occ, occ-append, occ-filter, contains-occ}
use ferroly.Lifecycle.Graph.Degrees.{Depends}
use ferroly.Lifecycle.Graph.Built.{keys}
use ferroly.Lifecycle.Graph.Orders.{IsOrdered, occ_nil, IsNames, Sorts}
use ferroly.Lifecycle.Graph.Kahn.{topo_order-Sorts}
use ferroly.Lifecycle.Graph.Closure.{dependency_closure}
use ferroly.Lifecycle.Graph.Closure.Steps.{HasKeys}
use ferroly.Lifecycle.Graph.Closure.Reach.{Reaches, IsClosure, dependency_closure-IsClosure}
use ferroly.Lifecycle.Manager.{
  ComponentState, starting, running, Answer, ok, start_call, Call, Manager, is_claimed, transition,
  log, each, ordered, start_one,
}
use ferroly.Lifecycle.Manager.Single.{within, start_order_for, already, start}
use ferroly.Lifecycle.Manager.Starts.{
  IsSafe, IsFresh, Watched, Started, transition-calls, settle-calls, each_Post, each-Started,
}

filter-IsOrdered :
    (deps : Deps) (p : ℕ → Bool)
    → ((n d : ℕ) → p n ≡ true → Depends deps n d → p d ≡ true)
    → (done names order : List ℕ) → ((x : ℕ) → p x ≡ true → 0 < occ x done → 0 < occ x names)
    → IsOrdered deps done order
    → IsOrdered deps names (filter p order)
unfolding IsOrdered filter occ
filter-IsOrdered deps p closed done names [] inside h = tt
filter-IsOrdered deps p closed done names (n ∷ order) inside h = elim (Bool-cases (p n)) [
  | inl kept ↦
      rw (filter, kept)
        (
          (λ d dep. inside d (closed n d kept dep) (h.0 d dep)),
          filter-IsOrdered deps p closed (done ++ (n ∷ [])) (names ++ (n ∷ [])) order
              (λ x is there.
                grind (arith, inside x is, occ-append x done (n ∷ []), occ-append x names (n ∷ [])))
              h.1,
        )
  | inr dropped ↦
      rw (filter, dropped)
        (filter-IsOrdered deps p closed (done ++ (n ∷ [])) names order
          (λ x is there. elim (Bool-cases (x == n)) [
            | inl same ↦
                absurd (let e : p n ≡ true = subst (λ y. p y ≡ true) ((==_iff x n).0 same) is in cc)
            | inr apart ↦ inside x is (ground (arith, occ-append x done (n ∷ [])))
          ])
          h.1)
]

module _ (on_start on_stop : List Call → ℕ → Answer) (P : ℕ → Type 0) where
  -- A call of `start` on a component that satisfies `P`.
  abbrev IsStart : Call → Type 0
  IsStart c = (c.which ≡ start_call) × P c.id

  start_one-IsStart :
      (id : ℕ) (m : Manager)
      → P id
      → All IsStart m.calls
      → All IsStart (start_one on_start on_stop id m).1.calls
  unfolding start_one
  start_one-IsStart id m is h = elim (Bool-cases (contains id m.components)) [
    | inr out ↦ rw out h
    | inl here ↦ elim (Option-cases (m.watchers id)) [
      | inl gone ↦ rw (here, gone) h
      | inr (s, there) ↦ elim (Bool-cases (is_claimed s)) [
        | inl claimed ↦ rw (here, there, claimed) h
        | inr free ↦
            let t = transition id starting m in
            let call : Call = record { which = start_call; id = id; states = t.watchers } in
            rw (here, there, free)
              (subst (All IsStart)
                (sym (
                  settle-calls running id (on_start m.calls id) (log start_call id t)
                  ∙ ap (λ l. call ∷ l) (transition-calls id starting m)))
                ((refl, is), h))
      ]
    ]
  ]

  each-IsStart :
      (order : List ℕ) (m : Manager)
      → ((x : ℕ) → 0 < occ x order → P x)
      → All IsStart m.calls
      → All IsStart (each (start_one on_start on_stop) order m).1.calls
  unfolding each occ
  each-IsStart [] m is h = h
  each-IsStart (id ∷ order) m is h =
      let r = start_one on_start on_stop id m in
      let one = start_one-IsStart id m (is id (ground arith)) h in
      each_Post (λ run. All IsStart run.1.calls) r.0 r.1
        (each (start_one on_start on_stop) order r.1)
        (λ good. each-IsStart order r.1 (λ x there. is x (omega arith)) one) (λ bad. one)

module _ (on_start on_stop : List Call → ℕ → Answer) (deps : Deps) (set : HasKeys deps) where
  reached_named :
      (nodes : List ℕ) (id x : ℕ)
      → IsNames deps nodes
      → 0 < occ id (keys deps)
      → Reaches (Depends deps) id x
      → 0 < occ x nodes
  unfolding IsNames
  reached_named nodes id x names key Reaches.start = names.1 id key
  reached_named nodes id x names key (Reaches.step y d r is) = names.2 y d is

  closed_all :
      (id : ℕ) (all : List ℕ)
      → IsClosure (Depends deps) id all
      → (n d : ℕ) → contains n all ≡ true
      → Depends deps n d
      → contains d all ≡ true
  closed_all id all closure n d is dep =
      let reach : Reaches (Depends deps) id n =
        (closure n).0 (ground (arith, contains-occ n all)) in
      let there : 0 < occ d all = (closure d).1 (Reaches.step n d reach dep) in
      ground (arith, contains-occ d all)

  start-each :
      (m : Manager) (order : List ℕ) (id : ℕ) (s : ComponentState) (all : List ℕ)
      → m.deps ≡ deps
      → topo_order deps ≡ sorted order
      → dependency_closure deps id ≡ some all
      → m.watchers id ≡ some s
      → already s ≡ false
      → start on_start on_stop id m
        ≡ each (start_one on_start on_stop) (filter (λ n. contains n all) order) m
  unfolding start start_order_for
  start-each m order id s all same e ec there free =
      rw (start, there, free)
        (ap (λ t. ordered t m (each (start_one on_start on_stop)))
          (ap (λ l. start_order_for l id) same
            ∙ ap (λ c. within c (topo_order deps)) ec
            ∙ ap (within (some all)) e))

  -- For a map with different keys that can be ordered, with the whole order registered, no start under
  -- way and no call made yet: `start` of a registered component that does not run makes no other calls
  -- than of `start` on that component and on those that it depends on in some steps, each at a time when
  -- all dependencies of the called component run; and if it returns `Ok`, the component and all that it
  -- depends on in some steps run, whatever the components answer.
  pub start-Started :
      (m : Manager) (order : List ℕ) (id : ℕ) (s : ComponentState)
      → m.deps ≡ deps
      → topo_order deps ≡ sorted order
      → IsFresh m
      → Watched order m
      → m.calls ≡ []
      → 0 < occ id (keys deps)
      → m.watchers id ≡ some s
      → already s ≡ false
      → All (IsSafe deps) (start on_start on_stop id m).1.calls
        × All
            (λ c. (c.which ≡ start_call) × Reaches (Depends deps) id c.id)
            (start on_start on_stop id m).1.calls
        × ((start on_start on_stop id m).0 ≡ ok
            → (x : ℕ) → Reaches (Depends deps) id x
            → (start on_start on_stop id m).1.watchers x ≡ some running)
  unfolding Started Sorts
  start-Started m order id s same e fresh watched none_yet key there free =
      let (nodes, names, sorts) = topo_order-Sorts deps in
      let sorts' : Sorts deps nodes (sorted order) = subst (Sorts deps nodes) e sorts in
      let (all, ec, closure) = dependency_closure-IsClosure deps id set in
      let in_all : ℕ → Bool = λ n. contains n all in
      let kept = filter in_all order in
      let run = each (start_one on_start on_stop) kept m in
      let started : Started deps kept run =
        each-Started on_start on_stop deps kept [] m
          (filter-IsOrdered deps in_all (closed_all id all closure) [] [] order (λ x is h. h)
            sorts'.1)
          fresh (λ x is. watched x (ground (arith, occ-filter in_all x order)))
          (subst (All (IsSafe deps)) (sym none_yet) tt)
          (λ x is. absurd (omega (arith, occ_nil x))) in
      subst
        (λ r.
          All (IsSafe deps) r.1.calls
          × All (λ c. (c.which ≡ start_call) × Reaches (Depends deps) id c.id) r.1.calls
          × (r.0 ≡ ok → (x : ℕ) → Reaches (Depends deps) id x → r.1.watchers x ≡ some running))
        (sym (start-each m order id s all same e ec there free))
        (
          started.0,
          each-IsStart on_start on_stop (Reaches (Depends deps) id) kept m
              (λ x is.
                (closure x).0 (ground (arith, occ-filter in_all x order, contains-occ x all)))
              (subst (All (IsStart on_start on_stop (Reaches (Depends deps) id))) (sym none_yet)
                tt),
          λ good x reach. started.1 good x (
              ground (
                arith,
                occ-filter in_all x order,
                contains-occ x all,
                (closure x).1 reach,
                sorts'.0 x,
                reached_named nodes id x names key reach,
              )),
        )
