-- ===== src/Orchestrator/Graph/Run.antt =====
-- A run ends: within its guard, whatever the nodes answer, and without an error on a complete graph.
use future_bi.Base.{
  ℕ, zero, suc, ◌+◌, ◌-◌, ◌≤◌, ◌<◌, max, String, ◌≡◌, ◌⊎◌, inl, inr, Bool-cases, refl, true, false,
  Option, none, some, arith, ltb, str_eq, is_some, Option-cases, ltb-false→le,
}
use future_bi.Base.Dict.{lookup}
use future_bi.Orchestrator.State.{AgentState}
use future_bi.Orchestrator.Graph.{
  StateGraph, Edge, follow, end_of, NodeFn, Result, ok, err, node_raised, route, call, tick,
  is_clarify, loop, run, resume, fuel_for, run_limit, mark, resume_limit, merge_reply, start_node,
  route_unless_clarify,
}

-- a node raises an exception of a given kind
abbrev pub Raises : {A : Type 0} → (String → Type 0) → Result A → Type 0
Raises kind o = (e : String) × (o ≡ err (node_raised e)) × kind e

module _ {J : Type 0} where
  -- a place that the loop can go on from: the end, or a node of the graph
  abbrev pub IsTarget : StateGraph J → Option String → Type 0
  IsTarget g none = Unit
  IsTarget g (some name) = (str_eq name "END" ≡ true) ⊎ (is_some (lookup name g.nodes) ≡ true)

  -- Each node returns a state with the iteration count as it was, from which the graph knows where to go,
  -- or raises an exception of the kind.
  pub record IsComplete (kind : String → Type 0) (g : StateGraph J) : Type 0 where
    pub next_state :
        (name : String) (fn : NodeFn J) (s : AgentState J)
        → lookup name g.nodes ≡ some fn
        → ((s' : AgentState J) × (fn s ≡ ok s')
            × (s'.iteration ≡ s.iteration)
            × (next : Option String) × (route g.edges name s' ≡ ok next)
            × IsTarget g next)
          ⊎ Raises kind (fn s)

  -- a run that returns a state with a bounded count, or raises an exception of the kind
  abbrev pub Ended : (String → Type 0) → ℕ → Result (StateGraph J × AgentState J) → Type 0
  Ended kind n o =
      ((g : StateGraph J) × (s : AgentState J) × (o ≡ ok (g, s)) × (s.iteration ≤ n))
      ⊎ Raises kind o

  registered :
      (g : StateGraph J) (name : String)
      → IsTarget g (some name)
      → str_eq name "END" ≡ false
      → (fn : NodeFn J) × (lookup name g.nodes ≡ some fn)
  registered g name target node = elim (Option-cases (lookup name g.nodes)) [
    | inl missing ↦ absurd (ground arith)
    | inr found ↦ found
  ]

  call-found :
      (g : StateGraph J) (name : String) (s : AgentState J) {fn : NodeFn J}
      → lookup name g.nodes ≡ some fn
      → call g name s ≡ fn s
  call-found g name s found = ground arith

  loop_total :
      (kind : String → Type 0) (at_limit : AgentState J → AgentState J)
      (at_clarify : String → StateGraph J → StateGraph J) (fuel : ℕ) (g : StateGraph J)
      (current : Option String) (s : AgentState J)
      → IsComplete kind g
      → ((u : AgentState J) → (at_limit u).iteration ≡ u.iteration)
      → IsTarget g current
      → g.max_iterations - s.iteration < fuel
      → Ended kind
          (max g.max_iterations s.iteration + 1)
          (loop at_limit at_clarify fuel g current s)
  unfolding loop route_unless_clarify
  loop_total kind at_limit at_clarify fuel g none s complete same target enough =
      inl (g, s, refl, omega arith)
  loop_total kind at_limit at_clarify zero g (some current) s complete same target enough =
      absurd (omega arith)
  loop_total kind at_limit at_clarify (suc fuel) g (some current) s complete same target enough =
      elim (Bool-cases (str_eq current "END")) [
        | inl ended ↦ inl (g, s, rw ended, omega arith)
        | inr node ↦ elim (Bool-cases (ltb g.max_iterations (s.iteration + 1))) [
          | inl over ↦ inl (g, at_limit (tick s), rw (node, over), omega (arith, same (tick s)))
          | inr within ↦
              rw (node, within)
                (let (fn, found) = registered g current target node in
                  elim (complete.next_state current fn (tick s) found) [
                    | inr (e, thrown, known) ↦
                        inr (e, rw (call-found g current (tick s) found, thrown) refl, known)
                    | inl (s', ran, same_count, next, routed, onward) ↦
                        elim (Bool-cases (is_clarify s'.phase)) [
                          | inl asks ↦ inl (
                            at_clarify current g,
                            s',
                            rw (call-found g current (tick s) found, ran)
                                (rw (asks, route_unless_clarify)),
                            omega (arith, ltb-false→le _ _ within),
                          )
                          | inr goes ↦
                              elim (loop_total kind at_limit at_clarify fuel g next s' complete same
                                onward (omega (arith, ltb-false→le _ _ within))) [
                                  | inl (g', u, looped, bound) ↦ inl (
                                    g',
                                    u,
                                    rw (call-found g current (tick s) found, ran)
                                        (rw (goes, route_unless_clarify) (rw routed looped)),
                                    omega (arith, ltb-false→le _ _ within),
                                  )
                                  | inr (e, thrown, known) ↦ inr (
                                    e,
                                    rw (call-found g current (tick s) found, ran)
                                        (rw (goes, route_unless_clarify) (rw routed thrown)),
                                    known,
                                  )
                                ]
                        ]
                  ])
        ]
      ]

  run-entry :
      (g : StateGraph J) (entry : String) (s : AgentState J)
      → g.entry ≡ some entry
      → run g s ≡ loop run_limit mark (fuel_for g s) g (some entry) s
  unfolding run
  run-entry g entry s starts = ground arith

  -- On a complete graph with an entry node a run returns a state, however often the nodes ask for
  -- another round, or raises an exception of the kind: at most one iteration past the guard is counted.
  pub run_total :
      (kind : String → Type 0) (g : StateGraph J) (entry : String) (s : AgentState J)
      → IsComplete kind g
      → g.entry ≡ some entry
      → is_some (lookup entry g.nodes) ≡ true
      → Ended kind (max g.max_iterations s.iteration + 1) (run g s)
  unfolding run_limit
  run_total kind g entry s complete starts known = rw (run-entry g entry s starts) (
      loop_total kind run_limit mark (fuel_for g s) g (some entry) s complete (λ u. refl)
        (inr known) (omega arith))

  -- So does the resumption of a run that asked for clarification, from a node with a way out.
  pub resume_total :
      (kind : String → Type 0) (g : StateGraph J) (start : String) (s : AgentState J)
      (next : Option String)
      → IsComplete kind g
      → is_clarify s.phase ≡ true
      → start_node g g.interrupted_at ≡ some start
      → route g.edges start (merge_reply s s.human_reply) ≡ ok next
      → IsTarget g next
      → Ended kind (max g.max_iterations (merge_reply s s.human_reply).iteration + 1) (resume g s)
  unfolding resume resume_limit
  resume_total kind g start s next complete asks starts routed target =
      rw (asks, starts)
        (rw routed (
          loop_total kind resume_limit (λ _ h. h) (fuel_for g (merge_reply s s.human_reply)) g next
            (merge_reply s s.human_reply) complete (λ u. refl) target (omega arith)))

  pub follow-mapped :
      (e : Edge J) (s : AgentState J) (router : AgentState J → String) {target : String}
      → lookup (router s) e.route_map ≡ some target
      → str_eq target "END" ≡ false
      → follow e s (some router) ≡ ok (some target)
  unfolding follow end_of
  follow-mapped e s router mapped inner = ground arith
