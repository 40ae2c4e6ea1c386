-- ===== src/Orchestrator/Graph.antt =====
-- core/orchestrator/graph.py, `StateGraph`: nodes, edges, the run loop with its iteration guard, and
-- the resumption of an interrupted run. A node may raise; logs and events are left out.
pub mod Run
use Prim.Native.String.{◌++◌ as str_append}
use future_bi.Base.{
  ℕ, zero, suc, ◌+◌, ◌-◌, String, Bool, true, false, Option, none, some, List, [], ◌∷◌, ◌++◌, ltb,
  is_some, not, ◌&&◌, str_eq, if◌then◌else◌,
}
use future_bi.Base.Dict.{Dict, lookup, insert}
use future_bi.Base.Text.{is_nonempty, strip}
use future_bi.Orchestrator.State.{AgentState, Phase}

-- `GraphError` by its messages, the `KeyError` of an unknown node, and what a node raises.
pub data Error : Type 0 where
  reserved_name duplicate_node unknown_entry unknown_target : String → Error
  no_entry : Error
  unmapped_key no_out_edge : String → Error
  not_clarify : Phase → Error
  unknown_node : String → Error
  node_raised : String → Error

pub data Result (A : Type 0) : Type 0 where
  ok : A → Result A
  err : Error → Result A
  -- the model's own: the fuel of a loop ran out
  stuck : Result A

infixl 5 ◌>>=◌
abbrev pub ◌>>=◌ : {A B : Type 0} → Result A → (A → Result B) → Result B
ok a >>= f = f a
err e >>= f = err e
stuck >>= f = stuck

abbrev pub NodeFn : Type 0 → Type 0
NodeFn J = AgentState J → Result (AgentState J)

pub record Edge (J : Type 0) : Type 0 where
  pub from_node : String
  pub to_node : Option String
  pub router : Option (AgentState J → String)
  pub route_map : Dict String

pub record StateGraph (J : Type 0) : Type 0 where
  pub nodes : Dict (NodeFn J)
  pub edges : List (Edge J)
  pub entry : Option String
  pub max_iterations : ℕ
  pub interrupted_at : Option String

-- `None if target == "END" else target`
unfoldable pub end_of : String → Option String
end_of target = if str_eq target "END" then none else some target

abbrev pub is_clarify : Phase → Bool
is_clarify p = elim p [ Phase.clarify ↦ true | _ ↦ false ]

abbrev pub limit_note : String
limit_note = "\n[编排器] 迭代步数超限，强制终止。"

module _ {J : Type 0} where
  unfoldable pub init : ℕ → StateGraph J
  init max_iterations = record {
    nodes = [];
    edges = [];
    entry = none;
    max_iterations = max_iterations;
    interrupted_at = none;
  }

  unfoldable pub add_node : StateGraph J → String → NodeFn J → Result (StateGraph J)
  add_node g name fn =
      if str_eq name "END"
      then err (reserved_name name)
      else if is_some (lookup name g.nodes)
      then err (duplicate_node name)
      else ok (record g { nodes = insert name fn g.nodes })

  unfoldable pub set_entry : StateGraph J → String → Result (StateGraph J)
  set_entry g name =
      if is_some (lookup name g.nodes)
      then ok (record g { entry = some name })
      else err (unknown_entry name)

  -- a target that no node and no end of the graph has
  abbrev pub is_unknown : StateGraph J → String → Bool
  is_unknown g target = not (is_some (lookup target g.nodes)) && not (str_eq target "END")

  unfoldable pub add_edge : StateGraph J → String → String → Result (StateGraph J)
  add_edge g from_node to_node =
      if is_unknown g to_node
      then err (unknown_target to_node)
      else ok (record g {
        edges =
            g.edges
            ++ (record {
              from_node = from_node;
              to_node = some to_node;
              router = none;
              route_map = [];
            })
              ∷ [];
      })

  unfoldable pub first_unknown : StateGraph J → Dict String → Option String
  first_unknown g [] = none
  first_unknown g ((key, target) ∷ m) =
      if is_unknown g target then some target else first_unknown g m

  unfoldable pub add_conditional_edges :
      StateGraph J → String → (AgentState J → String) → Dict String → Result (StateGraph J)
  add_conditional_edges g from_node router route_map = elim (first_unknown g route_map) [
    | some target ↦ err (unknown_target target)
    | none ↦ ok (record g {
      edges =
          g.edges
          ++ (record {
            from_node = from_node;
            to_node = none;
            router = some router;
            route_map = route_map;
          })
            ∷ [];
    })
  ]

  unfoldable pub follow :
      Edge J → AgentState J → Option (AgentState J → String) → Result (Option String)
  follow e s none = ok e.to_node
  follow e s (some router) = elim (lookup (router s) e.route_map) [
    | none ↦ err (unmapped_key (router s))
    | some target ↦ ok (end_of target)
  ]

  -- the loop of `_route`: the first edge that leaves `from_node`
  unfoldable pub route : List (Edge J) → String → AgentState J → Result (Option String)
  route [] from_node s = err (no_out_edge from_node)
  route (e ∷ edges) from_node s =
      if str_eq e.from_node from_node then follow e s e.router else route edges from_node s

  abbrev pub call : StateGraph J → String → AgentState J → Result (AgentState J)
  call g current s = elim (lookup current g.nodes) [
    | none ↦ err (unknown_node current)
    | some fn ↦ fn s
  ]

  -- `none` is an interruption: the node asks for clarification
  route_unless_clarify : StateGraph J → String → AgentState J → Result (Option (Option String))
  route_unless_clarify g current s =
      if is_clarify s.phase then ok none else do next ← route g.edges current s; ok (some next)

  -- `state.iteration += 1`
  abbrev pub tick : AgentState J → AgentState J
  tick s = record s { iteration = s.iteration + 1 }

  -- The loop that `run` and `resume` share; they differ in what they do at the guard and at an
  -- interruption. `current` is `none` after an edge to END that has a router; a plain edge to END
  -- gives `some "END"`, which the loop's test ends too.
  unfoldable pub loop :
      (AgentState J → AgentState J)
      → (String → StateGraph J → StateGraph J)
      → ℕ
      → StateGraph J
      → Option String
      → AgentState J
      → Result (StateGraph J × AgentState J)
  unfolding route_unless_clarify
  loop at_limit at_clarify fuel g none s = ok (g, s)
  loop at_limit at_clarify zero g (some current) s =
      if str_eq current "END" then ok (g, s) else stuck
  loop at_limit at_clarify (suc fuel) g (some current) s =
      let step = (do
        s' ← call g current (tick s)
        next ← route_unless_clarify g current s'
        elim next [
          | none ↦ ok (at_clarify current g, s')
          | some target ↦ loop at_limit at_clarify fuel g target s'
        ]) in
      if str_eq current "END"
      then ok (g, s)
      else if ltb g.max_iterations (s.iteration + 1)
      then ok (g, at_limit (tick s))
      else step

  pub run_limit : AgentState J → AgentState J
  run_limit s = record s { phase = Phase.done; report = str_append s.report limit_note }

  pub mark : String → StateGraph J → StateGraph J
  mark current g = record g { interrupted_at = some current }

  -- enough for every iteration that the guard leaves, and the one that it stops
  abbrev pub fuel_for : StateGraph J → AgentState J → ℕ
  fuel_for g s = suc (g.max_iterations - s.iteration)

  unfoldable pub run : StateGraph J → AgentState J → Result (StateGraph J × AgentState J)
  unfolding run_limit mark
  run g s = elim g.entry [
    | none ↦ err no_entry
    | some entry ↦ loop run_limit mark (fuel_for g s) g (some entry) s
  ]

  pub resume_limit : AgentState J → AgentState J
  resume_limit s = record s { phase = Phase.done }

  -- the answer joins the question
  pub merge_reply : AgentState J → Option String → AgentState J
  merge_reply s none = s
  merge_reply s (some reply) =
      if is_nonempty reply
      then record s {
        user_query = str_append s.user_query (str_append "（用户补充：" (str_append (strip reply) "）"));
        human_reply = none;
        clarification = none;
        phase = Phase.plan;
      }
      else s

  -- `self._interrupted_at or self._entry`
  unfoldable pub start_node : StateGraph J → Option String → Option String
  start_node g none = g.entry
  start_node g (some name) = if is_nonempty name then some name else g.entry

  pub resume_from :
      StateGraph J → AgentState J → Option String → Result (StateGraph J × AgentState J)
  unfolding resume_limit
  resume_from g s none = err no_entry
  resume_from g s (some start) = do
    next ← route g.edges start s
    loop resume_limit (λ _ g'. g') (fuel_for g s) g next s

  unfoldable pub resume : StateGraph J → AgentState J → Result (StateGraph J × AgentState J)
  unfolding merge_reply start_node resume_from
  resume g s =
      if is_clarify s.phase
      then resume_from g (merge_reply s s.human_reply) (start_node g g.interrupted_at)
      else err (not_clarify s.phase)
