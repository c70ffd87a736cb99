-- ===== src/E2e/Flow/Route.antt =====
-- src/e2e.rs: the routes through a configuration flow to a template.
use greentic_events.Base.{
  ℕ, zero, suc, ◌≤◌, ◌≡◌, refl, ap, sym, ◌∙◌, Bool, true, false, some, List, [], ◌∷◌, Result, ok,
  then_ok-parts, ok_eq, ok_or-some, length, arith, Bool-cases, false≢true, inl, inr, ok_or,
}
use greentic_events.Base.Str.{Str, str_eq, codes}
use greentic_events.Base.Map.{lookup}
use greentic_events.Event.{Json, Fields}
use greentic_events.E2e.Flow.{Node, CompiledFlow, FlowTools, apply_questions, render_template}
use mathlib.Core.Path.{subst}
use greentic_events.E2e.Flow.Run.{
  next_of, node_at, named_id, node_of, missing_node, Visit, go, output, visit_node, after_visit,
  flow_loop,
}

module _ (tools : FlowTools) (renderer : Str → Fields → Str → Result Str Json)
    (flow : CompiledFlow) where
  -- `Route current state ids payload`: from the node that `current` names and in this state, the
  -- flow leads through the nodes `ids`, all but the last with questions that are answered, to a
  -- template that renders the payload.
  pub data Route : Str → Fields → List Str → Json → Type 0 where
    arrive :
        {current id : Str} {node : Node} {state : Fields} {payload : Json}
        → node_at tools flow current ≡ ok (id, node)
        → visit_node renderer node state current ≡ ok (output payload)
        → Route current state (id ∷ []) payload
    pass_on :
        {current id after : Str} {node : Node} {state state1 : Fields} {ids : List Str}
        {payload : Json}
        → node_at tools flow current ≡ ok (id, node)
        → visit_node renderer node state current ≡ ok (go state1)
        → next_of node.routing ≡ ok after
        → Route after state1 ids payload
        → Route current state (id ∷ ids) payload

  -- A route is walked by the loop if there are visits enough.
  pub flow_loop-Route :
      (n : ℕ) {current : Str} {state : Fields} {ids : List Str} {payload : Json}
      → Route current state ids payload
      → length ids ≤ n
      → flow_loop tools renderer flow n current state ≡ ok payload
  unfolding flow_loop
  flow_loop-Route zero (arrive at visit) h = elim h [ ]
  flow_loop-Route zero (pass_on at visit on rest) h = elim h [ ]
  flow_loop-Route (suc n) (arrive at visit) h = rw (at, visit) refl
  flow_loop-Route (suc n) (pass_on at visit on rest) h =
      rw (at, visit, on) (flow_loop-Route n rest (omega arith))

  -- What the loop returns lies at the end of a route.
  pub Route-flow_loop :
      (n : ℕ) (current : Str) (state : Fields) (payload : Json)
      → flow_loop tools renderer flow n current state ≡ ok payload
      → (ids : List Str) × Route current state ids payload
  unfolding flow_loop
  Route-flow_loop zero current state payload h = cc h
  Route-flow_loop (suc n) current state payload h =
      let ((id, node), at, h1) = then_ok-parts (node_at tools flow current) _ payload h in
      let (visit, v, h2) = then_ok-parts (visit_node renderer node state current) _ payload h1 in
      arrived (λ after state1 g. Route-flow_loop n after state1 payload g) id node visit at v h2
    where
      arrived :
          ((after : Str) (state1 : Fields)
            → flow_loop tools renderer flow n after state1 ≡ ok payload
            → (ids : List Str) × Route after state1 ids payload)
          → (id : Str) (node : Node) (visit : Visit) → node_at tools flow current ≡ ok (id, node)
          → visit_node renderer node state current ≡ ok visit
          → after_visit node.routing (flow_loop tools renderer flow n) visit ≡ ok payload
          → (ids : List Str) × Route current state ids payload
      arrived rec id node (output out) at v h2 =
          (id ∷ [], arrive at (v ∙ ap (λ j. ok (output j)) (ok_eq h2)))
      arrived rec id node (go state1) at v h2 =
          let (after, on, h3) = then_ok-parts (next_of node.routing) _ payload h2 in
          let (ids, route) = rec after state1 h3 in (id ∷ ids, pass_on at v on route)

  -- What a node asks for depends on its component alone.
  abbrev is_questions : Node → Bool
  is_questions node = str_eq node.component (codes "questions")

  abbrev Asks : Bool → Visit → Type 0
  Asks questions (go state) = questions ≡ true
  Asks questions (output payload) = questions ≡ false

  visit_node-Asks :
      (node : Node) (state : Fields) (current : Str) (visit : Visit)
      → visit_node renderer node state current ≡ ok visit
      → Asks (is_questions node) visit
  unfolding visit_node
  visit_node-Asks node state current visit h = elim (Bool-cases (is_questions node)) [
    | inl q ↦
        let (state1, a, v) =
          then_ok-parts (apply_questions node.mapping state) (λ s. ok (go s)) visit (rw q at h) in
        subst (Asks (is_questions node)) (ok_eq v) q
    | inr q ↦ elim (Bool-cases (str_eq node.component (codes "template"))) [
      | inl t ↦
          let (payload, r, v) =
            then_ok-parts (render_template renderer node.mapping state current)
              (λ out. ok (output out)) visit (rw (q, t) at h) in
          subst (Asks (is_questions node)) (ok_eq v) q
      | inr t ↦ cc (rw (q, t) at h)
    ]
  ]

  pub node_at-lookup :
      (current id : Str) (node : Node)
      → node_at tools flow current ≡ ok (id, node)
      → lookup id flow.nodes ≡ some node
  unfolding node_at
  node_at-lookup current id node h =
      let (id1, i, h1) =
        then_ok-parts (named_id tools current) (node_of flow current) (id, node) h in
      let (node1, l, h2) =
        then_ok-parts (ok_or (lookup id1 flow.nodes) (missing_node current)) (λ m. ok (id1, m))
          (id, node) h1 in
      subst (λ found. lookup found.0 flow.nodes ≡ some found.1) (ok_eq h2)
        (ok_or-some (lookup id1 flow.nodes) (missing_node current) node1 l)

  -- The length of a route is determined by its first node.
  pub same_length :
      {c d : Str} {s t : Fields} {ids js : List Str} {p q : Json}
      → Route c s ids p
      → Route d t js q
      → node_at tools flow c ≡ node_at tools flow d
      → length ids ≡ length js
  same_length (arrive at1 v1) (arrive at2 v2) h = refl
  same_length (arrive {node = m} at1 v1) (pass_on {node = n} at2 v2 on2 r2) h =
      let same = ok_eq (sym at1 ∙ h ∙ at2) in
      elim (false≢true (
        sym (visit_node-Asks m _ _ _ v1)
        ∙ ap (λ found. is_questions found.1) same
        ∙ visit_node-Asks n _ _ _ v2)) [ ]
  same_length (pass_on {node = m} at1 v1 on1 r1) (arrive {node = n} at2 v2) h =
      let same = ok_eq (sym at1 ∙ h ∙ at2) in
      elim (false≢true (
        sym (visit_node-Asks n _ _ _ v2)
        ∙ sym (ap (λ found. is_questions found.1) same)
        ∙ visit_node-Asks m _ _ _ v1)) [ ]
  same_length (pass_on at1 v1 on1 r1) (pass_on at2 v2 on2 r2) h =
      let same = ok_eq (sym at1 ∙ h ∙ at2) in
      let after = ok_eq (sym on1 ∙ ap (λ found. next_of found.1.routing) same ∙ on2) in
      ap suc (same_length r1 r2 (ap (node_at tools flow) after))
