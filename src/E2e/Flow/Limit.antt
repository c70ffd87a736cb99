-- ===== src/E2e/Flow/Limit.antt =====
-- src/e2e.rs: the limit on the visits of a configuration flow, and the routes that it must allow.
use greentic_events.Base.{
  ℕ, suc, ◌≤◌, ◌<◌, ◌^◌, ◌≡◌, ◌↔◌, refl, ap, sym, ◌∙◌, true, false, false≢true, ◌||◌, some, List,
  [], ◌∷◌, Result, ok, length, any, All, arith, Bool-cases, inl, inr, some_eq,
}
use mathlib.Core.Path.{subst}
use greentic_events.Base.Str.{Str, str_eq, str_eq_iff}
use greentic_events.Base.Map.{lookup}
use greentic_events.Event.{Json, Fields, Dict}
use greentic_events.E2e.Flow.{Node, CompiledFlow, FlowTools}
use greentic_events.E2e.Flow.Run.{node_at, flow_loop, traversal_limit}
use greentic_events.E2e.Flow.Route.{
  Route, arrive, pass_on, flow_loop-Route, Route-flow_loop, same_length, node_at-lookup,
}
use greentic_events.E2e.Flow.Pigeonhole.{has, NoRepeat, pigeonhole}

abbrev ids_of : Dict Node → List Str
ids_of [] = []
ids_of ((id, node) ∷ nodes) = id ∷ ids_of nodes

length-ids_of : (nodes : Dict Node) → length (ids_of nodes) ≡ length nodes
length-ids_of [] = refl
length-ids_of ((id, node) ∷ nodes) = ap suc (length-ids_of nodes)

lookup-has :
    (x : Str) (nodes : Dict Node) (node : Node)
    → lookup x nodes ≡ some node
    → has (ids_of nodes) x ≡ true
unfolding lookup any
lookup-has x [] node h = cc h
lookup-has x ((id, n) ∷ nodes) node h =
    ground (arith, str_eq_iff id x, str_eq_iff x id, lookup-has x nodes node)

too_long : (n m : ℕ) → n ≡ suc m → ¬ (n ≤ m)
too_long n m e h = omega arith

module _ (tools : FlowTools) (renderer : Str → Fields → Str → Result Str Json)
    (flow : CompiledFlow) where
  -- What is left of a route from one of its nodes on.
  record From (x : Str) (n : ℕ) : Type 0 where
    current : Str
    state : Fields
    ids : List Str
    payload : Json
    node : Node
    rest : Route tools renderer flow current state ids payload
    found : node_at tools flow current ≡ ok (x, node)
    short : length ids ≤ n

  From-mono : {x : Str} {n m : ℕ} → n ≤ m → From x n → From x m
  From-mono le f = record {
    current = f.current;
    state = f.state;
    ids = f.ids;
    payload = f.payload;
    node = f.node;
    rest = f.rest;
    found = f.found;
    short = omega (arith, f.short);
  }

  whole :
      {current : Str} {state : Fields} {ids : List Str} {payload : Json} {x id : Str} {node : Node}
      → Route tools renderer flow current state ids payload
      → node_at tools flow current ≡ ok (id, node)
      → str_eq x id ≡ true
      → From x (length ids)
  whole {current} {state} {ids} {payload} {x} {id} {node} r at e =
      subst (λ y. From y (length ids)) (sym ((str_eq_iff x id).0 e))
        (record {
          current = current;
          state = state;
          ids = ids;
          payload = payload;
          node = node;
          rest = r;
          found = at;
          short = omega arith;
        })

  Route-From :
      {current : Str} {state : Fields} {ids : List Str} {payload : Json}
      → Route tools renderer flow current state ids payload
      → (x : Str) → has ids x ≡ true
      → From x (length ids)
  unfolding any
  Route-From (arrive {id = id} at v) x h = elim (Bool-cases (str_eq x id)) [
    | inl e ↦ whole (arrive at v) at e
    | inr e ↦ elim (false≢true (sym (ap (λ b. b || false) e) ∙ h)) [ ]
  ]
  Route-From (pass_on {id = id} {ids = ids} at v on r) x h = elim (Bool-cases (str_eq x id)) [
    | inl e ↦ whole (pass_on at v on r) at e
    | inr e ↦ From-mono (omega arith) (Route-From r x (sym (ap (λ b. b || has ids x) e) ∙ h))
  ]

  Route-NoRepeat :
      {current : Str} {state : Fields} {ids : List Str} {payload : Json}
      → Route tools renderer flow current state ids payload
      → NoRepeat ids
  unfolding any
  Route-NoRepeat (arrive at v) = (refl, tt)
  Route-NoRepeat (pass_on {current} {id} {node = node} {ids = ids} at v on r) = (
    elim (Bool-cases (has ids id)) [
      | inr e ↦ e
      | inl e ↦
          let f = Route-From r id e in
          let same = some_eq (
            sym (node_at-lookup tools renderer flow f.current id f.node f.found)
            ∙ node_at-lookup tools renderer flow current id node at) in
          let lengths =
            same_length tools renderer flow f.rest (pass_on at v on r)
              (f.found ∙ ap (λ m. ok (id, m)) same ∙ sym at) in
          elim (too_long (length f.ids) (length ids) lengths f.short) [ ]
    ],
    Route-NoRepeat r,
  )

  Route-has :
      {current : Str} {state : Fields} {ids : List Str} {payload : Json}
      → Route tools renderer flow current state ids payload
      → All (λ x. has (ids_of flow.nodes) x ≡ true) ids
  Route-has (arrive {current} {id} {node} at v) =
      (lookup-has id flow.nodes node (node_at-lookup tools renderer flow current id node at), tt)
  Route-has (pass_on {current} {id} {node = node} at v on r) = (
    lookup-has id flow.nodes node (node_at-lookup tools renderer flow current id node at),
    Route-has r,
  )

  Route-short :
      {current : Str} {state : Fields} {ids : List Str} {payload : Json}
      → Route tools renderer flow current state ids payload
      → length ids ≤ length flow.nodes
  Route-short {ids = ids} r = omega (
    arith,
    length-ids_of flow.nodes,
    pigeonhole ids (ids_of flow.nodes) (Route-NoRepeat r) (Route-has r),
  )

-- On a flow with fewer than 2 ^ 64 nodes, the limit of the loop never cuts a route: from a node and
-- a state, the loop returns a payload exactly if a route leads to a template that renders it.
pub flow_loop-iff_Route :
    (tools : FlowTools) (renderer : Str → Fields → Str → Result Str Json) (flow : CompiledFlow)
    (current : Str) (state : Fields) (payload : Json)
    → length flow.nodes < 2 ^ 64
    → (flow_loop tools renderer flow (traversal_limit flow) current state ≡ ok payload)
      ↔ ((ids : List Str) × Route tools renderer flow current state ids payload)
flow_loop-iff_Route tools renderer flow current state payload h = (
  Route-flow_loop tools renderer flow (traversal_limit flow) current state payload,
  λ r.
      flow_loop-Route tools renderer flow (traversal_limit flow) r.1
        (omega (arith, Route-short tools renderer flow r.1)),
)
