-- ===== src/E2e/Flow/Run.antt =====
-- src/e2e.rs: the loop over the nodes of a configuration flow.
use greentic_events.Base.{
  ℕ, zero, suc, ◌+◌, min, ◌^◌, ◌-◌, Option, none, some, ◌++◌, Result, ok, err, then_ok, ok_or,
  map_err, find, length, if◌then◌else◌,
}
use greentic_events.Base.Str.{Str, codes, str_eq}
use greentic_events.Base.Map.{lookup}
use greentic_events.Event.{Json, Fields, end, object}
use greentic_events.E2e.{PackLoad, FlowEntry}
use greentic_events.E2e.Flow.{
  Routing, next, end_flow, reply, branch, custom, Node, CompiledFlow, FlowTools, resolve_entry,
  apply_questions, render_template, normalize_config_flow_yaml,
}

abbrev pub next_of : Routing → Result Str Str
next_of (next node_id) = ok node_id
next_of end_flow = err (codes "config flow terminated without reaching template node")
next_of reply = err (codes "config flow terminated without reaching template node")
next_of branch = err (codes "unsupported routing shape in config flow")
next_of custom = err (codes "unsupported routing shape in config flow")

abbrev pub named_id : FlowTools → Str → Result Str Str
named_id tools current =
    map_err (λ e. codes "invalid node id " ++ (current ++ (codes ": " ++ e)))
      (tools.new_node_id current)

abbrev pub missing_node : Str → Str
missing_node current = codes "node '" ++ (current ++ codes "' missing during config flow execution")

abbrev pub node_of : CompiledFlow → Str → Str → Result Str (Str × Node)
node_of flow current id =
    then_ok (ok_or (lookup id flow.nodes) (missing_node current)) λ node. ok (id, node)

-- The identifier and the node of the current name.
unfoldable pub node_at : FlowTools → CompiledFlow → Str → Result Str (Str × Node)
unfolding lookup
node_at tools flow current = then_ok (named_id tools current) (node_of flow current)

-- What a node asks for: to go on with a state, or the output.
pub data Visit : Type 0 where
  go : Fields → Visit
  output : Json → Visit

unfoldable pub visit_node :
    (Str → Fields → Str → Result Str Json) → Node → Fields → Str → Result Str Visit
unfolding apply_questions render_template str_eq
visit_node renderer node state current =
    if str_eq node.component (codes "questions")
    then then_ok (apply_questions node.mapping state) (λ state1. ok (go state1))
    else if str_eq node.component (codes "template")
    then then_ok (render_template renderer node.mapping state current)
        (λ payload. ok (output payload))
    else err (codes "unsupported component '" ++ (node.component ++ codes "' in config flow"))

abbrev pub after_visit : Routing → (Str → Fields → Result Str Json) → Visit → Result Str Json
after_visit routing rest (output payload) = ok payload
after_visit routing rest (go state) = then_ok (next_of routing) λ current. rest current state

-- The loop, by the count of visits left.
unfoldable pub flow_loop :
    FlowTools
    → (Str → Fields → Str → Result Str Json)
    → CompiledFlow
    → ℕ
    → Str
    → Fields
    → Result Str Json
unfolding node_at visit_node
flow_loop tools renderer flow zero current state =
    err (codes "config flow exceeded traversal limit")
flow_loop tools renderer flow (suc n) current state = then_ok (node_at tools flow current) λ found.
    then_ok (visit_node renderer found.1 state current)
      (after_visit found.1.routing (flow_loop tools renderer flow n))

-- `flow.nodes.len().saturating_add(4)`
abbrev pub traversal_limit : CompiledFlow → ℕ
traversal_limit flow = min (2 ^ 64 - 1) (length flow.nodes + 4)

abbrev pub initial_state : Option Json → Fields
initial_state (some (object m)) = m
initial_state _ = end

unfoldable pub run_config_flow :
    FlowTools → PackLoad → Str → Option Json → FlowEntry → Result Str (Option Json)
unfolding lookup normalize_config_flow_yaml resolve_entry flow_loop
run_config_flow tools pack flow_id answers entry =
    then_ok
      (ok_or (lookup entry.file_yaml pack.files) (codes "missing flow file " ++ entry.file_yaml))
      λ yaml_bytes.
        then_ok
          (map_err (λ _. codes "flow yaml " ++ (entry.file_yaml ++ codes " invalid utf-8"))
            (tools.from_utf8 yaml_bytes))
          λ yaml. then_ok (normalize_config_flow_yaml tools yaml) λ normalized.
            then_ok (map_err (λ _. codes "load flow " ++ flow_id) (tools.load_doc normalized))
              λ doc.
                then_ok (map_err (λ _. codes "compile flow " ++ flow_id) (tools.compile_flow doc))
                  λ flow.
                    then_ok
                      (flow_loop tools (tools.render_json pack.pack_id) flow (traversal_limit flow)
                        (resolve_entry doc) (initial_state answers))
                      λ payload. ok (some payload)

unfoldable pub run_config_flow_from_pack :
    FlowTools → PackLoad → Str → Option Json → Result Str (Option Json)
unfolding run_config_flow find str_eq
run_config_flow_from_pack tools pack flow_id answers =
    elim (find (λ (flow : FlowEntry). str_eq flow.id flow_id) pack.flows) [
      | none ↦ ok none
      | some entry ↦ run_config_flow tools pack flow_id answers entry
    ]
