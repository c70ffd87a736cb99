-- ===== src/E2e/Flow.antt =====
-- src/e2e.rs: the flows that ask for and render a configuration.
-- The parsers and printers of YAML, the loader and the compiler of flows and the template renderer
-- (crates serde_yaml_bw and greentic-flow) are `FlowTools`.
pub mod Run
pub mod Pigeonhole
pub mod Route
pub mod Limit
use greentic_events.Base.{
  ℕ, zero, suc, ◌+◌, min, ◌^◌, ◌-◌, Bool, true, false, Option, none, some, List, [], ◌∷◌, ◌++◌,
  Result, ok, err, then_ok, ok_or, map_err, and_then, is_some, find, length, if◌then◌else◌, any,
  ◌||◌,
}
use greentic_events.Base.Str.{Str, codes, str_eq, contains, is_blank}
use greentic_events.Base.Map.{lookup}
use greentic_events.Event.{
  Json, Items, Fields, nil, cons, end, object, string, array, as_str, as_array, Dict,
}
use greentic_events.Event.Object.{get, get_field, set_field, has_field}
use greentic_events.E2e.{PackLoad, FlowEntry}

pub data Routing : Type 0 where
  next : Str → Routing
  end_flow reply branch custom : Routing

pub record Node : Type 0 where
  pub component : Str
  pub mapping : Json
  pub routing : Routing

-- A compiled flow: its nodes by their identifiers.
pub record CompiledFlow : Type 0 where
  pub nodes : Dict Node

-- Of a flow document, its start and the keys of its nodes in order.
pub record FlowDoc : Type 0 where
  pub start : Option Str
  pub node_keys : List Str

pub record FlowTools : Type 0 where
  pub from_utf8 : Str → Result Str Str
  pub yaml_from_str : Str → Result Str Json
  pub yaml_to_string : Json → Result Str Str
  pub load_doc : Str → Result Str FlowDoc
  pub compile_flow : FlowDoc → Result Str CompiledFlow
  pub new_node_id : Str → Result Str Str
  pub render_json : Str → Str → Fields → Str → Result Str Json

-- The first entry flow, or else the first flow, whose name passes a test.
abbrev pub first_of : Option Str → Option Str → Option Str
first_of (some flow) rest = some flow
first_of none rest = rest

unfoldable pub flow_ids : List FlowEntry → List Str
flow_ids [] = []
flow_ids (flow ∷ flows) = flow.id ∷ flow_ids flows

abbrev pub flow_named : (Str → Bool) → PackLoad → Option Str
flow_named test pack = first_of (find test pack.entry_flows) (find test (flow_ids pack.flows))

unfoldable pub requirements_flow_id : PackLoad → Option Str
unfolding find flow_ids contains
requirements_flow_id pack = flow_named (λ flow. contains (codes "requirements") flow) pack

unfoldable pub setup_flow_id : PackLoad → Option Str
unfolding find flow_ids contains
setup_flow_id pack =
    flow_named (λ flow. contains (codes "setup") flow || contains (codes "provision") flow) pack

abbrev pub first_key : List Str → Str
first_key [] = codes "in"
first_key (key ∷ keys) = key

unfoldable pub resolve_entry : FlowDoc → Str
unfolding any str_eq
resolve_entry doc = elim doc.start [
  | some start ↦ start
  | none ↦ if any (str_eq (codes "in")) doc.node_keys then codes "in" else first_key doc.node_keys
]

-- A field of a questions node: what it adds to the state.
abbrev pub answer_default : Str → Option Json → Fields → Result Str Fields
answer_default id (some default) state = ok (set_field id default state)
answer_default id none state = err (codes "missing answer for '" ++ (id ++ codes "'"))

unfoldable pub apply_field : Json → Fields → Result Str Fields
unfolding get_field set_field
apply_field question state =
    then_ok
      (ok_or (and_then (get (codes "id") question) as_str) (codes "questions field missing id"))
      λ id.
        if has_field id state
        then ok state
        else answer_default id (get (codes "default") question) state

unfoldable pub apply_fields : Items → Fields → Result Str Fields
unfolding apply_field
apply_fields nil state = ok state
apply_fields (cons question fields) state =
    then_ok (apply_field question state) λ state1. apply_fields fields state1

unfoldable pub apply_questions : Json → Fields → Result Str Fields
unfolding apply_fields
apply_questions payload state =
    then_ok
      (ok_or (and_then (get (codes "fields") payload) as_array)
        (codes "questions node missing fields array"))
      λ fields. apply_fields fields state

unfoldable pub extract_config_output : Json → Result Str Json
unfolding get_field is_blank
extract_config_output value =
    then_ok
      (ok_or (and_then (get (codes "node_id") value) as_str)
        (codes "config flow output missing node_id"))
      λ node_id.
        if is_blank node_id
        then err (codes "config flow output node_id is empty")
        else ok_or (get (codes "node") value) (codes "config flow output missing node")

-- `renderer` is the template renderer made for the pack.
unfoldable pub render_template :
    (Str → Fields → Str → Result Str Json) → Json → Fields → Str → Result Str Json
unfolding extract_config_output
render_template renderer payload state node_id =
    then_ok (ok_or (as_str payload) (codes "template node payload must be a string"))
      λ template. then_ok (renderer template state node_id) extract_config_output

-- `match map.get("type")`: a type that is a string is kept.
abbrev pub with_type : Option Json → Fields → Fields
with_type (some (string s)) m = m
with_type _ m = set_field (codes "type") (string (codes "component-config")) m

abbrev pub typed : Json → Json
typed (object m) = object (with_type (get_field (codes "type") m) m)
typed v = v

unfoldable pub normalize_config_flow_yaml : FlowTools → Str → Result Str Str
unfolding get_field set_field
normalize_config_flow_yaml tools yaml =
    then_ok (map_err (λ e. codes "config flow yaml: " ++ e) (tools.yaml_from_str yaml)) λ value.
      map_err (λ e. codes "normalize config flow: " ++ e) (tools.yaml_to_string (typed value))
