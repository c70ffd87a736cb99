-- ===== src/Validate/Checks.antt =====
-- crates/greentic-events-validate/src/lib.rs: the three validators.
pub mod Handlers
use greentic_events.Base.{
  Bool, true, false, not, ◌&&◌, ◌||◌, ◌++◌, Option, none, some, List, [], ◌∷◌, if◌then◌else◌,
  is_empty, any, push,
}
use greentic_events.Base.Str.{Str, codes, str_eq, contains, starts_with, is_blank}
use greentic_events.Validate.{
  ProviderDecl, PackFlowEntry, PackManifest, warn, error, Diagnostic, is_events_pack,
  manifest_entry_flows, manifest_annotation_value, is_valid_event_topic, is_reverse_dns,
}

pub record PackValidator : Type 0 where
  pub id : Str
  pub applies : PackManifest → Bool
  pub validate : PackManifest → List Diagnostic

abbrev pub push_if : Bool → Diagnostic → List Diagnostic → List Diagnostic
push_if test d diagnostics = if test then push diagnostics d else diagnostics

-- The id of the provider extension (crate greentic-types) is an argument.
abbrev provider_path : Str → ProviderDecl → Str → Str
provider_path extension_id p field =
    codes "extensions." ++ (extension_id ++ (codes ".providers." ++ (p.provider_type ++ field)))

abbrev pub schema_empty : Str → ProviderDecl → Diagnostic
schema_empty extension_id p = record {
  severity = error;
  code = codes "EVT_PROVIDER_SCHEMA_EMPTY";
  message =
      codes "Provider '"
      ++ (p.provider_type ++ codes "' must declare a non-empty config schema reference.");
  path = some (provider_path extension_id p (codes ".config_schema_ref"));
  hint = some (codes "Set config_schema_ref to a schema path or URL.");
}

abbrev pub no_ops : Str → ProviderDecl → Diagnostic
no_ops extension_id p = record {
  severity = warn;
  code = codes "EVT_PROVIDER_NO_OPS";
  message = codes "Provider '" ++ (p.provider_type ++ codes "' declares no operations.");
  path = some (provider_path extension_id p (codes ".ops"));
  hint = some (codes "Declare at least one operation when the provider is implemented.");
}

unfoldable pub check_providers : Str → List ProviderDecl → List Diagnostic → List Diagnostic
unfolding is_blank
check_providers extension_id [] diagnostics = diagnostics
check_providers extension_id (p ∷ providers) diagnostics = check_providers extension_id providers (
    push_if (is_empty p.ops) (no_ops extension_id p)
      (push_if (is_blank p.config_schema_ref) (schema_empty extension_id p) diagnostics))

abbrev pub provider_decl_validator : Str → PackValidator
provider_decl_validator extension_id = record {
  id = codes "events.provider-decl";
  applies = is_events_pack;
  validate = λ manifest. elim manifest.provider_inline [
    | none ↦ []
    | some providers ↦ check_providers extension_id providers []
  ];
}

abbrev pub invalid_topic : Str → Diagnostic
invalid_topic value = record {
  severity = error;
  code = codes "EVT_INVALID_TOPIC";
  message = codes "Event topic '" ++ (value ++ codes "' must match ^[a-z0-9]+(\\.[a-z0-9_-]+)+$.");
  path = some (codes "extensions.*.annotations.event.topic");
  hint = some (codes "Use lowercase dot-separated segments, e.g. 'events.order.created'.");
}

abbrev pub suspect_type : Str → Diagnostic
suspect_type value = record {
  severity = warn;
  code = codes "EVT_SUSPECT_TYPE_FORMAT";
  message =
      codes "Event type '"
      ++ (value ++ codes "' should be non-empty and reverse-DNS (com., org., ai.greentic.).");
  path = some (codes "extensions.*.annotations.event.type");
  hint = some (codes "Prefer reverse-DNS identifiers such as 'com.example.events.created'.");
}

abbrev pub check_topic : Option Str → List Diagnostic → List Diagnostic
check_topic none diagnostics = diagnostics
check_topic (some value) diagnostics =
    push_if (not (is_valid_event_topic value)) (invalid_topic value) diagnostics

abbrev pub check_type : Option Str → List Diagnostic → List Diagnostic
check_type none diagnostics = diagnostics
check_type (some value) diagnostics =
    push_if (is_blank value || not (is_reverse_dns value)) (suspect_type value) diagnostics

abbrev pub topic_keys : List Str
topic_keys = codes "event.topic" ∷ codes "events.topic" ∷ []

abbrev pub type_keys : List Str
type_keys = codes "event.type" ∷ codes "events.type" ∷ []

abbrev pub topic_type_format_validator : PackValidator
topic_type_format_validator = record {
  id = codes "events.topic-type-format";
  applies = is_events_pack;
  validate = λ manifest.
      check_type (manifest_annotation_value manifest type_keys)
        (check_topic (manifest_annotation_value manifest topic_keys) []);
}

abbrev pub is_handler : Str → Bool
is_handler flow = starts_with (codes "handle_") flow

-- `flow_index`: where several flows have one id, the last is the one that is found.
unfoldable pub indexed : Str → List PackFlowEntry → Option PackFlowEntry
unfolding str_eq
indexed flow_id [] = none
indexed flow_id (entry ∷ flows) = elim (indexed flow_id flows) [
  | some later ↦ some later
  | none ↦ if str_eq entry.id flow_id then some entry else none
]

abbrev pub is_flow_v1 : PackFlowEntry → Bool
is_flow_v1 entry = str_eq entry.schema_version (codes "flow-v1")

abbrev pub entry_flow_missing : Str → Diagnostic
entry_flow_missing flow_id = record {
  severity = error;
  code = codes "EVT_ENTRY_FLOW_MISSING";
  message = codes "Entry flow '" ++ (flow_id ++ codes "' is missing from manifest.flows.");
  path = some (codes "meta.entry_flows");
  hint = some (codes "Add the flow entry or update the entry_flows list.");
}

abbrev pub not_flow_v1 : Str → Diagnostic
not_flow_v1 flow_id = record {
  severity = error;
  code = codes "EVT_HANDLER_FLOW_MISSING";
  message = codes "Handler flow '" ++ (flow_id ++ codes "' must be a flow-v1 schema.");
  path = some (codes "flows." ++ (flow_id ++ codes ".schema_version"));
  hint = some (codes "Ensure the flow schema_version is 'flow-v1'.");
}

abbrev pub handler_missing : Str → Diagnostic
handler_missing flow_id = record {
  severity = error;
  code = codes "EVT_HANDLER_FLOW_MISSING";
  message = codes "Handler flow '" ++ (flow_id ++ codes "' is missing.");
  path = some (codes "flows." ++ flow_id);
  hint = some (codes "Add the handler flow entry to the manifest.");
}

-- The two tests of an entry flow, by what the index has under its id.
abbrev pub check_entry_flow : Str → Option PackFlowEntry → List Diagnostic → List Diagnostic
check_entry_flow flow_id none diagnostics =
    push_if (is_handler flow_id) (handler_missing flow_id)
      (push diagnostics (entry_flow_missing flow_id))
check_entry_flow flow_id (some entry) diagnostics =
    push_if (is_handler flow_id && not (is_flow_v1 entry)) (not_flow_v1 flow_id) diagnostics

unfoldable pub check_entry_flows : List PackFlowEntry → List Str → List Diagnostic → List Diagnostic
unfolding indexed starts_with str_eq
check_entry_flows flows [] diagnostics = diagnostics
check_entry_flows flows (flow_id ∷ entry_flows) diagnostics =
    check_entry_flows flows entry_flows
      (check_entry_flow flow_id (indexed flow_id flows) diagnostics)

unfoldable pub check_handlers : List PackFlowEntry → List Diagnostic → List Diagnostic
unfolding starts_with str_eq
check_handlers [] diagnostics = diagnostics
check_handlers (entry ∷ flows) diagnostics =
    check_handlers flows
      (push_if (is_handler entry.id && not (is_flow_v1 entry)) (not_flow_v1 entry.id) diagnostics)

-- The tests of `applies`.
abbrev pub names_events : Str → Bool
names_events flow =
    contains (codes "events") flow || is_handler flow || starts_with (codes "on_") flow

unfoldable pub handler_flow_applies : PackManifest → Bool
unfolding is_events_pack manifest_entry_flows any contains
handler_flow_applies manifest =
    if not (is_events_pack manifest)
    then false
    else if any names_events (manifest_entry_flows manifest)
    then true
    else any (λ (entry : PackFlowEntry). is_handler entry.id || starts_with (codes "on_") entry.id)
        manifest.flows

abbrev pub handler_flow_validator : PackValidator
handler_flow_validator = record {
  id = codes "events.handler-flow";
  applies = handler_flow_applies;
  validate = λ manifest.
      check_handlers manifest.flows
        (check_entry_flows manifest.flows (manifest_entry_flows manifest) []);
}

abbrev pub events_validators : Str → List PackValidator
events_validators extension_id =
    provider_decl_validator extension_id ∷ topic_type_format_validator ∷ handler_flow_validator ∷ []
