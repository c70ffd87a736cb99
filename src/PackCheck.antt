-- ===== src/PackCheck.antt =====
-- crates/greentic-events-pack-validator/src/lib.rs: the validator of packs that is compiled to
-- WebAssembly. Its copies of `manifest_entry_flows`, `manifest_annotation_value` and
-- `is_valid_event_topic` are those of crates/greentic-events-validate/src/lib.rs, word for word, and
-- stand in Validate. The decoder of manifests and the identifier of the provider extension (crate
-- greentic-types) are arguments.
pub mod Sound
use greentic_events.Base.{
  Bool, true, false, not, ◌&&◌, ◌||◌, ◌++◌, Option, none, some, List, [], ◌∷◌, any, and_then,
  if◌then◌else◌,
}
use greentic_events.Base.Str.{Str, codes, str_eq, contains, starts_with}
use greentic_events.Validate.{
  ProviderDecl, PackFlowEntry, PackManifest, opt_any, manifest_entry_flows,
  manifest_annotation_value, is_valid_event_topic,
}
use greentic_events.Validate.Checks.{topic_keys}

pub record PackInputs : Type 0 where
  pub manifest_cbor : Str
  pub file_index : List Str

-- The diagnostic of the validator's interface, whose severity is a text.
pub record WitDiagnostic : Type 0 where
  pub severity : Str
  pub code : Str
  pub message : Str
  pub path : Option Str
  pub hint : Option Str

-- `is_events_pack`
unfoldable pub is_events_index : PackManifest → List Str → Bool
unfolding starts_with contains any
is_events_index manifest file_index =
    if starts_with (codes "events-") manifest.pack_id
    then true
    else if any (contains (codes "schemas/events/")) file_index
    then true
    else opt_any (any (λ (p : ProviderDecl). starts_with (codes "events.") p.provider_type))
        manifest.provider_inline

-- From the first "schemas/" on.
unfoldable pub extract_schema_path : Str → Option Str
unfolding starts_with
extract_schema_path [] = none
extract_schema_path (c ∷ value) =
    if starts_with (codes "schemas/") (c ∷ value)
    then some (c ∷ value)
    else extract_schema_path value

unfoldable pub file_index_contains : List Str → Str → Bool
unfolding any str_eq
file_index_contains file_index path = any (λ entry. str_eq entry path) file_index

abbrev pub schema_missing : Str → Str → ProviderDecl → Str → WitDiagnostic
schema_missing extension_id key p path = record {
  severity = codes "error";
  code = codes "EVT_SCHEMA_MISSING";
  message =
      codes "Schema reference '"
      ++ (path
          ++ (codes "' for provider '"
              ++ (p.provider_type ++ codes "' is missing from the pack.")));
  path = some (
      codes "extensions."
      ++ (extension_id ++ (codes ".providers." ++ (p.provider_type ++ (codes "." ++ key)))));
  hint = some (codes "Add the schema file to the pack or update the reference.");
}

-- What a reference to a schema adds.
abbrev pub check_schema : List Str → WitDiagnostic → Str → List WitDiagnostic
check_schema file_index d path = if file_index_contains file_index path then [] else d ∷ []

abbrev pub check_reference : Str → List Str → Str → ProviderDecl → Option Str → List WitDiagnostic
check_reference extension_id file_index key p none = []
check_reference extension_id file_index key p (some path) =
    check_schema file_index (schema_missing extension_id key p path) path

unfoldable pub check_references : Str → List Str → List ProviderDecl → List WitDiagnostic
unfolding extract_schema_path file_index_contains
check_references extension_id file_index [] = []
check_references extension_id file_index (p ∷ providers) =
    check_reference extension_id file_index (codes "config_schema_ref") p
      (extract_schema_path p.config_schema_ref)
    ++ (check_reference extension_id file_index (codes "state_schema_ref") p
          (and_then p.state_schema_ref extract_schema_path)
        ++ check_references extension_id file_index providers)

abbrev pub provider_list : Option (List ProviderDecl) → List ProviderDecl
provider_list none = []
provider_list (some providers) = providers

unfoldable pub validate_schema_refs : Str → PackManifest → List Str → List WitDiagnostic
unfolding check_references
validate_schema_refs extension_id manifest file_index =
    check_references extension_id file_index (provider_list manifest.provider_inline)

abbrev pub topic_invalid : Str → WitDiagnostic
topic_invalid value = record {
  severity = codes "error";
  code = codes "EVT_INVALID_TOPIC";
  message = codes "Event topic '" ++ (value ++ codes "' must match ^[a-z0-9]+(\\.[a-z0-9_-]+)+$.");
  path = some (codes "extensions.*.annotations.event.topic");
  hint = some (codes "Use lowercase dot-separated segments, e.g. 'events.order.created'.");
}

abbrev pub check_annotated : Option Str → List WitDiagnostic
check_annotated none = []
check_annotated (some value) = if is_valid_event_topic value then [] else topic_invalid value ∷ []

unfoldable pub validate_topics : PackManifest → List WitDiagnostic
unfolding manifest_annotation_value is_valid_event_topic
validate_topics manifest = check_annotated (manifest_annotation_value manifest topic_keys)

-- `flow_ids.contains(flow_id)`
unfoldable pub has_flow : List PackFlowEntry → Str → Bool
unfolding any str_eq
has_flow flows flow_id = any (λ (entry : PackFlowEntry). str_eq entry.id flow_id) flows

abbrev pub flow_missing : Str → WitDiagnostic
flow_missing flow_id = record {
  severity = codes "error";
  code = codes "EVT_ENTRY_FLOW_MISSING";
  message = codes "Entry flow '" ++ (flow_id ++ codes "' is missing from manifest.flows.");
  path = some (codes "meta.entry_flows");
  hint = some (codes "Add the flow entry or update the entry_flows list.");
}

abbrev pub handler_flow_missing : Str → WitDiagnostic
handler_flow_missing flow_id = record {
  severity = codes "warn";
  code = codes "EVT_HANDLER_FLOW_MISSING";
  message = codes "Handler flow '" ++ (flow_id ++ codes "' is missing from manifest.flows.");
  path = some (codes "flows." ++ flow_id);
  hint = some (codes "Add the handler flow entry or update the entry flow list.");
}

abbrev pub check_entry : List PackFlowEntry → Str → List WitDiagnostic
check_entry flows flow_id =
    (if not (has_flow flows flow_id) then flow_missing flow_id ∷ [] else [])
    ++ (if starts_with (codes "handle_") flow_id && not (has_flow flows flow_id)
        then handler_flow_missing flow_id ∷ []
        else [])

unfoldable pub check_entries : List PackFlowEntry → List Str → List WitDiagnostic
unfolding has_flow starts_with
check_entries flows [] = []
check_entries flows (flow_id ∷ ids) = check_entry flows flow_id ++ check_entries flows ids

unfoldable pub validate_entry_flows : PackManifest → List WitDiagnostic
unfolding check_entries manifest_entry_flows
validate_entry_flows manifest = check_entries manifest.flows (manifest_entry_flows manifest)

module _ (decode : Str → Option PackManifest) (extension_id : Str) where
  -- `EventsPackValidator::applies`
  unfoldable pub validator_applies : PackInputs → Bool
  unfolding is_events_index
  validator_applies inputs =
      opt_any (λ manifest. is_events_index manifest inputs.file_index) (decode inputs.manifest_cbor)

  abbrev pub diagnostics_of : PackManifest → List Str → List WitDiagnostic
  diagnostics_of manifest file_index =
      validate_schema_refs extension_id manifest file_index
      ++ (validate_topics manifest ++ validate_entry_flows manifest)

  abbrev pub validate_decoded : List Str → Option PackManifest → List WitDiagnostic
  validate_decoded file_index none = []
  validate_decoded file_index (some manifest) =
      if not (is_events_index manifest file_index) then [] else diagnostics_of manifest file_index

  -- `EventsPackValidator::validate`
  unfoldable pub validate_inputs : PackInputs → List WitDiagnostic
  unfolding is_events_index validate_schema_refs validate_topics validate_entry_flows
  validate_inputs inputs = validate_decoded inputs.file_index (decode inputs.manifest_cbor)
