-- ===== src/Samples/Inputs.antt =====
-- A topic and a publish input, and the theorems on their checks at them.
use greentic_events.Validate.{PackManifest, other_inline, manifest_entry_flows}
use greentic_events.Validate.Checks.{handler_flow_validator, indexed}
use greentic_events.Validate.Checks.Handlers.{IsRight, handler_flow_validator_clean}
use greentic_events.Backoff.{exponential, from_millis}
use greentic_events.RuntimeConfig.{EventsRuntimeConfig, retry_policy_from}
use greentic_events.RuntimeConfig.Policy.{retry_policy_from_fields}
use greentic_events.Base.{
  Bool, false, All, is_empty, is_some, ◌≡◌, ◌↔◌, true, none, some, [], ◌∷◌, ok,
}
use greentic_events.Base.Str.{codes}
use greentic_events.Event.{null, object, field, end, array, cons, nil, string}
use greentic_events.Validate.{is_valid_event_topic}
use greentic_events.Validate.Topic.{Matches, topic_regex, is_valid_event_topic_iff}
use greentic_events.ProviderOps.{PublishInput}
use greentic_events.InputCheck.{validate_publish_input}
use greentic_events.InputCheck.Accepted.{IsAcceptable, validate_publish_input_iff}

is_valid_event_topic_iff_example :
    (is_valid_event_topic (codes "events.order.created") ≡ true)
    ↔ Matches topic_regex (codes "events.order.created")
is_valid_event_topic_iff_example = is_valid_event_topic_iff (codes "events.order.created")

abbrev input : PublishInput
input = record {
  topic = codes "events.a";
  event = record {
    id = some (codes "evt-1");
    topic = some (codes "events.a");
    event_type = none;
    source = none;
    subject = none;
    ts = some (codes "2026-01-01T00:00:00Z");
    time = none;
    correlation_id = none;
    payload = null;
    meta = record { tenant = none; tags = codes "a" ∷ []; extra = [] };
    metadata = [];
    tenant = none;
  };
  options = none;
}

validate_publish_input_iff_example :
    (validate_publish_input (λ t. true) input ≡ ok tt) ↔ IsAcceptable (λ t. true) input
validate_publish_input_iff_example = validate_publish_input_iff (λ t. true) input

abbrev config : EventsRuntimeConfig Bool
config = record {
  endpoint = none;
  reconnect = some (record { max_retries = some 5 });
  backoff = some (record {
    initial_ms = some 100;
    max_ms = none;
    multiplier = some false;
    jitter = some false;
  });
}

retry_policy_from_fields_example : retry_policy_from (λ below. below) config ≡ record {
  max_retries = 5;
  strategy = exponential;
  base_delay = from_millis 100;
  max_delay = from_millis 30_000;
  retryable_errors = [];
}
retry_policy_from_fields_example = retry_policy_from_fields (λ below. below) config

abbrev manifest : PackManifest
manifest = record {
  pack_id = codes "events-demo";
  extensions = some (
      some (
        other_inline
          (object (field (codes "entry_flows") (array (cons (string (codes "handle_a")) nil)) end)))
      ∷ []);
  provider_inline = none;
  flows = record { id = codes "handle_a"; schema_version = codes "flow-v0" } ∷ [];
}

handler_flow_validator_clean_example :
    (is_empty (handler_flow_validator.validate manifest) ≡ true) ↔ (
      All (λ id. is_some (indexed id manifest.flows) ≡ true) (manifest_entry_flows manifest)
      × All IsRight manifest.flows)
handler_flow_validator_clean_example = handler_flow_validator_clean manifest
