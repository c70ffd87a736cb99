-- ===== src/Samples/Checks.antt =====
-- The inputs of the WebAssembly validator for a small pack, and the theorem at them.
use greentic_events.Base.{◌≡◌, ◌↔◌, refl, true, Option, none, some, [], ◌∷◌, is_empty}
use greentic_events.Base.Str.{Str, codes}
use greentic_events.Event.{object, field, end, array, cons, nil, string}
use greentic_events.Validate.{PackManifest, other_inline}
use greentic_events.PackCheck.{PackInputs, is_events_index, validate_inputs}
use greentic_events.PackCheck.Sound.{IsSound, validate_inputs-iff_IsSound}

abbrev manifest : PackManifest
manifest = record {
  pack_id = codes "events-demo";
  extensions = some (
      some (
        other_inline
          (object (field (codes "entry_flows") (array (cons (string (codes "handle_a")) nil)) end)))
      ∷ []);
  provider_inline = some (
      record {
        provider_type = codes "events.mail";
        ops = [];
        config_schema_ref = codes "file://schemas/events/mail.json";
        state_schema_ref = none;
      }
      ∷ []);
  flows = record { id = codes "handle_a"; schema_version = codes "flow-v1" } ∷ [];
}

abbrev inputs : PackInputs
inputs = record { manifest_cbor = []; file_index = codes "schemas/events/mail.json" ∷ [] }

abbrev decode : Str → Option PackManifest
decode bytes = some manifest

named_events : is_events_index manifest inputs.file_index ≡ true
unfolding is_events_index
named_events = refl

validate_inputs-iff_IsSound_example :
    (is_empty (validate_inputs decode (codes "greentic.provider-extension.v1") inputs) ≡ true)
    ↔ IsSound manifest inputs.file_index
validate_inputs-iff_IsSound_example =
    validate_inputs-iff_IsSound decode (codes "greentic.provider-extension.v1") inputs manifest refl
      named_events

nothing_reported : validate_inputs decode (codes "greentic.provider-extension.v1") inputs ≡ []
unfolding validate_inputs
nothing_reported = refl
