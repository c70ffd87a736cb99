-- ===== src/Envelope.antt =====
-- src/bus.rs: envelopes with a generated identifier.
use greentic_events.Base.{ℕ, ◌++◌, none, [], Result, ok, err, map_err}
use greentic_events.Base.Str.{Str, codes, to_ascii_lowercase}
use greentic_events.Event.{Json, EventEnvelope, TenantCtx}
use greentic_events.Error.{Outcome, other}

-- `build_envelope` and `generate_event_id`: the random suffix, the check of `EventId::new` and the clock are
-- arguments.
unfoldable pub build_envelope :
    Str → (Str → Result Str Str) → ℕ → TenantCtx → Str → Json → Outcome EventEnvelope
build_envelope suffix new_id now tenant topic payload =
    elim (map_err other (new_id (codes "evt-" ++ to_ascii_lowercase suffix))) [
      | ok id ↦ ok (record {
        id = id;
        topic = topic;
        event_type = codes "greentic.events.generic";
        source = codes "greentic-events";
        tenant = tenant;
        subject = none;
        time = now;
        correlation_id = none;
        payload = payload;
        metadata = [];
      })
      | err e ↦ err e
    ]
