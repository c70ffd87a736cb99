-- ===== src/Publishing.antt =====
-- src/bus.rs: `publish_event`, which publishes a payload in a generated envelope.
use greentic_events.Base.{ℕ, Result}
use greentic_events.Base.Str.{Str}
use greentic_events.Event.{Json, TenantCtx}
use greentic_events.Envelope.{build_envelope}
use greentic_events.Bus.{Runtime, EventBus, publish}
use greentic_events.Bus.Action.{Act, lift, ◌>>=◌}

-- The random suffix of the identifier, the check of `EventId::new` and the time are arguments, as
-- they are of `build_envelope`.
unfoldable pub publish_event :
    {W S M : Type 0}
    → Runtime W
    → EventBus W S M
    → Str
    → (Str → Result Str Str)
    → ℕ
    → TenantCtx
    → Str
    → Json
    → Act W S Unit
unfolding build_envelope publish
publish_event rt bus suffix new_id now tenant topic payload = do
  envelope ← lift (build_envelope suffix new_id now tenant topic payload)
  publish rt bus envelope
