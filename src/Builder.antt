-- ===== src/Builder.antt =====
-- src/bus.rs: `EventBusBuilder`, with registration from a pack and `build`.
-- The builder owns its idempotency store and counters: `seen` is the store's state. An
-- `anyhow::Error` is its outermost message.
pub mod Registered
use greentic_events.Base.{
  ℕ, zero, suc, Bool, true, false, ◌++◌, Option, none, some, List, [], ◌∷◌, map, Result, ok, err,
  push, is_some, is_empty, and_then, unwrap_or, map_err, if◌then◌else◌, ◌==◌, not,
}
use greentic_events.Base.Str.{Str, codes, is_blank}
use greentic_events.Base.Map.{lookup, insert}
use greentic_events.Event.{Json, Dict, EventEnvelope, TenantCtx}
use greentic_events.Error.{Outcome, other}
use greentic_events.Acl.{TopicAcl, TopicAclRule}
use greentic_events.Backoff.{RetryPolicy, default_policy}
use greentic_events.Idempotency.{IdempotencyStore, in_memory}
use greentic_events.Metrics.{EventMetrics, new_metrics}
use greentic_events.Bridge.{
  BridgeRegistry, BridgeFactory, MessageToEventBridge, EventToMessageBridge, empty_registry,
  register_message_to_event, register_event_to_message,
}
use greentic_events.Descriptor.{
  EventProviderKind, broker, source, sink, bridge, EventProviderSpec, descriptor_from_spec,
}
use greentic_events.Provider.{EventProvider, EventProviderFactory, ProviderRegistration}
use greentic_events.Annotations.{ProviderOverrides, provider_overrides_from_annotations}
use greentic_events.Pack.{PackSpec}
use greentic_events.Bus.{EventBus}
use greentic_events.Bus.Action.{BusState}

pub record EventBusBuilder (W S M : Type 0) : Type 0 where
  pub providers : List (ProviderRegistration W)
  pub acl : TopicAcl
  pub idempotency : IdempotencyStore S
  pub seen : S
  pub metrics : EventMetrics
  pub bridges : BridgeRegistry W M
  pub overrides : Dict ProviderOverrides

abbrev pub default_builder : (W M : Type 0) → EventBusBuilder W (List Str) M
default_builder W M = record {
  providers = [];
  acl = record { rules = []; default_allow = true };
  idempotency = in_memory;
  seen = [];
  metrics = new_metrics;
  bridges = empty_registry W M;
  overrides = [];
}

-- `self.overrides.entry(name).or_insert(ov)`
abbrev pub or_insert : {V : Type 0} → Str → V → Dict V → Dict V
or_insert name v m = if is_some (lookup name m) then m else insert name v m

abbrev pub note_overrides :
    Str → Option ProviderOverrides → Dict ProviderOverrides → Dict ProviderOverrides
note_overrides name none overrides = overrides
note_overrides name (some ov) overrides = or_insert name ov overrides

-- The registration of a provider that was built, under the overrides recorded for its name.
unfoldable pub registration_of :
    {W : Type 0}
    → EventProviderSpec
    → Option ProviderOverrides
    → EventProvider W
    → ProviderRegistration W
registration_of spec override_cfg backend = record {
  descriptor = descriptor_from_spec spec;
  topics = spec.capabilities.topics;
  dlq_topic = and_then override_cfg (λ o. o.dlq_topic);
  retry = unwrap_or (and_then override_cfg (λ o. o.retry)) default_policy;
  backend = backend;
}

-- What `build` does to one registration.
unfoldable pub with_override :
    {W : Type 0} → Option ProviderOverrides → ProviderRegistration W → ProviderRegistration W
with_override none reg = reg
with_override (some over) reg = record reg {
  dlq_topic = elim over.dlq_topic [ some dlq ↦ some dlq | none ↦ reg.dlq_topic ];
  retry = elim over.retry [ some retry ↦ retry | none ↦ reg.retry ];
}

module _ {W S M : Type 0} where
  abbrev pub with_acl : List TopicAclRule → EventBusBuilder W S M → EventBusBuilder W S M
  with_acl rules b = record b { acl = record b.acl { rules = rules } }

  abbrev pub with_metrics : EventMetrics → EventBusBuilder W S M → EventBusBuilder W S M
  with_metrics metrics b = record b { metrics = metrics }

  abbrev pub with_overrides : Dict ProviderOverrides → EventBusBuilder W S M → EventBusBuilder W S M
  with_overrides overrides b = record b { overrides = overrides }

  abbrev pub register_provider :
      ProviderRegistration W → EventBusBuilder W S M → EventBusBuilder W S M
  register_provider provider b = record b { providers = push b.providers provider }

  -- Another store comes with its own state.
  abbrev pub with_idempotency_store :
      {T : Type 0} → IdempotencyStore T → T → EventBusBuilder W S M → EventBusBuilder W T M
  with_idempotency_store store seen b = record {
    providers = b.providers;
    acl = b.acl;
    idempotency = store;
    seen = seen;
    metrics = b.metrics;
    bridges = b.bridges;
    overrides = b.overrides;
  }

  abbrev pub register_message_to_event_bridge :
      Str → MessageToEventBridge W M → EventBusBuilder W S M → EventBusBuilder W S M
  register_message_to_event_bridge name bridge_of b = record b {
    bridges = register_message_to_event name bridge_of b.bridges;
  }

  abbrev pub register_event_to_message_bridge :
      Str → EventToMessageBridge W M → EventBusBuilder W S M → EventBusBuilder W S M
  register_event_to_message_bridge name bridge_of b = record b {
    bridges = register_event_to_message name bridge_of b.bridges;
  }

-- The builder after each step of the registration, or the error that ended it, and the world.
abbrev pub Registering : Type 0 → Type 0 → Type 0 → Type 0
Registering W S M = Result Str (EventBusBuilder W S M) × W

abbrev pub then_register :
    {W S M A : Type 0}
    → (Str → Str)
    → Result Str A × W
    → (A → W → Registering W S M)
    → Registering W S M
then_register context (ok a, w) rest = rest a w
then_register context (err e, w) rest = (err (context e), w)

module _ {W S M : Type 0} where
  -- Both halves of a bridge, if there is a factory.
  unfoldable pub register_bridge :
      Option (BridgeFactory W M) → Str → EventBusBuilder W S M → W → Registering W S M
  register_bridge none name b w = (ok b, w)
  register_bridge (some factory) name b w =
      then_register (λ _. codes "build message->event bridge")
        (factory.build_message_to_event name w)
        λ msg_bridge w1.
          let b1 : EventBusBuilder W S M = record b {
            bridges = register_message_to_event name msg_bridge b.bridges;
          } in
          then_register (λ _. codes "build event->message bridge")
            (factory.build_event_to_message name w1)
            λ evt_bridge w2. (
              ok (record b1 { bridges = register_event_to_message name evt_bridge b1.bridges }),
              w2,
            )

  unfoldable pub register_built :
      EventProviderFactory W → EventProviderSpec → EventBusBuilder W S M → W → Registering W S M
  register_built factory spec b w =
      then_register (λ e. e) (factory.build_provider spec w)
        λ backend w1. (
          ok (record b {
            providers =
                push b.providers (registration_of spec (lookup spec.name b.overrides) backend);
          }),
          w1,
        )

  abbrev pub register_by_kind :
      EventProviderKind
      → EventProviderFactory W
      → Option (BridgeFactory W M)
      → EventProviderSpec
      → EventBusBuilder W S M
      → W
      → Registering W S M
  register_by_kind bridge factory bridges spec b w = register_bridge bridges spec.name b w
  register_by_kind _ factory bridges spec b w = register_built factory spec b w

  -- One provider of the pack.
  unfoldable pub register_spec :
      EventProviderFactory W
      → Option (BridgeFactory W M)
      → Dict Json
      → EventProviderSpec
      → EventBusBuilder W S M
      → W
      → Registering W S M
  unfolding register_bridge register_built
  register_spec factory bridges annotations spec b w =
      register_by_kind spec.kind factory bridges spec
        (record b {
          overrides =
              note_overrides spec.name (provider_overrides_from_annotations spec.name annotations)
                b.overrides;
        })
        w

  unfoldable pub register_specs :
      EventProviderFactory W
      → Option (BridgeFactory W M)
      → Dict Json
      → List EventProviderSpec
      → EventBusBuilder W S M
      → W
      → Registering W S M
  register_specs factory bridges annotations [] b w = (ok b, w)
  register_specs factory bridges annotations (spec ∷ specs) b w =
      then_register (λ e. e) (register_spec factory bridges annotations spec b w)
        λ b1 w1. register_specs factory bridges annotations specs b1 w1

  -- `loaded` is the result of `load_spec`.
  unfoldable pub register_from_pack :
      Result Str PackSpec
      → EventProviderFactory W
      → Option (BridgeFactory W M)
      → EventBusBuilder W S M
      → W
      → Registering W S M
  unfolding register_specs register_spec
  register_from_pack (err e) factory bridges b w = (err (codes "failed to load pack spec"), w)
  register_from_pack (ok spec) factory bridges b w =
      register_specs factory bridges spec.annotations (unwrap_or spec.events []) b w

  unfoldable pub build_providers : EventBusBuilder W S M → List (ProviderRegistration W)
  unfolding with_override
  build_providers b =
      map
        (λ (reg : ProviderRegistration W).
          with_override (lookup reg.descriptor.name b.overrides) reg)
        b.providers

  -- The bus, and its state in a given world.
  unfoldable pub build : EventBusBuilder W S M → W → EventBus W S M × BusState W S
  unfolding build_providers
  build b w = (
    record {
      providers = build_providers b;
      acl = b.acl;
      idempotency = b.idempotency;
      bridges = b.bridges;
    },
    record { metrics = b.metrics; seen = b.seen; world = w },
  )
