-- ===== src/Samples/Installs.antt =====
-- Registration from a pack, and installs, over the small world.
use greentic_events.Base.{
  ℕ, zero, suc, ◌≡◌, ◌≢◌, refl, true, none, List, [], ◌∷◌, Result, ok, err, arith, All, push,
  filter,
}
use greentic_events.Base.Str.{Str, codes}
use greentic_events.Event.{Json, Dict, null, string}
use greentic_events.Descriptor.{EventProviderKind, EventProviderSpec, broker, sink, bridge}
use greentic_events.Provider.{EventProviderFactory}
use greentic_events.Builder.{
  EventBusBuilder, default_builder, register_spec, build_providers, registration_of,
}
use greentic_events.Builder.Registered.{effective, register_then_build}
use greentic_events.Install.{
  ProviderInstallRecord, ResolvedInstall, InstallResolver, InstallValueStore, ProviderInstallStore,
  resolve,
}
use greentic_events.Install.Metadata.{failure_state, after_failures, failure_state-after_failures}
use greentic_events.Install.Sync.{SubscriptionsWorker, sync_install}
use greentic_events.Install.Sync.Outcome.{Ends, sync_install_outcome}
use greentic_events.Install.Sink.{InstallRuntime, build_sink_router, is_sink}
use greentic_events.Install.Sink.Accounted.{Served, build_sink_router-Served}
use greentic_events.Samples.{World, fake, policy}

abbrev spec_of : EventProviderKind → EventProviderSpec
spec_of kind = record {
  name = codes "fake";
  kind = kind;
  capabilities = record { transport = none; reliability = none; ordering = none; topics = [] };
}

abbrev factory : EventProviderFactory World
factory = record { build_provider = λ spec w. (ok fake, w) }

abbrev annotations : Dict Json
annotations = (codes "events.providers.fake.dlq_topic", string (codes "dead")) ∷ []

abbrev builder : EventBusBuilder World (List Str) Unit
builder = default_builder World Unit

abbrev start_world : World
start_world = record { calls = 0; slept = 0; failing = 1 }

broker_no_bridge : broker ≢ bridge
broker_no_bridge e = cc e

register_then_build_example :
    (b1 : EventBusBuilder World (List Str) Unit) × (register_spec factory none annotations
        (spec_of broker)
        builder
        start_world
      ≡ (ok b1, start_world))
    × (build_providers b1
        ≡ push
            (build_providers (record b1 { providers = [] }))
            (registration_of (spec_of broker) (effective (codes "fake") [] annotations) fake))
register_then_build_example =
    register_then_build factory none annotations (spec_of broker) builder start_world start_world
      fake broker_no_bridge refl

failure_state-after_failures_example : failure_state (after_failures 3 3 null) ≡ (3, true)
unfolding failure_state
failure_state-after_failures_example = failure_state-after_failures 3 3 null (omega arith)

abbrev install_record : ProviderInstallRecord
install_record = record {
  provider_id = codes "fake";
  install_id = codes "one";
  config_refs = [];
  secret_refs = [];
  subscriptions_state = null;
  metadata = null;
}

abbrev resolved_record : ResolvedInstall
resolved_record = record { install = install_record; config = []; secrets = [] }

abbrev no_values : InstallValueStore World
no_values = record { read = λ reference w. (err (codes "missing"), w) }

abbrev resolver : InstallResolver World
resolver = record { config_store = no_values; secret_store = no_values }

abbrev store : ProviderInstallStore World
store = record {
  list_installs = λ name w. (ok (install_record ∷ []), w);
  update_install = λ r w. (ok tt, w);
}

abbrev try_sync : ℕ → World → Result Str Json × World
try_sync zero w = (ok null, w)
try_sync (suc n) w = (err (codes "down"), record w { failing = n })

abbrev worker : SubscriptionsWorker World
worker = record {
  install_store = store;
  resolver = resolver;
  driver = record { sync_subscriptions = λ spec install w. try_sync w.failing w };
  now_rfc3339 = λ w. codes "now";
  sleep = λ d w. w;
  draw = λ w n. n;
  retry = policy;
  max_failures = 3;
}

record_resolves : resolve resolver install_record start_world ≡ (ok resolved_record, start_world)
unfolding resolve
record_resolves = refl

sync_install_outcome_example :
    Ends worker
      (spec_of sink)
      install_record
      resolved_record
      start_world
      (sync_install worker (spec_of sink) install_record start_world)
sync_install_outcome_example =
    sync_install_outcome worker (spec_of sink) install_record start_world start_world
      resolved_record record_resolves

abbrev runtime : InstallRuntime World
runtime = record {
  install_store = store;
  resolver = resolver;
  factory = record { build_provider = λ spec install w. (err (codes "no build"), w) };
}

build_sink_router-Served_example :
    All
      (λ (spec : EventProviderSpec).
        Served
          (build_sink_router runtime (spec_of sink ∷ spec_of broker ∷ []) start_world)
          spec
          (ok (install_record ∷ [])))
      (filter
        (λ (spec : EventProviderSpec). is_sink spec.kind)
        (spec_of sink ∷ spec_of broker ∷ []))
build_sink_router-Served_example =
    build_sink_router-Served runtime (λ name. ok (install_record ∷ []))
      (spec_of sink ∷ spec_of broker ∷ []) start_world (λ name w. refl)
