-- ===== src/Samples/Runs/Brokers.antt =====
-- Two brokers, with a topic pattern and without, and the theorems on the dry run at them.
use greentic_events.Base.{ℕ, ◌+◌, ◌≡◌, ◌≢◌, ◌↔◌, refl, true, none, some, [], ◌∷◌, ok, err, false}
use greentic_events.Base.Str.{codes, str_eq}
use greentic_events.Event.{array, nil, object, end}
use greentic_events.Error.{display, no_provider}
use greentic_events.Descriptor.{EventProviderSpec, broker}
use greentic_events.Bus.{Runtime, provider_for_topic}
use greentic_events.E2e.{PackLoad}
use greentic_events.E2e.Task.{returned}
use greentic_events.E2e.Checks.{Formats}
use greentic_events.E2e.Live.{Host}
use greentic_events.E2e.Live.Broker.{tried_topic, tried_broker}
use greentic_events.E2e.DryBus.{Broadcast, registered, fixture_sync}
use greentic_events.E2e.DryBus.Topics.{bus_of, tried_topic-iff_routed, fixture_sync-no_topics}
use greentic_events.Samples.Runs.{formats, envelopes}

abbrev silent_broker : EventProviderSpec
silent_broker = record {
  name = codes "silent";
  kind = broker;
  capabilities = record { transport = none; reliability = none; ordering = none; topics = [] };
}

abbrev nats_broker : EventProviderSpec
nats_broker = record {
  name = codes "nats";
  kind = broker;
  capabilities = record {
    transport = none;
    reliability = none;
    ordering = none;
    topics = codes "greentic.*" ∷ [];
  };
}

abbrev pack : PackLoad
pack = record {
  pack_id = codes "p";
  version = codes "1";
  entry_flows = [];
  events = some (silent_broker ∷ []);
  flows = [];
  files = (codes "fixtures/subscriptions.expected.json", []) ∷ [];
}

abbrev array_formats : Formats
array_formats = record formats { decode_value = λ s. ok (array nil) }

abbrev host : Host ℕ ℕ
host = record {
  env_var = λ name w. none;
  execute = λ exe args payload w.
      (ok (record { success = true; status = []; stdout = []; stderr = [] }), w + 1);
  to_vec = λ v. [];
  from_utf8 = λ s. ok s;
  from_utf8_lossy = λ s. s;
  parse_json = λ s. ok (object end);
  message_value = λ m. object end;
  event_value = λ e. object end;
  events_of_value = λ v. ok [];
  messages_of_value = λ v. ok [];
  event_of_value = λ v. err (codes "no event");
  new_tenant = λ env tenant. ok (record { env = env; tenant = tenant });
}

abbrev broadcast : Broadcast ℕ
broadcast = record {
  published = λ w. [];
  keep = λ ev w. w + 1;
  send = λ ev w. w;
  subscription_channel =
      λ w. ((record { send = λ ev v. (true, v + 1) }, record { receiver = 0 }), w);
  forward = λ tx w. w;
  register = λ name w. w + 1;
  next = λ handle w. (none, w);
}

abbrev runtime : Runtime ℕ
runtime = record { sleep = λ d w. w; draw = λ w n. 0 }

tried_topic-iff_routed_example :
    (provider_for_topic (bus_of broadcast ℕ nats_broker 0).0 (tried_topic nats_broker)
      ≡ ok (registered broadcast nats_broker))
    ↔ (nats_broker.capabilities.topics ≢ [])
tried_topic-iff_routed_example = tried_topic-iff_routed broadcast ℕ nats_broker 0

found : tried_broker host array_formats pack (silent_broker ∷ []) ≡ ok silent_broker
unfolding tried_broker str_eq
found = refl

fixture_sync-no_topics_example :
    fixture_sync broadcast runtime host envelopes ℕ array_formats
      (λ p providers w. (returned (ok tt), w))
      pack
      (silent_broker ∷ [])
      false
      0
    ≡ (returned (err (display (no_provider (codes "greentic.events.test")))), 1)
fixture_sync-no_topics_example =
    fixture_sync-no_topics broadcast runtime host envelopes ℕ array_formats
      (λ p providers w. (returned (ok tt), w)) pack (silent_broker ∷ []) silent_broker
      (record { env = codes "dev"; tenant = codes "tenant" }) 0 found refl refl
