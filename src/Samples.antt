-- ===== src/Samples.antt =====
-- A bus over a small world, and the theorems at it. The world counts what is done to it, and the
-- provider fails as often as the world says.
pub mod Installs
pub mod Inputs
pub mod Runners
pub mod Runs
pub mod Gates
pub mod Checks
use greentic_events.Base.{
  ℕ, zero, suc, ◌+◌, ◌≡◌, ◌≢◌, refl, true, false, none, some, List, [], ◌∷◌, Result, ok, err, arith,
  ◌↔◌, inl, inr, any, ap, false≢true, All, ◌≤◌,
}
use greentic_events.Base.Str.{Str, codes, str_eq, str_eq_iff}
use greentic_events.Base.Map.{lookup}
use greentic_events.Event.{EventEnvelope, null}
use greentic_events.Error.{acl_denied, no_provider, duplicate, delivery_failed}
use greentic_events.Pattern.{matches_pattern}
use greentic_events.Pattern.Glob.{Matches}
use greentic_events.Pattern.Correct.{
  matches_pattern_sound, matches_pattern_iff, literal_star_missed,
}
use greentic_events.Acl.{TopicAcl, allow_publish, allow_subscribe}
use greentic_events.Acl.Permitted.{Permitted, Grants, allow_by_first_rule}
use greentic_events.Backoff.{RetryPolicy, fixed, from_millis, delay_for_attempt, is_retryable}
use greentic_events.Backoff.Delay.{closed_form, delay_closed_form, delay-le-max_delay, delay_mono}
use greentic_events.Idempotency.{seen_before, insert_key}
use greentic_events.Metrics.{record_in, record_out, new_metrics, record_failed, record_dlq}
use greentic_events.Bridge.{empty_registry}
use greentic_events.Descriptor.{EventProviderDescriptor, broker, nats, at_most_once, unordered}
use greentic_events.Provider.{EventProvider, ProviderRegistration}
use greentic_events.Subscription.{default_options}
use greentic_events.Bus.Action.{BusState}
use greentic_events.Bus.{
  Runtime, EventBus, publish, publish_with_retry, provider_for_topic, composed_key, check_key,
  idempotency_key,
}
use greentic_events.Bus.Gate.{Admits}
use greentic_events.Bus.Routing.{IsFirst, Subscribes, provider_for_topic_iff}
use greentic_events.Bus.Retry.{
  Meter, IsMetered, publish_with_retry_attempts, publish_with_retry_exhausted,
  publish_with_retry_wait,
}
use greentic_events.Bus.Accounting.{
  Counted, total, entered, delivered, failed, publish_all, publish_all-Counted,
}
use greentic_events.Bus.Duplicates.{Parts, in_memory_bus, publish_repeat}
use greentic_events.Bus.Failure.{publish_failed, IsDeadLetter}
use greentic_events.Bus.Tenants.{publish_separate}

pub record World : Type 0 where
  pub calls : ℕ
  pub slept : ℕ
  pub failing : ℕ

abbrev pub try_publish : ℕ → World → Result Str Unit × World
try_publish zero w = (ok tt, record w { calls = w.calls + 1 })
try_publish (suc n) w = (err (codes "boom"), record w { calls = w.calls + 1; failing = n })

abbrev descriptor : EventProviderDescriptor
descriptor = record {
  name = codes "fake";
  kind = broker;
  transport = nats;
  reliability = at_most_once;
  ordering = unordered;
  notes = none;
  tags = [];
}

abbrev pub fake : EventProvider World
fake = record {
  descriptor = descriptor;
  topic_patterns = codes "greentic.*" ∷ [];
  publish = λ event w. try_publish w.failing w;
  subscribe = λ topic tenant options w. (ok (record { receiver = 0 }), w);
}

abbrev pub policy : RetryPolicy
policy = record {
  max_retries = 1;
  strategy = fixed;
  base_delay = from_millis 10;
  max_delay = from_millis 1000;
  retryable_errors = [];
}

abbrev pub registration : ProviderRegistration World
registration = record {
  descriptor = descriptor;
  topics = codes "greentic.*" ∷ [];
  dlq_topic = none;
  retry = policy;
  backend = fake;
}

abbrev pub runtime : Runtime World
runtime = record { sleep = λ d w. record w { slept = w.slept + d }; draw = λ w n. n }

abbrev acl : TopicAcl
acl = record { rules = []; default_allow = true }

abbrev parts : Parts World Unit
parts = record { providers = registration ∷ []; acl = acl; bridges = empty_registry World Unit }

abbrev pub sample_bus : EventBus World (List Str) Unit
sample_bus = in_memory_bus parts

abbrev pub event_for : Str → Str → EventEnvelope
event_for tenant key = record {
  id = codes "evt-1";
  topic = codes "greentic.repo";
  event_type = codes "t";
  source = codes "s";
  tenant = record { env = codes "dev"; tenant = tenant };
  subject = none;
  time = 0;
  correlation_id = none;
  payload = null;
  metadata = (idempotency_key, key) ∷ [];
}

abbrev pub event : EventEnvelope
event = event_for (codes "acme") (codes "k1")

abbrev pub state_failing : ℕ → BusState World (List Str)
state_failing n = record {
  metrics = new_metrics;
  seen = [];
  world = record { calls = 0; slept = 0; failing = n };
}

abbrev meter : Meter World
meter = record { calls = λ w. w.calls; slept = λ w. w.slept }

try_publish-counts :
    (n : ℕ) (w : World)
    → ((try_publish n w).1.calls ≡ w.calls + 1) × ((try_publish n w).1.slept ≡ w.slept)
try_publish-counts zero w = (refl, refl)
try_publish-counts (suc n) w = (refl, refl)

metered : IsMetered runtime registration meter
metered = record {
  publish_calls = λ event w. (try_publish-counts w.failing w).0;
  publish_slept = λ event w. (try_publish-counts w.failing w).1;
  sleep_calls = λ d w. refl;
  sleep_slept = λ d w. refl;
  draw_in_range = λ w n. omega arith;
}

event_allowed : allow_publish acl event.tenant event.topic ≡ ok tt
unfolding allow_publish
event_allowed = refl

topic_served : provider_for_topic sample_bus (codes "greentic.repo") ≡ ok registration
unfolding provider_for_topic matches_pattern any
topic_served = refl

admitted : (tenant key : Str) → Admits sample_bus (event_for tenant key) registration
unfolding allow_publish
admitted tenant key = record { allowed = refl; routed = topic_served }

matches_pattern_iff_example :
    (matches_pattern (codes "a*b") (codes "axxb") ≡ true) ↔ Matches (codes "a*b") (codes "axxb")
matches_pattern_iff_example = matches_pattern_iff (codes "a*b") (codes "axxb") (omega arith)

axxb_reported : matches_pattern (codes "a*b") (codes "axxb") ≡ true
unfolding matches_pattern
axxb_reported = refl

matches_pattern_sound_example : Matches (codes "a*b") (codes "axxb")
matches_pattern_sound_example = matches_pattern_sound (codes "a*b") (codes "axxb") axxb_reported

literal_star_missed_example :
    (matches_pattern (codes "*x") (codes "*yx") ≡ false) × Matches (codes "*x") (codes "*yx")
literal_star_missed_example =
    literal_star_missed b'x' b'y' (omega arith) (omega arith) (omega arith)

allow_by_first_rule_example :
    Grants
      (Permitted (λ r. r.allow_publish) true event.tenant event.topic [])
      (allow_publish acl event.tenant event.topic)
      (acl_denied (codes "acme") (codes "greentic.repo") (codes "publish"))
    × Grants
        (Permitted (λ r. r.allow_subscribe) true event.tenant event.topic [])
        (allow_subscribe acl event.tenant event.topic)
        (acl_denied (codes "acme") (codes "greentic.repo") (codes "subscribe"))
allow_by_first_rule_example =
    allow_by_first_rule event.tenant event.topic (omega arith) (omega arith) acl

delay_closed_form_example :
    delay_for_attempt (λ n. n) policy 2 ≡ closed_form (λ n. n) policy 2 fixed
delay_closed_form_example = delay_closed_form (λ n. n) policy 2 (omega arith)

delay-le-max_delay_example : delay_for_attempt (λ n. n) policy 2 ≤ from_millis 1000
delay-le-max_delay_example = delay-le-max_delay (λ n. n) policy 2 (λ n. omega arith)

delay_mono_example : delay_for_attempt (λ n. n) policy 1 ≤ delay_for_attempt (λ n. n) policy 2
delay_mono_example = delay_mono (λ n. n) policy 1 2 (λ e. cc e) (omega arith) (omega arith)

publish_with_retry_attempts_example :
    (1 ≤ (publish_with_retry runtime registration event (state_failing 5).world).1.calls)
    × ((publish_with_retry runtime registration event (state_failing 5).world).1.calls ≤ 2)
publish_with_retry_attempts_example =
    publish_with_retry_attempts runtime registration meter metered event (state_failing 5).world

fails_twice :
    publish_with_retry runtime registration event (state_failing 5).world
    ≡ (err (codes "boom"), record { calls = 2; slept = from_millis 10; failing = 3 })
unfolding publish_with_retry is_retryable delay_for_attempt
fails_twice = refl

publish_with_retry_exhausted_example :
    (publish_with_retry runtime registration event (state_failing 5).world).1.calls ≡ 2
unfolding is_retryable
publish_with_retry_exhausted_example =
    publish_with_retry_exhausted runtime registration meter metered event (state_failing 5).world
      (codes "boom") (ap (λ o. o.0) fails_twice) refl

publish_with_retry_wait_example :
    (publish_with_retry runtime registration event (state_failing 5).world).1.slept
    ≤ from_millis 1000
publish_with_retry_wait_example =
    publish_with_retry_wait runtime registration meter metered event (state_failing 5).world

provider_for_topic_iff_example :
    ((p : ProviderRegistration World)
      → (provider_for_topic sample_bus (codes "other") ≡ ok p)
        ↔ IsFirst (codes "other") p (registration ∷ []))
    × ((provider_for_topic sample_bus (codes "other") ≡ err (no_provider (codes "other")))
        ↔ All (λ p. ¬ Subscribes (codes "other") p.topics) (registration ∷ []))
provider_for_topic_iff_example = provider_for_topic_iff sample_bus (codes "other") (omega arith)

no_provider_for_other :
    provider_for_topic sample_bus (codes "other") ≡ err (no_provider (codes "other"))
unfolding provider_for_topic matches_pattern any
no_provider_for_other = refl

other_allowed : allow_publish acl event.tenant (codes "other") ≡ ok tt
unfolding allow_publish
other_allowed = refl

publish_all-Counted_example :
    Counted
      (total entered (publish_all runtime sample_bus (event ∷ event ∷ []) (state_failing 5)).0)
      (total delivered (publish_all runtime sample_bus (event ∷ event ∷ []) (state_failing 5)).0)
      (total failed (publish_all runtime sample_bus (event ∷ event ∷ []) (state_failing 5)).0)
      new_metrics
      (publish_all runtime sample_bus (event ∷ event ∷ []) (state_failing 5)).1.metrics
publish_all-Counted_example =
    publish_all-Counted runtime sample_bus (event ∷ event ∷ []) (state_failing 5)

key_found : lookup idempotency_key event.metadata ≡ some (codes "k1")
unfolding lookup str_eq
key_found = refl

abbrev after_one : BusState World (List Str)
after_one =
    (publish_all runtime sample_bus [] (publish runtime sample_bus event (state_failing 5)).1).1

publish_repeat_example : publish runtime sample_bus event after_one ≡ (
  err (duplicate (composed_key event (codes "k1"))),
  record after_one { metrics = record_in after_one.metrics },
)
publish_repeat_example =
    publish_repeat runtime parts event event (codes "k1") [] registration registration
      (state_failing 5) (admitted (codes "acme") (codes "k1"))
      (admitted (codes "acme") (codes "k1")) key_found key_found refl

abbrev other_event : EventEnvelope
other_event = event_for (codes "bolt") (codes "k1")

other_key_found : lookup idempotency_key other_event.metadata ≡ some (codes "k1")
unfolding lookup str_eq
other_key_found = refl

tenants_differ : codes "acme" ≢ codes "bolt"
unfolding str_eq
tenants_differ e = false≢true ((str_eq_iff (codes "acme") (codes "bolt")).1 e)

nothing_seen : seen_before (composed_key other_event (codes "k1")) [] ≡ false
unfolding seen_before str_eq
nothing_seen = refl

publish_separate_example :
    (publish runtime sample_bus other_event
      (publish runtime sample_bus event (state_failing 0)).1).0
    ≢ err (duplicate (codes "bolt:k1"))
publish_separate_example =
    publish_separate runtime parts event other_event (codes "k1") (codes "k1") registration
      (state_failing 0) (codes "bolt:k1") (omega arith) (omega arith) key_found other_key_found
      (inl tenants_differ) nothing_seen (admitted (codes "bolt") (codes "k1"))

abbrev let_through : ℕ → BusState World (List Str)
let_through n = record (state_failing n) {
  metrics = record_in new_metrics;
  seen = composed_key event (codes "k1") ∷ [];
}

key_is_new :
    (n : ℕ)
    → check_key sample_bus event
        (lookup idempotency_key event.metadata)
        (record (state_failing n) { metrics = record_in new_metrics })
      ≡ (ok tt, let_through n)
unfolding check_key lookup insert_key str_eq
key_is_new n = refl

publish_failed_example :
    (d : EventEnvelope) × IsDeadLetter registration event (codes "boom") d
    × (publish runtime sample_bus event (state_failing 5) ≡ (
      err (delivery_failed (codes "fake") (codes "boom")),
      record (let_through 5) {
        metrics = record_dlq (record_failed (record_in new_metrics));
        world = (try_publish 3 (record { calls = 2; slept = from_millis 10; failing = 3 })).1;
      },
    ))
publish_failed_example =
    publish_failed runtime sample_bus event registration (state_failing 5) (let_through 5)
      (record { calls = 2; slept = from_millis 10; failing = 3 })
      (admitted (codes "acme") (codes "k1")) (key_is_new 5) fails_twice

delivers_at_once :
    publish_with_retry runtime registration event (state_failing 0).world
    ≡ (ok tt, record { calls = 1; slept = 0; failing = 0 })
unfolding publish_with_retry
delivers_at_once = refl
