-- ===== src/Samples/Gates.antt =====
-- A bus with two providers and rules for one tenant, and the theorems of Bus.Gated at it.
use greentic_events.Base.{◌≡◌, refl, any, List, [], ◌∷◌, ok, err, true, false, arith}
use greentic_events.Base.Str.{Str, codes}
use greentic_events.Base.Map.{lookup}
use greentic_events.Pattern.{matches_pattern}
use greentic_events.Acl.{allow_publish}
use greentic_events.Idempotency.{insert_key}
use greentic_events.Error.{acl_denied}
use greentic_events.Subscription.{default_options}
use greentic_events.Bus.{EventBus, publish, subscribe, provider_for_topic, publish_with_retry}
use greentic_events.Bus.Gated.{Gated, publish-Gated, subscribe-Gated}
use greentic_events.Samples.{
  World, runtime, registration, sample_bus, event, event_for, state_failing,
}

-- Only `acme` may publish, and only on topics below "greentic."; none may subscribe.
abbrev guarded_bus : EventBus World (List Str) Unit
guarded_bus = record sample_bus {
  providers = record registration { topics = codes "other.*" ∷ [] } ∷ registration ∷ [];
  acl = record {
    rules =
        record {
          tenant_pattern = codes "acme";
          topic_pattern = codes "greentic.*";
          allow_publish = true;
          allow_subscribe = false;
        }
        ∷ [];
    default_allow = false;
  };
}

publish-Gated_example :
    Gated
      (λ r. r.allow_publish)
      (codes "publish")
      (λ b. publish runtime b event (state_failing 1))
      guarded_bus
      event.tenant
      event.topic
      (state_failing 1)
publish-Gated_example =
    publish-Gated runtime guarded_bus event (state_failing 1) (omega arith) (omega arith)

subscribe-Gated_example :
    Gated
      (λ r. r.allow_subscribe)
      (codes "subscribe")
      (λ b. subscribe b (codes "greentic.repo") event.tenant default_options (state_failing 0))
      guarded_bus
      event.tenant
      (codes "greentic.repo")
      (state_failing 0)
subscribe-Gated_example =
    subscribe-Gated guarded_bus (codes "greentic.repo") event.tenant default_options
      (state_failing 0) (omega arith) (omega arith)

-- The tenant that has a rule gets through to the second provider, another does not.
published : (publish runtime guarded_bus event (state_failing 0)).0 ≡ ok tt
unfolding publish allow_publish matches_pattern provider_for_topic any lookup insert_key
    publish_with_retry
published = refl

stranger_denied :
    publish runtime guarded_bus (event_for (codes "zeta") (codes "k1")) (state_failing 0)
    ≡ (err (acl_denied (codes "zeta") (codes "greentic.repo") (codes "publish")), state_failing 0)
unfolding publish allow_publish matches_pattern
stranger_denied = refl
