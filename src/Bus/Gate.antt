-- ===== src/Bus/Gate.antt =====
-- src/bus.rs: the checks that stand before every publish and subscribe, and what follows them.
use greentic_events.Base.{◌≡◌, ok, err, arith, ◌⊎◌, ok_or-cases, find}
use greentic_events.Base.Str.{Str, codes}
use greentic_events.Event.{EventEnvelope, TenantCtx}
use greentic_events.Error.{no_provider, acl_denied}
use greentic_events.Acl.{TopicAcl, allow_publish, allow_subscribe}
use greentic_events.Provider.{ProviderRegistration}
use greentic_events.Bus.Action.{BusState, Act}
use greentic_events.Bus.{
  Runtime, EventBus, serves, provider_for_topic, publish_with_retry, finish, deliver, publish,
}

pub allow_publish-cases :
    (acl : TopicAcl) (t : TenantCtx) (topic : Str)
    → (allow_publish acl t topic ≡ ok tt)
      ⊎ (allow_publish acl t topic ≡ err (acl_denied t.tenant topic (codes "publish")))
unfolding allow_publish
allow_publish-cases acl t topic = ground arith

pub allow_subscribe-cases :
    (acl : TopicAcl) (t : TenantCtx) (topic : Str)
    → (allow_subscribe acl t topic ≡ ok tt)
      ⊎ (allow_subscribe acl t topic ≡ err (acl_denied t.tenant topic (codes "subscribe")))
unfolding allow_subscribe
allow_subscribe-cases acl t topic = ground arith

module _ {W S M : Type 0} (bus : EventBus W S M) where
  pub provider_for_topic-cases :
      (topic : Str)
      → ((p : ProviderRegistration W) × (provider_for_topic bus topic ≡ ok p))
        ⊎ (provider_for_topic bus topic ≡ err (no_provider topic))
  unfolding provider_for_topic
  provider_for_topic-cases topic =
      ok_or-cases (find (serves topic) bus.providers) (no_provider topic)

  -- The access rules allow the event, and `p` is the provider of its topic.
  pub record Admits (event : EventEnvelope) (p : ProviderRegistration W) : Type 0 where
    pub allowed : allow_publish bus.acl event.tenant event.topic ≡ ok tt
    pub routed : provider_for_topic bus event.topic ≡ ok p

-- What follows the check of the key.
abbrev pub tail : {W S : Type 0} → Runtime W → ProviderRegistration W → EventEnvelope → Act W S Unit
tail rt p event st =
    let (r, w) = publish_with_retry rt p event st.world in
    finish p event r (record st { world = w })

module _ {W S M : Type 0} (rt : Runtime W) (bus : EventBus W S M) where
  pub publish-Admits :
      {event : EventEnvelope} {p : ProviderRegistration W} (st : BusState W S)
      → Admits bus event p
      → publish rt bus event st ≡ deliver rt bus p event st
  unfolding publish
  publish-Admits st a = rw (a.allowed, a.routed)
