-- ===== src/Bus/Gated.antt =====
-- src/bus.rs: what the access rules and the topics let through, by the meaning of their patterns.
use greentic_events.Base.{◌≡◌, refl, true, List, [], ◌∷◌, ok, err, ◌⊎◌, inl, inr, All, Bool}
use greentic_events.Base.Str.{Str, codes}
use greentic_events.Event.{EventEnvelope, TenantCtx}
use greentic_events.Error.{Outcome, no_provider, acl_denied}
use greentic_events.Pattern.Glob.{NoStar}
use greentic_events.Acl.{TopicAclRule, allow_publish, allow_subscribe}
use greentic_events.Acl.Permitted.{Permitted, allow_by_first_rule}
use greentic_events.Provider.{ProviderRegistration}
use greentic_events.Subscription.{SubscriptionOptions}
use greentic_events.Bus.Action.{BusState}
use greentic_events.Bus.{
  Runtime, EventBus, provider_for_topic, check_key, deliver, publish, subscribe,
}
use greentic_events.Bus.Gate.{allow_publish-cases, allow_subscribe-cases, provider_for_topic-cases}
use greentic_events.Bus.Routing.{Subscribes, IsFirst, here, later, provider_for_topic_iff}

-- A bus that has only this provider and allows everything, and otherwise is as it was.
abbrev pub only : {W S M : Type 0} → EventBus W S M → ProviderRegistration W → EventBus W S M
only bus p = record bus { providers = p ∷ []; acl = record { rules = []; default_allow = true } }

-- What a bus does with a request of a tenant for a topic, `run` doing it on any bus: denied, it
-- answers so; permitted, but with a topic of no provider, that; neither changes anything. Else it is
-- as if the bus had only the first provider of the topic, and no rules.
abbrev pub Gated :
    {W S M A : Type 0}
    → (TopicAclRule → Bool)
    → Str
    → (EventBus W S M → Outcome A × BusState W S)
    → EventBus W S M
    → TenantCtx
    → Str
    → BusState W S
    → Type 0
Gated {W} grants operation run bus tenant topic st =
    (¬ Permitted grants bus.acl.default_allow tenant topic bus.acl.rules
      × (run bus ≡ (err (acl_denied tenant.tenant topic operation), st)))
    ⊎ (Permitted grants bus.acl.default_allow tenant topic bus.acl.rules
        × All (λ p. ¬ Subscribes topic p.topics) bus.providers
        × (run bus ≡ (err (no_provider topic), st)))
    ⊎ ((p : ProviderRegistration W) × Permitted grants bus.acl.default_allow tenant topic
          bus.acl.rules
        × IsFirst topic p bus.providers
        × (run bus ≡ run (only bus p)))

IsFirst-Subscribes :
    {W : Type 0} {topic : Str} {p : ProviderRegistration W} {ps : List (ProviderRegistration W)}
    → IsFirst topic p ps
    → Subscribes topic p.topics
IsFirst-Subscribes (here s) = s
IsFirst-Subscribes (later n f) = IsFirst-Subscribes f

-- The one provider of a bus is the first for its topics.
only-routed :
    {W S M : Type 0} (bus : EventBus W S M) (p : ProviderRegistration W) (topic : Str)
    → NoStar topic
    → Subscribes topic p.topics
    → provider_for_topic (only bus p) topic ≡ ok p
only-routed bus p topic clean s = ((provider_for_topic_iff (only bus p) topic clean).0 p).1 (here s)

module _ {W S M : Type 0} (bus : EventBus W S M) (p : ProviderRegistration W) (tenant : TenantCtx)
    (topic : Str) where
  only-allow_publish : allow_publish (only bus p).acl tenant topic ≡ ok tt
  unfolding allow_publish
  only-allow_publish = refl

  only-allow_subscribe : allow_subscribe (only bus p).acl tenant topic ≡ ok tt
  unfolding allow_subscribe
  only-allow_subscribe = refl

-- For a tenant and a topic without stars: an event that the rules, by the meaning of their patterns,
-- do not permit is denied, one that they permit but whose topic no provider has a pattern for gets
-- that error, and neither changes anything; any other is published as if the bus had only the first
-- provider with a pattern that matches the topic, and no rules.
pub publish-Gated :
    {W S M : Type 0} (rt : Runtime W) (bus : EventBus W S M) (event : EventEnvelope)
    (st : BusState W S)
    → NoStar event.tenant.tenant
    → NoStar event.topic
    → Gated
        (λ r. r.allow_publish)
        (codes "publish")
        (λ b. publish rt b event st)
        bus
        event.tenant
        event.topic
        st
publish-Gated rt bus event st ct cs =
    let (permits, denies) = (allow_by_first_rule event.tenant event.topic ct cs bus.acl).0 in
    let (routes, misses) = provider_for_topic_iff bus event.topic cs in
    elim (allow_publish-cases bus.acl event.tenant event.topic) [
      | inr denied ↦ inl (denies.0 denied, unfold publish in rw denied refl)
      | inl allowed ↦ elim (provider_for_topic-cases bus event.topic) [
        | inr missing ↦ inr (
            inl (permits.0 allowed, misses.0 missing, unfold publish in rw (allowed, missing) refl))
        | inl (p, found) ↦
            let first = (routes p).0 found in
            inr (
              inr (
                p,
                permits.0 allowed,
                first,
                unfold publish deliver check_key in
                    rw
                      (
                        allowed,
                        found,
                        only-allow_publish bus p event.tenant event.topic,
                        only-routed bus p event.topic cs (IsFirst-Subscribes first),
                      )
                      refl,
              ))
      ]
    ]

-- Subscribing likewise, by its own flag of the rules: denied, or without a provider for its topic, it
-- changes nothing, and otherwise it is as if the bus had only the first provider with a pattern that
-- matches the topic, and no rules. Tenant and topic have no stars.
pub subscribe-Gated :
    {W S M : Type 0} (bus : EventBus W S M) (topic : Str) (tenant : TenantCtx)
    (options : SubscriptionOptions) (st : BusState W S)
    → NoStar tenant.tenant
    → NoStar topic
    → Gated
        (λ r. r.allow_subscribe)
        (codes "subscribe")
        (λ b. subscribe b topic tenant options st)
        bus
        tenant
        topic
        st
subscribe-Gated bus topic tenant options st ct cs =
    let (permits, denies) = (allow_by_first_rule tenant topic ct cs bus.acl).1 in
    let (routes, misses) = provider_for_topic_iff bus topic cs in
    elim (allow_subscribe-cases bus.acl tenant topic) [
      | inr denied ↦ inl (denies.0 denied, unfold subscribe in rw denied refl)
      | inl allowed ↦ elim (provider_for_topic-cases bus topic) [
        | inr missing ↦ inr (
            inl
              (permits.0 allowed, misses.0 missing, unfold subscribe in rw (allowed, missing) refl))
        | inl (p, found) ↦
            let first = (routes p).0 found in
            inr (
              inr (
                p,
                permits.0 allowed,
                first,
                unfold subscribe in
                    rw
                      (
                        allowed,
                        found,
                        only-allow_subscribe bus p tenant topic,
                        only-routed bus p topic cs (IsFirst-Subscribes first),
                      )
                      refl,
              ))
      ]
    ]
