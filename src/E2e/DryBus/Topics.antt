-- ===== src/E2e/DryBus/Topics.antt =====
-- src/e2e.rs: which broker the dry run of subscriptions can reach.
use greentic_events.Base.{
  ℕ, ◌≡◌, ◌≢◌, refl, sym, ◌∙◌, ap, inl, inr, true, false, List, [], ◌∷◌, ok, err, any, ◌↔◌,
  if◌then◌else◌, arith, Bool-cases, ◌==◌, ==_iff,
}
use greentic_events.Base.Str.{Str, codes}
use greentic_events.Base.Map.{lookup}
use greentic_events.Pattern.{matches_pattern}
use greentic_events.Pattern.Glob.{Matches, done, skip, grow, byte, NoStar}
use greentic_events.Pattern.Correct.{matches_pattern_iff}
use greentic_events.Event.{TenantCtx}
use greentic_events.Error.{display, no_provider}
use greentic_events.Descriptor.{EventProviderSpec}
use greentic_events.Acl.{allow_subscribe}
use greentic_events.Bus.Action.{BusState}
use greentic_events.Bus.{Runtime, EventBus, serves, provider_for_topic, subscribe}
use greentic_events.Builder.{default_builder, register_provider, build}
use greentic_events.E2e.{PackLoad}
use greentic_events.E2e.Task.{Task, returned}
use greentic_events.E2e.Checks.{Formats}
use greentic_events.E2e.Fixtures.{Envelopes}
use greentic_events.E2e.Live.{Host}
use greentic_events.E2e.Live.Broker.{sample_topic, tried_topic, tried_broker}
use greentic_events.E2e.DryBus.{Broadcast, registered, with_bus, fixture_sync, try_bus}

is_star : (c : ℕ) → (c == b'*') ≡ true → c ≡ b'*'
is_star c e = (==_iff c b'*').0 e

not_star : (c : ℕ) → (c == b'*') ≡ false → c ≢ b'*'
not_star c e h = ground arith

sample_topic-NoStar : (p : Str) → NoStar (sample_topic p)
unfolding sample_topic
sample_topic-NoStar [] = tt
sample_topic-NoStar (c ∷ p) = elim (Bool-cases (c == b'*')) [
  | inl e ↦ rw e (omega arith, (omega arith, (omega arith, (omega arith, sample_topic-NoStar p))))
  | inr e ↦ rw e (not_star c e, sample_topic-NoStar p)
]

sample_topic-Matches : (p : Str) → Matches p (sample_topic p)
unfolding sample_topic
sample_topic-Matches [] = done
sample_topic-Matches (c ∷ p) = elim (Bool-cases (c == b'*')) [
  | inl e ↦ rw e (
      grow (is_star c e) (
        grow (is_star c e)
          (grow (is_star c e) (grow (is_star c e) (skip (is_star c e) (sample_topic-Matches p))))))
  | inr e ↦ rw e (byte (not_star c e) (inr refl) (sample_topic-Matches p))
]

-- The topic on which a broker is tried, for a broker whose first pattern is `p`, is one that the
-- pattern matches.
matches_pattern-sample_topic : (p : Str) → matches_pattern p (sample_topic p) ≡ true
matches_pattern-sample_topic p =
    (matches_pattern_iff p (sample_topic p) (sample_topic-NoStar p)).1 (sample_topic-Matches p)

-- A provider that is given its patterns.
abbrev with_topics : EventProviderSpec → List Str → EventProviderSpec
with_topics provider topics = record provider {
  capabilities = record provider.capabilities { topics = topics };
}

module _ {W : Type 0} (t : Broadcast W) (M : Type 0) where
  -- A bus over the registration of a provider alone.
  abbrev pub bus_of : EventProviderSpec → W → EventBus W (List Str) M × BusState W (List Str)
  bus_of provider w = build (register_provider (registered t provider) (default_builder W M)) w

  routed :
      (provider : EventProviderSpec) (w : W)
      → provider_for_topic (bus_of provider w).0 (tried_topic provider) ≡ (
          if serves (tried_topic provider) (registered t provider)
          then ok (registered t provider)
          else err (no_provider (tried_topic provider)))
  unfolding provider_for_topic build any lookup
  routed provider w = elim (Bool-cases (serves (tried_topic provider) (registered t provider))) [
    | inl e ↦ rw e refl
    | inr e ↦ rw e refl
  ]

  declares-topics :
      (provider : EventProviderSpec) (topics : List Str) (w : W)
      → (provider_for_topic
            (bus_of (with_topics provider topics) w).0
            (tried_topic (with_topics provider topics))
          ≡ ok (registered t (with_topics provider topics)))
        ↔ (topics ≢ [])
  unfolding any
  declares-topics provider [] w =
      (λ h. cc (sym (routed (with_topics provider []) w) ∙ h), λ n. absurd (n refl))
  declares-topics provider (p ∷ topics) w = (
    λ h e. cc e,
    λ n. routed (with_topics provider (p ∷ topics)) w ∙ rw (matches_pattern-sample_topic p) refl,
  )

  -- The dry run's bus routes the topic on which a broker is tried to that broker exactly if the
  -- broker declares a topic pattern.
  pub tried_topic-iff_routed :
      (provider : EventProviderSpec) (w : W)
      → (provider_for_topic (bus_of provider w).0 (tried_topic provider)
          ≡ ok (registered t provider))
        ↔ (provider.capabilities.topics ≢ [])
  tried_topic-iff_routed provider w = declares-topics provider provider.capabilities.topics w

module _ {W R : Type 0} (t : Broadcast W) (rt : Runtime W) (host : Host W R) (x : Envelopes R)
    (M : Type 0) (f : Formats) (live : PackLoad → List EventProviderSpec → Task W Unit) where
  with_bus-no_topics :
      (provider : EventProviderSpec) (tenant : TenantCtx) (w : W)
      → host.new_tenant (codes "dev") (codes "tenant") ≡ ok tenant
      → with_bus t rt host x M (with_topics provider []) (registered t (with_topics provider [])) w
        ≡ (err (display (no_provider (codes "greentic.events.test"))), w)
  unfolding try_bus build subscribe provider_for_topic any lookup allow_subscribe
  with_bus-no_topics provider tenant w named = rw named refl

  -- The dry run of subscriptions always fails on a broker that declares no topic pattern: no
  -- provider is registered for the topic "greentic.events.test" that is then tried.
  pub fixture_sync-no_topics :
      (pack : PackLoad) (providers : List EventProviderSpec) (provider : EventProviderSpec)
      (tenant : TenantCtx) (w : W)
      → tried_broker host f pack providers ≡ ok provider
      → provider.capabilities.topics ≡ []
      → host.new_tenant (codes "dev") (codes "tenant") ≡ ok tenant
      → fixture_sync t rt host x M f live pack providers false w ≡ (
        returned (err (display (no_provider (codes "greentic.events.test")))),
        t.register provider.name w,
      )
  unfolding fixture_sync
  fixture_sync-no_topics pack providers provider tenant w broker none_declared named =
      let same : provider ≡ with_topics provider [] = ap (with_topics provider) none_declared in
      rw broker (
        ap (λ r. (returned r.0, r.1))
          (ap (λ p. with_bus t rt host x M p (registered t p) (t.register provider.name w)) same
            ∙ with_bus-no_topics provider tenant (t.register provider.name w) named))
