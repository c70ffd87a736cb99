-- ===== src/Bus/Routing.antt =====
-- src/bus.rs: `provider_for_topic`, and the gate that every publish and subscribe goes through.
use greentic_events.Base.{
  ◌≡◌, refl, true, false, none, some, List, [], ◌∷◌, ok, err, arith, sym, ◌∙◌, find, any,
  Bool-cases, some_eq, inl, inr, All, false≢true, ◌↔◌, ◌⊎◌,
}
use greentic_events.Base.Str.{Str}
use greentic_events.Error.{no_provider}
use greentic_events.Pattern.{matches_pattern}
use greentic_events.Pattern.Glob.{Matches, NoStar}
use greentic_events.Pattern.Correct.{matches_pattern_iff}
use greentic_events.Provider.{ProviderRegistration}
use greentic_events.Bus.{EventBus, serves, provider_for_topic}

-- One of the patterns matches the topic.
abbrev pub Subscribes : Str → List Str → Type 0
Subscribes topic [] = ⊥
Subscribes topic (pattern ∷ patterns) = Matches pattern topic ⊎ Subscribes topic patterns

-- The provider is the first in the list with a pattern that matches the topic.
pub data IsFirst {W : Type 0} (topic : Str) (p : ProviderRegistration W)
    : List (ProviderRegistration W) → Type 0 where
  here : {ps : List (ProviderRegistration W)} → Subscribes topic p.topics → IsFirst topic p (p ∷ ps)
  later :
      {q : ProviderRegistration W} {ps : List (ProviderRegistration W)}
      → ¬ Subscribes topic q.topics
      → IsFirst topic p ps
      → IsFirst topic p (q ∷ ps)

module _ (topic : Str) (clean : NoStar topic) where
  any→Subscribes :
      (patterns : List Str)
      → any (λ pattern. matches_pattern pattern topic) patterns ≡ true
      → Subscribes topic patterns
  unfolding any
  any→Subscribes [] h = cc
  any→Subscribes (p ∷ ps) h = elim (Bool-cases (matches_pattern p topic)) [
    | inl e ↦ inl ((matches_pattern_iff p topic clean).0 e)
    | inr n ↦ inr (any→Subscribes ps (rw n at h))
  ]

  Subscribes→any :
      (patterns : List Str)
      → Subscribes topic patterns
      → any (λ pattern. matches_pattern pattern topic) patterns ≡ true
  unfolding any
  Subscribes→any (p ∷ ps) (inl d) = rw ((matches_pattern_iff p topic clean).1 d)
  Subscribes→any (p ∷ ps) (inr s) = ground (arith, Subscribes→any ps s)
  Subscribes→any [] s = absurd s

module _ {W : Type 0} (topic : Str) (clean : NoStar topic) where
  not-serves : (p : ProviderRegistration W) → serves topic p ≡ false → ¬ Subscribes topic p.topics
  not-serves p h s = false≢true (sym h ∙ Subscribes→any topic clean p.topics s)

  find→IsFirst :
      (ps : List (ProviderRegistration W)) (p : ProviderRegistration W)
      → find (serves topic) ps ≡ some p
      → IsFirst topic p ps
  unfolding find
  find→IsFirst [] p h = cc
  find→IsFirst (q ∷ ps) p h = elim (Bool-cases (serves topic q)) [
    | inl e ↦
        let same : q ≡ p = some_eq (rw e at h) in
        rw (← same) (here (any→Subscribes topic clean q.topics e))
    | inr n ↦ later (not-serves q n) (find→IsFirst ps p (rw n at h))
  ]

  IsFirst→find :
      {p : ProviderRegistration W} {ps : List (ProviderRegistration W)}
      → IsFirst topic p ps
      → find (serves topic) ps ≡ some p
  unfolding find
  IsFirst→find {p} (here s) = rw (Subscribes→any topic clean p.topics s)
  IsFirst→find (later {q = q} n f) = elim (Bool-cases (serves topic q)) [
    | inl e ↦ absurd (n (any→Subscribes topic clean q.topics e))
    | inr m ↦ rw m (IsFirst→find f)
  ]

  find-none_iff :
      (ps : List (ProviderRegistration W))
      → (find (serves topic) ps ≡ none) ↔ All (λ p. ¬ Subscribes topic p.topics) ps
  unfolding find
  find-none_iff [] = (λ _. tt, λ _. refl)
  find-none_iff (p ∷ ps) = elim (Bool-cases (serves topic p)) [
    | inl e ↦ rw e (λ k. cc k, λ a. absurd (a.0 (any→Subscribes topic clean p.topics e)))
    | inr n ↦ rw n (λ k. (not-serves p n, (find-none_iff ps).0 k), λ a. (find-none_iff ps).1 a.1)
  ]

-- A topic without stars goes to the provider that is first, in the order of registration, among
-- those with a pattern that matches it. The error names the topic, and comes exactly where no
-- provider has such a pattern.
pub provider_for_topic_iff :
    {W S M : Type 0} (bus : EventBus W S M) (topic : Str)
    → NoStar topic
    → ((p : ProviderRegistration W)
        → (provider_for_topic bus topic ≡ ok p) ↔ IsFirst topic p bus.providers)
      × ((provider_for_topic bus topic ≡ err (no_provider topic))
          ↔ All (λ p. ¬ Subscribes topic p.topics) bus.providers)
unfolding provider_for_topic
provider_for_topic_iff bus topic clean = (
  λ p. (
    λ h. find→IsFirst topic clean bus.providers p (ground arith),
    λ f. rw (IsFirst→find topic clean f),
  ),
  (
    λ h. (find-none_iff topic clean bus.providers).0 (ground arith),
    λ a. rw ((find-none_iff topic clean bus.providers).1 a),
  ),
)
