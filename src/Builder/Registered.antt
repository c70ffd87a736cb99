-- ===== src/Builder/Registered.antt =====
-- src/bus.rs: what registration from a pack leaves in the builder.
use greentic_events.Base.{
  ◌≡◌, ◌≢◌, refl, ap, ◌∙◌, Option, none, some, List, [], ◌∷◌, map, ok, push, unwrap_or,
  Option-cases, inl, inr,
}
use greentic_events.Base.Str.{Str, str_eq_refl}
use greentic_events.Base.Map.{lookup, lookup-insert}
use greentic_events.Event.{Json, Dict}
use greentic_events.Backoff.{default_policy}
use greentic_events.Descriptor.{
  EventProviderKind, broker, source, sink, bridge, EventProviderSpec, descriptor_from_spec,
}
use greentic_events.Provider.{EventProvider, EventProviderFactory, ProviderRegistration}
use greentic_events.Bridge.{BridgeFactory}
use greentic_events.Annotations.{ProviderOverrides, provider_overrides_from_annotations}
use greentic_events.Builder.{
  EventBusBuilder, note_overrides, registration_of, with_override, build_providers, register_spec,
  register_built, register_by_kind,
}

-- The overrides that count for a name: those set explicitly, else those of the annotations.
abbrev pub effective : Str → Dict ProviderOverrides → Dict Json → Option ProviderOverrides
effective name overrides annotations = elim (lookup name overrides) [
  | some ov ↦ some ov
  | none ↦ provider_overrides_from_annotations name annotations
]

note_overrides-effective :
    (name : Str) (overrides : Dict ProviderOverrides) (o : Option ProviderOverrides)
    → lookup name (note_overrides name o overrides)
      ≡ elim (lookup name overrides) [ some ov ↦ some ov | none ↦ o ]
note_overrides-effective name overrides none = elim (Option-cases (lookup name overrides)) [
  | inl e ↦ rw e
  | inr (ov, e) ↦ rw e
]
note_overrides-effective name overrides (some new) = elim (Option-cases (lookup name overrides)) [
  | inl e ↦ rw e (rw (lookup-insert name name new overrides, str_eq_refl name))
  | inr (ov, e) ↦ rw e e
]

keep_some : {A : Type 0} (x y : Option A) → y ≡ x → (elim x [ some a ↦ some a | none ↦ y ]) ≡ x
keep_some none y h = h
keep_some (some a) y h = refl

keep_default :
    {A : Type 0} (x : Option A) (d e : A)
    → e ≡ unwrap_or x d
    → (elim x [ some a ↦ a | none ↦ e ]) ≡ unwrap_or x d
keep_default none d e h = h
keep_default (some a) d e h = refl

keep_overridden :
    {W : Type 0} (spec : EventProviderSpec) (o : ProviderOverrides) (backend : EventProvider W)
    → with_override (some o) (registration_of spec (some o) backend)
      ≡ registration_of spec (some o) backend
unfolding with_override registration_of
keep_overridden spec o backend i = record {
  descriptor = descriptor_from_spec spec;
  topics = spec.capabilities.topics;
  dlq_topic = keep_some o.dlq_topic o.dlq_topic refl i;
  retry = keep_default o.retry default_policy (unwrap_or o.retry default_policy) refl i;
  backend = backend;
}

with_override_again :
    {W : Type 0} (spec : EventProviderSpec) (o : Option ProviderOverrides)
    (backend : EventProvider W)
    → with_override o (registration_of spec o backend) ≡ registration_of spec o backend
unfolding with_override registration_of
with_override_again spec none backend = refl
with_override_again spec (some o) backend = keep_overridden spec o backend

register_by_kind-built :
    {W S M : Type 0} (kind : EventProviderKind) (factory : EventProviderFactory W)
    (bridges : Option (BridgeFactory W M)) (spec : EventProviderSpec) (b : EventBusBuilder W S M)
    (w : W)
    → kind ≢ bridge
    → register_by_kind kind factory bridges spec b w ≡ register_built factory spec b w
register_by_kind-built broker factory bridges spec b w h = refl
register_by_kind-built source factory bridges spec b w h = refl
register_by_kind-built sink factory bridges spec b w h = refl
register_by_kind-built bridge factory bridges spec b w h = elim (h refl) [ ]

register_built_ok :
    {W S M : Type 0} (factory : EventProviderFactory W) (spec : EventProviderSpec)
    (b : EventBusBuilder W S M) (w w1 : W) (backend : EventProvider W)
    → factory.build_provider spec w ≡ (ok backend, w1)
    → register_built factory spec b w ≡ (
      ok (record b {
        providers = push b.providers (registration_of spec (lookup spec.name b.overrides) backend);
      }),
      w1,
    )
unfolding register_built
register_built_ok factory spec b w w1 backend e = rw e

-- Registering a provider that is not a bridge appends its registration, with the overrides that
-- count for its name.
register_spec_built :
    {W S M : Type 0} (factory : EventProviderFactory W) (bridges : Option (BridgeFactory W M))
    (annotations : Dict Json) (spec : EventProviderSpec) (b : EventBusBuilder W S M) (w w1 : W)
    (backend : EventProvider W)
    → spec.kind ≢ bridge
    → factory.build_provider spec w ≡ (ok backend, w1)
    → register_spec factory bridges annotations spec b w ≡ (
      ok (record b {
        overrides =
            note_overrides spec.name
              (provider_overrides_from_annotations spec.name annotations)
              b.overrides;
        providers =
            push b.providers
              (registration_of spec (effective spec.name b.overrides annotations) backend);
      }),
      w1,
    )
unfolding register_spec
register_spec_built {W} {S} {M} factory bridges annotations spec b w w1 backend h e =
    register_by_kind-built spec.kind factory bridges spec noted w h
    ∙ register_built_ok factory spec noted w w1 backend e
    ∙ ap
        (λ o.
          (ok (record noted { providers = push b.providers (registration_of spec o backend) }), w1))
        (note_overrides-effective spec.name b.overrides
          (provider_overrides_from_annotations spec.name annotations))
  where
    noted : EventBusBuilder W S M
    noted = record b {
      overrides =
          note_overrides spec.name (provider_overrides_from_annotations spec.name annotations)
            b.overrides;
    }

map-push :
    {A B : Type 0} (f : A → B) (xs : List A) (a : A) → map f (push xs a) ≡ push (map f xs) (f a)
map-push f [] a = refl
map-push f (x ∷ xs) a = ap (λ ys. f x ∷ ys) (map-push f xs a)

-- When a provider that is not a bridge is registered from a pack and its factory builds it, the
-- registration succeeds, and the bus built next has, after the providers registered before, this
-- one: its dead-letter topic and retry policy are those of the overrides set explicitly for its
-- name if there are any, otherwise those of the annotations of the pack, and where these leave a
-- field open, none and the default policy.
pub register_then_build :
    {W S M : Type 0} (factory : EventProviderFactory W) (bridges : Option (BridgeFactory W M))
    (annotations : Dict Json) (spec : EventProviderSpec) (b : EventBusBuilder W S M) (w w1 : W)
    (backend : EventProvider W)
    → spec.kind ≢ bridge
    → factory.build_provider spec w ≡ (ok backend, w1)
    → (b1 : EventBusBuilder W S M) × (register_spec factory bridges annotations spec b w
        ≡ (ok b1, w1))
      × (build_providers b1
          ≡ push
              (build_providers (record b1 { providers = b.providers }))
              (registration_of spec (effective spec.name b.overrides annotations) backend))
unfolding build_providers registration_of descriptor_from_spec
register_then_build {W} {S} {M} factory bridges annotations spec b w w1 backend h e = (
  _,
  register_spec_built factory bridges annotations spec b w w1 backend h e,
  map-push (λ (reg : ProviderRegistration W). with_override (lookup reg.descriptor.name noted) reg)
        b.providers (registration_of spec now backend)
      ∙ ap (λ reg. push before reg)
          (ap (λ o. with_override o (registration_of spec now backend))
              (note_overrides-effective spec.name b.overrides
                (provider_overrides_from_annotations spec.name annotations))
            ∙ with_override_again spec now backend),
)
  where
    noted : Dict ProviderOverrides
    noted =
        note_overrides spec.name (provider_overrides_from_annotations spec.name annotations)
          b.overrides

    before : List (ProviderRegistration W)
    before =
        map (λ (reg : ProviderRegistration W). with_override (lookup reg.descriptor.name noted) reg)
          b.providers

    now : Option ProviderOverrides
    now = effective spec.name b.overrides annotations
