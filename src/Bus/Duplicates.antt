-- ===== src/Bus/Duplicates.antt =====
-- src/bus.rs and src/idempotency.rs: which publishes are refused as duplicates, with the in-memory
-- store of keys.
use greentic_events.Base.{
  ◌≡◌, refl, ap, sym, ◌∙◌, true, Option, none, some, List, [], ◌∷◌, ◌++◌, Result, ok, err, arith,
  ◌⊎◌, inl, inr, Bool-cases,
}
use greentic_events.Base.Str.{Str, codes, str_eq_refl}
use greentic_events.Base.Map.{lookup}
use greentic_events.Event.{EventEnvelope}
use greentic_events.Error.{duplicate}
use greentic_events.Acl.{TopicAcl}
use greentic_events.Idempotency.{in_memory, insert_key, seen_before}
use greentic_events.Metrics.{record_in}
use greentic_events.Bridge.{BridgeRegistry}
use greentic_events.Provider.{ProviderRegistration}
use greentic_events.Bus.Action.{BusState, continue}
use greentic_events.Bus.{
  Runtime, EventBus, finish, check_key, deliver, publish, composed_key, idempotency_key,
}
use greentic_events.Bus.Gate.{
  allow_publish-cases, provider_for_topic-cases, Admits, publish-Admits, tail,
}
use greentic_events.Bus.Accounting.{publish_all}

-- A bus with the in-memory store, as `EventBusBuilder::default` makes it.
pub record Parts (W M : Type 0) : Type 0 where
  pub providers : List (ProviderRegistration W)
  pub acl : TopicAcl
  pub bridges : BridgeRegistry W M

abbrev pub in_memory_bus : {W M : Type 0} → Parts W M → EventBus W (List Str) M
in_memory_bus parts = record {
  providers = parts.providers;
  acl = parts.acl;
  idempotency = in_memory;
  bridges = parts.bridges;
}

seen-insert :
    (j k : Str) (seen : List Str)
    → seen_before j seen ≡ true
    → seen_before j (insert_key k seen).1 ≡ true
unfolding insert_key
seen-insert j k seen h = elim (Bool-cases (seen_before k seen)) [
  | inl old ↦ rw old h
  | inr new ↦ rw new (unfold seen_before in ground arith)
]

seen-insert_self : (k : Str) (seen : List Str) → seen_before k (insert_key k seen).1 ≡ true
unfolding insert_key
seen-insert_self k seen = elim (Bool-cases (seen_before k seen)) [
  | inl old ↦ rw old old
  | inr new ↦ rw new (unfold seen_before in rw (str_eq_refl k))
]

finish-seen :
    {W S : Type 0} (p : ProviderRegistration W) (event : EventEnvelope) (r : Result Str Unit)
    (st : BusState W S)
    → (finish p event r st).1.seen ≡ st.seen
unfolding finish
finish-seen p event (ok u) st = refl
finish-seen p event (err e) st = refl

module _ {W M : Type 0} (rt : Runtime W) (parts : Parts W M) where
  abbrev pub bus : EventBus W (List Str) M
  bus = in_memory_bus parts

  -- The keys after an event has been let through.
  abbrev pub keys_after : EventEnvelope → Option Str → List Str → List Str
  keys_after event none seen = seen
  keys_after event (some key) seen = (insert_key (composed_key event key) seen).1

  check_key-seen :
      (p : ProviderRegistration W) (event : EventEnvelope) (key : Option Str)
      (st : BusState W (List Str))
      → (continue (λ _. tail rt p event) (check_key bus event key st)).1.seen
        ≡ keys_after event key st.seen
  unfolding check_key
  check_key-seen p event none st = finish-seen p event _ _
  check_key-seen p event (some key) st =
      elim (Bool-cases (insert_key (composed_key event key) st.seen).0) [
        | inl new ↦ rw new (finish-seen p event _ _)
        | inr old ↦ rw old
      ]

  deliver-seen :
      (p : ProviderRegistration W) (event : EventEnvelope) (st : BusState W (List Str))
      → (deliver rt bus p event st).1.seen
        ≡ keys_after event (lookup idempotency_key event.metadata) st.seen
  unfolding deliver
  deliver-seen p event st = check_key-seen p event (lookup idempotency_key event.metadata) _

  -- Either the keys are as before, or the event's own key has been recorded.
  pub publish-seen :
      (event : EventEnvelope) (st : BusState W (List Str))
      → ((publish rt bus event st).1.seen ≡ st.seen)
        ⊎ ((publish rt bus event st).1.seen
            ≡ keys_after event (lookup idempotency_key event.metadata) st.seen)
  publish-seen event st = elim (allow_publish-cases parts.acl event.tenant event.topic) [
    | inr denied ↦ inl (unfold publish in rw denied)
    | inl allowed ↦ elim (provider_for_topic-cases bus event.topic) [
      | inr missing ↦ inl (unfold publish in rw (allowed, missing))
      | inl (p, found) ↦ inr (
          rw
            (publish-Admits rt bus {event = event} {p = p} st
              (record { allowed = allowed; routed = found }))
            (deliver-seen p event st))
    ]
  ]

  keys_after-keeps :
      (j : Str) (event : EventEnvelope) (key : Option Str) (seen : List Str)
      → seen_before j seen ≡ true
      → seen_before j (keys_after event key seen) ≡ true
  keys_after-keeps j event none seen h = h
  keys_after-keeps j event (some key) seen h = seen-insert j (composed_key event key) seen h

  publish-keeps :
      (j : Str) (event : EventEnvelope) (st : BusState W (List Str))
      → seen_before j st.seen ≡ true
      → seen_before j (publish rt bus event st).1.seen ≡ true
  publish-keeps j event st h = elim (publish-seen event st) [
    | inl e ↦ rw e h
    | inr e ↦ rw e (keys_after-keeps j event (lookup idempotency_key event.metadata) st.seen h)
  ]

  publish_all-keeps :
      (j : Str) (events : List EventEnvelope) (st : BusState W (List Str))
      → seen_before j st.seen ≡ true
      → seen_before j (publish_all rt bus events st).1.seen ≡ true
  unfolding publish_all
  publish_all-keeps j [] st h = h
  publish_all-keeps j (event ∷ events) st h =
      publish_all-keeps j events (publish rt bus event st).1 (publish-keeps j event st h)

  check_key-old :
      (p : ProviderRegistration W) (event : EventEnvelope) (key : Str) (st : BusState W (List Str))
      → seen_before (composed_key event key) st.seen ≡ true
      → continue (λ _. tail rt p event) (check_key bus event (some key) st)
        ≡ (err (duplicate (composed_key event key)), st)
  unfolding check_key insert_key
  check_key-old p event key st h = rw h

  first_recorded :
      (event : EventEnvelope) (key : Str) (p : ProviderRegistration W) (st : BusState W (List Str))
      → Admits bus event p
      → lookup idempotency_key event.metadata ≡ some key
      → seen_before (composed_key event key) (publish rt bus event st).1.seen ≡ true
  first_recorded event key p st a k =
      rw (publish-Admits rt bus {event = event} {p = p} st a, deliver-seen p event st, k)
        (seen-insert_self (composed_key event key) st.seen)

  deliver-old :
      (event : EventEnvelope) (key : Str) (p : ProviderRegistration W) (st : BusState W (List Str))
      → lookup idempotency_key event.metadata ≡ some key
      → seen_before (composed_key event key) st.seen ≡ true
      → deliver rt bus p event st
        ≡ (err (duplicate (composed_key event key)), record st { metrics = record_in st.metrics })
  unfolding deliver
  deliver-old event key p st k old =
      rw k (check_key-old p event key (record st { metrics = record_in st.metrics }) old)

  -- On a bus with the in-memory store, a key that was let through once is a duplicate ever after:
  -- whatever the first publish returned, and whatever was published in between, an event of the same
  -- tenant with the same key, itself admitted and routed, is refused, no provider is called, and
  -- nothing changes but the count of events that came in.
  pub publish_repeat :
      (first second : EventEnvelope) (key : Str) (between : List EventEnvelope)
      (p q : ProviderRegistration W) (st : BusState W (List Str))
      → Admits bus first p
      → Admits bus second q
      → lookup idempotency_key first.metadata ≡ some key
      → lookup idempotency_key second.metadata ≡ some key
      → first.tenant.tenant ≡ second.tenant.tenant
      → publish rt bus second (publish_all rt bus between (publish rt bus first st).1).1 ≡ (
        err (duplicate (composed_key second key)),
        record (publish_all rt bus between (publish rt bus first st).1).1 {
          metrics = record_in (publish_all rt bus between (publish rt bus first st).1).1.metrics;
        },
      )
  publish_repeat first second key between p q st a b k1 k2 same =
      let st1 = (publish rt bus first st).1 in
      let st2 = (publish_all rt bus between st1).1 in
      let seen : seen_before (composed_key second key) st2.seen ≡ true =
        rw (ap (λ (t : Str). t ++ (codes ":" ++ key)) (sym same)) (
          publish_all-keeps (composed_key first key) between st1
            (first_recorded first key p st a k1)) in
      publish-Admits rt bus {event = second} {p = q} st2 b ∙ deliver-old second key q st2 k2 seen
