-- ===== src/Bus/Accounting.antt =====
-- src/bus.rs and src/metrics.rs: the counters agree with what the publishes returned.
use greentic_events.Base.{
  ℕ, ◌+◌, ◌%◌, ◌^◌, ◌≡◌, refl, Option, none, some, List, [], ◌∷◌, Result, ok, err, arith, inl, inr,
  Bool-cases,
}
use greentic_events.Base.Str.{Str}
use greentic_events.Event.{EventEnvelope}
use greentic_events.Base.Map.{lookup}
use greentic_events.Error.{Outcome, duplicate, delivery_failed}
use greentic_events.Metrics.{EventMetrics, record_in, record_out, record_failed, record_dlq}
use greentic_events.Provider.{ProviderRegistration}
use greentic_events.Bus.Action.{BusState, continue}
use greentic_events.Bus.Gate.{allow_publish-cases, provider_for_topic-cases, tail}
use greentic_events.Bus.{
  Runtime, EventBus, finish, check_key, deliver, publish, publish_with_retry, composed_key,
  idempotency_key,
}

-- What one outcome adds to each counter.
abbrev pub entered : Outcome Unit → ℕ
entered (ok _) = 1
entered (err (delivery_failed _ _)) = 1
entered (err (duplicate _)) = 1
entered (err _) = 0

abbrev pub delivered : Outcome Unit → ℕ
delivered (ok _) = 1
delivered (err _) = 0

abbrev pub failed : Outcome Unit → ℕ
failed (err (delivery_failed _ _)) = 1
failed _ = 0

abbrev modulus : ℕ
modulus = 2 ^ 64

-- From counters `a` to counters `b`, these many events came in, went out and failed, modulo 2 ^ 64.
-- Each failure is one event for the dead letter queue.
pub record Counted (came went lost : ℕ) (a b : EventMetrics) : Type 0 where
  pub came_in : b.events_in_total % modulus ≡ (a.events_in_total + came) % modulus
  pub went_out : b.events_out_total % modulus ≡ (a.events_out_total + went) % modulus
  pub failures : b.events_failed_total % modulus ≡ (a.events_failed_total + lost) % modulus
  pub dead_letters : b.events_dlq_total % modulus ≡ (a.events_dlq_total + lost) % modulus

module _ {W S M : Type 0} (rt : Runtime W) (bus : EventBus W S M) where
  abbrev OneCounted : EventMetrics → Outcome Unit × BusState W S → Type 0
  OneCounted a (r, st) = Counted (entered r) (delivered r) (failed r) a st.metrics

  finish-Counted :
      (p : ProviderRegistration W) (event : EventEnvelope) (r : Result Str Unit) (st : BusState W S)
      → Counted 0
          (delivered (finish p event r st).0)
          (failed (finish p event r st).0)
          st.metrics
          (finish p event r st).1.metrics
  unfolding finish record_out record_failed record_dlq
  finish-Counted p event (ok u) st = omega arith
  finish-Counted p event (err e) st = omega arith

  finish-entered :
      (p : ProviderRegistration W) (event : EventEnvelope) (r : Result Str Unit) (st : BusState W S)
      → entered (finish p event r st).0 ≡ 1
  unfolding finish
  finish-entered p event (ok u) st = refl
  finish-entered p event (err e) st = refl

  tail-Counted :
      (p : ProviderRegistration W) (event : EventEnvelope) (a : EventMetrics) (st : BusState W S)
      → Counted 1 0 0 a st.metrics
      → OneCounted a (tail rt p event st)
  tail-Counted p event a st h =
      let r = (publish_with_retry rt p event st.world).0 in
      let st' : BusState W S = record st { world = (publish_with_retry rt p event st.world).1 } in
      omega (arith, finish-Counted p event r st', finish-entered p event r st')

  check_key-Counted :
      (p : ProviderRegistration W) (event : EventEnvelope) (a : EventMetrics) (st : BusState W S)
      (key : Option Str)
      → Counted 1 0 0 a st.metrics
      → OneCounted a (continue (λ _. tail rt p event) (check_key bus event key st))
  unfolding check_key
  check_key-Counted p event a st none h = tail-Counted p event a st h
  check_key-Counted p event a st (some key) h =
      elim (Bool-cases (bus.idempotency.record_key (composed_key event key) st.seen).0) [
        | inl new ↦ rw new (tail-Counted p event a _ h)
        | inr old ↦ rw old h
      ]

  deliver-Counted :
      (p : ProviderRegistration W) (event : EventEnvelope) (st : BusState W S)
      → OneCounted st.metrics (deliver rt bus p event st)
  unfolding deliver record_in
  deliver-Counted p event st =
      check_key-Counted p event st.metrics (record st { metrics = record_in st.metrics })
        (lookup idempotency_key event.metadata) (omega arith)

  publish-Counted :
      (event : EventEnvelope) (st : BusState W S) → OneCounted st.metrics (publish rt bus event st)
  unfolding publish
  publish-Counted event st = elim (allow_publish-cases bus.acl event.tenant event.topic) [
    | inr denied ↦ rw denied (omega arith)
    | inl allowed ↦ elim (provider_for_topic-cases bus event.topic) [
      | inr missing ↦ rw (allowed, missing) (omega arith)
      | inl (p, found) ↦ rw (allowed, found) (deliver-Counted p event st)
    ]
  ]

-- The publishes of a list of events, one after another, with what each returned.
unfoldable pub publish_all :
    {W S M : Type 0}
    → Runtime W
    → EventBus W S M
    → List EventEnvelope
    → BusState W S
    → List (Outcome Unit) × BusState W S
publish_all rt bus [] st = ([], st)
publish_all rt bus (event ∷ events) st =
    let (r, st') = publish rt bus event st in
    let (rs, end) = publish_all rt bus events st' in (r ∷ rs, end)

abbrev pub total : (Outcome Unit → ℕ) → List (Outcome Unit) → ℕ
total f [] = 0
total f (r ∷ rs) = f r + total f rs

-- After any publishes, in any state, the counters have grown by what was returned, modulo 2 ^ 64: one
-- in for each success, duplicate and failed delivery, one out for each success, one failed and one
-- dead letter for each failed delivery. Refused events are not counted.
pub publish_all-Counted :
    {W S M : Type 0} (rt : Runtime W) (bus : EventBus W S M) (events : List EventEnvelope)
    (st : BusState W S)
    → Counted
        (total entered (publish_all rt bus events st).0)
        (total delivered (publish_all rt bus events st).0)
        (total failed (publish_all rt bus events st).0)
        st.metrics
        (publish_all rt bus events st).1.metrics
unfolding publish_all
publish_all-Counted rt bus [] st = omega arith
publish_all-Counted rt bus (event ∷ events) st =
    let first = publish-Counted rt bus event st in
    let rest = publish_all-Counted rt bus events (publish rt bus event st).1 in omega arith
