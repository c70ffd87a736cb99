-- ===== src/Bus/Failure.antt =====
-- src/bus.rs: what `publish` does once the retries have ended, with the dead letter queue.
use greentic_events.Base.{◌≡◌, refl, some, ok, err, ◌++◌, unwrap_or, false}
use greentic_events.Base.Str.{Str, codes, str_eq, str_eq_refl}
use greentic_events.Base.Map.{lookup, lookup-insert}
use greentic_events.Event.{EventEnvelope}
use greentic_events.Error.{delivery_failed}
use greentic_events.Metrics.{record_in, record_failed, record_dlq}
use greentic_events.Provider.{ProviderRegistration}
use greentic_events.Bus.Action.{BusState}
use greentic_events.Bus.{
  Runtime, EventBus, publish_with_retry, dlq_event_of, check_key, finish, deliver, publish,
  idempotency_key,
}
use greentic_events.Bus.Gate.{Admits, publish-Admits}

-- `d` is `event` readdressed to the dead letter topic, with the reason in its metadata.
pub record IsDeadLetter {W : Type 0} (p : ProviderRegistration W) (event : EventEnvelope)
    (reason : Str) (d : EventEnvelope) : Type 0 where
  pub topic : d.topic ≡ unwrap_or p.dlq_topic (event.topic ++ codes ".dlq")
  pub reason_kept : lookup (codes "dlq_reason") d.metadata ≡ some reason
  pub others_kept :
      (key : Str)
      → str_eq (codes "dlq_reason") key ≡ false
      → lookup key d.metadata ≡ lookup key event.metadata
  pub same_id : d.id ≡ event.id
  pub same_type : d.event_type ≡ event.event_type
  pub same_source : d.source ≡ event.source
  pub same_tenant : d.tenant ≡ event.tenant
  pub same_subject : d.subject ≡ event.subject
  pub same_time : d.time ≡ event.time
  pub same_correlation : d.correlation_id ≡ event.correlation_id
  pub same_payload : d.payload ≡ event.payload

dlq_event_of-IsDeadLetter :
    {W : Type 0} (p : ProviderRegistration W) (event : EventEnvelope) (reason : Str)
    → IsDeadLetter p event reason (dlq_event_of p event reason)
unfolding dlq_event_of
dlq_event_of-IsDeadLetter p event reason = record {
  topic = refl;
  reason_kept = rw (
    lookup-insert (codes "dlq_reason") (codes "dlq_reason") reason event.metadata,
    str_eq_refl (codes "dlq_reason"),
  );
  others_kept = λ key ne. rw (lookup-insert (codes "dlq_reason") key reason event.metadata, ne);
  same_id = refl;
  same_type = refl;
  same_source = refl;
  same_tenant = refl;
  same_subject = refl;
  same_time = refl;
  same_correlation = refl;
  same_payload = refl;
}

module _ {W S M : Type 0} (rt : Runtime W) (bus : EventBus W S M) (event : EventEnvelope)
    (p : ProviderRegistration W) (st st1 : BusState W S) (w : W) (admits : Admits bus event p)
    (key_new : check_key bus event
        (lookup idempotency_key event.metadata)
        (record st { metrics = record_in st.metrics })
      ≡ (ok tt, st1)) where
  -- An event that is let through, whose key is new, and whose delivery fails after its retries is
  -- published once more to the same provider, as a dead letter. Whatever comes of that, the counters
  -- of failures and of dead letters grow, and the error names the provider and the reason.
  pub publish_failed :
      {reason : Str}
      → publish_with_retry rt p event st1.world ≡ (err reason, w)
      → (d : EventEnvelope) × IsDeadLetter p event reason d
        × (publish rt bus event st ≡ (
          err (delivery_failed p.descriptor.name reason),
          record st1 {
            metrics = record_dlq (record_failed st1.metrics);
            world = (p.backend.publish d w).1;
          },
        ))
  publish_failed {reason} h = (
    dlq_event_of p event reason,
    dlq_event_of-IsDeadLetter p event reason,
    rw (publish-Admits rt bus {event = event} {p = p} st admits)
        (unfold deliver finish in rw (key_new, h)),
  )
