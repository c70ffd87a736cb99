-- ===== src/E2e/Fixtures/Accepted.antt =====
-- src/e2e.rs: when the dry stages of ingestion and emission pass.
use greentic_events.Base.{
  ◌≡◌, refl, ◌↔◌, ◌∙◌, ap, sym, true, false, List, [], ◌∷◌, ◌++◌, ok, then_ok, then_ok-parts,
  map_err, map_err-ok, Result-cases, inl, inr, arith, ok_eq, ℕ, unwrap_or, map_option, is_empty,
}
use greentic_events.Base.Str.{Str, codes, is_blank, str_eq}
use greentic_events.Event.{Json, EventEnvelope}
use greentic_events.Message.{ChannelMessageEnvelope}
use greentic_events.Descriptor.{EventProviderSpec}
use greentic_events.E2e.{PackLoad}
use greentic_events.E2e.Task.{Task, returned, proceed-parts, give-parts, bail_if}
use greentic_events.E2e.Checks.{Formats, check_event, check_all}
use greentic_events.E2e.Stages.{E2eDependencies, run_ingest}
use greentic_events.E2e.Fixtures.{
  Envelopes, fixture_message, source_name, dry_run_event, fixture_ingest, ingested,
}

-- A name with a visible suffix is not blank.
not_blank-ingest : (s : Str) → is_blank (s ++ codes ".ingest") ≡ false
unfolding is_blank
not_blank-ingest [] = refl
not_blank-ingest (a ∷ []) = ground arith
not_blank-ingest (a ∷ b ∷ []) = ground arith
not_blank-ingest (a ∷ b ∷ c ∷ s) =
    ground (arith, not_blank-ingest (b ∷ c ∷ s), not_blank-ingest (c ∷ s), not_blank-ingest s)

module _ {W R : Type 0} (x : Envelopes R)
    (live : PackLoad → List EventProviderSpec → Task W (List EventEnvelope)) where
  -- The bridge's answer, through the registry and the service.
  fixture_ingest-dry :
      (pack : PackLoad) (providers : List EventProviderSpec) (w : W)
      → fixture_ingest x live pack providers false w ≡ (
        returned (
            then_ok (fixture_message x pack) λ message.
              map_err
                (λ _. codes "ingest bridge failed")
                (dry_run_event x (source_name providers) message)),
        w,
      )
  unfolding fixture_ingest str_eq
  fixture_ingest-dry pack providers w = elim (Result-cases (fixture_message x pack)) [
    | inl (message, e) ↦ elim (Result-cases (dry_run_event x (source_name providers) message)) [
      | inl (events, e2) ↦ rw (e, e2) refl
      | inr (error, e2) ↦ rw (e, e2) refl
    ]
    | inr (error, e) ↦ rw e refl
  ]

-- What a dry ingestion needs of a message: its event can be made, and its session and tenant are
-- not blank.
pub record IsIngestible {R : Type 0} (x : Envelopes R) (message : ChannelMessageEnvelope R)
    : Type 0 where
  pub time : (t : ℕ) × (x.fixed_time ≡ ok t)
  pub id : (i : Str) × (x.event_id (codes "evt-" ++ message.id) ≡ ok i)
  pub payload : (v : Json) × (x.message_to_value message ≡ ok v)
  pub session : is_blank message.session_id ≡ false
  pub tenant : is_blank message.tenant.tenant ≡ false

type_not_blank : is_blank (codes "greentic.events.ingest") ≡ false
unfolding is_blank
type_not_blank = refl

-- The checks that a single event meets.
check_all-single :
    (event : EventEnvelope)
    → check_all check_event (event ∷ []) ≡ ok tt
    → (unwrap_or (map_option is_blank event.subject) true ≡ false)
      × (is_blank event.tenant.tenant ≡ false)
unfolding check_all check_event
check_all-single event h = ground arith

single-check_all :
    (event : EventEnvelope)
    → is_blank event.topic ≡ false
    → is_blank event.event_type ≡ false
    → unwrap_or (map_option is_blank event.subject) true ≡ false
    → is_blank event.tenant.tenant ≡ false
    → check_all check_event (event ∷ []) ≡ ok tt
unfolding check_all check_event
single-check_all event a b c d = ground arith

module _ {R : Type 0} (x : Envelopes R) (name : Str) (message : ChannelMessageEnvelope R) where
  IsIngestible-dry_run_event :
      IsIngestible x message
      → (event : EventEnvelope) × (dry_run_event x name message ≡ ok (event ∷ []))
        × (check_all check_event (event ∷ []) ≡ ok tt)
  unfolding dry_run_event
  IsIngestible-dry_run_event i =
      let event = ingested name message i.time.0 i.id.0 i.payload.0 in
      (
        event,
        rw (i.time.1, i.id.1, i.payload.1) refl,
        single-check_all event (not_blank-ingest name) type_not_blank i.session i.tenant,
      )

  dry_run_event-IsIngestible :
      then_ok (dry_run_event x name message) (check_all check_event) ≡ ok tt
      → IsIngestible x message
  unfolding dry_run_event
  dry_run_event-IsIngestible h =
      let (events, e, c) =
        then_ok-parts (dry_run_event x name message) (check_all check_event) tt h in
      let (t, et, h1) = then_ok-parts x.fixed_time _ events e in
      let (i, ei, h2) = then_ok-parts (x.event_id (codes "evt-" ++ message.id)) _ events h1 in
      let (v, ev, h3) = then_ok-parts (x.message_to_value message) _ events h2 in
      let (session, tenant) = check_all-single _ (ap (check_all check_event) (ok_eq h3) ∙ c) in
      record { time = (t, et); id = (i, ei); payload = (v, ev); session = session; tenant = tenant }

module _ {W R : Type 0} (f : Formats) (x : Envelopes R)
    (live : PackLoad → List EventProviderSpec → Task W (List EventEnvelope))
    (deps : E2eDependencies W R) (by_fixture : deps.ingest ≡ fixture_ingest x live) where
  -- Outside live mode, the ingestion stage over fixtures passes, and then without acting on the
  -- world, exactly if the pack has a message fixture that can be read, of which an event can be
  -- made, and whose session and tenant are not blank.
  pub run_ingest-iff_IsIngestible :
      (pack : PackLoad) (providers : List EventProviderSpec) (w w1 : W)
      → (run_ingest f deps pack providers false w ≡ (returned (ok tt), w1)) ↔ (
          (message : ChannelMessageEnvelope R) × (fixture_message x pack ≡ ok message)
          × IsIngestible x message
          × (w ≡ w1))
  unfolding run_ingest
  run_ingest-iff_IsIngestible pack providers w w1 = (
    λ h.
        let (events, w2, m, h2) = proceed-parts (deps.ingest pack providers false w) _ tt w1 h in
        let (r, s1) =
          give-parts
            (then_ok (fixture_message x pack) λ message.
              map_err (λ _. codes "ingest bridge failed")
                (dry_run_event x (source_name providers) message))
            events w w2
            (sym (
                ap (λ g. g pack providers false w) by_fixture
                ∙ fixture_ingest-dry x live pack providers w)
              ∙ m) in
        let (u, w3, b, h3) =
          proceed-parts (bail_if (is_empty events) (codes "ingest produced no events") w2) _ tt w1
            h2 in
        let (c, s3) = give-parts (check_all check_event events) tt w3 w1 h3 in
        let (message, e, d) = then_ok-parts (fixture_message x pack) _ events r in
        let d1 =
          map_err-ok (λ _. codes "ingest bridge failed")
            (dry_run_event x (source_name providers) message) events d in
        (
          message,
          e,
          dry_run_event-IsIngestible x (source_name providers) message (rw d1 c),
          s1 ∙ ap (λ p. p.1) b ∙ s3,
        ),
    λ (message, e, i, same).
        let (event, d, c) = IsIngestible-dry_run_event x (source_name providers) message i in
        rw (by_fixture, fixture_ingest-dry x live pack providers w, e, d, c, same) refl,
  )
