-- ===== src/E2e/Run/Reported.antt =====
-- src/e2e.rs: what the report of `run_pack` says of the stages.
use greentic_events.Base.{
  ◌≡◌, refl, ◌≢◌, Bool, true, false, not, List, ◌++◌, ok, arith, ℕ, ok_eq, ap, ◌∙◌, ◌%◌, ◌^◌,
}
use greentic_events.Base.Str.{Str, codes}
use greentic_events.Base.Io.{io_then-parts, pure_io-parts, with_context-ok, with_context, pure_io}
use greentic_events.Descriptor.{EventProviderSpec}
use greentic_events.E2e.{
  pass, StageReport, RequirementsFixture, PackLoad, PackReport, E2eOptions, E2eDiagnostic, fail,
}
use greentic_events.E2e.Checks.{Formats, RequirementsResult}
use greentic_events.E2e.Flow.{requirements_flow_id}
use greentic_events.E2e.Report.{is_skip, overall_status}
use greentic_events.E2e.Stages.{
  E2eDependencies, run_requirements, run_setup, run_ingest, run_emit, run_subscriptions,
}
use greentic_events.E2e.Run.{
  Driver, ingests, emits, subscribes, run_stages, staged_report, run_pack, report_of, setup_stage,
  optional_stage, pack_providers, of_option,
}
use greentic_events.E2e.Run.Stage.{
  Progress, Stage, begin, attempt, subscriptions, emit, status_at, setup, ingest,
}
use greentic_events.E2e.Run.Account.{Account, run_stages-Account}
use greentic_events.E2e.Run.Known.{Explained, Known, also, setup_stage-Known, optional_stage-Known}

-- What a report must say of the run of a pack whose requirements and providers are these.
pub record Reports (providers : List EventProviderSpec) (state : RequirementsFixture)
    (report : PackReport) : Type 0 where
  pub overall : report.status ≡ overall_status report.stages
  pub not_skipped : is_skip report.status ≡ false
  pub first : report.stages.requirements ≡ pass
  pub setup : is_skip report.stages.setup ≡ false
  pub ingest : is_skip report.stages.ingest ≡ not (ingests providers)
  pub emit : is_skip report.stages.emit ≡ not (emits providers)
  pub subscriptions : is_skip report.stages.subscriptions ≡ not (subscribes providers state)
  pub explained : Explained report.stages report.diagnostics

overall_status-passed :
    (s : StageReport) → s.requirements ≡ pass → is_skip (overall_status s) ≡ false
unfolding overall_status
overall_status-passed s h = ground arith

none_tried : Stage → Bool
none_tried s = false

begin-Known : (diagnostics : List E2eDiagnostic) → Known none_tried (begin diagnostics)
unfolding none_tried
begin-Known diagnostics = record {
  first = refl;
  skipped = λ s. skip_at s;
  explained = λ s h. absurd (skip≢fail s h);
}
  where
    skip_at : (s : Stage) → is_skip (status_at s (begin diagnostics).stages) ≡ true
    skip_at setup = refl
    skip_at ingest = refl
    skip_at emit = refl
    skip_at subscriptions = refl

    skip≢fail : (s : Stage) → status_at s (begin diagnostics).stages ≢ fail
    skip≢fail setup h = cc h
    skip≢fail ingest h = cc h
    skip≢fail emit h = cc h
    skip≢fail subscriptions h = cc h

tried_by : List EventProviderSpec → RequirementsFixture → Stage → Bool
tried_by providers state =
    also subscriptions (subscribes providers state)
      (also emit (emits providers) (also ingest (ingests providers) (also setup true none_tried)))

Known-Reports :
    (providers : List EventProviderSpec) (state : RequirementsFixture) (pack : PackLoad)
    (elapsed : ℕ) (p : Progress)
    → Known (tried_by providers state) p
    → Reports providers state (report_of pack elapsed p)
unfolding tried_by none_tried also
Known-Reports providers state pack elapsed p k = record {
  overall = refl;
  not_skipped = overall_status-passed p.stages k.first;
  first = k.first;
  setup = k.skipped setup;
  ingest = ground (arith, k.skipped ingest);
  emit = ground (arith, k.skipped emit);
  subscriptions = ground (arith, k.skipped subscriptions);
  explained = k.explained;
}

module _ {W R : Type 0} (f : Formats) (deps : E2eDependencies W R) (driver : Driver W)
    (options : E2eOptions) where
  run_stages-Known :
      (pack : PackLoad) (providers : List EventProviderSpec) (state : RequirementsFixture)
      (diagnostics : List E2eDiagnostic) (w : W)
      → Known
          (tried_by providers state)
          (run_stages f deps options pack providers state (begin diagnostics) w).0
  unfolding run_stages tried_by
  run_stages-Known pack providers state diagnostics w =
      let first = setup_stage f (run_setup f deps pack state providers) (begin diagnostics) w in
      let k1 =
        setup_stage-Known f (run_setup f deps pack state providers) none_tried (begin diagnostics) w
          (begin-Known diagnostics) in
      let second =
        optional_stage ingest (ingests providers) (run_ingest f deps pack providers options.live)
          first.0 first.1 in
      let k2 =
        optional_stage-Known ingest (ingests providers)
          (run_ingest f deps pack providers options.live) _ first.0 first.1 k1 in
      let third =
        optional_stage emit (emits providers) (run_emit f deps pack providers options.live) second.0
          second.1 in
      let k3 =
        optional_stage-Known emit (emits providers) (run_emit f deps pack providers options.live) _
          second.0 second.1 k2 in
      optional_stage-Known subscriptions (subscribes providers state)
        (run_subscriptions f deps pack providers options.live) _ third.0 third.1 k3

  staged_report-Reports :
      (started : W) (pack : PackLoad) (providers : List EventProviderSpec) (r : RequirementsResult)
      (report : PackReport) (w w1 : W)
      → staged_report f deps driver options started pack providers r w ≡ (ok report, w1)
      → Reports providers r.state report
        × Account f deps options pack providers r.state w w1
            (of_option r.diagnostic)
            report.stages
            report.diagnostics
        × (report.pack ≡ pack.pack_id)
        × (report.timing_ms ≡ driver.elapsed started w1 % 2 ^ 64)
  unfolding staged_report
  staged_report-Reports started pack providers r report w w1 h =
      let same : report_of pack _ _ ≡ report = ok_eq (ap (λ c. c.0) h) in
      let ended : (run_stages f deps options pack providers r.state _ w).1 ≡ w1 = ap (λ c. c.1) h in
      rw (← same, ← ended)
        (
          Known-Reports providers r.state pack _ _ (run_stages-Known pack providers r.state _ w),
          run_stages-Account f deps options pack providers r.state (of_option r.diagnostic) w,
          refl,
          refl,
        )

  -- A pack that was run was opened, declares events among which some are selected, and passed its
  -- requirements stage. Its report has the pack's id. Then the setup stage was executed, and after
  -- it ingestion, emission and subscriptions, in this order, each exactly where the selected
  -- providers, or for subscriptions the requirements, ask for it: an executed stage is reported as
  -- passed exactly if it returned a value, otherwise as failed, with its error or its panic as its
  -- one diagnostic; a stage that was not asked for is skipped and leaves no trace. The diagnostics are
  -- those of the requirements and then of the stages, in order. The status is that of the stages and
  -- is never "skip", and the time is that from the start to the end of the run.
  pub run_pack-Reports :
      (path : Str) (report : PackReport) (w w1 : W)
      → run_pack f deps driver options path w ≡ (ok report, w1)
      → (pack : PackLoad) × (providers : List EventProviderSpec)
        × (requirements : RequirementsResult) × (w2 : W) × (w3 : W) × (driver.open_pack path w
            ≡ (ok pack, w2))
        × (pack_providers options.provider_filter pack ≡ ok providers)
        × (attempt
              (codes "requirements stage panicked")
              (run_requirements f deps pack (requirements_flow_id pack))
              w2
            ≡ (ok requirements, w3))
        × Reports providers requirements.state report
        × Account f deps options pack providers requirements.state w3 w1
            (of_option requirements.diagnostic)
            report.stages
            report.diagnostics
        × (report.pack ≡ pack.pack_id)
        × (report.timing_ms ≡ driver.elapsed w w1 % 2 ^ 64)
  unfolding run_pack
  run_pack-Reports path report w w1 h =
      let (pack, w2, o, h2) =
        io_then-parts (with_context (codes "open pack " ++ path) (driver.open_pack path) w) _ report
          w1 h in
      let (providers, w3, e, h3) =
        io_then-parts (pure_io (pack_providers options.provider_filter pack) w2) _ report w1 h2 in
      let (requirements, w4, a, h4) =
        io_then-parts
          (attempt (codes "requirements stage panicked")
            (run_requirements f deps pack (requirements_flow_id pack)) w3)
          _ report w1 h3 in
      let (chosen, same) =
        pure_io-parts (pack_providers options.provider_filter pack) providers w2 w3 e in
      let (reports, account, id, time) =
        staged_report-Reports w pack providers requirements report w4 w1 h4 in
      (
        pack,
        providers,
        requirements,
        w2,
        w4,
        with_context-ok (codes "open pack " ++ path) (driver.open_pack path) pack w w2 o,
        chosen,
        ap
              (attempt (codes "requirements stage panicked")
                (run_requirements f deps pack (requirements_flow_id pack)))
              same
            ∙ a,
        reports,
        account,
        id,
        time,
      )
