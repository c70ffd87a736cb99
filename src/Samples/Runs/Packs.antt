-- ===== src/Samples/Runs/Packs.antt =====
-- The run over a directory with one pack, and the theorems at it.
use greentic_events.Base.{
  ℕ, ◌-◌, ◌+◌, ◌%◌, ◌^◌, ◌<◌, ◌≡◌, ◌&&◌, refl, ap, true, false, none, some, List, [], ◌∷◌, ok,
  length, some_eq,
}
use greentic_events.Base.Str.{Str, codes}
use greentic_events.Descriptor.{EventProviderSpec}
use greentic_events.E2e.{PackLoad, load_fixture, pass, PackReport, E2eOptions}
use greentic_events.E2e.Checks.{requirements_message, RequirementsResult, empty_summary}
use greentic_events.E2e.Report.{overall_status, report_to_pack_report}
use greentic_events.E2e.Flow.{requirements_flow_id}
use greentic_events.E2e.Fixtures.{fixture_ingest}
use greentic_events.E2e.Plans.{composite_plan}
use greentic_events.E2e.Stages.{run_requirements, run_setup, run_ingest}
use greentic_events.E2e.Run.{
  Driver, run_pack, pack_providers, run_e2e_with, e2e_report, apply_dry_run_guard, discover_packs,
  of_option,
}
use greentic_events.E2e.Run.Stage.{attempt, summary_message}
use greentic_events.E2e.Run.Account.{Account}
use greentic_events.E2e.Run.Recorded.{Recorded, how_many, passing, failing}
use greentic_events.E2e.Run.Reported.{Reports, run_pack-Reports}
use greentic_events.E2e.Run.Totals.{IsTimeout, run_e2e_with-Totals}
use greentic_events.Samples.Runs.{stages, pack, formats, requirements, deps}

abbrev driver : Driver ℕ
driver = record {
  env_var = λ name w. none;
  read_dir = λ dir w. ok (
      ok (record {
        path = codes "events-p.gtpack";
        is_file = true;
        file_name = some (codes "events-p.gtpack");
        extension = some (codes "gtpack");
      })
      ∷ []);
  sort = λ paths. paths;
  file_stem = λ path. some path;
  open_pack = λ path w. (ok pack, w);
  elapsed = λ started w. w - started;
  timeout = λ m w. (some (m w).0, (m w).1);
  to_string_pretty = λ report. ok [];
  write = λ path text w. (ok tt, w + 1);
}

abbrev options : E2eOptions
options = record {
  packs_dir = codes "packs";
  provider_filter = none;
  report_path = none;
  dry_run = true;
  live = false;
}

abbrev pack_report : PackReport
pack_report = record {
  pack = codes "p";
  version = codes "1";
  status = pass;
  stages = stages;
  diagnostics =
      record {
        stage = some (codes "requirements");
        message = requirements_message formats none requirements;
      }
      ∷ record { stage = some (codes "setup"); message = summary_message formats empty_summary }
      ∷ [];
  timing_ms = 0;
}

ran : run_pack formats deps driver options (codes "events-p.gtpack") 0 ≡ (ok pack_report, 0)
unfolding run_pack fixture_ingest run_requirements overall_status run_ingest load_fixture run_setup
    composite_plan
ran = refl

run_pack-Reports_example :
    (p : PackLoad) × (providers : List EventProviderSpec) × (r : RequirementsResult) × (w2 : ℕ)
    × (w3 : ℕ) × (driver.open_pack (codes "events-p.gtpack") 0 ≡ (ok p, w2))
    × (pack_providers options.provider_filter p ≡ ok providers)
    × (attempt
          (codes "requirements stage panicked")
          (run_requirements formats deps p (requirements_flow_id p))
          w2
        ≡ (ok r, w3))
    × Reports providers r.state pack_report
    × Account formats deps options p providers r.state w3 0
        (of_option r.diagnostic)
        pack_report.stages
        pack_report.diagnostics
    × (pack_report.pack ≡ p.pack_id)
    × (pack_report.timing_ms ≡ driver.elapsed 0 0 % 2 ^ 64)
run_pack-Reports_example =
    run_pack-Reports formats deps driver options (codes "events-p.gtpack") pack_report 0 0 ran

driver-IsTimeout : IsTimeout driver.timeout
driver-IsTimeout m r w w1 h = ((m w).1, ap (λ s. (s, (m w).1)) (some_eq (ap (λ c. c.0) h)))

ran_all : run_e2e_with formats deps driver options 0 ≡ (ok (e2e_report (pack_report ∷ [])), 0)
unfolding run_e2e_with fixture_ingest report_to_pack_report run_requirements overall_status
    run_ingest load_fixture run_setup composite_plan
ran_all = refl

run_e2e_with-Totals_example :
    (paths : List Str) × ((options.live && options.dry_run) ≡ false)
    × (apply_dry_run_guard driver options 0 ≡ ok tt)
    × (discover_packs driver options.packs_dir 0 ≡ ok paths)
    × (0 < length paths)
    × ((w2 : ℕ) × Recorded formats deps driver options paths 0 w2 (pack_report ∷ []))
    × ((e2e_report (pack_report ∷ [])).summary.pass_count ≡ how_many passing (pack_report ∷ []))
    × ((e2e_report (pack_report ∷ [])).summary.fail_count ≡ how_many failing (pack_report ∷ []))
    × ((e2e_report (pack_report ∷ [])).summary.total ≡ length paths)
    × ((e2e_report (pack_report ∷ [])).summary.pass_count
          + (e2e_report (pack_report ∷ [])).summary.fail_count
        ≡ length paths)
    × ((e2e_report (pack_report ∷ [])).summary.skip_count ≡ 0)
run_e2e_with-Totals_example =
    run_e2e_with-Totals formats deps driver driver-IsTimeout options (e2e_report (pack_report ∷ []))
      0 0 ran_all
