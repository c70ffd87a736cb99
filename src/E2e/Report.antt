-- ===== src/E2e/Report.antt =====
-- src/e2e.rs: the status of a pack, its report, and the summary of all reports.
pub mod Statuses
use greentic_events.Base.{
  ℕ, ◌+◌, Bool, true, false, List, [], ◌∷◌, Result, ok, err, any, all, length, Option, none, some,
  unwrap_or, if◌then◌else◌,
}
use greentic_events.Base.Str.{Str, codes}
use greentic_events.E2e.{
  StageStatus, pass, fail, skip, StageReport, E2eDiagnostic, PackReport, E2eSummary,
}

abbrev pub is_fail : StageStatus → Bool
is_fail fail = true
is_fail _ = false

abbrev pub is_skip : StageStatus → Bool
is_skip skip = true
is_skip _ = false

abbrev pub statuses : StageReport → List StageStatus
statuses s = s.requirements ∷ s.setup ∷ s.ingest ∷ s.emit ∷ s.subscriptions ∷ []

abbrev pub status_of : List StageStatus → StageStatus
status_of xs = if any is_fail xs then fail else if all is_skip xs then skip else pass

unfoldable pub overall_status : StageReport → StageStatus
unfolding any all
overall_status stages = status_of (statuses stages)

abbrev pub count_status : StageStatus → E2eSummary → E2eSummary
count_status pass s = record s { pass_count = s.pass_count + 1 }
count_status fail s = record s { fail_count = s.fail_count + 1 }
count_status skip s = record s { skip_count = s.skip_count + 1 }

unfoldable pub count_reports : List PackReport → E2eSummary → E2eSummary
count_reports [] s = s
count_reports (report ∷ reports) s = count_reports reports (count_status report.status s)

unfoldable pub summarize : List PackReport → E2eSummary
unfolding count_reports
summarize reports =
    count_reports reports
      (record { total = length reports; pass_count = 0; fail_count = 0; skip_count = 0 })

abbrev pub all_failed : StageReport
all_failed = record {
  requirements = fail;
  setup = fail;
  ingest = fail;
  emit = fail;
  subscriptions = fail;
}

-- `file_stem` is the stem of the path's file name, if it is text.
unfoldable pub report_to_pack_report : Option Str → Result Str PackReport → PackReport
report_to_pack_report file_stem (ok report) = report
report_to_pack_report file_stem (err e) = record {
  pack = unwrap_or file_stem (codes "unknown");
  version = codes "unknown";
  status = fail;
  stages = all_failed;
  diagnostics = record { stage = none; message = e } ∷ [];
  timing_ms = 0;
}
