-- ===== src/E2e/Run/Recorded.antt =====
-- src/e2e.rs: the loop over the packs, and what the reports of a run say of each pack.
use greentic_events.Base.{
  ℕ, ◌+◌, ◌≡◌, refl, Option, none, some, List, [], ◌∷◌, Result, ok, err, arith, unwrap_or, Bool,
  true, false, filter, length, if◌then◌else◌,
}
use greentic_events.Base.Str.{Str, codes}
use greentic_events.E2e.{StageStatus, pass, fail, skip, PackReport, E2eOptions, E2eSummary}
use greentic_events.E2e.Checks.{Formats}
use greentic_events.E2e.Report.{count_status, count_reports, report_to_pack_report}
use greentic_events.E2e.Stages.{E2eDependencies}
use greentic_events.E2e.Run.{Driver, run_pack, run_packs}

-- The report of a pack without one of its own: all failed, and the message is its diagnostic.
pub record IsFailure (name : Option Str) (message : Str) (r : PackReport) : Type 0 where
  pub named : r.pack ≡ unwrap_or name (codes "unknown")
  pub version : r.version ≡ codes "unknown"
  pub failed : r.status ≡ fail
  pub requirements : r.stages.requirements ≡ fail
  pub setup : r.stages.setup ≡ fail
  pub ingest : r.stages.ingest ≡ fail
  pub emit : r.stages.emit ≡ fail
  pub subscriptions : r.stages.subscriptions ≡ fail
  pub explained : r.diagnostics ≡ record { stage = none; message = message } ∷ []
  pub untimed : r.timing_ms ≡ 0

module _ {W R : Type 0} (f : Formats) (deps : E2eDependencies W R) (driver : Driver W)
    (options : E2eOptions) where
  -- The packs of the paths were run one after the other, and each has its report: its own, if it
  -- gave one in time, else one of a failure, with the error or with the time that ran out.
  pub data Recorded : List Str → W → W → List PackReport → Type 0 where
    none_left : {w : W} → Recorded [] w w []
    reported :
        {path : Str} {paths : List Str} {w w1 w2 : W} {r : PackReport} {rs : List PackReport}
        → driver.timeout (run_pack f deps driver options path) w ≡ (some (ok r), w1)
        → Recorded paths w1 w2 rs
        → Recorded (path ∷ paths) w w2 (r ∷ rs)
    failed :
        {path : Str} {paths : List Str} {w w1 w2 : W} {r : PackReport} {rs : List PackReport}
        {e : Str}
        → driver.timeout (run_pack f deps driver options path) w ≡ (some (err e), w1)
        → IsFailure (driver.file_stem path) e r
        → Recorded paths w1 w2 rs
        → Recorded (path ∷ paths) w w2 (r ∷ rs)
    late :
        {path : Str} {paths : List Str} {w w1 w2 : W} {r : PackReport} {rs : List PackReport}
        → driver.timeout (run_pack f deps driver options path) w ≡ (none, w1)
        → IsFailure (driver.file_stem path) (codes "pack timed out after 20s") r
        → Recorded paths w1 w2 rs
        → Recorded (path ∷ paths) w w2 (r ∷ rs)

  report_to_pack_report-IsFailure :
      (name : Option Str) (message : Str)
      → IsFailure name message (report_to_pack_report name (err message))
  unfolding report_to_pack_report
  report_to_pack_report-IsFailure name message = record {
    named = refl;
    version = refl;
    failed = refl;
    requirements = refl;
    setup = refl;
    ingest = refl;
    emit = refl;
    subscriptions = refl;
    explained = refl;
    untimed = refl;
  }

  pub run_packs-Recorded :
      (paths : List Str) (w : W)
      → Recorded paths w
          (run_packs f deps driver options paths w).1
          (run_packs f deps driver options paths w).0
  unfolding run_packs report_to_pack_report
  run_packs-Recorded [] w = none_left
  run_packs-Recorded (path ∷ paths) w =
      let c = driver.timeout (run_pack f deps driver options path) w in
      recorded c refl (run_packs-Recorded paths c.1)
    where
      recorded :
          {w2 : W} {rs : List PackReport} (c : Option (Result Str PackReport) × W)
          → driver.timeout (run_pack f deps driver options path) w ≡ c
          → Recorded paths c.1 w2 rs
          → Recorded (path ∷ paths) w w2 (
              report_to_pack_report
                (driver.file_stem path)
                (unwrap_or c.0 (err (codes "pack timed out after 20s")))
              ∷ rs)
      recorded (none, w1) e rest = late e (report_to_pack_report-IsFailure _ _) rest
      recorded (some (err m), w1) e rest = failed e (report_to_pack_report-IsFailure _ _) rest
      recorded (some (ok r), w1) e rest = reported e rest

abbrev pub passing : StageStatus → Bool
passing pass = true
passing _ = false

abbrev pub failing : StageStatus → Bool
failing fail = true
failing _ = false

-- How many of the reports have a status with the property.
abbrev pub how_many : (StageStatus → Bool) → List PackReport → ℕ
how_many p reports = length (filter (λ (r : PackReport). p r.status) reports)

how_many-cons :
    (p : StageStatus → Bool) (r : PackReport) (rs : List PackReport)
    → how_many p (r ∷ rs) ≡ (if p r.status then 1 else 0) + how_many p rs
unfolding filter
how_many-cons p r rs = ground arith

pub count_reports-how_many :
    (reports : List PackReport) (s : E2eSummary)
    → ((count_reports reports s).pass_count ≡ s.pass_count + how_many passing reports)
      × ((count_reports reports s).fail_count ≡ s.fail_count + how_many failing reports)
unfolding count_reports filter
count_reports-how_many [] s = (omega arith, omega arith)
count_reports-how_many (r ∷ rs) s =
    let (p, f) = count_reports-how_many rs (count_status r.status s) in
    let (p1, f1) = one r.status s in
    (
      omega (arith, p, p1, how_many-cons passing r rs),
      omega (arith, f, f1, how_many-cons failing r rs),
    )
  where
    one :
        (x : StageStatus) (s : E2eSummary)
        → ((count_status x s).pass_count ≡ s.pass_count + (if passing x then 1 else 0))
          × ((count_status x s).fail_count ≡ s.fail_count + (if failing x then 1 else 0))
    one pass s = (omega arith, omega arith)
    one fail s = (omega arith, omega arith)
    one skip s = (omega arith, omega arith)
