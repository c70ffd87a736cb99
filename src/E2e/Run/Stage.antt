-- ===== src/E2e/Run/Stage.antt =====
-- src/e2e.rs: one stage of `run_pack`, and what it leaves in the report.
use greentic_events.Base.{Bool, true, false, List, [], ◌∷◌, ◌++◌, Result, ok, err, some}
use greentic_events.Base.Str.{Str, codes}
use greentic_events.Base.Io.{Io}
use greentic_events.E2e.{StageStatus, pass, fail, skip, StageReport, E2eDiagnostic, SetupSummary}
use greentic_events.E2e.Task.{Task, caught}
use greentic_events.E2e.Checks.{Formats}

-- The two variables of `run_pack` that the stages change.
pub record Progress : Type 0 where
  pub stages : StageReport
  pub diagnostics : List E2eDiagnostic

-- The stages after that of the requirements.
pub data Stage : Type 0 where
  setup ingest emit subscriptions : Stage

abbrev pub stage_name : Stage → Str
stage_name setup = codes "setup"
stage_name ingest = codes "ingest"
stage_name emit = codes "emit"
stage_name subscriptions = codes "subscriptions"

abbrev pub status_at : Stage → StageReport → StageStatus
status_at setup s = s.setup
status_at ingest s = s.ingest
status_at emit s = s.emit
status_at subscriptions s = s.subscriptions

abbrev pub set_status : Stage → StageStatus → StageReport → StageReport
set_status setup x s = record s { setup = x }
set_status ingest x s = record s { ingest = x }
set_status emit x s = record s { emit = x }
set_status subscriptions x s = record s { subscriptions = x }

abbrev pub diagnostic_of : Stage → Str → E2eDiagnostic
diagnostic_of stage message = record { stage = some (stage_name stage); message = message }

-- `AssertUnwindSafe(…).catch_unwind().await.unwrap_or_else(…)`
abbrev pub attempt : {W A : Type 0} → Str → Task W A → Io W A
attempt message task w = let (c, w1) = task w in (caught message c, w1)

abbrev pub panic_message : Stage → Str
panic_message stage = stage_name stage ++ codes " stage panicked"

-- All stages but the first are to come, which has passed.
abbrev pub begin : List E2eDiagnostic → Progress
begin diagnostics = record {
  stages = record {
    requirements = pass;
    setup = skip;
    ingest = skip;
    emit = skip;
    subscriptions = skip;
  };
  diagnostics = diagnostics;
}

abbrev pub record_result : Stage → List E2eDiagnostic → Result Str Unit → Progress → Progress
record_result stage notes (ok u) p = record {
  stages = set_status stage pass p.stages;
  diagnostics = p.diagnostics ++ notes;
}
record_result stage notes (err e) p = record {
  stages = set_status stage fail p.stages;
  diagnostics = p.diagnostics ++ (diagnostic_of stage e ∷ []);
}

abbrev pub summary_message : Formats → SetupSummary → Str
summary_message f s =
    codes "plan=config_patches="
    ++ (f.show_number s.config_patches
        ++ (codes " secrets_patches="
            ++ (f.show_number s.secrets_patches
                ++ (codes " subscriptions="
                    ++ (f.show_number s.subscriptions
                        ++ (codes " webhooks=" ++ f.show_number s.webhooks))))))

-- The match on the result of `run_setup`.
abbrev pub record_setup : Formats → Result Str SetupSummary → Progress → Progress
record_setup f (ok s) p =
    record_result setup (diagnostic_of setup (summary_message f s) ∷ []) (ok tt) p
record_setup f (err e) p = record_result setup [] (err e) p

unfoldable pub setup_stage :
    {W : Type 0} → Formats → Task W SetupSummary → Progress → W → Progress × W
setup_stage f task p w =
    let (r, w1) = attempt (panic_message setup) task w in (record_setup f r p, w1)

-- A stage that runs where the test says so.
unfoldable pub optional_stage :
    {W : Type 0} → Stage → Bool → Task W Unit → Progress → W → Progress × W
optional_stage stage false task p w = (p, w)
optional_stage stage true task p w =
    let (r, w1) = attempt (panic_message stage) task w in (record_result stage [] r p, w1)
