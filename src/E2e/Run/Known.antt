-- ===== src/E2e/Run/Known.antt =====
-- src/e2e.rs: what the report of a pack says of its stages.
use greentic_events.Base.{
  ◌≡◌, refl, inl, inr, Bool, true, false, not, ◌||◌, List, ◌++◌, Result, ok, err, any, some,
  if◌then◌else◌, arith, ◌∷◌, Bool-cases, [], ◌∙◌,
}
use greentic_events.Base.Str.{str_eq, Str}
use greentic_events.E2e.{StageStatus, pass, fail, StageReport, E2eDiagnostic, SetupSummary}
use greentic_events.E2e.Report.{is_skip}
use greentic_events.E2e.Checks.{option_eq, Formats}
use greentic_events.E2e.Task.{Task}
use greentic_events.E2e.Run.Stage.{
  Progress, Stage, setup, ingest, emit, subscriptions, stage_name, status_at, set_status,
  record_result, record_setup, attempt, setup_stage, optional_stage, diagnostic_of, panic_message,
}

-- Some diagnostic names the stage.
abbrev pub Mentions : Stage → List E2eDiagnostic → Type 0
Mentions stage diagnostics =
    any (λ d. option_eq str_eq d.stage (some (stage_name stage))) diagnostics ≡ true

abbrev pub Explained : StageReport → List E2eDiagnostic → Type 0
Explained stages diagnostics =
    (stage : Stage) → status_at stage stages ≡ fail → Mentions stage diagnostics

abbrev pub same : Stage → Stage → Bool
same setup setup = true
same ingest ingest = true
same emit emit = true
same subscriptions subscriptions = true
same _ _ = false

status_at-set_status :
    (s t : Stage) (x : StageStatus) (r : StageReport)
    → status_at s (set_status t x r) ≡ (if same s t then x else status_at s r)
status_at-set_status setup setup x r = refl
status_at-set_status ingest ingest x r = refl
status_at-set_status emit emit x r = refl
status_at-set_status subscriptions subscriptions x r = refl
status_at-set_status _ _ x r = refl

same-mentioned : (s t : Stage) → same s t ≡ true → str_eq (stage_name t) (stage_name s) ≡ true
unfolding str_eq
same-mentioned setup setup h = refl
same-mentioned ingest ingest h = refl
same-mentioned emit emit h = refl
same-mentioned subscriptions subscriptions h = refl
same-mentioned _ _ h = cc

any-append :
    {A : Type 0} (p : A → Bool) (xs ys : List A) → any p (xs ++ ys) ≡ (any p xs || any p ys)
unfolding any
any-append p [] ys = refl
any-append p (x ∷ xs) ys = ground (arith, any-append p xs ys)

-- A status that was set, and the rest of the report.
mentioned-before :
    (s : Stage) (ds more : List E2eDiagnostic) → Mentions s ds → Mentions s (ds ++ more)
mentioned-before s ds more m =
    rw (any-append (λ d. option_eq str_eq d.stage (some (stage_name s))) ds more, m) refl

mentioned-now :
    (s t : Stage) (ds : List E2eDiagnostic) (message : Str)
    → same s t ≡ true
    → Mentions s (ds ++ (diagnostic_of t message ∷ []))
unfolding any
mentioned-now s t ds message h =
    rw
      (
        any-append (λ d. option_eq str_eq d.stage (some (stage_name s))) ds
            (diagnostic_of t message ∷ []),
        same-mentioned s t h,
      )
      (ground arith)

record_result-Explained :
    (stage : Stage) (notes : List E2eDiagnostic) (r : Result Str Unit) (p : Progress)
    → Explained p.stages p.diagnostics
    → Explained (record_result stage notes r p).stages (record_result stage notes r p).diagnostics
record_result-Explained stage notes (ok u) p e s h =
    mentioned-before s p.diagnostics notes
      (e s (ground (arith, h, status_at-set_status s stage pass p.stages)))
record_result-Explained stage notes (err message) p e s h = elim (Bool-cases (same s stage)) [
  | inl it ↦ mentioned-now s stage p.diagnostics message it
  | inr it ↦
      mentioned-before s p.diagnostics _
        (e s (ground (arith, h, it, status_at-set_status s stage fail p.stages)))
]

-- The parts of a report that the stages before it are known for.
pub record Known (tried : Stage → Bool) (p : Progress) : Type 0 where
  pub first : p.stages.requirements ≡ pass
  pub skipped : (s : Stage) → is_skip (status_at s p.stages) ≡ not (tried s)
  pub explained : Explained p.stages p.diagnostics

unfoldable pub also : Stage → Bool → (Stage → Bool) → Stage → Bool
also stage test tried s = if same s stage then test || tried s else tried s

set_status-requirements :
    (stage : Stage) (x : StageStatus) (r : StageReport)
    → (set_status stage x r).requirements ≡ r.requirements
set_status-requirements setup x r = refl
set_status-requirements _ x r = refl

record_result-Known :
    (tried : Stage → Bool) (stage : Stage) (notes : List E2eDiagnostic) (r : Result Str Unit)
    (p : Progress)
    → Known tried p
    → Known (also stage true tried) (record_result stage notes r p)
unfolding also
record_result-Known tried stage notes (ok u) p k = record {
  first = set_status-requirements stage pass p.stages ∙ k.first;
  skipped = λ s. ground (arith, k.skipped s, status_at-set_status s stage pass p.stages);
  explained = record_result-Explained stage notes (ok u) p k.explained;
}
record_result-Known tried stage notes (err e) p k = record {
  first = set_status-requirements stage fail p.stages ∙ k.first;
  skipped = λ s. ground (arith, k.skipped s, status_at-set_status s stage fail p.stages);
  explained = record_result-Explained stage notes (err e) p k.explained;
}

pub setup_stage-Known :
    {W : Type 0} (f : Formats) (task : Task W SetupSummary) (tried : Stage → Bool) (p : Progress)
    (w : W)
    → Known tried p
    → Known (also setup true tried) (setup_stage f task p w).0
unfolding setup_stage
setup_stage-Known f task tried p w k = recorded ((attempt (panic_message setup) task w).0)
  where
    recorded : (r : Result Str SetupSummary) → Known (also setup true tried) (record_setup f r p)
    recorded (ok s) = record_result-Known tried setup _ (ok tt) p k
    recorded (err e) = record_result-Known tried setup [] (err e) p k

pub optional_stage-Known :
    {W : Type 0} (stage : Stage) (test : Bool) (task : Task W Unit) (tried : Stage → Bool)
    (p : Progress) (w : W)
    → Known tried p
    → Known (also stage test tried) (optional_stage stage test task p w).0
unfolding optional_stage also
optional_stage-Known stage false task tried p w k = record {
  first = k.first;
  skipped = λ s. ground (arith, k.skipped s);
  explained = k.explained;
}
optional_stage-Known stage true task tried p w k =
    record_result-Known tried stage [] ((attempt (panic_message stage) task w).0) p k
