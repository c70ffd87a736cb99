-- ===== src/E2e/Run/Account.antt =====
-- src/e2e.rs: the stages of `run_pack` as they are run one after the other, and their trace in the
-- report.
use greentic_events.Base.{
  ◌≡◌, refl, ap, sym, ◌∙◌, Bool, true, false, List, [], ◌∷◌, ◌++◌, ok, err, some,
}
use mathlib.Core.Path.{subst}
use greentic_events.Base.Str.{Str, codes}
use greentic_events.Descriptor.{EventProviderSpec}
use greentic_events.E2e.{
  StageStatus, pass, fail, skip, StageReport, E2eOptions, E2eDiagnostic, PackLoad,
  RequirementsFixture, SetupSummary,
}
use greentic_events.E2e.Task.{Task, Caught, returned, panicked}
use greentic_events.E2e.Checks.{Formats}
use greentic_events.E2e.Stages.{E2eDependencies, run_setup, run_ingest, run_emit, run_subscriptions}
use greentic_events.E2e.Run.{ingests, emits, subscribes, run_stages}
use greentic_events.E2e.Run.Stage.{
  Progress, Stage, setup, ingest, emit, subscriptions, begin, set_status, status_at, setup_stage,
  optional_stage, record_setup, record_result, attempt, panic_message, summary_message, stage_name,
}

abbrev pub note : Str → Str → List E2eDiagnostic
note name message = record { stage = some name; message = message } ∷ []

-- The stage `name` was executed: its status is pass exactly if the task returned a value, and then
-- `notes` are its diagnostics; else the error, or the panic, is its one diagnostic.
pub data Executed {W A : Type 0} (name : Str) (task : Task W A) (notes : A → List E2eDiagnostic)
    (w w1 : W) : StageStatus → List E2eDiagnostic → Type 0 where
  succeeded :
      (a : A) → task w ≡ (returned (ok a), w1) → Executed name task notes w w1 pass (notes a)
  failed :
      (e : Str) → task w ≡ (returned (err e), w1) → Executed name task notes w w1 fail (note name e)
  broken :
      task w ≡ (panicked, w1)
      → Executed name task notes w w1 fail (note name (name ++ codes " stage panicked"))

-- A stage that is executed where the test says so, and else is skipped without a trace.
pub data Optional {W : Type 0} (name : Str) (task : Task W Unit) (w : W)
    : Bool → W → StageStatus → List E2eDiagnostic → Type 0 where
  tried :
      {w1 : W} {x : StageStatus} {ds : List E2eDiagnostic}
      → Executed name task (λ u. []) w w1 x ds
      → Optional name task w true w1 x ds
  left : Optional name task w false w skip []

-- The four stages, one after the other from world `w0` on, with their statuses and diagnostics.
pub record Account {W R : Type 0} (f : Formats) (deps : E2eDependencies W R) (options : E2eOptions)
    (pack : PackLoad) (providers : List EventProviderSpec) (state : RequirementsFixture) (w0 w4 : W)
    (first : List E2eDiagnostic) (stages : StageReport) (diagnostics : List E2eDiagnostic)
    : Type 0 where
  pub w1 : W
  pub w2 : W
  pub w3 : W
  pub notes1 : List E2eDiagnostic
  pub notes2 : List E2eDiagnostic
  pub notes3 : List E2eDiagnostic
  pub notes4 : List E2eDiagnostic
  pub set_up :
      Executed
        (codes "setup")
        (run_setup f deps pack state providers)
        (λ s. note (codes "setup") (summary_message f s))
        w0
        w1
        stages.setup
        notes1
  pub ingested :
      Optional
        (codes "ingest")
        (run_ingest f deps pack providers options.live)
        w1
        (ingests providers)
        w2
        stages.ingest
        notes2
  pub emitted :
      Optional
        (codes "emit")
        (run_emit f deps pack providers options.live)
        w2
        (emits providers)
        w3
        stages.emit
        notes3
  pub subscribed :
      Optional
        (codes "subscriptions")
        (run_subscriptions f deps pack providers options.live)
        w3
        (subscribes providers state)
        w4
        stages.subscriptions
        notes4
  pub requirements_passed : stages.requirements ≡ pass
  pub noted : diagnostics ≡ (((first ++ notes1) ++ notes2) ++ notes3) ++ notes4

-- What a stage made of the report: a status for it, and more diagnostics.
abbrev Marked : Stage → Progress → StageStatus → List E2eDiagnostic → Progress → Type 0
Marked stage p x ds p1 =
    p1 ≡ record { stages = set_status stage x p.stages; diagnostics = p.diagnostics ++ ds }

append_none : {A : Type 0} (xs : List A) → xs ++ [] ≡ xs
append_none [] = refl
append_none (x ∷ xs) = ap (λ ys. x ∷ ys) (append_none xs)

setup_stage-Executed :
    {W : Type 0} (f : Formats) (task : Task W SetupSummary) (p : Progress) (w : W)
    → (x : StageStatus) × (ds : List E2eDiagnostic) × Executed
        (codes "setup")
        task
        (λ s. note (codes "setup") (summary_message f s))
        w
        (setup_stage f task p w).1
        x
        ds
      × Marked setup p x ds (setup_stage f task p w).0
unfolding setup_stage
setup_stage-Executed {W} f task p w = of_end (task w) refl
  where
    of_end :
        (c : Caught SetupSummary × W)
        → task w ≡ c
        → (x : StageStatus) × (ds : List E2eDiagnostic) × Executed
            (codes "setup")
            task
            (λ s. note (codes "setup") (summary_message f s))
            w
            c.1
            x
            ds
          × Marked setup p x ds (record_setup f (attempt (panic_message setup) (λ w'. c) w).0 p)
    of_end (returned (ok s), w1) e = (pass, _, succeeded s e, refl)
    of_end (returned (err m), w1) e = (fail, _, failed m e, refl)
    of_end (panicked, w1) e = (fail, _, broken e, refl)

optional_stage-Executed :
    {W : Type 0} (stage : Stage) (task : Task W Unit) (p : Progress) (w : W)
    → (x : StageStatus) × (ds : List E2eDiagnostic) × Optional
        (stage_name stage)
        task
        w
        true
        (optional_stage stage true task p w).1
        x
        ds
      × Marked stage p x ds (optional_stage stage true task p w).0
unfolding optional_stage
optional_stage-Executed {W} stage task p w = of_end (task w) refl
  where
    of_end :
        (c : Caught Unit × W)
        → task w ≡ c
        → (x : StageStatus) × (ds : List E2eDiagnostic) × Optional
            (stage_name stage)
            task
            w
            true
            c.1
            x
            ds
          × Marked stage p x ds
              (record_result stage [] (attempt (panic_message stage) (λ w'. c) w).0 p)
    of_end (returned (ok u), w1) e = (pass, _, tried (succeeded u e), refl)
    of_end (returned (err m), w1) e = (fail, _, tried (failed m e), refl)
    of_end (panicked, w1) e = (fail, _, tried (broken e), refl)

set_status-same : (stage : Stage) (r : StageReport) → set_status stage (status_at stage r) r ≡ r
set_status-same setup r = refl
set_status-same ingest r = refl
set_status-same emit r = refl
set_status-same subscriptions r = refl

-- A stage whose status was "skip" before.
optional_stage-Optional :
    {W : Type 0} (stage : Stage) (test : Bool) (task : Task W Unit) (p : Progress) (w : W)
    → status_at stage p.stages ≡ skip
    → (x : StageStatus) × (ds : List E2eDiagnostic) × Optional
        (stage_name stage)
        task
        w
        test
        (optional_stage stage test task p w).1
        x
        ds
      × Marked stage p x ds (optional_stage stage test task p w).0
optional_stage-Optional stage true task p w h = optional_stage-Executed stage task p w
optional_stage-Optional stage false task p w h = (
  skip,
  [],
  unfold optional_stage in left,
  unfold optional_stage in
      λ i. record {
        stages =
            sym (ap (λ x. set_status stage x p.stages) (sym h) ∙ set_status-same stage p.stages) i;
        diagnostics = sym (append_none p.diagnostics) i;
      },
)

-- Statuses set one after the other.
Marked-all :
    (first ds1 ds2 ds3 ds4 : List E2eDiagnostic) (x1 x2 x3 x4 : StageStatus)
    (p1 p2 p3 p4 : Progress)
    → Marked setup (begin first) x1 ds1 p1
    → Marked ingest p1 x2 ds2 p2
    → Marked emit p2 x3 ds3 p3
    → Marked subscriptions p3 x4 ds4 p4
    → p4 ≡ record {
      stages = record {
        requirements = pass;
        setup = x1;
        ingest = x2;
        emit = x3;
        subscriptions = x4;
      };
      diagnostics = (((first ++ ds1) ++ ds2) ++ ds3) ++ ds4;
    }
Marked-all first ds1 ds2 ds3 ds4 x1 x2 x3 x4 p1 p2 p3 p4 m1 m2 m3 m4 =
    m4
    ∙ ap (marked subscriptions x4 ds4)
        (m3 ∙ ap (marked emit x3 ds3) (m2 ∙ ap (marked ingest x2 ds2) m1))
  where
    marked : Stage → StageStatus → List E2eDiagnostic → Progress → Progress
    marked stage x ds p = record {
      stages = set_status stage x p.stages;
      diagnostics = p.diagnostics ++ ds;
    }

module _ {W R : Type 0} (f : Formats) (deps : E2eDependencies W R) (options : E2eOptions)
    (pack : PackLoad) (providers : List EventProviderSpec) (state : RequirementsFixture) where
  pub run_stages-Account :
      (first : List E2eDiagnostic) (w : W)
      → Account f deps options pack providers state w
          (run_stages f deps options pack providers state (begin first) w).1
          first
          (run_stages f deps options pack providers state (begin first) w).0.stages
          (run_stages f deps options pack providers state (begin first) w).0.diagnostics
  unfolding run_stages
  run_stages-Account first w =
      let a = setup_stage f (run_setup f deps pack state providers) (begin first) w in
      let (x1, ds1, ran1, m1) =
        setup_stage-Executed f (run_setup f deps pack state providers) (begin first) w in
      let b =
        optional_stage ingest (ingests providers) (run_ingest f deps pack providers options.live)
          a.0 a.1 in
      let (x2, ds2, ran2, m2) =
        optional_stage-Optional ingest (ingests providers)
          (run_ingest f deps pack providers options.live) a.0 a.1
          (ap (λ (p : Progress). p.stages.ingest) m1) in
      let c =
        optional_stage emit (emits providers) (run_emit f deps pack providers options.live) b.0
          b.1 in
      let (x3, ds3, ran3, m3) =
        optional_stage-Optional emit (emits providers) (run_emit f deps pack providers options.live)
          b.0 b.1
          (ap (λ (p : Progress). p.stages.emit) m2 ∙ ap (λ (p : Progress). p.stages.emit) m1) in
      let (x4, ds4, ran4, m4) =
        optional_stage-Optional subscriptions (subscribes providers state)
          (run_subscriptions f deps pack providers options.live) c.0 c.1
          (ap (λ (p : Progress). p.stages.subscriptions) m3
            ∙ ap (λ (p : Progress). p.stages.subscriptions) m2
            ∙ ap (λ (p : Progress). p.stages.subscriptions) m1) in
      subst
        (λ (p : Progress).
          Account f deps options pack providers state w
            (run_stages f deps options pack providers state (begin first) w).1 first p.stages
            p.diagnostics)
        (sym (Marked-all first ds1 ds2 ds3 ds4 x1 x2 x3 x4 a.0 b.0 c.0 _ m1 m2 m3 m4))
        (record {
          w1 = a.1;
          w2 = b.1;
          w3 = c.1;
          notes1 = ds1;
          notes2 = ds2;
          notes3 = ds3;
          notes4 = ds4;
          set_up = ran1;
          ingested = ran2;
          emitted = ran3;
          subscribed = ran4;
          requirements_passed = refl;
          noted = refl;
        })
