-- ===== src/E2e/Run.antt =====
-- src/e2e.rs: the run of a pack and of a directory of packs. `R` is the type of reply scopes.
-- The file system, the clock, the environment and the formats are a parameter: `Driver`.
pub mod Stage
pub mod Known
pub mod Account
pub mod Recorded
pub mod Reported
pub mod Totals
use greentic_events.Base.{
  ℕ, ◌+◌, ◌%◌, ◌^◌, Bool, true, false, not, ◌&&◌, ◌||◌, Option, none, some, List, [], ◌∷◌, ◌++◌,
  map, Result, ok, err, then_ok, ok_or, map_option, map_err, unwrap_or, any, filter, is_empty,
  is_some, length, if◌then◌else◌,
}
use greentic_events.Base.Str.{Str, codes, str_eq, starts_with}
use greentic_events.Base.Io.{Io, ◌>>=◌, ◌>>◌, pure_io, with_context}
use greentic_events.Descriptor.{EventProviderKind, broker, source, sink, bridge, EventProviderSpec}
use greentic_events.E2e.{PackLoad, E2eOptions, RequirementsFixture, PackReport, E2eReport}
use greentic_events.E2e.Checks.{Formats, RequirementsResult, option_eq}
use greentic_events.E2e.Flow.{requirements_flow_id}
use greentic_events.E2e.Report.{overall_status, summarize, report_to_pack_report}
use greentic_events.E2e.Stages.{
  E2eDependencies, run_requirements, run_setup, run_ingest, run_emit, run_subscriptions,
}
use greentic_events.E2e.Run.Stage.{Progress, attempt, begin, setup_stage, optional_stage}

-- An entry of a directory: its path, whether that is a file, its name and its extension as text.
pub record DirEntry : Type 0 where
  pub path : Str
  pub is_file : Bool
  pub file_name : Option Str
  pub extension : Option Str

pub record Driver (W : Type 0) : Type 0 where
  -- `std::env::var(name).ok()`
  pub env_var : Str → W → Option Str
  -- `read_dir`, each entry read or not
  pub read_dir : Str → W → Result Str (List (Result Str DirEntry))
  -- `sort` on paths
  pub sort : List Str → List Str
  -- `file_stem`, as text
  pub file_stem : Str → Option Str
  -- `open_pack` with the policy for development, its error's message
  pub open_pack : Str → Io W PackLoad
  -- the milliseconds from one state to another
  pub elapsed : W → W → ℕ
  -- `timeout(DEFAULT_TIMEOUT, …)`: nothing where the time elapsed
  pub timeout : Io W PackReport → W → Option (Result Str PackReport) × W
  -- `serde_json::to_string_pretty`, and `fs::write` of a text to a path
  pub to_string_pretty : E2eReport → Result Str Str
  pub write : Str → Str → Io W Unit

-- `matches!(spec.kind, …)`
abbrev pub kind_is : EventProviderKind → EventProviderKind → Bool
kind_is broker broker = true
kind_is source source = true
kind_is sink sink = true
kind_is bridge bridge = true
kind_is _ _ = false

unfoldable pub has_kind : EventProviderKind → List EventProviderSpec → Bool
unfolding any
has_kind kind providers = any (λ p. kind_is kind p.kind) providers

-- The providers that the options ask for.
unfoldable pub selected : Option Str → List EventProviderSpec → List EventProviderSpec
unfolding filter str_eq
selected none providers = providers
selected (some name) providers = filter (λ p. str_eq p.name name) providers

-- The providers of a pack that are run.
unfoldable pub pack_providers : Option Str → PackLoad → Result Str (List EventProviderSpec)
unfolding selected
pack_providers filter pack =
    then_ok (ok_or pack.events (codes "pack has no events section")) λ events.
      if is_empty (selected filter events)
      then err (codes "no matching event providers in pack")
      else ok (selected filter events)

-- The stages that a pack's providers ask for.
abbrev pub ingests : List EventProviderSpec → Bool
ingests providers = has_kind source providers || has_kind bridge providers

abbrev pub emits : List EventProviderSpec → Bool
emits providers = has_kind sink providers || has_kind bridge providers

abbrev pub subscribes : List EventProviderSpec → RequirementsFixture → Bool
subscribes providers state = has_kind broker providers || state.subscriptions_required

abbrev pub of_option : {A : Type 0} → Option A → List A
of_option none = []
of_option (some a) = a ∷ []

-- A file named like an events pack.
unfoldable pub is_pack : DirEntry → Bool
unfolding starts_with str_eq
is_pack entry =
    entry.is_file
    && (unwrap_or (map_option (starts_with (codes "events-")) entry.file_name) false
        && option_eq str_eq entry.extension (some (codes "gtpack")))

-- The loop over the entries: the first that cannot be read ends it.
unfoldable pub collect_packs : List (Result Str DirEntry) → Result Str (List Str)
unfolding is_pack
collect_packs [] = ok []
collect_packs (entry ∷ entries) =
    then_ok entry
      λ e. then_ok (collect_packs entries) λ packs. ok (if is_pack e then e.path ∷ packs else packs)

module _ {W : Type 0} (driver : Driver W) where
  unfoldable pub discover_packs : Str → W → Result Str (List Str)
  unfolding collect_packs
  discover_packs dir w =
      then_ok (map_err (λ _. codes "read packs directory " ++ dir) (driver.read_dir dir w))
        λ entries. then_ok (collect_packs entries) λ packs. ok (driver.sort packs)

  unfoldable pub apply_dry_run_guard : E2eOptions → W → Result Str Unit
  unfolding str_eq
  apply_dry_run_guard options w =
      if options.dry_run
        && (is_some options.report_path
            && not (
                str_eq (unwrap_or (driver.env_var (codes "GREENTIC_EVENTS_E2E_ALLOW_WRITE") w) [])
                  (codes "1")))
      then err (
          codes
            "filesystem writes are disabled in dry-run (set GREENTIC_EVENTS_E2E_ALLOW_WRITE=1 to allow report output)")
      else ok tt

  -- `run_e2e_with` up to its loop: the packs to run.
  unfoldable pub packs_to_run : E2eOptions → W → Result Str (List Str)
  unfolding apply_dry_run_guard discover_packs
  packs_to_run options w =
      then_ok
        (if options.live && options.dry_run
          then err (codes "--live conflicts with --dry-run")
          else ok tt)
        λ _. then_ok (apply_dry_run_guard options w) λ _.
          then_ok (discover_packs options.packs_dir w) λ packs.
            if is_empty packs
            then err (codes "no packs found in " ++ options.packs_dir)
            else ok packs

-- `Ok(PackReport { … })`
abbrev pub report_of : PackLoad → ℕ → Progress → PackReport
report_of pack elapsed p = record {
  pack = pack.pack_id;
  version = pack.version;
  status = overall_status p.stages;
  stages = p.stages;
  diagnostics = p.diagnostics;
  timing_ms = elapsed % 2 ^ 64;
}

abbrev pub e2e_report : List PackReport → E2eReport
e2e_report reports = record { summary = summarize reports; packs = reports }

abbrev pub write_report : {W : Type 0} → Driver W → Option Str → E2eReport → Io W Unit
write_report driver none report = pure_io (ok tt)
write_report driver (some path) report = do
  payload ← pure_io (driver.to_string_pretty report)
  with_context (codes "write report to " ++ path) (driver.write path payload)

module _ {W R : Type 0} (f : Formats) (deps : E2eDependencies W R) where
  -- `run_pack` from the setup stage on.
  unfoldable pub run_stages :
      E2eOptions
      → PackLoad
      → List EventProviderSpec
      → RequirementsFixture
      → Progress
      → W
      → Progress × W
  unfolding setup_stage optional_stage has_kind
  run_stages options pack providers state p w =
      let (p1, w1) = setup_stage f (run_setup f deps pack state providers) p w in
      let (p2, w2) =
        optional_stage Stage.ingest (ingests providers)
          (run_ingest f deps pack providers options.live) p1 w1 in
      let (p3, w3) =
        optional_stage Stage.emit (emits providers) (run_emit f deps pack providers options.live) p2
          w2 in
      optional_stage Stage.subscriptions (subscribes providers state)
        (run_subscriptions f deps pack providers options.live) p3 w3

  -- `run_pack` from the first stage's result on, `started` being the world when it began.
  unfoldable pub staged_report :
      Driver W
      → E2eOptions
      → W
      → PackLoad
      → List EventProviderSpec
      → RequirementsResult
      → Io W PackReport
  unfolding run_stages
  staged_report driver options started pack providers requirements w =
      let (p, w1) =
        run_stages options pack providers requirements.state
          (begin (of_option requirements.diagnostic)) w in
      (ok (report_of pack (driver.elapsed started w1) p), w1)

  unfoldable pub run_pack : Driver W → E2eOptions → Str → Io W PackReport
  unfolding pack_providers staged_report requirements_flow_id
  run_pack driver options path started =
      (do
        pack ← with_context (codes "open pack " ++ path) (driver.open_pack path)
        providers ← pure_io (pack_providers options.provider_filter pack)
        requirements ←
            attempt (codes "requirements stage panicked")
              (run_requirements f deps pack (requirements_flow_id pack))
        staged_report driver options started pack providers requirements)
        started

  -- The loop over the packs: a pack that fails or times out is reported as such.
  unfoldable pub run_packs : Driver W → E2eOptions → List Str → W → List PackReport × W
  unfolding run_pack
  run_packs driver options [] w = ([], w)
  run_packs driver options (path ∷ paths) w =
      let (r, w1) = driver.timeout (run_pack driver options path) w in
      let (reports, w2) = run_packs driver options paths w1 in
      (
        report_to_pack_report (driver.file_stem path)
              (unwrap_or r (err (codes "pack timed out after 20s")))
            ∷ reports,
        w2,
      )

  unfoldable pub run_e2e_with : Driver W → E2eOptions → Io W E2eReport
  unfolding packs_to_run run_packs
  run_e2e_with driver options = do
    packs ← (λ w. (packs_to_run driver options w, w))
    reports ← (λ w. let (reports, w1) = run_packs driver options packs w in (ok reports, w1))
    write_report driver options.report_path (e2e_report reports)
    pure_io (ok (e2e_report reports))
