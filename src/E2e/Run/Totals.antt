-- ===== src/E2e/Run/Totals.antt =====
-- src/e2e.rs: the summary of a run over a directory of packs.
use greentic_events.Base.{
  ◌+◌, ◌<◌, suc, ◌≡◌, refl, false, ◌&&◌, Option, some, none, List, [], ◌∷◌, ◌++◌, Result, ok, err,
  All, length, is_empty, if◌then◌else◌, arith, ap, unwrap_or, sym, ◌∙◌, ok_eq, then_ok-parts,
}
use greentic_events.Base.Str.{Str, codes}
use greentic_events.Base.Io.{Io, io_then-parts, pure_io-parts}
use greentic_events.E2e.{PackReport, E2eOptions, E2eReport, E2eSummary}
use greentic_events.E2e.Checks.{Formats}
use greentic_events.E2e.Report.{is_skip, summarize, report_to_pack_report}
use greentic_events.E2e.Report.Statuses.{count_reports-tallied, count_reports-skip}
use greentic_events.E2e.Stages.{E2eDependencies}
use greentic_events.E2e.Run.{
  Driver, discover_packs, apply_dry_run_guard, packs_to_run, run_pack, run_packs, write_report,
  e2e_report, run_e2e_with,
}
use greentic_events.E2e.Run.Recorded.{
  Recorded, run_packs-Recorded, how_many, passing, failing, count_reports-how_many,
}
use greentic_events.E2e.Run.Reported.{run_pack-Reports}

-- `timeout` gives what the future gave, if that was in time.
abbrev pub IsTimeout :
    {W : Type 0} → (Io W PackReport → W → Option (Result Str PackReport) × W) → Type 0
IsTimeout {W} timeout =
    (m : Io W PackReport) (r : Result Str PackReport) (w w1 : W)
    → timeout m w ≡ (some r, w1)
    → (w2 : W) × (m w ≡ (r, w2))

abbrev NotSkipped : PackReport → Type 0
NotSkipped r = is_skip r.status ≡ false

e2e_report-Totals :
    (reports : List PackReport)
    → All NotSkipped reports
    → ((e2e_report reports).summary.total ≡ length reports)
      × ((e2e_report reports).summary.pass_count + (e2e_report reports).summary.fail_count
          ≡ length reports)
      × ((e2e_report reports).summary.skip_count ≡ 0)
unfolding summarize
e2e_report-Totals reports kept =
    let none_yet : E2eSummary = record {
      total = length reports;
      pass_count = 0;
      fail_count = 0;
      skip_count = 0;
    } in
    let (n, total) = count_reports-tallied reports none_yet in
    let skipped = count_reports-skip reports none_yet kept in
    (total, omega (arith, n, skipped), skipped)

e2e_report-how_many :
    (reports : List PackReport)
    → ((e2e_report reports).summary.pass_count ≡ how_many passing reports)
      × ((e2e_report reports).summary.fail_count ≡ how_many failing reports)
unfolding summarize
e2e_report-how_many reports =
    let (passes, failures) =
      count_reports-how_many reports
        (record { total = length reports; pass_count = 0; fail_count = 0; skip_count = 0 }) in
    (omega (arith, passes), omega (arith, failures))

module _ {W R : Type 0} (f : Formats) (deps : E2eDependencies W R) (driver : Driver W)
    (timed : IsTimeout driver.timeout) (options : E2eOptions) where
  report-NotSkipped :
      (path : Str) (w : W)
      → NotSkipped (
          report_to_pack_report (driver.file_stem path) (
            unwrap_or
              (driver.timeout (run_pack f deps driver options path) w).0
              (err (codes "pack timed out after 20s"))))
  unfolding report_to_pack_report
  report-NotSkipped path w = judged (driver.timeout (run_pack f deps driver options path) w) refl
    where
      judged :
          (c : Option (Result Str PackReport) × W)
          → driver.timeout (run_pack f deps driver options path) w ≡ c
          → NotSkipped (
              report_to_pack_report
                (driver.file_stem path)
                (unwrap_or c.0 (err (codes "pack timed out after 20s"))))
      judged (none, w1) e = refl
      judged (some (err message), w1) e = refl
      judged (some (ok report), w1) e =
          let (w2, ran) = timed (run_pack f deps driver options path) (ok report) w w1 e in
          let (_, _, _, _, _, _, _, _, reports, _, _, _) =
            run_pack-Reports f deps driver options path report w w2 ran in
          reports.not_skipped

  run_packs-All :
      (paths : List Str) (w : W)
      → All NotSkipped (run_packs f deps driver options paths w).0
        × (length (run_packs f deps driver options paths w).0 ≡ length paths)
  unfolding run_packs
  run_packs-All [] w = (tt, refl)
  run_packs-All (path ∷ paths) w =
      let (rest, n) =
        run_packs-All paths (driver.timeout (run_pack f deps driver options path) w).1 in
      ((report-NotSkipped path w, rest), ap suc n)

  packs_to_run-parts :
      (paths : List Str) (w : W)
      → packs_to_run driver options w ≡ ok paths
      → ((options.live && options.dry_run) ≡ false)
        × (apply_dry_run_guard driver options w ≡ ok tt)
        × (discover_packs driver options.packs_dir w ≡ ok paths)
        × (0 < length paths)
  unfolding packs_to_run
  packs_to_run-parts paths w h =
      let (u, alone, h1) =
        then_ok-parts
          (if options.live && options.dry_run
            then err (codes "--live conflicts with --dry-run")
            else ok tt)
          _ paths h in
      let (v, guarded, h2) = then_ok-parts (apply_dry_run_guard driver options w) _ paths h1 in
      let (packs, listed, h3) =
        then_ok-parts (discover_packs driver options.packs_dir w) _ paths h2 in
      let (same, more) = nonempty packs h3 in (ground arith, guarded, listed ∙ ap ok same, more)
    where
      nonempty :
          (packs : List Str)
          → (if is_empty packs
              then err (codes "no packs found in " ++ options.packs_dir)
              else ok packs)
            ≡ ok paths
          → (packs ≡ paths) × (0 < length paths)
      nonempty [] e = cc e
      nonempty (path ∷ rest) e = (ok_eq e, rw (← ok_eq e) (omega arith))

  -- With a timeout that gives what its future gave, if it gives anything: a run that gives a
  -- report was not both live and dry, passed the guard of dry runs, and found at least one pack.
  -- It ran the packs that it found one after the other, in their order, and has one report of each
  -- in that order: the pack's own, if it gave one in time, else one in which all has failed, with
  -- the error or the elapsed time as its diagnostic. The counts of passed and failed packs are the
  -- numbers of reports with that status, each report has one of the two, and none is skipped.
  pub run_e2e_with-Totals :
      (report : E2eReport) (w w1 : W)
      → run_e2e_with f deps driver options w ≡ (ok report, w1)
      → (paths : List Str) × ((options.live && options.dry_run) ≡ false)
        × (apply_dry_run_guard driver options w ≡ ok tt)
        × (discover_packs driver options.packs_dir w ≡ ok paths)
        × (0 < length paths)
        × ((w2 : W) × Recorded f deps driver options paths w w2 report.packs)
        × (report.summary.pass_count ≡ how_many passing report.packs)
        × (report.summary.fail_count ≡ how_many failing report.packs)
        × (report.summary.total ≡ length paths)
        × (report.summary.pass_count + report.summary.fail_count ≡ length paths)
        × (report.summary.skip_count ≡ 0)
  unfolding run_e2e_with
  run_e2e_with-Totals report w w1 h =
      let (paths, w2, g, h2) = io_then-parts (packs_to_run driver options w, w) _ report w1 h in
      let (found, same) = pure_io-parts (packs_to_run driver options w) paths w w2 g in
      let (alone, guarded, listed, some_found) = packs_to_run-parts paths w found in
      let (reports, w3) = run_packs f deps driver options paths w2 in
      let (u, w4, _, h3) =
        io_then-parts (write_report driver options.report_path (e2e_report reports) w3) _ report w1
          h2 in
      let (e, _) = pure_io-parts (ok (e2e_report reports)) report w4 w1 h3 in
      let (kept, n) = run_packs-All paths w2 in
      let (passes, failures) = e2e_report-how_many reports in
      let r : e2e_report reports ≡ report = ok_eq e in
      let (total, judged, skipped) = e2e_report-Totals reports kept in
      (
        paths,
        alone,
        guarded,
        listed,
        some_found,
        (w3, rw (← r, same) (run_packs-Recorded f deps driver options paths w2)),
        rw (← r) passes,
        rw (← r) failures,
        ap (λ (x : E2eReport). x.summary.total) (sym r) ∙ total ∙ n,
        ap (λ (x : E2eReport). x.summary.pass_count + x.summary.fail_count) (sym r) ∙ judged ∙ n,
        ap (λ (x : E2eReport). x.summary.skip_count) (sym r) ∙ skipped,
      )
