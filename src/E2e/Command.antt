-- ===== src/E2e/Command.antt =====
-- src/bin/greentic-events-test.rs: the command line program around the end-to-end run. The parser
-- of arguments (crate clap), the set-up of traces (crate greentic-telemetry) and standard output
-- are `Terminal`; an error that `main` returns is the program's failure.
use greentic_events.Base.{Bool, not, ◌&&◌, Option, ok, err, unwrap_or, [], if◌then◌else◌}
use greentic_events.Base.Str.{Str, codes, str_eq}
use greentic_events.Base.Io.{Io, pure_io, ◌>>=◌, ◌>>◌}
use greentic_events.E2e.{E2eOptions}
use greentic_events.E2e.Default.{Outside, run_e2e}

-- `Command::E2e`
pub record E2eCommand : Type 0 where
  pub packs : Str
  pub provider : Option Str
  pub report : Option Str
  pub dry_run : Bool
  pub live : Bool
  pub trace : Bool

pub record Terminal (W : Type 0) : Type 0 where
  pub init_trace : Io W Unit
  pub println : Str → W → W

abbrev pub options_of : E2eCommand → E2eOptions
options_of command = record {
  packs_dir = command.packs;
  provider_filter = command.provider;
  report_path = command.report;
  dry_run = not command.live;
  live = command.live;
}

module _ {W R : Type 0} (o : Outside W R) (terminal : Terminal W) where
  -- Whether a variable of the environment is "1".
  abbrev pub is_set : Str → W → Bool
  is_set name w = str_eq (unwrap_or (o.driver.env_var name w) []) (codes "1")

  unfoldable pub ensure_live_allowed : Io W Unit
  unfolding str_eq
  ensure_live_allowed w = (
    if is_set (codes "GREENTIC_EVENTS_E2E_LIVE") w
          && is_set (codes "GREENTIC_EVENTS_E2E_ALLOW_NETWORK") w
        then ok tt
        else err (
            codes
              "--live requires GREENTIC_EVENTS_E2E_LIVE=1 and GREENTIC_EVENTS_E2E_ALLOW_NETWORK=1"),
    w,
  )

  abbrev pub when : Bool → Io W Unit → Io W Unit
  when test act = if test then act else pure_io (ok tt)

  abbrev pub print_line : Str → Io W Unit
  print_line text w = (ok tt, terminal.println text w)

  unfoldable pub e2e_main : E2eCommand → Io W Unit
  unfolding ensure_live_allowed run_e2e
  e2e_main command = do
    pure_io (
        if command.live && command.dry_run
        then err (codes "--live conflicts with --dry-run")
        else ok tt)
    when command.live ensure_live_allowed
    when command.trace terminal.init_trace
    report ← run_e2e o (options_of command)
    text ← pure_io (o.driver.to_string_pretty report)
    print_line text
