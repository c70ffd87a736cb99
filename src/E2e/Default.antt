-- ===== src/E2e/Default.antt =====
-- src/e2e.rs: the dependencies of a run that are used where none are given.
use greentic_events.Base.Io.{Io}
use greentic_events.Message.{ChannelMessageEnvelope}
use greentic_events.Bus.{Runtime}
use greentic_events.E2e.{E2eOptions, E2eReport}
use greentic_events.E2e.Task.{give, safely}
use greentic_events.E2e.Checks.{Formats}
use greentic_events.E2e.Flow.{FlowTools}
use greentic_events.E2e.Stages.{E2eDependencies}
use greentic_events.E2e.Plans.{PlanFormats, composite_requirements, composite_plan}
use greentic_events.E2e.Fixtures.{Envelopes}
use greentic_events.E2e.Live.{Host}
use greentic_events.E2e.Live.Runners.{live_sync, ingest_runner, emit_runner}
use greentic_events.E2e.DryBus.{Broadcast, fixture_sync}
use greentic_events.E2e.Run.{Driver, run_e2e_with}

-- Everything outside the repository that a run uses, in one record.
pub record Outside (W R : Type 0) : Type 0 where
  pub formats : Formats
  pub plan_formats : PlanFormats
  pub tools : FlowTools
  pub envelopes : Envelopes R
  pub host : Host W R
  pub broadcast : Broadcast W
  pub runtime : Runtime W
  pub driver : Driver W

module _ {W R : Type 0} (o : Outside W R) where
  -- `E2eDependencies::default`
  unfoldable pub default_dependencies : E2eDependencies W R
  unfolding composite_requirements composite_plan ingest_runner emit_runner fixture_sync live_sync
  default_dependencies = record {
    run_requirements_flow =
        λ pack flow_id. give (composite_requirements o.tools o.formats o.plan_formats pack flow_id);
    plan = λ pack inputs. give (composite_plan o.tools o.formats o.plan_formats pack inputs);
    ingest = ingest_runner o.host o.envelopes;
    emit = emit_runner o.host o.envelopes;
    sync =
        fixture_sync o.broadcast o.runtime o.host o.envelopes (ChannelMessageEnvelope R) o.formats
          (λ pack providers. safely (live_sync o.host o.envelopes o.formats pack providers));
  }

  -- `run_e2e`
  unfoldable pub run_e2e : E2eOptions → Io W E2eReport
  unfolding run_e2e_with default_dependencies
  run_e2e options = run_e2e_with o.formats default_dependencies o.driver options
