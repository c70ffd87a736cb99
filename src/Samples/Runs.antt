-- ===== src/Samples/Runs.antt =====
-- An end-to-end run over one pack with a source, in a world that counts, and the theorems at it.
pub mod Values
pub mod Packs
pub mod Brokers
use greentic_events.Base.{
  ℕ, ◌-◌, ◌+◌, ◌<◌, ◌≡◌, ◌↔◌, ◌&&◌, refl, ap, true, false, Option, none, some, List, [], ◌∷◌, ◌++◌,
  Result, ok, err, then_ok, length, Bool, arith, some_eq,
}
use greentic_events.Base.Str.{Str, codes, is_blank}
use greentic_events.Base.Io.{Io}
use greentic_events.Event.{Json, Fields, object, end, string, EventEnvelope}
use greentic_events.Message.{ChannelMessageEnvelope}
use greentic_events.Descriptor.{EventProviderSpec, source}
use greentic_events.E2e.{
  PackLoad, load_fixture, RequirementsFixture, StageReport, pass, fail, skip, PackReport, E2eReport,
  E2eOptions, SetupSummary, ProvisionPlan,
}
use greentic_events.E2e.Task.{returned}
use greentic_events.E2e.Checks.{
  Formats, requirements_message, RequirementsResult, empty_summary, setup_fixture,
}
use greentic_events.E2e.Report.{overall_status, statuses, report_to_pack_report}
use greentic_events.E2e.Report.Statuses.{worst, overall_status-worst}
use greentic_events.E2e.Flow.{FlowTools, CompiledFlow, next, end_flow, requirements_flow_id}
use greentic_events.E2e.Flow.Run.{flow_loop, traversal_limit}
use greentic_events.E2e.Flow.Route.{Route}
use greentic_events.E2e.Flow.Limit.{flow_loop-iff_Route}
use greentic_events.E2e.Fixtures.{Envelopes, fixture_ingest, fixture_emit, fixture_message}
use greentic_events.E2e.Fixtures.Accepted.{IsIngestible, run_ingest-iff_IsIngestible}
use greentic_events.E2e.Plans.{PlanFormats, composite_plan}
use greentic_events.E2e.Stages.{E2eDependencies, run_requirements, run_setup, run_ingest}
use greentic_events.E2e.Stages.Setup.{IsSetup, Planned, sums, run_setup-iff_Planned}
use greentic_events.E2e.Stages.Once.{setup_once, run_setup-once}
use greentic_events.E2e.Run.{
  Driver, DirEntry, run_pack, pack_providers, run_e2e_with, e2e_report, apply_dry_run_guard,
  discover_packs, run_packs,
}
use greentic_events.E2e.Run.Stage.{attempt, summary_message}
use greentic_events.E2e.Run.Reported.{Reports, run_pack-Reports}
use greentic_events.E2e.Run.Totals.{IsTimeout, run_e2e_with-Totals}
use greentic_events.Samples.Runs.Values.{json_eq, json_eq_refl}

abbrev pub stages : StageReport
stages = record {
  requirements = pass;
  setup = pass;
  ingest = pass;
  emit = skip;
  subscriptions = skip;
}

overall_status-worst_example : overall_status stages ≡ worst (statuses stages)
overall_status-worst_example = overall_status-worst stages

abbrev pub tools : FlowTools
tools = record {
  from_utf8 = λ s. ok s;
  yaml_from_str = λ s. ok (string s);
  yaml_to_string = λ v. ok [];
  load_doc = λ s. ok (record { start = none; node_keys = [] });
  compile_flow = λ doc. ok (record { nodes = [] });
  new_node_id = λ s. ok s;
  render_json = λ pack template state node. ok (object state);
}

abbrev flow : CompiledFlow
flow = record {
  nodes =
      (
        codes "in",
        record {
          component = codes "questions";
          mapping = object end;
          routing = next (codes "out");
        },
      )
      ∷ (
        codes "out",
        record { component = codes "template"; mapping = object end; routing = end_flow },
      )
      ∷ [];
}

flow_loop-iff_Route_example :
    (flow_loop tools (tools.render_json (codes "p")) flow (traversal_limit flow) (codes "in") end
      ≡ ok (object end))
    ↔ ((ids : List Str) × Route tools
          (tools.render_json (codes "p"))
          flow
          (codes "in")
          end
          ids
          (object end))
flow_loop-iff_Route_example =
    flow_loop-iff_Route tools (tools.render_json (codes "p")) flow (codes "in") end (object end)
      (omega arith)

abbrev pub spec : EventProviderSpec
spec = record {
  name = codes "mail";
  kind = source;
  capabilities = record { transport = none; reliability = none; ordering = none; topics = [] };
}

abbrev pub pack : PackLoad
pack = record {
  pack_id = codes "p";
  version = codes "1";
  entry_flows = [];
  events = some (spec ∷ []);
  flows = [];
  files = (codes "fixtures/setup.input.json", []) ∷ (codes "fixtures/ingest.request.json", []) ∷ [];
}

abbrev pub formats : Formats
formats = record {
  decode_value = λ s. ok (object end);
  value_eq = json_eq;
  debug_list = λ xs. codes "[]";
  debug_option = λ o. codes "None";
  show_number = λ n. (n + 48) ∷ [];
}

abbrev pub requirements : RequirementsFixture
requirements = record {
  required_config_keys = [];
  required_secret_keys = [];
  subscriptions_required = false;
  webhooks_required = false;
}

abbrev pub plan_formats : PlanFormats
plan_formats = record {
  decode_requirements = λ s. ok requirements;
  requirements_of_value = λ v. ok requirements;
  plan_of_value = λ v. err (codes "no plan");
}

abbrev pub message : ChannelMessageEnvelope ℕ
message = record {
  id = codes "1";
  tenant = record { env = codes "dev"; tenant = codes "t" };
  channel = codes "c";
  session_id = codes "s";
  reply_scope = none;
  user_id = none;
  correlation_id = none;
  text = none;
  attachments = [];
  metadata = [];
}

abbrev pub envelopes : Envelopes ℕ
envelopes = record {
  decode_message = λ s. ok message;
  decode_event = λ s. err (codes "no event");
  message_to_value = λ m. ok (object end);
  value_to_string = λ v. [];
  event_id = λ s. ok s;
  fixed_time = ok 1_735_689_600_000_000_000;
}

abbrev pub deps : E2eDependencies ℕ ℕ
deps = record {
  run_requirements_flow = λ p id w. (returned (ok requirements), w);
  plan = λ p inputs w. (returned (composite_plan tools formats plan_formats p inputs), w);
  ingest = fixture_ingest envelopes (λ p providers w. (returned (err (codes "live")), w + 1));
  emit = fixture_emit envelopes (λ p providers w. (returned (err (codes "live")), w + 1));
  sync = λ p providers live w. (returned (ok tt), w);
}

run_setup-iff_Planned_example :
    (run_setup formats deps pack requirements (spec ∷ []) 0 ≡ (returned (ok empty_summary), 0)) ↔ (
      (setup : Json) × (plans : List ProvisionPlan) × IsSetup formats pack setup
      × Planned formats deps pack setup requirements (spec ∷ []) 0 plans 0
      × (empty_summary ≡ sums plans))
run_setup-iff_Planned_example =
    run_setup-iff_Planned formats deps pack requirements (spec ∷ []) empty_summary 0 0

run_setup-once_example : run_setup formats deps pack requirements (spec ∷ []) 0 ≡ (
  returned (
      then_ok (setup_fixture formats pack) λ setup.
        setup_once
          (composite_plan tools formats plan_formats pack)
          setup
          requirements
          (spec ∷ [])
          empty_summary),
  0,
)
run_setup-once_example =
    run_setup-once formats deps pack (composite_plan tools formats plan_formats pack) json_eq_refl
      (λ inputs w. refl) requirements (spec ∷ []) 0

run_ingest-iff_IsIngestible_example :
    (run_ingest formats deps pack (spec ∷ []) false 0 ≡ (returned (ok tt), 0)) ↔ (
      (m : ChannelMessageEnvelope ℕ) × (fixture_message envelopes pack ≡ ok m)
      × IsIngestible envelopes m
      × (◌≡◌ {A = ℕ} 0 0))
run_ingest-iff_IsIngestible_example =
    run_ingest-iff_IsIngestible formats envelopes
      (λ p providers w. (returned (err (codes "live")), w + 1)) deps refl pack (spec ∷ []) 0 0
