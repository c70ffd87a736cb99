-- ===== src/E2e/Stages.antt =====
-- src/e2e.rs: the five stages of the run of a pack. `R` is the type of reply scopes.
pub mod Setup
pub mod Once
pub mod Plan
use greentic_events.Base.{
  ℕ, ◌+◌, Bool, true, false, not, ◌&&◌, Option, none, some, List, [], ◌∷◌, ◌++◌, Result, ok, err,
  then_ok, map_err, map_option, unwrap_or, any, is_empty, is_some, length, if◌then◌else◌,
}
use greentic_events.Base.Str.{Str, codes, str_eq, is_blank}
use greentic_events.Event.{Json, Items, EventEnvelope, object}
use greentic_events.Message.{ChannelMessageEnvelope}
use greentic_events.Descriptor.{EventProviderSpec}
use greentic_events.E2e.{
  PackLoad, E2eDiagnostic, RequirementsFixture, ProvisionPlan, ProvisionInputs, SetupSummary,
  SubscriptionOp, SubscriptionAction, create, update, delete, WebhookOp, WebhookAction,
  create_webhook, update_webhook, delete_webhook, load_fixture,
}
use greentic_events.E2e.Task.{Task, give, bail_if, ◌>>=◌, ◌>>◌}
use greentic_events.E2e.Checks.{
  Formats, RequirementsResult, validate_requirements_fixture, requirements_message, check_plan,
  add_plan, empty_summary, inputs_for, setup_fixture, check_event, check_message, check_all,
}

-- `E2eDependencies`
pub record E2eDependencies (W R : Type 0) : Type 0 where
  pub run_requirements_flow : PackLoad → Option Str → Task W RequirementsFixture
  pub plan : PackLoad → ProvisionInputs → Task W ProvisionPlan
  pub ingest : PackLoad → List EventProviderSpec → Bool → Task W (List EventEnvelope)
  pub emit : PackLoad → List EventProviderSpec → Bool → Task W (List (ChannelMessageEnvelope R))
  pub sync : PackLoad → List EventProviderSpec → Bool → Task W Unit

module _ {W R : Type 0} (f : Formats) (deps : E2eDependencies W R) where
  unfoldable pub run_requirements : PackLoad → Option Str → Task W RequirementsResult
  unfolding validate_requirements_fixture
  run_requirements pack flow_id = do
    fixture ← deps.run_requirements_flow pack flow_id
    give (validate_requirements_fixture fixture)
    give (
        ok (record {
          state = fixture;
          diagnostic = some (record {
            stage = some (codes "requirements");
            message = requirements_message f flow_id fixture;
          });
        }))

  -- The loop over the providers: each is planned twice.
  unfoldable pub setup_loop :
      PackLoad
      → Json
      → RequirementsFixture
      → List EventProviderSpec
      → SetupSummary
      → Task W SetupSummary
  unfolding check_plan
  setup_loop pack setup requirements [] summary = give (ok summary)
  setup_loop pack setup requirements (provider ∷ providers) summary = do
    plan ← deps.plan pack (inputs_for setup requirements provider)
    again ← deps.plan pack (inputs_for setup requirements provider)
    give (check_plan f.value_eq requirements plan again)
    setup_loop pack setup requirements providers (add_plan plan summary)

  unfoldable pub run_setup :
      PackLoad → RequirementsFixture → List EventProviderSpec → Task W SetupSummary
  unfolding setup_fixture setup_loop
  run_setup pack requirements providers = do
    setup ← give (setup_fixture f pack)
    setup_loop pack setup requirements providers empty_summary

  unfoldable pub run_ingest : PackLoad → List EventProviderSpec → Bool → Task W Unit
  unfolding check_all check_event
  run_ingest pack providers live = do
    events ← deps.ingest pack providers live
    bail_if (is_empty events) (codes "ingest produced no events")
    give (check_all check_event events)

  unfoldable pub run_emit : PackLoad → List EventProviderSpec → Bool → Task W Unit
  unfolding check_all check_message
  run_emit pack providers live = do
    messages ← deps.emit pack providers live
    bail_if (is_empty messages) (codes "emit produced no messages")
    give (check_all check_message messages)

  abbrev pub run_subscriptions : PackLoad → List EventProviderSpec → Bool → Task W Unit
  run_subscriptions pack providers live = deps.sync pack providers live
