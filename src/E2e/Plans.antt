-- ===== src/E2e/Plans.antt =====
-- src/e2e.rs: the runners of requirements and of provisioning: a flow of the pack, or its fixtures.
use greentic_events.Base.{
  ℕ, ◌+◌, Option, none, some, List, [], ◌∷◌, ◌++◌, Result, ok, err, then_ok, map_err, and_then,
  unwrap_or, if◌then◌else◌,
}
use greentic_events.Base.Str.{Str, codes}
use greentic_events.Event.{Json, Items, nil, cons, array, as_str}
use greentic_events.Event.Object.{get}
use greentic_events.E2e.{
  PackLoad, RequirementsFixture, ProvisionPlan, ProvisionInputs, SubscriptionOp, create,
  load_fixture,
}
use greentic_events.E2e.Checks.{Formats}
use greentic_events.E2e.Flow.{FlowTools, setup_flow_id}
use greentic_events.E2e.Flow.Run.{run_config_flow_from_pack}

-- What the code uses of serde for requirements and plans.
pub record PlanFormats : Type 0 where
  pub decode_requirements : Str → Result Str RequirementsFixture
  pub requirements_of_value : Json → Result Str RequirementsFixture
  pub plan_of_value : Json → Result Str ProvisionPlan

-- A flow's output, where it can be read; else what the fixtures say.
abbrev pub parsed_or :
    {A : Type 0} → (Json → Result Str A) → Result Str A → Option Json → Result Str A
parsed_or parse fallback none = fallback
parsed_or parse fallback (some output) = elim (parse output) [ ok a ↦ ok a | err e ↦ fallback ]

abbrev pub flow_or :
    {A : Type 0}
    → (Str → Result Str (Option Json))
    → (Json → Result Str A)
    → Result Str A
    → Option Str
    → Result Str A
flow_or run parse fallback none = fallback
flow_or run parse fallback (some flow_id) = then_ok (run flow_id) (parsed_or parse fallback)

abbrev pub text_at : Str → Json → Str → Str
text_at key value default = unwrap_or (and_then (get key value) as_str) default

-- The operations that a fixture's items stand for, from an index on.
unfoldable pub fixture_ops : Formats → ℕ → Items → List SubscriptionOp
fixture_ops f index nil = []
fixture_ops f index (cons value items) =
    record {
      action = create;
      topic = text_at (codes "topic") value (codes "fixture.topic." ++ f.show_number index);
      endpoint = text_at (codes "endpoint") value (codes "fixture.endpoint");
    }
    ∷ fixture_ops f (index + 1) items

abbrev pub ops_of : Formats → Json → Result Str (List SubscriptionOp)
ops_of f (array items) = ok (fixture_ops f 0 items)
ops_of f _ = err (codes "subscriptions expected fixture must be a JSON array")

abbrev pub subscription_plan : List SubscriptionOp → ProvisionPlan
subscription_plan ops = record {
  config_patch = none;
  secrets_patch = none;
  subscriptions = ops;
  webhooks = [];
}

-- `FixtureProvisionRunner::plan`
unfoldable pub fixture_plan : Formats → PackLoad → ProvisionInputs → Result Str ProvisionPlan
unfolding load_fixture fixture_ops
fixture_plan f pack inputs =
    then_ok
      (map_err (λ _. codes "setup fixture missing or invalid")
        (load_fixture f.decode_value pack (codes "fixtures/setup.input.json")))
      λ _.
        if inputs.requirements.subscriptions_required
        then then_ok
            (map_err (λ _. codes "subscriptions fixture missing")
              (load_fixture f.decode_value pack (codes "fixtures/subscriptions.expected.json")))
            (λ expected. then_ok (ops_of f expected) (λ ops. ok (subscription_plan ops)))
        else ok (subscription_plan [])

module _ (tools : FlowTools) (f : Formats) (p : PlanFormats) where
  abbrev pub parse_requirements_from_output : Json → Result Str RequirementsFixture
  parse_requirements_from_output output =
      map_err (λ _. codes "parse requirements flow output as RequirementsFixture")
        (p.requirements_of_value output)

  abbrev pub parse_provision_plan_from_output : Json → Result Str ProvisionPlan
  parse_provision_plan_from_output output =
      map_err (λ _. codes "parse provision flow output as ProvisionPlan") (p.plan_of_value output)

  -- `FixtureRequirementsRunner::run`
  unfoldable pub fixture_requirements : PackLoad → Result Str RequirementsFixture
  unfolding load_fixture
  fixture_requirements pack =
      map_err (λ _. codes "requirements fixture missing or invalid")
        (load_fixture p.decode_requirements pack (codes "fixtures/requirements.expected.json"))

  -- `CompositeRequirementsRunner::run`
  unfoldable pub composite_requirements : PackLoad → Option Str → Result Str RequirementsFixture
  unfolding fixture_requirements run_config_flow_from_pack
  composite_requirements pack flow_id =
      flow_or (λ id. run_config_flow_from_pack tools pack id none) parse_requirements_from_output
        (fixture_requirements pack) flow_id

  -- `CompositeProvisionRunner::plan`
  unfoldable pub composite_plan : PackLoad → ProvisionInputs → Result Str ProvisionPlan
  unfolding fixture_plan setup_flow_id run_config_flow_from_pack
  composite_plan pack inputs =
      flow_or (λ id. run_config_flow_from_pack tools pack id (some inputs.answers))
        parse_provision_plan_from_output (fixture_plan f pack inputs) (setup_flow_id pack)
