-- ===== src/E2e/Stages/Once.antt =====
-- src/e2e.rs: the setup stage with a planner that does not look at the world.
use greentic_events.Base.{
  ◌≡◌, refl, Bool, true, ◌&&◌, List, [], ◌∷◌, Result, ok, err, then_ok, Result-cases, inl, inr,
  is_empty, if◌then◌else◌, arith, Option, some, none,
}
use greentic_events.Base.Str.{Str, codes, str_eq, str_eq_refl}
use greentic_events.Event.{Json}
use greentic_events.Descriptor.{EventProviderSpec}
use greentic_events.E2e.{
  PackLoad, RequirementsFixture, ProvisionPlan, ProvisionInputs, SetupSummary, SubscriptionAction,
  WebhookAction, SubscriptionOp, WebhookOp, create, update, delete, create_webhook, update_webhook,
  delete_webhook,
}
use greentic_events.E2e.Task.{returned}
use greentic_events.E2e.Checks.{
  Formats, action_eq, webhook_action_eq, list_eq, option_eq, op_eq, webhook_eq, plan_eq, check_plan,
  add_plan, empty_summary, inputs_for, setup_fixture,
}
use greentic_events.E2e.Stages.{E2eDependencies, setup_loop, run_setup}

list_eq_refl :
    {A : Type 0} (eq : A → A → Bool) (h : (a : A) → eq a a ≡ true) (xs : List A)
    → list_eq eq xs xs ≡ true
unfolding list_eq
list_eq_refl eq h [] = refl
list_eq_refl eq h (x ∷ xs) = rw (h x, list_eq_refl eq h xs) refl

option_eq_refl :
    {A : Type 0} (eq : A → A → Bool) (h : (a : A) → eq a a ≡ true) (o : Option A)
    → option_eq eq o o ≡ true
option_eq_refl eq h none = refl
option_eq_refl eq h (some a) = h a

action_eq_refl : (a : SubscriptionAction) → action_eq a a ≡ true
action_eq_refl create = refl
action_eq_refl update = refl
action_eq_refl delete = refl

webhook_action_eq_refl : (a : WebhookAction) → webhook_action_eq a a ≡ true
webhook_action_eq_refl create_webhook = refl
webhook_action_eq_refl update_webhook = refl
webhook_action_eq_refl delete_webhook = refl

pub op_eq_refl : (a : SubscriptionOp) → op_eq a a ≡ true
op_eq_refl a = rw (action_eq_refl a.action, str_eq_refl a.topic, str_eq_refl a.endpoint) refl

pub webhook_eq_refl : (a : WebhookOp) → webhook_eq a a ≡ true
webhook_eq_refl a =
    rw
      (
        webhook_action_eq_refl a.action,
        str_eq_refl a.name,
        str_eq_refl a.url,
        list_eq_refl str_eq str_eq_refl a.events,
      )
      refl

module _ (value_eq : Json → Json → Bool) (value_eq_refl : (v : Json) → value_eq v v ≡ true) where
  plan_eq_refl : (plan : ProvisionPlan) → plan_eq value_eq plan plan ≡ true
  unfolding plan_eq
  plan_eq_refl plan =
      rw
        (
          option_eq_refl value_eq value_eq_refl plan.config_patch,
          option_eq_refl value_eq value_eq_refl plan.secrets_patch,
          list_eq_refl op_eq op_eq_refl plan.subscriptions,
          list_eq_refl webhook_eq webhook_eq_refl plan.webhooks,
        )
        refl

-- What is left of the tests of a plan.
abbrev pub has_required : RequirementsFixture → ProvisionPlan → Result Str Unit
has_required requirements plan =
    if requirements.subscriptions_required && is_empty plan.subscriptions
    then err (codes "subscriptions required but provisioning plan returned no ops")
    else if requirements.webhooks_required && is_empty plan.webhooks
    then err (codes "webhooks required but provisioning plan returned no ops")
    else ok tt

check_plan-same :
    (value_eq : Json → Json → Bool)
    → ((v : Json) → value_eq v v ≡ true)
    → (requirements : RequirementsFixture) (plan : ProvisionPlan)
    → check_plan value_eq requirements plan plan ≡ has_required requirements plan
unfolding check_plan
check_plan-same value_eq value_eq_refl requirements plan =
    ground (arith, plan_eq_refl value_eq value_eq_refl plan)

-- The setup stage as a function: each provider is planned once.
abbrev pub setup_once :
    (ProvisionInputs → Result Str ProvisionPlan)
    → Json
    → RequirementsFixture
    → List EventProviderSpec
    → SetupSummary
    → Result Str SetupSummary
setup_once planner setup requirements [] summary = ok summary
setup_once planner setup requirements (provider ∷ providers) summary =
    then_ok (planner (inputs_for setup requirements provider)) λ plan.
      then_ok (has_required requirements plan)
        λ _. setup_once planner setup requirements providers (add_plan plan summary)

module _ {W R : Type 0} (f : Formats) (deps : E2eDependencies W R) (pack : PackLoad)
    (planner : ProvisionInputs → Result Str ProvisionPlan)
    (value_eq_refl : (v : Json) → f.value_eq v v ≡ true)
    (steady : (inputs : ProvisionInputs) (w : W)
      → deps.plan pack inputs w ≡ (returned (planner inputs), w)) where
  setup_loop-once :
      (setup : Json) (requirements : RequirementsFixture) (providers : List EventProviderSpec)
      (summary : SetupSummary) (w : W)
      → setup_loop f deps pack setup requirements providers summary w
        ≡ (returned (setup_once planner setup requirements providers summary), w)
  unfolding setup_loop
  setup_loop-once setup requirements [] summary w = refl
  setup_loop-once setup requirements (provider ∷ providers) summary w =
      elim (Result-cases (planner (inputs_for setup requirements provider))) [
        | inl (plan, e) ↦ elim (Result-cases (has_required requirements plan)) [
          | inl (u, e2) ↦
              rw
                (
                  steady (inputs_for setup requirements provider) w,
                  e,
                  steady (inputs_for setup requirements provider) w,
                  e,
                  check_plan-same f.value_eq value_eq_refl requirements plan,
                  e2,
                )
                (setup_loop-once setup requirements providers (add_plan plan summary) w)
          | inr (error, e2) ↦
              rw
                (
                  steady (inputs_for setup requirements provider) w,
                  e,
                  steady (inputs_for setup requirements provider) w,
                  e,
                  check_plan-same f.value_eq value_eq_refl requirements plan,
                  e2,
                )
                refl
        ]
        | inr (error, e) ↦ rw (steady (inputs_for setup requirements provider) w, e) refl
      ]

  -- With a planner that does not look at the world, and an equality of values that holds of equal
  -- ones, the setup stage gives what `setup_once` gives, on every branch: the plans' comparison
  -- never fails, and the world is left alone.
  pub run_setup-once :
      (requirements : RequirementsFixture) (providers : List EventProviderSpec) (w : W)
      → run_setup f deps pack requirements providers w ≡ (
        returned (
            then_ok
              (setup_fixture f pack)
              λ setup. setup_once planner setup requirements providers empty_summary),
        w,
      )
  unfolding run_setup
  run_setup-once requirements providers w = elim (Result-cases (setup_fixture f pack)) [
    | inl (setup, e) ↦ rw e (setup_loop-once setup requirements providers empty_summary w)
    | inr (error, e) ↦ rw e refl
  ]
