-- ===== src/E2e/Checks.antt =====
-- src/e2e.rs: what the stages check of fixtures, plans, events and messages.
use greentic_events.Base.{
  ℕ, ◌+◌, Bool, true, false, not, ◌&&◌, Option, none, some, List, [], ◌∷◌, ◌++◌, Result, ok, err,
  then_ok, map_err, map_option, unwrap_or, any, is_empty, is_some, length, if◌then◌else◌,
}
use greentic_events.Base.Str.{Str, codes, str_eq, is_blank}
use greentic_events.Event.{Json, EventEnvelope, object}
use greentic_events.Message.{ChannelMessageEnvelope}
use greentic_events.Descriptor.{EventProviderSpec}
use greentic_events.E2e.{
  PackLoad, E2eDiagnostic, RequirementsFixture, ProvisionPlan, ProvisionInputs, SetupSummary,
  SubscriptionOp, SubscriptionAction, create, update, delete, WebhookOp, WebhookAction,
  create_webhook, update_webhook, delete_webhook, load_fixture,
}

-- What the code uses of serde_json, and of the formatting of values.
pub record Formats : Type 0 where
  pub decode_value : Str → Result Str Json
  pub value_eq : Json → Json → Bool
  pub debug_list : List Str → Str
  pub debug_option : Option Str → Str
  pub show_number : ℕ → Str

abbrev pub show_bool : Bool → Str
show_bool true = codes "true"
show_bool false = codes "false"

pub record RequirementsResult : Type 0 where
  pub state : RequirementsFixture
  pub diagnostic : Option E2eDiagnostic

unfoldable pub validate_requirements_fixture : RequirementsFixture → Result Str Unit
unfolding any is_blank
validate_requirements_fixture fixture =
    if any is_blank fixture.required_config_keys
    then err (codes "requirements fixture has empty config key")
    else if any is_blank fixture.required_secret_keys
    then err (codes "requirements fixture has empty secret key")
    else ok tt

abbrev requirements_text : Formats → RequirementsFixture → Str
requirements_text f fixture =
    codes "config_keys="
    ++ (f.debug_list fixture.required_config_keys
        ++ (codes " secret_keys="
            ++ (f.debug_list fixture.required_secret_keys
                ++ (codes " subscriptions_required="
                    ++ (show_bool fixture.subscriptions_required
                        ++ (codes " webhooks_required=" ++ show_bool fixture.webhooks_required))))))

abbrev pub requirements_message : Formats → Option Str → RequirementsFixture → Str
requirements_message f flow_id fixture =
    if is_some flow_id
    then codes "flow=" ++ (f.debug_option flow_id ++ (codes " " ++ requirements_text f fixture))
    else requirements_text f fixture

-- The parts of a plan, compared.
abbrev pub action_eq : SubscriptionAction → SubscriptionAction → Bool
action_eq create create = true
action_eq update update = true
action_eq delete delete = true
action_eq _ _ = false

abbrev pub webhook_action_eq : WebhookAction → WebhookAction → Bool
webhook_action_eq create_webhook create_webhook = true
webhook_action_eq update_webhook update_webhook = true
webhook_action_eq delete_webhook delete_webhook = true
webhook_action_eq _ _ = false

unfoldable pub list_eq : {A : Type 0} → (A → A → Bool) → List A → List A → Bool
list_eq eq [] [] = true
list_eq eq (x ∷ xs) (y ∷ ys) = eq x y && list_eq eq xs ys
list_eq eq _ _ = false

abbrev pub option_eq : {A : Type 0} → (A → A → Bool) → Option A → Option A → Bool
option_eq eq none none = true
option_eq eq (some x) (some y) = eq x y
option_eq eq _ _ = false

abbrev pub op_eq : SubscriptionOp → SubscriptionOp → Bool
op_eq a b = action_eq a.action b.action && str_eq a.topic b.topic && str_eq a.endpoint b.endpoint

abbrev pub webhook_eq : WebhookOp → WebhookOp → Bool
webhook_eq a b =
    webhook_action_eq a.action b.action
    && str_eq a.name b.name
    && str_eq a.url b.url
    && list_eq str_eq a.events b.events

-- The derived `==` of plans, over that of JSON values.
unfoldable pub plan_eq : (Json → Json → Bool) → ProvisionPlan → ProvisionPlan → Bool
unfolding list_eq str_eq
plan_eq value_eq a b =
    option_eq value_eq a.config_patch b.config_patch
    && option_eq value_eq a.secrets_patch b.secrets_patch
    && list_eq op_eq a.subscriptions b.subscriptions
    && list_eq webhook_eq a.webhooks b.webhooks

-- `usize::from`
abbrev pub one_if : Bool → ℕ
one_if b = if b then 1 else 0

-- The tests of a plan, in their order.
unfoldable pub check_plan :
    (Json → Json → Bool) → RequirementsFixture → ProvisionPlan → ProvisionPlan → Result Str Unit
unfolding plan_eq
check_plan value_eq requirements plan again =
    if not (plan_eq value_eq plan again)
    then err (codes "provisioning output is not deterministic")
    else if requirements.subscriptions_required && is_empty plan.subscriptions
    then err (codes "subscriptions required but provisioning plan returned no ops")
    else if requirements.webhooks_required && is_empty plan.webhooks
    then err (codes "webhooks required but provisioning plan returned no ops")
    else ok tt

abbrev pub add_plan : ProvisionPlan → SetupSummary → SetupSummary
add_plan plan s = record {
  config_patches = s.config_patches + one_if (is_some plan.config_patch);
  secrets_patches = s.secrets_patches + one_if (is_some plan.secrets_patch);
  subscriptions = s.subscriptions + length plan.subscriptions;
  webhooks = s.webhooks + length plan.webhooks;
}

abbrev pub empty_summary : SetupSummary
empty_summary = record { config_patches = 0; secrets_patches = 0; subscriptions = 0; webhooks = 0 }

abbrev pub inputs_for : Json → RequirementsFixture → EventProviderSpec → ProvisionInputs
inputs_for setup requirements provider = record {
  provider_id = provider.name;
  install_id = codes "fixture-install";
  public_base_url = none;
  answers = setup;
  requirements = requirements;
}

abbrev pub is_object : Json → Bool
is_object (object m) = true
is_object _ = false

-- The setup fixture, which must be an object.
unfoldable pub setup_fixture : Formats → PackLoad → Result Str Json
unfolding load_fixture
setup_fixture f pack =
    then_ok
      (map_err (λ _. codes "setup fixture missing or invalid")
        (load_fixture f.decode_value pack (codes "fixtures/setup.input.json")))
      λ setup.
        if is_object setup then ok setup else err (codes "setup.input.json must be a JSON object")

-- The tests of an event that ingestion produced, and of a message that emission produced.
unfoldable pub check_event : EventEnvelope → Result Str Unit
unfolding is_blank
check_event event =
    if is_blank event.topic
    then err (codes "ingest event missing topic")
    else if is_blank event.event_type
    then err (codes "ingest event missing type")
    else if unwrap_or (map_option is_blank event.subject) true
    then err (codes "ingest event missing subject")
    else if is_blank event.tenant.tenant
    then err (codes "ingest event missing tenant")
    else ok tt

unfoldable pub check_message : {R : Type 0} → ChannelMessageEnvelope R → Result Str Unit
unfolding is_blank
check_message msg =
    if is_blank msg.channel
    then err (codes "emit message missing channel")
    else if is_blank msg.tenant.tenant
    then err (codes "emit message missing tenant")
    else ok tt

-- The loop of a stage: the first error ends it.
unfoldable pub check_all : {A : Type 0} → (A → Result Str Unit) → List A → Result Str Unit
check_all check [] = ok tt
check_all check (x ∷ xs) = then_ok (check x) λ _. check_all check xs
