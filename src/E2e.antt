-- ===== src/E2e.antt =====
-- src/e2e.rs: the end-to-end run over a directory of packs. The shared types.
-- A loaded pack (crate greentic-pack) has the parts that the code reads: its files by path, and of
-- the manifest the metadata and the flows.
pub mod Task
pub mod Flow
pub mod Report
pub mod Checks
pub mod Stages
pub mod Run
pub mod Fixtures
pub mod Plans
pub mod Live
pub mod DryBus
pub mod Default
pub mod Command
use greentic_events.Base.{
  ℕ, Bool, Option, none, some, List, [], ◌∷◌, Result, ok, err, then_ok, ok_or, map_err, ◌++◌,
}
use greentic_events.Base.Str.{Str, codes}
use greentic_events.Base.Map.{lookup}
use greentic_events.Event.{Json, Dict}
use greentic_events.Descriptor.{EventProviderSpec}

pub record FlowEntry : Type 0 where
  pub id : Str
  pub file_yaml : Str

-- `meta`'s fields, the flows and the files. A file is its bytes.
pub record PackLoad : Type 0 where
  pub pack_id : Str
  pub version : Str
  pub entry_flows : List Str
  pub events : Option (List EventProviderSpec)
  pub flows : List FlowEntry
  pub files : Dict Str

pub record E2eOptions : Type 0 where
  pub packs_dir : Str
  pub provider_filter : Option Str
  pub report_path : Option Str
  pub dry_run : Bool
  pub live : Bool

pub data StageStatus : Type 0 where
  pass fail skip : StageStatus

pub record StageReport : Type 0 where
  pub requirements : StageStatus
  pub setup : StageStatus
  pub ingest : StageStatus
  pub emit : StageStatus
  pub subscriptions : StageStatus

pub record E2eDiagnostic : Type 0 where
  pub stage : Option Str
  pub message : Str

-- The timing is the total in milliseconds.
pub record PackReport : Type 0 where
  pub pack : Str
  pub version : Str
  pub status : StageStatus
  pub stages : StageReport
  pub diagnostics : List E2eDiagnostic
  pub timing_ms : ℕ

pub record E2eSummary : Type 0 where
  pub total : ℕ
  pub pass_count : ℕ
  pub fail_count : ℕ
  pub skip_count : ℕ

pub record E2eReport : Type 0 where
  pub summary : E2eSummary
  pub packs : List PackReport

pub record RequirementsFixture : Type 0 where
  pub required_config_keys : List Str
  pub required_secret_keys : List Str
  pub subscriptions_required : Bool
  pub webhooks_required : Bool

pub data SubscriptionAction : Type 0 where
  create update delete : SubscriptionAction

pub record SubscriptionOp : Type 0 where
  pub action : SubscriptionAction
  pub topic : Str
  pub endpoint : Str

pub data WebhookAction : Type 0 where
  create_webhook update_webhook delete_webhook : WebhookAction

pub record WebhookOp : Type 0 where
  pub action : WebhookAction
  pub name : Str
  pub url : Str
  pub events : List Str

pub record ProvisionPlan : Type 0 where
  pub config_patch : Option Json
  pub secrets_patch : Option Json
  pub subscriptions : List SubscriptionOp
  pub webhooks : List WebhookOp

pub record ProvisionInputs : Type 0 where
  pub provider_id : Str
  pub install_id : Str
  pub public_base_url : Option Str
  pub answers : Json
  pub requirements : RequirementsFixture

pub record SetupSummary : Type 0 where
  pub config_patches : ℕ
  pub secrets_patches : ℕ
  pub subscriptions : ℕ
  pub webhooks : ℕ

-- `load_fixture`, for a type that `decode` reads from the bytes.
unfoldable pub load_fixture : {T : Type 0} → (Str → Result Str T) → PackLoad → Str → Result Str T
unfolding lookup
load_fixture decode pack path =
    then_ok (ok_or (lookup path pack.files) (codes "missing fixture " ++ path))
      λ bytes. map_err (λ _. codes "parse fixture " ++ path) (decode bytes)
