-- ===== src/Install/Sync.antt =====
-- crates/greentic-events-runtime/src/install.rs: `SubscriptionsWorker`.
pub mod Outcome
use greentic_events.Base.{
  ℕ, zero, suc, ◌+◌, Bool, true, false, Option, none, some, List, [], ◌∷◌, Result, ok, err,
  map_option, if◌then◌else◌, ◌==◌, filter, push, unwrap_or,
}
use greentic_events.Base.Str.{Str, codes}
use greentic_events.Event.{Json}
use greentic_events.Backoff.{RetryPolicy, default_policy, delay_for_attempt}
use greentic_events.Descriptor.{EventProviderSpec}
use greentic_events.Install.{
  ProviderInstallRecord, ResolvedInstall, ProviderInstallStore, InstallResolver, SubscriptionDriver,
  RuntimeDiagnostic, resolve, listing_failed, install_failed, subscription_sync_failed,
}
use greentic_events.Install.Metadata.{update_subscription_metadata, incremented}

-- The clock, the sleeper and the random draws are parts of the world.
pub record SubscriptionsWorker (W : Type 0) : Type 0 where
  pub install_store : ProviderInstallStore W
  pub resolver : InstallResolver W
  pub driver : SubscriptionDriver W
  pub now_rfc3339 : W → Str
  pub sleep : ℕ → W → W
  pub draw : W → ℕ → ℕ
  pub retry : RetryPolicy
  pub max_failures : ℕ

-- The record that a successful synchronisation writes.
abbrev pub synced : ProviderInstallRecord → Json → Str → ProviderInstallRecord
synced r state now = record r {
  subscriptions_state = state;
  metadata = update_subscription_metadata r.metadata now 0 false;
}

-- The record that a failed one writes.
abbrev pub counted : ℕ → ProviderInstallRecord → ProviderInstallRecord
counted max_failures r = record r { metadata = (incremented max_failures r.metadata).1 }

-- What the loop of attempts ends with: a return, or the last error.
abbrev pub Attempts : Type 0 → Type 0
Attempts W = Result (Option Str) (Result Str Unit) × W

module _ {W : Type 0} where
  abbrev pub with_retry_policy : RetryPolicy → SubscriptionsWorker W → SubscriptionsWorker W
  with_retry_policy retry worker = record worker { retry = retry }

  abbrev pub with_max_failures : ℕ → SubscriptionsWorker W → SubscriptionsWorker W
  with_max_failures n worker = record worker { max_failures = n }

  unfoldable pub increment_failure_metadata :
      ProviderInstallStore W → ProviderInstallRecord → ℕ → W → Result Str ℕ × W
  unfolding incremented
  increment_failure_metadata store r max_failures w =
      let (stored, w1) = store.update_install (counted max_failures r) w in
      (elim stored [ ok u ↦ ok (incremented max_failures r.metadata).0 | err e ↦ err e ], w1)

  unfoldable pub after_sync :
      SubscriptionsWorker W
      → ProviderInstallRecord
      → ℕ
      → (Str → W → Attempts W)
      → Result Str Json × W
      → Attempts W
  unfolding update_subscription_metadata
  after_sync worker r attempt next (ok state, w) =
      let (stored, w1) =
        worker.install_store.update_install (synced r state (worker.now_rfc3339 w)) w in
      (ok stored, w1)
  after_sync worker r attempt next (err e, w) =
      if attempt == worker.retry.max_retries
      then (err (some e), w)
      else next e (worker.sleep (delay_for_attempt (worker.draw w) worker.retry (attempt + 1)) w)

  -- `for attempt in 0..=max_retries`, by the count of rounds left.
  unfoldable pub sync_rounds :
      SubscriptionsWorker W
      → EventProviderSpec
      → ResolvedInstall
      → ℕ
      → ℕ
      → Option Str
      → W
      → Attempts W
  unfolding after_sync
  sync_rounds worker spec install zero attempt last_err w = (err last_err, w)
  sync_rounds worker spec install (suc n) attempt last_err w =
      after_sync worker install.install attempt
        (λ e w'. sync_rounds worker spec install n (attempt + 1) (some e) w')
        (worker.driver.sync_subscriptions spec install w)

  -- The end of `sync_install`. The failure count is used only in a log line.
  abbrev pub after_rounds :
      SubscriptionsWorker W → ProviderInstallRecord → Attempts W → Result Str Unit × W
  after_rounds worker r (ok result, w) = (result, w)
  after_rounds worker r (err last_err, w) =
      let (failures, w1) =
        increment_failure_metadata worker.install_store r worker.max_failures w in
      (err (unwrap_or last_err (codes "subscription sync failed")), w1)

  abbrev pub after_resolve :
      SubscriptionsWorker W
      → EventProviderSpec
      → ProviderInstallRecord
      → Result Str ResolvedInstall × W
      → Result Str Unit × W
  after_resolve worker spec r (err e, w) = (err e, w)
  after_resolve worker spec r (ok install, w) =
      after_rounds worker r
        (sync_rounds worker spec install (suc worker.retry.max_retries) 0 none w)

  unfoldable pub sync_install :
      SubscriptionsWorker W → EventProviderSpec → ProviderInstallRecord → W → Result Str Unit × W
  unfolding sync_rounds increment_failure_metadata resolve
  sync_install worker spec r w = after_resolve worker spec r (resolve worker.resolver r w)

  -- The loop over the installs of a provider.
  unfoldable pub sync_installs :
      SubscriptionsWorker W
      → EventProviderSpec
      → List ProviderInstallRecord
      → List RuntimeDiagnostic
      → W
      → List RuntimeDiagnostic × W
  unfolding sync_install
  sync_installs worker spec [] diagnostics w = (diagnostics, w)
  sync_installs worker spec (r ∷ installs) diagnostics w =
      let (result, w1) = sync_install worker spec r w in
      sync_installs worker spec installs
        (elim result [
          | ok u ↦ diagnostics
          | err e ↦ push diagnostics (install_failed r subscription_sync_failed e)
        ])
        w1

  unfoldable pub sync_providers :
      SubscriptionsWorker W
      → List EventProviderSpec
      → List RuntimeDiagnostic
      → W
      → List RuntimeDiagnostic × W
  unfolding sync_installs
  sync_providers worker [] diagnostics w = (diagnostics, w)
  sync_providers worker (spec ∷ specs) diagnostics w =
      let (listed, w1) = worker.install_store.list_installs spec.name w in
      let (diagnostics1, w2) = elim listed as (λ _. List RuntimeDiagnostic × W) [
        | ok installs ↦ sync_installs worker spec installs diagnostics w1
        | err e ↦ (push diagnostics (listing_failed spec.name e), w1)
      ] in
      sync_providers worker specs diagnostics1 w2

  unfoldable pub sync_all :
      SubscriptionsWorker W
      → List EventProviderSpec
      → (EventProviderSpec → Bool)
      → W
      → List RuntimeDiagnostic × W
  unfolding sync_providers
  sync_all worker providers subscription_filter w =
      sync_providers worker (filter subscription_filter providers) [] w
