-- ===== src/Install/Sync/Outcome.antt =====
-- crates/greentic-events-runtime/src/install.rs: how `sync_install` ends.
use greentic_events.Base.{
  ℕ, zero, suc, ◌+◌, ◌≤◌, ◌≡◌, refl, ap, ◌⊎◌, inl, inr, Option, none, some, Result, ok, err, arith,
  ◌==◌, ==_iff, Bool, true, false, ◌||◌, ◌-◌, ◌^◌, min, leb,
}
use mathlib.Core.Path.{subst}
use greentic_events.Base.Str.{Str, codes, str_eq}
use greentic_events.Base.Io.{io-cases}
use greentic_events.Event.{Json, Fields, bool, number, string, object, Dict}
use greentic_events.Event.Object.{get, get_field, set_field, get_field-set_field_same}
use greentic_events.Backoff.{delay_for_attempt}
use greentic_events.Descriptor.{EventProviderSpec}
use greentic_events.Install.{
  ProviderInstallRecord, ResolvedInstall, InstallResolver, resolve, with_secrets, with_config,
}
use greentic_events.Install.Metadata.{
  fields_of, failure_state, update_subscription_metadata, incremented, get_field-update,
}
use greentic_events.Install.Sync.{
  SubscriptionsWorker, synced, counted, Attempts, after_sync, sync_rounds,
  increment_failure_metadata, sync_install,
}

-- `Tried worker spec install w0 k w`: from `w0`, `k` attempts failed one after the other, each
-- followed by the wait for its number, and the world is then `w`.
pub data Tried {W : Type 0} (worker : SubscriptionsWorker W) (spec : EventProviderSpec)
    (install : ResolvedInstall) (w0 : W) : ℕ → W → Type 0 where
  start : Tried worker spec install w0 0 w0
  again :
      {k : ℕ} {w w1 : W} {e : Str}
      → Tried worker spec install w0 k w
      → worker.driver.sync_subscriptions spec install w ≡ (err e, w1)
      → Tried worker spec install w0
          (suc k)
          (worker.sleep (delay_for_attempt (worker.draw w1) worker.retry (k + 1)) w1)

last_round : (k n : ℕ) → k ≡ n → (k == n) ≡ true
last_round k n h = ground (arith, ==_iff k n)

not_last : (k m n : ℕ) → k + suc m ≡ n → (k == n) ≡ false
not_last k m n h = ground (arith, ==_iff k n)

module _ {W : Type 0} (worker : SubscriptionsWorker W) (spec : EventProviderSpec)
    (install : ResolvedInstall) (w0 : W) where
  abbrev stored : Json → W → Result Str Unit × W
  stored state w =
      worker.install_store.update_install (synced install.install state (worker.now_rfc3339 w)) w

  abbrev Ended : Attempts W → Type 0
  Ended r =
      ((k : ℕ) × (w1 : W) × (state : Json) × (w2 : W) × (k ≤ worker.retry.max_retries)
        × Tried worker spec install w0 k w1
        × (worker.driver.sync_subscriptions spec install w1 ≡ (ok state, w2))
        × (r ≡ (ok (stored state w2).0, (stored state w2).1)))
      ⊎ ((w1 : W) × (e : Str) × (w2 : W) × Tried worker spec install w0 worker.retry.max_retries w1
          × (worker.driver.sync_subscriptions spec install w1 ≡ (err e, w2))
          × (r ≡ (err (some e), w2)))

  at_last :
      (k : ℕ) (w : W)
      → k + 0 ≡ worker.retry.max_retries
      → Tried worker spec install w0 k w
      → Tried worker spec install w0 worker.retry.max_retries w
  at_last k w h tried = subst (λ n. Tried worker spec install w0 n w) (omega arith) tried

  next_try :
      {w w1 : W} {e : Str} (k : ℕ)
      → Tried worker spec install w0 k w
      → worker.driver.sync_subscriptions spec install w ≡ (err e, w1)
      → Tried worker spec install w0
          (k + 1)
          (worker.sleep (delay_for_attempt (worker.draw w1) worker.retry (k + 1)) w1)
  next_try {w} {w1} k tried e =
      subst
        (λ n.
          Tried worker spec install w0 n
            (worker.sleep (delay_for_attempt (worker.draw w1) worker.retry (k + 1)) w1))
        (omega arith) (again tried e)

  sync_rounds-Ended :
      (n attempt : ℕ) (last_err : Option Str) (w : W)
      → attempt + n ≡ worker.retry.max_retries
      → Tried worker spec install w0 attempt w
      → Ended (sync_rounds worker spec install (suc n) attempt last_err w)
  unfolding sync_rounds after_sync
  sync_rounds-Ended zero attempt last_err w h tried =
      elim (io-cases (worker.driver.sync_subscriptions spec install w)) [
        | inl (state, w2, e) ↦ rw e (inl (attempt, w, state, w2, omega arith, tried, e, refl))
        | inr (x, w2, e) ↦
            rw (e, last_round attempt worker.retry.max_retries (omega arith))
              (inr (w, x, w2, at_last attempt w h tried, e, refl))
      ]
  sync_rounds-Ended (suc n) attempt last_err w h tried =
      elim (io-cases (worker.driver.sync_subscriptions spec install w)) [
        | inl (state, w2, e) ↦ rw e (inl (attempt, w, state, w2, omega arith, tried, e, refl))
        | inr (x, w2, e) ↦
            rw (e, not_last attempt n worker.retry.max_retries h)
              (sync_rounds-Ended n (attempt + 1) (some x) _ (omega arith)
                (next_try attempt tried e))
      ]

abbrev Keeps : {W : Type 0} → ProviderInstallRecord → Result Str ResolvedInstall × W → Type 0
Keeps r (ok install, w) = install.install ≡ r
Keeps r (err e, w) = Unit

with_secrets-Keeps :
    {W : Type 0} (r : ProviderInstallRecord) (config : Dict Json)
    (read : Result Str (Dict Json) × W)
    → Keeps r (with_secrets r config read)
with_secrets-Keeps r config (ok secrets, w) = refl
with_secrets-Keeps r config (err e, w) = tt

with_config-Keeps :
    {W : Type 0} (resolver : InstallResolver W) (r : ProviderInstallRecord)
    (read : Result Str (Dict Json) × W)
    → Keeps r (with_config resolver r read)
with_config-Keeps resolver r (ok config, w) = with_secrets-Keeps r config _
with_config-Keeps resolver r (err e, w) = tt

resolve_keeps :
    {W : Type 0} (resolver : InstallResolver W) (r : ProviderInstallRecord) (w w1 : W)
    (install : ResolvedInstall)
    → resolve resolver r w ≡ (ok install, w1)
    → install.install ≡ r
unfolding resolve
resolve_keeps resolver r w w1 install h = subst (Keeps r) h (with_config-Keeps resolver r _)

-- An install's metadata, with what they say of subscriptions: the time of the last synchronisation,
-- the count of failures and whether that is too many. The other entries are those of `old`.
pub record SaysOf (old new : Json) (last_sync : Str) (failures : ℕ) (degraded : Bool) : Type 0 where
  pub entry : Fields
  pub entry_kept : get (codes "subscriptions") new ≡ some (object entry)
  pub synced_at : get_field (codes "last_sync") entry ≡ some (string last_sync)
  pub counted : get_field (codes "failures") entry ≡ some (number failures)
  pub marked : get_field (codes "degraded") entry ≡ some (bool degraded)
  pub others_kept :
      (key : Str)
      → str_eq (codes "subscriptions") key ≡ false
      → get key new ≡ get_field key (fields_of old)

-- A record with the new state, synchronised now, no failures and no mark; the rest is as it was.
pub record IsSynced (r new : ProviderInstallRecord) (state : Json) (now : Str) : Type 0 where
  pub state_kept : new.subscriptions_state ≡ state
  pub says : SaysOf r.metadata new.metadata now 0 false
  pub same_provider : new.provider_id ≡ r.provider_id
  pub same_install : new.install_id ≡ r.install_id
  pub same_config : new.config_refs ≡ r.config_refs
  pub same_secrets : new.secret_refs ≡ r.secret_refs

-- A record with one more failure, up to the largest `u32`, marked if it was or if these are as many
-- as are allowed; the rest is as it was.
pub record IsCounted (limit : ℕ) (r new : ProviderInstallRecord) : Type 0 where
  pub says :
      SaysOf r.metadata new.metadata
        (codes "unknown")
        (min (2 ^ 32 - 1) ((failure_state r.metadata).0 + 1))
        ((failure_state r.metadata).1
          || leb limit (min (2 ^ 32 - 1) ((failure_state r.metadata).0 + 1)))
  pub same_state : new.subscriptions_state ≡ r.subscriptions_state
  pub same_provider : new.provider_id ≡ r.provider_id
  pub same_install : new.install_id ≡ r.install_id
  pub same_config : new.config_refs ≡ r.config_refs
  pub same_secrets : new.secret_refs ≡ r.secret_refs

update_subscription_metadata-SaysOf :
    (metadata : Json) (last_sync : Str) (failures : ℕ) (degraded : Bool)
    → SaysOf metadata
        (update_subscription_metadata metadata last_sync failures degraded)
        last_sync
        failures
        degraded
unfolding update_subscription_metadata set_field get_field str_eq
update_subscription_metadata-SaysOf metadata last_sync failures degraded = record {
  entry = _;
  entry_kept = get_field-set_field_same (codes "subscriptions") _ (fields_of metadata);
  synced_at = refl;
  counted = refl;
  marked = refl;
  others_kept = λ key ne. get_field-update metadata last_sync failures degraded key ne;
}

synced-IsSynced :
    (r : ProviderInstallRecord) (state : Json) (now : Str)
    → IsSynced r (synced r state now) state now
synced-IsSynced r state now = record {
  state_kept = refl;
  says = update_subscription_metadata-SaysOf r.metadata now 0 false;
  same_provider = refl;
  same_install = refl;
  same_config = refl;
  same_secrets = refl;
}

counted-IsCounted : (limit : ℕ) (r : ProviderInstallRecord) → IsCounted limit r (counted limit r)
unfolding incremented
counted-IsCounted limit r = record {
  says = update_subscription_metadata-SaysOf r.metadata (codes "unknown") _ _;
  same_state = refl;
  same_provider = refl;
  same_install = refl;
  same_config = refl;
  same_secrets = refl;
}

-- Some attempt within the budget succeeds after failed ones, and the result is that of storing a
-- record with the state that it gave; or all attempts of the budget fail, a record with one more
-- failure is stored, and the result is the last error, whether the storing succeeded or not.
abbrev pub Ends :
    {W : Type 0}
    → SubscriptionsWorker W
    → EventProviderSpec
    → ProviderInstallRecord
    → ResolvedInstall
    → W
    → Result Str Unit × W
    → Type 0
Ends {W} worker spec r install w0 result =
    ((k : ℕ) × (w1 : W) × (state : Json) × (w2 : W) × (new : ProviderInstallRecord) × (k
        ≤ worker.retry.max_retries)
      × Tried worker spec install w0 k w1
      × (worker.driver.sync_subscriptions spec install w1 ≡ (ok state, w2))
      × IsSynced r new state (worker.now_rfc3339 w2)
      × (result ≡ worker.install_store.update_install new w2))
    ⊎ ((w1 : W) × (e : Str) × (w2 : W) × (new : ProviderInstallRecord) × Tried worker spec install
          w0 worker.retry.max_retries w1
        × (worker.driver.sync_subscriptions spec install w1 ≡ (err e, w2))
        × IsCounted worker.max_failures r new
        × (result ≡ (err e, (worker.install_store.update_install new w2).1)))

-- When the references of an install resolve, `sync_install` ends in one of two ways. Either some
-- attempt within the budget succeeds after failed ones, and the result is that of storing the new
-- state, with a failure count of 0, no degraded mark and the present time in the metadata; or all
-- attempts of the budget fail, each but the last followed by its wait, the failure count is stored
-- with one more, up to the largest `u32`, and a degraded mark if there was one or the count has
-- reached the limit, and the result is the last error. The rest of the stored record is as it was.
pub sync_install_outcome :
    {W : Type 0} (worker : SubscriptionsWorker W) (spec : EventProviderSpec)
    (r : ProviderInstallRecord) (w w0 : W) (install : ResolvedInstall)
    → resolve worker.resolver r w ≡ (ok install, w0)
    → Ends worker spec r install w0 (sync_install worker spec r w)
unfolding sync_install increment_failure_metadata
sync_install_outcome worker spec r w w0 install h =
    elim (sync_rounds-Ended worker spec install w0 worker.retry.max_retries 0 none w0 (omega arith)
      start) [
        | inl (k, w1, state, w2, le, tried, e, ended) ↦ inl (
          k,
          w1,
          state,
          w2,
          synced r state (worker.now_rfc3339 w2),
          le,
          tried,
          e,
          synced-IsSynced r state (worker.now_rfc3339 w2),
          rw (h, ended)
              (ap
                (λ q.
                  worker.install_store.update_install (synced q state (worker.now_rfc3339 w2)) w2)
                (resolve_keeps worker.resolver r w w0 install h)),
        )
        | inr (w1, x, w2, tried, e, ended) ↦ inr (
          w1,
          x,
          w2,
          counted worker.max_failures r,
          tried,
          e,
          counted-IsCounted worker.max_failures r,
          rw (h, ended) refl,
        )
      ]
