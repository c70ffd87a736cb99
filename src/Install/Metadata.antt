-- ===== src/Install/Metadata.antt =====
-- crates/greentic-events-runtime/src/install.rs: the failure counter kept in an install's metadata.
use greentic_events.Base.{
  ℕ, zero, suc, ◌+◌, ◌%◌, ◌^◌, ◌≤◌, min, ◌≡◌, refl, ap, ◌∙◌, Bool, true, false, ◌||◌, arith, leb,
  unwrap_or, and_then,
}
use greentic_events.Base.Str.{Str, codes, str_eq}
use greentic_events.Event.{
  Json, Fields, null, bool, number, string, array, object, end, as_u64, as_bool, other_number,
}
use greentic_events.Event.Object.{
  get_field, set_field, get_field-set_field, get_field-set_field_same,
}
use greentic_events.Backoff.{u32_max}

abbrev pub fields_of : Json → Fields
fields_of (object m) = m
fields_of _ = end

abbrev pub subscriptions : Str
subscriptions = codes "subscriptions"

unfoldable pub update_subscription_metadata : Json → Str → ℕ → Bool → Json
unfolding set_field
update_subscription_metadata metadata last_sync failures degraded = object (
    set_field subscriptions
      (object (
        set_field (codes "degraded") (bool degraded) (
          set_field (codes "failures") (number failures)
            (set_field (codes "last_sync") (string last_sync) end))))
      (fields_of metadata))

abbrev pub state_in : Json → ℕ × Bool
state_in (object subs) = (
  unwrap_or (and_then (get_field (codes "failures") subs) as_u64) 0 % 2 ^ 32,
  unwrap_or (and_then (get_field (codes "degraded") subs) as_bool) false,
)
state_in _ = (0, false)

abbrev pub failure_state_of : Json → ℕ × Bool
failure_state_of (object root) = state_in (unwrap_or (get_field subscriptions root) null)
failure_state_of _ = (0, false)

unfoldable pub failure_state : Json → ℕ × Bool
unfolding get_field
failure_state metadata = failure_state_of metadata

-- The count and the metadata that `increment_failure_metadata` computes.
unfoldable pub incremented : ℕ → Json → ℕ × Json
unfolding failure_state update_subscription_metadata
incremented max_failures metadata =
    let (before, degraded) = failure_state metadata in
    let failures = min u32_max (before + 1) in
    (
      failures,
      update_subscription_metadata metadata (codes "unknown") failures
          (degraded || leb max_failures failures),
    )

small_mod : (n : ℕ) → n ≤ u32_max → n % 2 ^ 32 ≡ n
small_mod n h = omega arith

-- What `failure_state` reads is what `update_subscription_metadata` wrote, whatever the metadata
-- was before, if the count is a `u32`.
failure_state-update :
    (metadata : Json) (last_sync : Str) (failures : ℕ) (degraded : Bool)
    → failures ≤ u32_max
    → failure_state (update_subscription_metadata metadata last_sync failures degraded)
      ≡ (failures, degraded)
unfolding failure_state update_subscription_metadata str_eq
failure_state-update metadata last_sync failures degraded h =
    rw (get_field-set_field_same subscriptions _ (fields_of metadata))
      (ap (λ n. (n, degraded)) (small_mod failures h))

-- Every other entry of the metadata is kept.
pub get_field-update :
    (metadata : Json) (last_sync : Str) (failures : ℕ) (degraded : Bool) (key : Str)
    → str_eq subscriptions key ≡ false
    → get_field key (fields_of (update_subscription_metadata metadata last_sync failures degraded))
      ≡ get_field key (fields_of metadata)
unfolding update_subscription_metadata
get_field-update metadata last_sync failures degraded key h =
    get_field-set_field subscriptions key _ (fields_of metadata) ∙ rw h

-- The metadata after `n` failures one after the other.
unfoldable pub after_failures : ℕ → ℕ → Json → Json
unfolding incremented
after_failures max_failures zero metadata = metadata
after_failures max_failures (suc n) metadata =
    after_failures max_failures n (incremented max_failures metadata).1

state_in-small : (entry : Json) → (state_in entry).0 ≤ u32_max
state_in-small null = omega arith
state_in-small (bool b) = omega arith
state_in-small (number n) = omega arith
state_in-small (other_number s) = omega arith
state_in-small (string s) = omega arith
state_in-small (array items) = omega arith
state_in-small (object subs) = omega arith

failure_state-small : (metadata : Json) → (failure_state metadata).0 ≤ u32_max
unfolding failure_state
failure_state-small null = omega arith
failure_state-small (bool b) = omega arith
failure_state-small (number n) = omega arith
failure_state-small (other_number s) = omega arith
failure_state-small (string s) = omega arith
failure_state-small (array items) = omega arith
failure_state-small (object root) = state_in-small (unwrap_or (get_field subscriptions root) null)

failure_state-incremented :
    (max_failures : ℕ) (metadata : Json)
    → failure_state (incremented max_failures metadata).1 ≡ (
      min u32_max ((failure_state metadata).0 + 1),
      (failure_state metadata).1 || leb max_failures (min u32_max ((failure_state metadata).0 + 1)),
    )
unfolding incremented
failure_state-incremented max_failures metadata = failure_state-update metadata _ _ _ (omega arith)

-- Two counts one after the other are one.
join_count : (a n : ℕ) → min u32_max (min u32_max (a + 1) + n) ≡ min u32_max (a + suc n)
join_count a n = omega arith

join_degraded :
    (limit a n : ℕ) (degraded : Bool)
    → ((degraded || leb limit (min u32_max (a + 1)))
        || leb limit (min u32_max (min u32_max (a + 1) + n)))
      ≡ (degraded || leb limit (min u32_max (a + suc n)))
join_degraded limit a n true = refl
join_degraded limit a n false = ground arith

-- After `n` failures in a row, at least one, the count is the count before plus `n`, up to the
-- largest `u32`, and the install is marked degraded exactly if it was before or the count has
-- reached the limit.
pub failure_state-after_failures :
    (max_failures n : ℕ) (metadata : Json)
    → 1 ≤ n
    → failure_state (after_failures max_failures n metadata) ≡ (
      min u32_max ((failure_state metadata).0 + n),
      (failure_state metadata).1 || leb max_failures (min u32_max ((failure_state metadata).0 + n)),
    )
unfolding after_failures
failure_state-after_failures max_failures zero metadata h = elim h [ ]
failure_state-after_failures max_failures (suc zero) metadata h =
    failure_state-incremented max_failures metadata
failure_state-after_failures max_failures (suc (suc n)) metadata h =
    failure_state-after_failures max_failures (suc n) (incremented max_failures metadata).1
      (omega arith)
    ∙ rw (failure_state-incremented max_failures metadata) (λ i. (
      join_count (failure_state metadata).0 (suc n) i,
      join_degraded max_failures (failure_state metadata).0 (suc n) (failure_state metadata).1 i,
    ))
