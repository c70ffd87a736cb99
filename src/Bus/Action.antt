-- ===== src/Bus/Action.antt =====
-- Methods of the bus: they change the state that the bus shares, and may return an error. What was
-- changed before an error stays changed.
use greentic_events.Base.{Bool, true, false, ok, err}
use greentic_events.Base.Str.{Str}
use greentic_events.Error.{Outcome, EventBusError}
use greentic_events.Idempotency.{IdempotencyStore}
use greentic_events.Metrics.{EventMetrics}

pub record BusState (W S : Type 0) : Type 0 where
  pub metrics : EventMetrics
  pub seen : S
  pub world : W

abbrev pub Act : Type 0 → Type 0 → Type 0 → Type 0
Act W S A = BusState W S → Outcome A × BusState W S

module _ {W S A B : Type 0} where
  -- The state that the first part leaves, with its error or for the rest.
  abbrev pub continue : (A → Act W S B) → Outcome A × BusState W S → Outcome B × BusState W S
  continue rest (ok a, st) = rest a st
  continue rest (err e, st) = (err e, st)

  infixl 5 ◌>>=◌ ◌>>◌
  abbrev pub ◌>>=◌ : Act W S A → (A → Act W S B) → Act W S B
  ◌>>=◌ m rest st = continue rest (m st)

  abbrev pub ◌>>◌ : Act W S A → Act W S B → Act W S B
  ◌>>◌ m rest st = continue (λ _. rest) (m st)

module _ {W S A : Type 0} where
  abbrev pub lift : Outcome A → Act W S A
  lift r st = (r, st)

  -- A call that acts on the world alone, its result returned.
  abbrev pub run_world : (W → A × W) → Act W S A
  run_world call st = let (r, w) = call st.world in (ok r, record st { world = w })

-- Whether the key was new, or the error if it was there before.
abbrev pub newly : Bool → EventBusError → Outcome Unit
newly true e = ok tt
newly false e = err e

module _ {W S : Type 0} where
  abbrev pub count : (EventMetrics → EventMetrics) → Act W S Unit
  count step st = (ok tt, record st { metrics = step st.metrics })

  abbrev pub record_idempotency : IdempotencyStore S → Str → EventBusError → Act W S Unit
  record_idempotency store key e st =
      let (new, seen) = store.record_key key st.seen in (newly new e, record st { seen = seen })
