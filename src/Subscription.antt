-- ===== src/Subscription.antt =====
-- src/subscription.rs: subscription options and the handle of a subscription. The channel behind a
-- handle (`tokio::sync::mpsc`) is not modelled: a handle is the identity of its channel.
use greentic_events.Base.{ℕ, Bool, true}

pub data AckMode : Type 0 where
  manual auto : AckMode

pub record SubscriptionOptions : Type 0 where
  pub durable : Bool
  pub deliver_existing : Bool
  pub ack_mode : AckMode

abbrev pub default_options : SubscriptionOptions
default_options = record { durable = true; deliver_existing = true; ack_mode = auto }

-- The receiver of a channel, by the channel's identity.
pub record SubscriptionHandle : Type 0 where
  pub receiver : ℕ
