-- ===== src/Message.antt =====
-- The channel messages that bridges translate: `ChannelMessageEnvelope` of the crate greentic-types,
-- with the fields that src/runner.rs and src/e2e.rs name. `R` is the type of reply scopes.
use greentic_events.Base.{ℕ, Option, List}
use greentic_events.Base.Str.{Str}
use greentic_events.Event.{Dict, TenantCtx}

pub record Attachment : Type 0 where
  pub mime_type : Str
  pub url : Str
  pub name : Option Str
  pub size_bytes : Option ℕ

pub record ChannelMessageEnvelope (R : Type 0) : Type 0 where
  pub id : Str
  pub tenant : TenantCtx
  pub channel : Str
  pub session_id : Str
  pub reply_scope : Option R
  pub user_id : Option Str
  pub correlation_id : Option Str
  pub text : Option Str
  pub attachments : List Attachment
  pub metadata : Dict Str
