-- ===== src/ProviderOps.antt =====
-- src/provider_ops.rs: the input and output contracts of the `publish` operation of a provider.
use greentic_events.Base.{ℕ, Bool, Option, List, is_some, is_empty, not, ◌&&◌}
use greentic_events.Base.Str.{Str}
use greentic_events.Event.{Json, Dict, TenantCtx}

pub record EventMeta : Type 0 where
  pub tenant : Option Str
  pub tags : List Str
  pub extra : Dict Json

-- `EventMeta::is_empty`
abbrev pub meta_is_empty : EventMeta → Bool
meta_is_empty m = not (is_some m.tenant) && is_empty m.tags && is_empty m.extra

pub record EventEnvelopeInput : Type 0 where
  pub id : Option Str
  pub topic : Option Str
  pub event_type : Option Str
  pub source : Option Str
  pub subject : Option Str
  pub ts : Option Str
  pub time : Option Str
  pub correlation_id : Option Str
  pub payload : Json
  pub meta : EventMeta
  pub metadata : Dict Str
  pub tenant : Option TenantCtx

pub data PublishPriority : Type 0 where
  low normal high : PublishPriority

pub record PublishOptions : Type 0 where
  pub dedupe_key : Option Str
  pub ttl_seconds : Option ℕ
  pub priority : Option PublishPriority

pub record PublishInput : Type 0 where
  pub topic : Str
  pub event : EventEnvelopeInput
  pub options : Option PublishOptions

pub data PublishStatus : Type 0 where
  published queued : PublishStatus

pub record PublishOutput : Type 0 where
  pub receipt_id : Str
  pub provider_event_id : Option Str
  pub status : PublishStatus
  pub ts : Option Str
