-- ===== src/Event.antt =====
-- The data that the bus carries: `EventEnvelope` (re-exported by src/provider_ops.rs and built whole
-- by `build_envelope` of src/bus.rs) and JSON values.
-- These types are declared by the crates greentic-types and serde_json. The fields here are those
-- that the code reads or writes. Of a tenant context that is the pair that `TenantCtx::new` takes.
-- A time is the nanoseconds since the year 1970 began, in UTC; earlier times have no number.
pub mod Object
use greentic_events.Base.{ℕ, Bool, Option, none, some, List}
use greentic_events.Base.Str.{Str}

-- `serde_json::Value`. A number is a `u64` or the text of any other number.
mutual
  pub data Json : Type 0 where
    null : Json
    bool : Bool → Json
    number : ℕ → Json
    other_number : Str → Json
    string : Str → Json
    array : Items → Json
    object : Fields → Json

  pub data Items : Type 0 where
    nil : Items
    cons : Json → Items → Items

  pub data Fields : Type 0 where
    end : Fields
    field : Str → Json → Fields → Fields

abbrev pub as_str : Json → Option Str
as_str (string s) = some s
as_str _ = none

abbrev pub as_u64 : Json → Option ℕ
as_u64 (number n) = some n
as_u64 _ = none

abbrev pub as_bool : Json → Option Bool
as_bool (bool b) = some b
as_bool _ = none

abbrev pub as_array : Json → Option Items
as_array (array xs) = some xs
as_array _ = none

-- A map from texts, as its entries in the order of iteration.
abbrev pub Dict : Type 0 → Type 0
Dict V = List (Str × V)

pub record TenantCtx : Type 0 where
  pub env : Str
  pub tenant : Str

pub record EventEnvelope : Type 0 where
  pub id : Str
  pub topic : Str
  pub event_type : Str
  pub source : Str
  pub tenant : TenantCtx
  pub subject : Option Str
  pub time : ℕ
  pub correlation_id : Option Str
  pub payload : Json
  pub metadata : Dict Str
