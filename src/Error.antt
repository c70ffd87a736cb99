-- ===== src/Error.antt =====
-- src/error.rs: the errors of the bus, and how they are printed. An `anyhow::Error` is its message.
use greentic_events.Base.{◌++◌, Result}
use greentic_events.Base.Str.{Str, codes}

pub data EventBusError : Type 0 where
  no_provider : Str → EventBusError
  acl_denied : Str → Str → Str → EventBusError
  duplicate : Str → EventBusError
  delivery_failed : Str → Str → EventBusError
  bridge_not_found : Str → EventBusError
  bridge_error : Str → EventBusError
  other : Str → EventBusError

-- `to_string`
unfoldable pub display : EventBusError → Str
display (no_provider topic) = codes "no provider registered for topic " ++ topic
display (acl_denied tenant topic operation) =
    codes "access denied for tenant "
    ++ tenant
    ++ codes " on topic "
    ++ topic
    ++ codes " ("
    ++ operation
    ++ codes ")"
display (duplicate key) = codes "duplicate event skipped due to idempotency key " ++ key
display (delivery_failed provider reason) =
    codes "provider " ++ provider ++ codes " failed after retries: " ++ reason
display (bridge_not_found bridge) = codes "bridge " ++ bridge ++ codes " not found"
display (bridge_error message) = codes "bridge error: " ++ message
display (other message) = message

abbrev pub Outcome : Type 0 → Type 0
Outcome A = Result EventBusError A
