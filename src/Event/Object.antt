-- ===== src/Event/Object.antt =====
-- `serde_json::Map`, the fields of a JSON object, with its keys all different.
use greentic_events.Base.{◌≡◌, refl, Bool, Option, none, some, arith, if◌then◌else◌, is_some}
use greentic_events.Base.Str.{Str, str_eq, str_eq_iff, str_eq_refl}
use greentic_events.Event.{Json, Fields, end, field, object}

-- `get`
unfoldable pub get_field : Str → Fields → Option Json
get_field k end = none
get_field k (field j v m) = if str_eq j k then some v else get_field k m

-- `insert`
unfoldable pub set_field : Str → Json → Fields → Fields
set_field k v end = field k v end
set_field k v (field j u m) =
    let rest = set_field k v m in if str_eq j k then field j v m else field j u rest

-- `contains_key`
abbrev pub has_field : Str → Fields → Bool
has_field k m = is_some (get_field k m)

-- `Value::get` with a key, and `as_object`.
abbrev pub get : Str → Json → Option Json
get k (object m) = get_field k m
get k _ = none

abbrev pub as_object : Json → Option Fields
as_object (object m) = some m
as_object _ = none

pub get_field-set_field :
    (k j : Str) (v : Json) (m : Fields)
    → get_field j (set_field k v m) ≡ (if str_eq k j then some v else get_field j m)
unfolding get_field set_field
get_field-set_field k j v end = refl
get_field-set_field k j v (field i u m) = ground (
  arith,
  str_eq_iff k j,
  str_eq_iff i k,
  str_eq_iff i j,
  str_eq_refl i,
  get_field-set_field k j v m,
)

pub get_field-set_field_same :
    (k : Str) (v : Json) (m : Fields) → get_field k (set_field k v m) ≡ some v
get_field-set_field_same k v m = rw (get_field-set_field k k v m) (rw (str_eq_refl k))
