-- ===== src/Runner/RoundTrip.antt =====
-- src/runner.rs: the way of an event to a runner-hosted component and back.
use greentic_events.Base.{
  ℕ, ◌-◌, ◌*◌, ◌^◌, ◌<◌, ◌≡◌, refl, Bool, true, false, ◌&&◌, ◌||◌, [], ◌∷◌, ok, then_ok, ltb, ◌==◌,
}
use greentic_events.Base.Str.{Str}
use greentic_events.Event.{
  Json, Items, Fields, null, bool, number, other_number, string, array, object, nil, cons, end,
  field, EventEnvelope,
}
use greentic_events.Runner.{Codec, to_wit_event, from_wit_event}

-- The nanoseconds from 1970 to the year 10000, from where on RFC 3339 has no dates.
abbrev pub year_10000 : ℕ
year_10000 = 253402300800 * 10 ^ 9

-- The order of the entries of a `serde_json::Map`.
abbrev pub str_lt : Str → Str → Bool
str_lt s [] = false
str_lt [] (y ∷ t) = true
str_lt (x ∷ s) (y ∷ t) = ltb x y || (x == y && str_lt s t)

-- The key comes before those of the fields, if there are any.
abbrev pub before : Str → Fields → Bool
before key end = true
before key (field k v m) = str_lt key k

-- Values that serde_json prints and reads back as they are: no numbers but `u64`, whose text is
-- exact, keys in the order of the map, and no more than `depth` arrays and objects in each other.
abbrev mutual
  pub is_plain : ℕ → Json → Bool
  is_plain depth null = true
  is_plain depth (bool b) = true
  is_plain depth (number n) = ltb n (2 ^ 64)
  is_plain depth (other_number s) = false
  is_plain depth (string s) = true
  is_plain depth (array items) = ltb 0 depth && plain_items (depth - 1) items
  is_plain depth (object m) = ltb 0 depth && plain_fields (depth - 1) m

  pub plain_items : ℕ → Items → Bool
  plain_items depth nil = true
  plain_items depth (cons v items) = is_plain depth v && plain_items depth items

  pub plain_fields : ℕ → Fields → Bool
  plain_fields depth end = true
  plain_fields depth (field key v m) = is_plain depth v && (before key m && plain_fields depth m)

-- `serde_json::from_str` refuses values that are nested 128 deep.
abbrev pub recursion_limit : ℕ
recursion_limit = 128

-- What chrono and serde_json document: a time before the year 10000 is printed in RFC 3339, and a
-- plain value in JSON, such that the text is read back as what was printed.
pub record IsFaithful (codec : Codec) : Type 0 where
  pub parse-print : (t : ℕ) → t < year_10000 → codec.parse_rfc3339 (codec.to_rfc3339 t) ≡ ok t
  pub read-print :
      (j : Json) (s : Str)
      → is_plain (recursion_limit - 1) j ≡ true
      → codec.json_to_string j ≡ ok s
      → codec.json_from_str s ≡ ok j

-- If what is printed of times before the year 10000 and of plain values is read back, the
-- identifier of the event is one that `EventId::new` accepts as it stands, its time is before the
-- year 10000, and its payload is plain, less than 128 deep, and printed, then the event is put on
-- the wire and read back from it unchanged.
pub from_wit_event-to_wit_event :
    (codec : Codec) (event : EventEnvelope) (payload_json : Str)
    → IsFaithful codec
    → codec.new_id event.id ≡ ok event.id
    → event.time < year_10000
    → is_plain (recursion_limit - 1) event.payload ≡ true
    → codec.json_to_string event.payload ≡ ok payload_json
    → then_ok (to_wit_event codec event) (from_wit_event codec) ≡ ok event
unfolding to_wit_event from_wit_event
from_wit_event-to_wit_event codec event payload_json faithful valid early plain h =
    rw
      (
        h,
        faithful.parse-print event.time early,
        valid,
        faithful.read-print event.payload payload_json plain h,
      )
      refl
