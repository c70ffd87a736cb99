-- ===== src/Validate.antt =====
-- crates/greentic-events-validate/src/lib.rs: the validators of event packs.
-- A pack manifest and its parts (crate greentic-types) have the fields that the code reads.
pub mod Topic
pub mod Checks
use greentic_events.Base.{
  ℕ, Bool, true, false, not, ◌&&◌, ◌||◌, ◌++◌, Option, none, some, List, [], ◌∷◌, if◌then◌else◌,
  ◌==◌, leb, is_empty, any, all, and_then, push, is_some, find,
}
use greentic_events.Base.Str.{Str, codes, str_eq, contains, starts_with, is_blank}
use greentic_events.Base.Map.{lookup, insert}
use greentic_events.Event.Object.{get_field, get, as_object}
use greentic_events.Event.{
  Json, Items, Fields, nil, cons, null, bool, number, other_number, string, array, object, end,
  field, Dict, as_str,
}

pub record ProviderDecl : Type 0 where
  pub provider_type : Str
  pub ops : List Str
  pub config_schema_ref : Str
  pub state_schema_ref : Option Str

-- `ExtensionInline`: a provider extension, or any other value.
pub data ExtensionInline : Type 0 where
  provider : List ProviderDecl → ExtensionInline
  other_inline : Json → ExtensionInline

pub record PackFlowEntry : Type 0 where
  pub id : Str
  pub schema_version : Str

-- `extensions` has the inline part of each, in the order of the keys; `provider_inline` is what
-- the method `provider_extension_inline` returns.
pub record PackManifest : Type 0 where
  pub pack_id : Str
  pub extensions : Option (List (Option ExtensionInline))
  pub provider_inline : Option (List ProviderDecl)
  pub flows : List PackFlowEntry

pub data Severity : Type 0 where
  warn error : Severity

pub record Diagnostic : Type 0 where
  pub severity : Severity
  pub code : Str
  pub message : Str
  pub path : Option Str
  pub hint : Option Str

abbrev pub schema_ref_contains_events : Str → Bool
schema_ref_contains_events value = contains (codes "schemas/events/") value

abbrev pub opt_any : {A : Type 0} → (A → Bool) → Option A → Bool
opt_any p none = false
opt_any p (some a) = p a

abbrev pub is_events_provider : ProviderDecl → Bool
is_events_provider p =
    starts_with (codes "events.") p.provider_type
    || schema_ref_contains_events p.config_schema_ref
    || opt_any schema_ref_contains_events p.state_schema_ref

unfoldable pub is_events_pack : PackManifest → Bool
unfolding starts_with contains any
is_events_pack manifest =
    if starts_with (codes "events-") manifest.pack_id
    then true
    else opt_any (any is_events_provider) manifest.provider_inline

-- `seen.insert(flow_id)` in the test: a flow that was not seen is added to `entries`. The set and
-- the list have the same elements throughout, so one list stands for both.
abbrev pub add_flow : Option Str → List Str → List Str
add_flow none entries = entries
add_flow (some flow_id) entries =
    if any (str_eq flow_id) entries then entries else push entries flow_id

unfoldable pub collect_items : Items → List Str → List Str
unfolding any
collect_items nil entries = entries
collect_items (cons item items) entries = collect_items items (add_flow (as_str item) entries)

abbrev pub collect_entry_flows : Option Json → List Str → List Str
collect_entry_flows (some (array items)) entries = collect_items items entries
collect_entry_flows _ entries = entries

-- The body of the loop over the extensions.
abbrev pub extension_flows : Option ExtensionInline → List Str → List Str
extension_flows (some (other_inline value)) entries =
    collect_entry_flows (get (codes "entry_flows") value)
      (elim (and_then (get (codes "meta") value) as_object) [
        | none ↦ entries
        | some meta ↦ collect_entry_flows (get_field (codes "entry_flows") meta) entries
      ])
extension_flows _ entries = entries

unfoldable pub extensions_flows : List (Option ExtensionInline) → List Str → List Str
unfolding collect_items get_field
extensions_flows [] entries = entries
extensions_flows (extension ∷ extensions) entries =
    extensions_flows extensions (extension_flows extension entries)

unfoldable pub manifest_entry_flows : PackManifest → List Str
unfolding extensions_flows
manifest_entry_flows manifest = elim manifest.extensions [
  | none ↦ []
  | some extensions ↦ extensions_flows extensions []
]

-- The first of the keys whose value is a string.
unfoldable pub first_string : List Str → Fields → Option Str
unfolding get_field
first_string [] annotations = none
first_string (key ∷ keys) annotations = elim (and_then (get_field key annotations) as_str) [
  | some value ↦ some value
  | none ↦ first_string keys annotations
]

abbrev pub annotations_of : Option ExtensionInline → Option Fields
annotations_of (some (other_inline value)) = and_then (get (codes "annotations") value) as_object
annotations_of _ = none

unfoldable pub annotation_in : List Str → List (Option ExtensionInline) → Option Str
unfolding first_string
annotation_in keys [] = none
annotation_in keys (extension ∷ extensions) =
    elim (and_then (annotations_of extension) (first_string keys)) [
      | some value ↦ some value
      | none ↦ annotation_in keys extensions
    ]

unfoldable pub manifest_annotation_value : PackManifest → List Str → Option Str
unfolding annotation_in
manifest_annotation_value manifest keys = and_then manifest.extensions (annotation_in keys)

abbrev pub dot : ℕ
dot = b'.'

-- The characters of the first segment, and of the others. Every byte of a character past ASCII
-- fails both tests, as the character does.
abbrev pub head_char : ℕ → Bool
head_char c = (leb b'a' c && leb c b'z') || (leb b'0' c && leb c b'9')

abbrev pub tail_char : ℕ → Bool
tail_char c = head_char c || c == b'-' || c == b'_'

abbrev pub cons_first : ℕ → List Str → List Str
cons_first c [] = (c ∷ []) ∷ []
cons_first c (x ∷ xs) = (c ∷ x) ∷ xs

-- `split('.')`
unfoldable pub split_dot : Str → List Str
split_dot [] = [] ∷ []
split_dot (c ∷ s) = let rest = split_dot s in if c == dot then [] ∷ rest else cons_first c rest

-- The loop over the segments after the first.
unfoldable pub check_tail : List Str → Bool → Bool
unfolding all
check_tail [] has_tail = has_tail
check_tail (segment ∷ segments) has_tail =
    let rest = check_tail segments true in
    if is_empty segment || not (all tail_char segment) then false else rest

abbrev pub check_segments : List Str → Bool
check_segments [] = false
check_segments (first ∷ segments) =
    if is_empty first || not (all head_char first) then false else check_tail segments false

unfoldable pub is_valid_event_topic : Str → Bool
unfolding check_tail split_dot
is_valid_event_topic value = if is_empty value then false else check_segments (split_dot value)

unfoldable pub is_reverse_dns : Str → Bool
unfolding starts_with
is_reverse_dns value =
    if is_empty value
    then false
    else starts_with (codes "com.") value
      || starts_with (codes "org.") value
      || starts_with (codes "ai.greentic.") value
