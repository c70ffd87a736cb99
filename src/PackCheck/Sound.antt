-- ===== src/PackCheck/Sound.antt =====
-- crates/greentic-events-pack-validator/src/lib.rs: when the validator reports nothing.
use greentic_events.Base.{
  ℕ, ◌≡◌, ◌≢◌, refl, ap, sym, ◌∙◌, ◌↔◌, inl, inr, true, false≢true, ◌++◌, Option, none, some,
  some_eq, List, [], ◌∷◌, is_empty, any, All, Mem, here, there, and_then, arith, ==_iff, Bool-cases,
}
use mathlib.Core.Path.{subst}
use greentic_events.Base.Str.{
  Str, codes, str_eq, str_eq_iff, str_eq_refl, starts_with, starts_with-append,
}
use greentic_events.Validate.{
  ProviderDecl, PackFlowEntry, PackManifest, manifest_entry_flows, manifest_annotation_value,
}
use greentic_events.Validate.Checks.{topic_keys}
use greentic_events.Validate.Topic.{Matches, topic_regex, is_valid_event_topic_iff}
use greentic_events.PackCheck.{
  PackInputs, is_events_index, extract_schema_path, file_index_contains, check_reference,
  check_references, provider_list, validate_schema_refs, check_annotated, validate_topics, has_flow,
  check_entry, check_entries, validate_entry_flows, validate_inputs,
}

-- What an option has, if it has anything, is such.
abbrev pub IfSome : {A : Type 0} → (A → Type 0) → Option A → Type 0
IfSome P none = Unit {0}
IfSome P (some a) = P a

-- The path that a reference names: what it has from its first "schemas/" on.
pub data Names : Str → Str → Type 0 where
  at : {value : Str} (rest : Str) → value ≡ codes "schemas/" ++ rest → Names value value
  after :
      {c : ℕ} {value path : Str}
      → ((rest : Str) → c ∷ value ≢ codes "schemas/" ++ rest)
      → Names value path
      → Names (c ∷ value) path

-- Whatever path the reference names is in the pack. One without "schemas/" names none.
abbrev pub Indexed : List Str → Str → Type 0
Indexed file_index value = (path : Str) → Names value path → Mem path file_index

-- The schemas that a provider refers to are in the pack.
abbrev pub HasSchemas : List Str → ProviderDecl → Type 0
HasSchemas file_index p =
    Indexed file_index p.config_schema_ref × IfSome (Indexed file_index) p.state_schema_ref

-- What the validator asks for.
pub record IsSound (manifest : PackManifest) (file_index : List Str) : Type 0 where
  pub schemas : All (HasSchemas file_index) (provider_list manifest.provider_inline)
  pub topic : IfSome (Matches topic_regex) (manifest_annotation_value manifest topic_keys)
  pub entry_flows : All (λ id. has_flow manifest.flows id ≡ true) (manifest_entry_flows manifest)

append-empty :
    {A : Type 0} (xs ys : List A)
    → (is_empty (xs ++ ys) ≡ true) ↔ ((is_empty xs ≡ true) × (is_empty ys ≡ true))
append-empty [] ys = (λ h. (refl, h), λ h. h.1)
append-empty (x ∷ xs) ys = (λ h. elim (false≢true h) [ ], λ h. h.0)

both-empty :
    {A : Type 0} (xs ys : List A) (P Q : Type 0)
    → (is_empty xs ≡ true) ↔ P
    → (is_empty ys ≡ true) ↔ Q
    → (is_empty (xs ++ ys) ≡ true) ↔ (P × Q)
both-empty xs ys P Q p q = (
  λ h. let (a, b) = (append-empty xs ys).0 h in (p.0 a, q.0 b),
  λ h. (append-empty xs ys).1 (p.1 h.0, q.1 h.1),
)

starts_with-rest : (p s : Str) → starts_with p s ≡ true → (rest : Str) × (s ≡ p ++ rest)
unfolding starts_with
starts_with-rest [] s h = (s, refl)
starts_with-rest (x ∷ p) [] h = elim (false≢true h) [ ]
starts_with-rest (x ∷ p) (y ∷ s) h =
    let (rest, e) = starts_with-rest p s (ground arith) in
    let same : x ≡ y = ground (arith, ==_iff x y) in (rest, λ i. sym same i ∷ e i)

extract_schema_path-Names :
    (value path : Str) → extract_schema_path value ≡ some path → Names value path
unfolding extract_schema_path
extract_schema_path-Names [] path h = cc h
extract_schema_path-Names (c ∷ value) path h =
    elim (Bool-cases (starts_with (codes "schemas/") (c ∷ value))) [
      | inl e ↦
          let (rest, same) = starts_with-rest (codes "schemas/") (c ∷ value) e in
          subst (Names (c ∷ value)) (some_eq (rw e at h)) (at rest same)
      | inr e ↦
          after
            (λ rest same. false≢true (
              sym e
              ∙ ap (starts_with (codes "schemas/")) same
              ∙ starts_with-append (codes "schemas/") rest))
            (extract_schema_path-Names value path (rw e at h))
    ]

Names-extract_schema_path :
    {value path : Str} → Names value path → extract_schema_path value ≡ some path
unfolding extract_schema_path
Names-extract_schema_path (at {value = []} rest same) = cc same
Names-extract_schema_path (at {value = c ∷ value} rest same) =
    rw (ap (starts_with (codes "schemas/")) same ∙ starts_with-append (codes "schemas/") rest) refl
Names-extract_schema_path (after {c = c} {value = value} n m) =
    elim (Bool-cases (starts_with (codes "schemas/") (c ∷ value))) [
      | inl e ↦
          let (rest, same) = starts_with-rest (codes "schemas/") (c ∷ value) e in
          elim (n rest same) [ ]
      | inr e ↦ rw e (Names-extract_schema_path m)
    ]

contains-Mem :
    (entries : List Str) (path : Str) → file_index_contains entries path ≡ true → Mem path entries
unfolding file_index_contains any
contains-Mem [] path h = elim (false≢true h) [ ]
contains-Mem (entry ∷ entries) path h = elim (Bool-cases (str_eq entry path)) [
  | inl e ↦ subst (λ p. Mem p (entry ∷ entries)) ((str_eq_iff entry path).0 e) here
  | inr e ↦ there (contains-Mem entries path (rw e at h))
]

Mem-contains :
    {path : Str} {entries : List Str} → Mem path entries → file_index_contains entries path ≡ true
unfolding file_index_contains any
Mem-contains {path} here = ground (arith, str_eq_refl path)
Mem-contains (there m) = ground (arith, Mem-contains m)

check_reference-empty :
    (extension_id : Str) (file_index : List Str) (key : Str) (p : ProviderDecl) (value : Str)
    → (is_empty (check_reference extension_id file_index key p (extract_schema_path value)) ≡ true)
      ↔ Indexed file_index value
check_reference-empty extension_id file_index key p value =
    of_path (extract_schema_path value) (extract_schema_path-Names value)
      (λ path m. Names-extract_schema_path m)
  where
    of_path :
        (o : Option Str)
        → ((path : Str) → o ≡ some path → Names value path)
        → ((path : Str) → Names value path → o ≡ some path)
        → (is_empty (check_reference extension_id file_index key p o) ≡ true)
          ↔ Indexed file_index value
    of_path none to from = (λ h path m. cc (from path m), λ h. refl)
    of_path (some found) to from = (
      λ h path m.
          subst (λ q. Mem q file_index) (some_eq (from path m))
            (contains-Mem file_index found (ground arith)),
      λ h. rw (Mem-contains (h found (to found refl))) refl,
    )

check_references-empty :
    (extension_id : Str) (file_index : List Str) (providers : List ProviderDecl)
    → (is_empty (check_references extension_id file_index providers) ≡ true)
      ↔ All (HasSchemas file_index) providers
unfolding check_references
check_references-empty extension_id file_index [] = (λ h. tt, λ h. refl)
check_references-empty extension_id file_index (p ∷ providers) =
    let parts =
      both-empty _ _ _ _
        (check_reference-empty extension_id file_index (codes "config_schema_ref") p
          p.config_schema_ref)
        (both-empty _ _ _ _ (optional p.state_schema_ref)
          (check_references-empty extension_id file_index providers)) in
    (
      λ h. let (config, (state, rest)) = parts.0 h in ((config, state), rest),
      λ h. parts.1 (h.0.0, (h.0.1, h.1)),
    )
  where
    optional :
        (o : Option Str)
        → (is_empty (
              check_reference extension_id file_index
                (codes "state_schema_ref")
                p
                (and_then o extract_schema_path))
            ≡ true)
          ↔ IfSome (Indexed file_index) o
    optional none = (λ h. tt, λ h. refl)
    optional (some value) =
        check_reference-empty extension_id file_index (codes "state_schema_ref") p value

check_annotated-empty :
    (topic : Option Str)
    → (is_empty (check_annotated topic) ≡ true) ↔ IfSome (Matches topic_regex) topic
check_annotated-empty none = (λ h. tt, λ h. refl)
check_annotated-empty (some value) = (
  λ h. (is_valid_event_topic_iff value).0 (ground arith),
  λ h. rw ((is_valid_event_topic_iff value).1 h) refl,
)

check_entry-empty :
    (flows : List PackFlowEntry) (id : Str)
    → (is_empty (check_entry flows id) ≡ true) ↔ (has_flow flows id ≡ true)
check_entry-empty flows id = (λ h. ground arith, λ h. ground arith)

check_entries-empty :
    (flows : List PackFlowEntry) (ids : List Str)
    → (is_empty (check_entries flows ids) ≡ true) ↔ All (λ id. has_flow flows id ≡ true) ids
unfolding check_entries
check_entries-empty flows [] = (λ h. tt, λ h. refl)
check_entries-empty flows (id ∷ ids) =
    both-empty _ _ _ _ (check_entry-empty flows id) (check_entries-empty flows ids)

diagnostics-empty :
    (extension_id : Str) (manifest : PackManifest) (file_index : List Str)
    → (is_empty (
          validate_schema_refs extension_id manifest file_index
          ++ (validate_topics manifest ++ validate_entry_flows manifest))
        ≡ true)
      ↔ (All (HasSchemas file_index) (provider_list manifest.provider_inline)
          × (IfSome (Matches topic_regex) (manifest_annotation_value manifest topic_keys)
              × All (λ id. has_flow manifest.flows id ≡ true) (manifest_entry_flows manifest)))
unfolding validate_schema_refs validate_topics validate_entry_flows
diagnostics-empty extension_id manifest file_index =
    both-empty _ _ _ _
      (check_references-empty extension_id file_index (provider_list manifest.provider_inline))
      (both-empty _ _ _ _ (check_annotated-empty (manifest_annotation_value manifest topic_keys))
        (check_entries-empty manifest.flows (manifest_entry_flows manifest)))

-- On an events pack whose manifest can be decoded, the validator reports nothing exactly if each
-- path that a provider's schema reference names, from its first "schemas/" on, is in the pack's
-- index (a reference without "schemas/" names none, and is not looked for), the annotated topic,
-- if there is one, matches the regular expression of topics, and each entry flow is among the flows.
pub validate_inputs-iff_IsSound :
    (decode : Str → Option PackManifest) (extension_id : Str) (inputs : PackInputs)
    (manifest : PackManifest)
    → decode inputs.manifest_cbor ≡ some manifest
    → is_events_index manifest inputs.file_index ≡ true
    → (is_empty (validate_inputs decode extension_id inputs) ≡ true)
      ↔ IsSound manifest inputs.file_index
unfolding validate_inputs
validate_inputs-iff_IsSound decode extension_id inputs manifest decoded events =
    rw (decoded, events)
      (
        λ h.
            let (schemas, (topic, flows)) =
              (diagnostics-empty extension_id manifest inputs.file_index).0 h in
            record { schemas = schemas; topic = topic; entry_flows = flows },
        λ s.
            (diagnostics-empty extension_id manifest inputs.file_index).1
              (s.schemas, (s.topic, s.entry_flows)),
      )
