-- ===== src/Validate/Checks/Handlers.antt =====
-- crates/greentic-events-validate/src/lib.rs: when the handler flow validator reports nothing.
use greentic_events.Base.{
  ◌≡◌, refl, ap, sym, ◌∙◌, ◌↔◌, ◌⊎◌, inl, inr, Bool, true, false, false≢true, not, ◌&&◌, Option,
  none, some, List, [], ◌∷◌, push, is_empty, is_some, all, All, Bool-cases, Option-cases, and_parts,
}
use greentic_events.Base.Str.{Str, codes, str_eq, str_eq_iff}
use greentic_events.Validate.{PackFlowEntry, PackManifest, Diagnostic, manifest_entry_flows}
use greentic_events.Validate.Checks.{
  push_if, is_handler, is_flow_v1, indexed, check_entry_flow, check_entry_flows, check_handlers,
  handler_flow_validator,
}

-- A handler flow has the schema flow-v1.
abbrev pub handler_ok : PackFlowEntry → Bool
handler_ok entry = not (is_handler entry.id && not (is_flow_v1 entry))

abbrev entry_ok : Str → Option PackFlowEntry → Bool
entry_ok flow_id none = false
entry_ok flow_id (some entry) = not (is_handler flow_id && not (is_flow_v1 entry))

push_if-empty :
    (test : Bool) (d : Diagnostic) (ds : List Diagnostic)
    → is_empty (push_if test d ds) ≡ (is_empty ds && not test)
push_if-empty true d [] = refl
push_if-empty true d (x ∷ ds) = refl
push_if-empty false d [] = refl
push_if-empty false d (x ∷ ds) = refl

regroup : (a b c : Bool) → ((a && b) && c) ≡ (a && (b && c))
regroup true b c = refl
regroup false b c = refl

check_handlers-empty :
    (flows : List PackFlowEntry) (ds : List Diagnostic)
    → is_empty (check_handlers flows ds) ≡ (is_empty ds && all handler_ok flows)
unfolding check_handlers all
check_handlers-empty [] [] = refl
check_handlers-empty [] (d ∷ ds) = refl
check_handlers-empty (entry ∷ flows) ds =
    check_handlers-empty flows _
    ∙ ap (λ b. b && all handler_ok flows) (push_if-empty _ _ ds)
    ∙ regroup (is_empty ds) (handler_ok entry) (all handler_ok flows)

check_entry_flow-empty :
    (flow_id : Str) (found : Option PackFlowEntry) (ds : List Diagnostic)
    → is_empty (check_entry_flow flow_id found ds) ≡ (is_empty ds && entry_ok flow_id found)
check_entry_flow-empty flow_id none ds = push_if-empty _ _ _ ∙ none_left ds _ _
  where
    none_left :
        (ds : List Diagnostic) (d : Diagnostic) (b : Bool)
        → (is_empty (push ds d) && b) ≡ (is_empty ds && false)
    none_left [] d b = refl
    none_left (x ∷ ds) d b = refl
check_entry_flow-empty flow_id (some entry) ds = push_if-empty _ _ ds

check_entry_flows-empty :
    (flows : List PackFlowEntry) (ids : List Str) (ds : List Diagnostic)
    → is_empty (check_entry_flows flows ids ds)
      ≡ (is_empty ds && all (λ id. entry_ok id (indexed id flows)) ids)
unfolding check_entry_flows all
check_entry_flows-empty flows [] [] = refl
check_entry_flows-empty flows [] (d ∷ ds) = refl
check_entry_flows-empty flows (id ∷ ids) ds =
    check_entry_flows-empty flows ids _
    ∙ ap (λ b. b && all (λ id. entry_ok id (indexed id flows)) ids)
        (check_entry_flow-empty id (indexed id flows) ds)
    ∙ regroup (is_empty ds) (entry_ok id (indexed id flows)) _

-- Where every handler among the flows is right, an entry flow is right if it is found.
entry_ok-indexed :
    (id : Str) (flows : List PackFlowEntry)
    → all handler_ok flows ≡ true
    → entry_ok id (indexed id flows) ≡ is_some (indexed id flows)
unfolding indexed all
entry_ok-indexed id [] h = refl
entry_ok-indexed id (entry ∷ flows) h =
    let (first, rest) = and_parts (handler_ok entry) (all handler_ok flows) h in
    elim (Option-cases (indexed id flows)) [
      | inr (later, e) ↦
          rw e (sym (ap (entry_ok id) e) ∙ entry_ok-indexed id flows rest ∙ ap is_some e)
      | inl e ↦ elim (Bool-cases (str_eq entry.id id)) [
        | inl s ↦
            rw (e, s)
              (ap (λ i. not (is_handler i && not (is_flow_v1 entry)))
                  (sym ((str_eq_iff entry.id id).0 s))
                ∙ first)
        | inr s ↦ rw (e, s) refl
      ]
    ]

abbrev pub IsRight : PackFlowEntry → Type 0
IsRight entry = (is_handler entry.id ≡ false) ⊎ (entry.schema_version ≡ codes "flow-v1")

handler_ok-IsRight : (entry : PackFlowEntry) → (handler_ok entry ≡ true) ↔ IsRight entry
handler_ok-IsRight entry =
    both (is_handler entry.id) (is_flow_v1 entry) _
      (str_eq_iff entry.schema_version (codes "flow-v1"))
  where
    both :
        (h v : Bool) (V : Type 0) → (v ≡ true) ↔ V → (not (h && not v) ≡ true) ↔ ((h ≡ false) ⊎ V)
    both false v V iff = (λ e. inl refl, λ e. refl)
    both true true V iff = (λ e. inr (iff.0 refl), λ e. refl)
    both true false V iff = (
      λ e. elim (false≢true e) [ ],
      λ e. elim e [ inl n ↦ elim (false≢true (sym n)) [ ] | inr v ↦ iff.1 v ],
    )

all-All :
    {A : Type 0} (p : A → Bool) (P : A → Type 0)
    → ((a : A) → (p a ≡ true) ↔ P a)
    → (xs : List A) → (all p xs ≡ true) ↔ All P xs
unfolding all
all-All p P iff [] = (λ h. tt, λ h. refl)
all-All p P iff (x ∷ xs) = (
  λ h.
      let (first, rest) = and_parts (p x) (all p xs) h in
      ((iff x).0 first, (all-All p P iff xs).0 rest),
  λ h. ap (λ b. b && all p xs) ((iff x).1 h.0) ∙ (all-All p P iff xs).1 h.1,
)

found_all :
    (flows : List PackFlowEntry) (ids : List Str)
    → all handler_ok flows ≡ true
    → all (λ id. entry_ok id (indexed id flows)) ids ≡ all (λ id. is_some (indexed id flows)) ids
unfolding all
found_all flows [] h = refl
found_all flows (id ∷ ids) h = λ i. entry_ok-indexed id flows h i && found_all flows ids h i

-- The handler flow validator reports nothing about a manifest exactly if every entry flow that the
-- manifest declares is among its flows, and every flow named as a handler has the schema flow-v1.
pub handler_flow_validator_clean :
    (manifest : PackManifest)
    → (is_empty (handler_flow_validator.validate manifest) ≡ true) ↔ (
        All (λ id. is_some (indexed id manifest.flows) ≡ true) (manifest_entry_flows manifest)
        × All IsRight manifest.flows)
handler_flow_validator_clean manifest = (
  λ h.
      let (entries, handlers) = and_parts _ (all handler_ok flows) (sym reported ∙ h) in
      (
        (all-All _ _ (λ id. (λ e. e, λ e. e)) ids).0 (sym (found_all flows ids handlers) ∙ entries),
        (all-All handler_ok IsRight handler_ok-IsRight flows).0 handlers,
      ),
  λ h.
      let handlers = (all-All handler_ok IsRight handler_ok-IsRight flows).1 h.1 in
      reported
      ∙ ap (λ b. b && all handler_ok flows)
          (found_all flows ids handlers ∙ (all-All _ _ (λ id. (λ e. e, λ e. e)) ids).1 h.0)
      ∙ handlers,
)
  where
    flows : List PackFlowEntry
    flows = manifest.flows

    ids : List Str
    ids = manifest_entry_flows manifest

    reported :
        is_empty (handler_flow_validator.validate manifest)
        ≡ (all (λ id. entry_ok id (indexed id flows)) ids && all handler_ok flows)
    reported =
        check_handlers-empty flows _
        ∙ ap (λ b. b && all handler_ok flows) (check_entry_flows-empty flows ids [])
