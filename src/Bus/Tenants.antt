-- ===== src/Bus/Tenants.antt =====
-- src/bus.rs: idempotency keys of different tenants do not meet.
use greentic_events.Base.{
  ℕ, ◌≡◌, ◌≢◌, refl, ap, sym, ◌∙◌, false, Option, none, some, List, [], ◌∷◌, ◌++◌, Result, ok, err,
  arith, ◌⊎◌, inl, inr, Bool-cases, some_eq, All, drop_first,
}
use greentic_events.Base.Str.{Str, str_eq, str_eq_iff}
use greentic_events.Base.Map.{lookup}
use greentic_events.Event.{EventEnvelope}
use greentic_events.Error.{duplicate}
use greentic_events.Idempotency.{insert_key, seen_before}
use greentic_events.Provider.{ProviderRegistration}
use greentic_events.Bus.Action.{BusState}
use greentic_events.Bus.{
  Runtime, check_key, finish, deliver, publish, composed_key, idempotency_key,
}
use greentic_events.Bus.Gate.{Admits, publish-Admits}
use greentic_events.Bus.Duplicates.{Parts, in_memory_bus, publish-seen, keys_after}

-- The text has no colon, which separates the tenant from the key.
abbrev pub NoColon : Str → Type 0
NoColon s = All (λ c. c ≢ b':') s

head_eq : {a b : ℕ} {s t : Str} → a ∷ s ≡ b ∷ t → (a ≡ b) × (s ≡ t)
head_eq h = (cc h, ap drop_first h)

colon_split :
    (s t x y : Str) → NoColon s → NoColon t → s ++ b':' ∷ x ≡ t ++ b':' ∷ y → (s ≡ t) × (x ≡ y)
colon_split [] [] x y _ _ h = (refl, (head_eq h).1)
colon_split [] (c ∷ t) x y _ n h = absurd (n.0 (sym (head_eq h).0))
colon_split (c ∷ s) [] x y n _ h = absurd (n.0 (head_eq h).0)
colon_split (c ∷ s) (d ∷ t) x y n m h =
    let (e, k) = colon_split s t x y n.1 m.1 (head_eq h).1 in
    ((ground (arith, (head_eq h).0, e)), k)

insert-other :
    (j k : Str) (seen : List Str)
    → seen_before j seen ≡ false
    → str_eq j k ≡ false
    → seen_before j (insert_key k seen).1 ≡ false
unfolding insert_key
insert-other j k seen h n = elim (Bool-cases (seen_before k seen)) [
  | inl old ↦ rw old h
  | inr new ↦ rw new (unfold seen_before in ground arith)
]

finish-not_duplicate :
    {W S : Type 0} (p : ProviderRegistration W) (event : EventEnvelope) (r : Result Str Unit)
    (st : BusState W S) (k : Str)
    → (finish p event r st).0 ≢ err (duplicate k)
unfolding finish
finish-not_duplicate p event (ok u) st k h = cc h
finish-not_duplicate p event (err e) st k h = cc h

str_ne : (s t : Str) → s ≢ t → str_eq s t ≡ false
str_ne s t n = elim (Bool-cases (str_eq s t)) [
  | inl e ↦ absurd (n ((str_eq_iff s t).0 e))
  | inr f ↦ f
]

module _ {W M : Type 0} (rt : Runtime W) (parts : Parts W M) where
  deliver-new :
      (event : EventEnvelope) (key : Str) (p : ProviderRegistration W) (st : BusState W (List Str))
      (k : Str)
      → lookup idempotency_key event.metadata ≡ some key
      → seen_before (composed_key event key) st.seen ≡ false
      → (deliver rt (in_memory_bus parts) p event st).0 ≢ err (duplicate k)
  unfolding deliver check_key insert_key
  deliver-new event key p st k e new = rw (e, new) (finish-not_duplicate p event _ _ k)

  key_still_new :
      (first : EventEnvelope) (c : Str) (st : BusState W (List Str))
      → seen_before c st.seen ≡ false
      → ((key : Str)
          → lookup idempotency_key first.metadata ≡ some key
          → c ≢ composed_key first key)
      → seen_before c (publish rt (in_memory_bus parts) first st).1.seen ≡ false
  key_still_new first c st new apart = elim (publish-seen rt parts first st) [
    | inl e ↦ rw e new
    | inr e ↦ rw e (after (lookup idempotency_key first.metadata) apart)
  ]
    where
      after :
          (o : Option Str)
          → ((key : Str) → o ≡ some key → c ≢ composed_key first key)
          → seen_before c (keys_after rt parts first o st.seen) ≡ false
      after none n = new
      after (some key) n =
          insert-other c (composed_key first key) st.seen new (str_ne _ _ (n key refl))

  -- On a bus with the in-memory store, publishing one event does not make another a duplicate: if
  -- both have keys and neither tenant's name has a colon, an event of another tenant, or with
  -- another key, that is admitted and whose own key is not recorded yet is not refused as a duplicate
  -- after it.
  pub publish_separate :
      (first second : EventEnvelope) (key1 key2 : Str) (q : ProviderRegistration W)
      (st : BusState W (List Str)) (k : Str)
      → NoColon first.tenant.tenant
      → NoColon second.tenant.tenant
      → lookup idempotency_key first.metadata ≡ some key1
      → lookup idempotency_key second.metadata ≡ some key2
      → (first.tenant.tenant ≢ second.tenant.tenant) ⊎ (key1 ≢ key2)
      → seen_before (composed_key second key2) st.seen ≡ false
      → Admits (in_memory_bus parts) second q
      → (publish rt (in_memory_bus parts) second (publish rt (in_memory_bus parts) first st).1).0
        ≢ err (duplicate k)
  publish_separate first second key1 key2 q st k n1 n2 e1 e2 differ new a =
      rw (publish-Admits rt (in_memory_bus parts) {event = second} {p = q} st1 a) (
        deliver-new second key2 q st1 k e2
          (key_still_new first (composed_key second key2) st new apart))
    where
      st1 : BusState W (List Str)
      st1 = (publish rt (in_memory_bus parts) first st).1

      apart :
          (key : Str)
          → lookup idempotency_key first.metadata ≡ some key
          → composed_key second key2 ≢ composed_key first key
      apart key e same =
          let (t, x) = colon_split second.tenant.tenant first.tenant.tenant key2 key n2 n1 same in
          elim differ [ inl d ↦ d (sym t) | inr d ↦ d (some_eq (sym e1 ∙ e) ∙ sym x) ]
