-- ===== src/Acl/Permitted.antt =====
-- src/acl.rs against a statement of the permissions by the meaning of the rules' patterns.
use greentic_events.Base.{
  Bool, true, false, ◌≡◌, refl, ◌↔◌, ◌⊎◌, inl, inr, List, [], ◌∷◌, ok, err, arith, sym, ◌∙◌, find,
  map_option, unwrap_or, Bool-cases, false≢true, if◌then◌else◌,
}
use greentic_events.Base.Str.{Str, codes}
use greentic_events.Event.{TenantCtx}
use greentic_events.Error.{EventBusError, Outcome, acl_denied}
use greentic_events.Pattern.Glob.{Matches, NoStar}
use greentic_events.Pattern.Correct.{matches_pattern_iff}
use greentic_events.Acl.{TopicAclRule, TopicAcl, rule_matches, allow_publish, allow_subscribe}

-- The rule's patterns match the tenant and the topic.
abbrev pub Covers : TenantCtx → Str → TopicAclRule → Type 0
Covers tenant topic rule =
    Matches rule.tenant_pattern tenant.tenant × Matches rule.topic_pattern topic

-- The first rule that covers them grants the operation, or none does and it is granted by default.
abbrev pub Permitted : (TopicAclRule → Bool) → Bool → TenantCtx → Str → List TopicAclRule → Type 0
Permitted grants default tenant topic [] = default ≡ true
Permitted grants default tenant topic (rule ∷ rules) =
    (Covers tenant topic rule × (grants rule ≡ true))
    ⊎ (¬ Covers tenant topic rule × Permitted grants default tenant topic rules)

granted_here : {C G P : Type 0} → C → (C × G) ⊎ (¬ C × P) → G
granted_here c (inl (_, g)) = g
granted_here c (inr (n, _)) = absurd (n c)

granted_later : {C G P : Type 0} → ¬ C → (C × G) ⊎ (¬ C × P) → P
granted_later n (inl (c, _)) = absurd (n c)
granted_later n (inr (_, p)) = p

-- The answer is yes exactly where `P` holds, and otherwise the error `e`.
abbrev pub Grants : Type 0 → Outcome Unit → EventBusError → Type 0
Grants P answer e = ((answer ≡ ok tt) ↔ P) × ((answer ≡ err e) ↔ ¬ P)

Grants-if :
    {P : Type 0} (b : Bool) (e : EventBusError)
    → (b ≡ true) ↔ P
    → Grants P (if b then ok tt else err e) e
Grants-if true e h = ((λ _. h.0 refl, λ _. refl), (λ k. cc k, λ n. absurd (n (h.0 refl))))
Grants-if false e h =
    ((λ k. cc k, λ p. absurd (false≢true (h.1 p))), (λ _ p. false≢true (h.1 p), λ _. refl))

module _ (tenant : TenantCtx) (topic : Str) (ct : NoStar tenant.tenant) (cs : NoStar topic) where
  rule_matches→Covers :
      (rule : TopicAclRule) → rule_matches tenant topic rule ≡ true → Covers tenant topic rule
  unfolding rule_matches
  rule_matches→Covers rule h = (
    (matches_pattern_iff rule.tenant_pattern tenant.tenant ct).0 (ground arith),
    (matches_pattern_iff rule.topic_pattern topic cs).0 (ground arith),
  )

  Covers→rule_matches :
      (rule : TopicAclRule) → Covers tenant topic rule → rule_matches tenant topic rule ≡ true
  unfolding rule_matches
  Covers→rule_matches rule (h, k) =
      let a = (matches_pattern_iff rule.tenant_pattern tenant.tenant ct).1 h in
      let b = (matches_pattern_iff rule.topic_pattern topic cs).1 k in ground arith

  not-Covers :
      (rule : TopicAclRule) → rule_matches tenant topic rule ≡ false → ¬ Covers tenant topic rule
  not-Covers rule h c = false≢true (sym h ∙ Covers→rule_matches rule c)

  -- What the first matching rule, or else the default, says.
  verdict_iff :
      (grants : TopicAclRule → Bool) (default : Bool) (rules : List TopicAclRule)
      → (unwrap_or (map_option grants (find (rule_matches tenant topic) rules)) default ≡ true)
        ↔ Permitted grants default tenant topic rules
  unfolding find
  verdict_iff grants default [] = (λ h. h, λ h. h)
  verdict_iff grants default (rule ∷ rules) = elim (Bool-cases (rule_matches tenant topic rule)) [
    | inl h ↦
        rw h (λ g. inl (rule_matches→Covers rule h, g), granted_here (rule_matches→Covers rule h))
    | inr h ↦ rw h (
      λ g. inr (not-Covers rule h, (verdict_iff grants default rules).0 g),
      λ d. (verdict_iff grants default rules).1 (granted_later (not-Covers rule h) d),
    )
  ]

  -- Of a tenant and a topic without stars, publishing is allowed exactly where the rules permit it by
  -- the meaning of their patterns, and otherwise is refused with the tenant, the topic and the
  -- operation named. Subscribing likewise, by its own flag of the rules.
  pub allow_by_first_rule :
      (acl : TopicAcl)
      → Grants
          (Permitted (λ r. r.allow_publish) acl.default_allow tenant topic acl.rules)
          (allow_publish acl tenant topic)
          (acl_denied tenant.tenant topic (codes "publish"))
        × Grants
            (Permitted (λ r. r.allow_subscribe) acl.default_allow tenant topic acl.rules)
            (allow_subscribe acl tenant topic)
            (acl_denied tenant.tenant topic (codes "subscribe"))
  unfolding allow_publish allow_subscribe
  allow_by_first_rule acl = (
    Grants-if _ _ (verdict_iff (λ r. r.allow_publish) acl.default_allow acl.rules),
    Grants-if _ _ (verdict_iff (λ r. r.allow_subscribe) acl.default_allow acl.rules),
  )
