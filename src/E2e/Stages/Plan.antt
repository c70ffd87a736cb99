-- ===== src/E2e/Stages/Plan.antt =====
-- src/e2e.rs: what a plan must be, and that `check_plan` asks just that.
use greentic_events.Base.{
  ◌<◌, ◌≡◌, ◌↔◌, refl, List, [], ◌∷◌, ok, Result, err, true, some, Bool, length, and_parts, Option,
  ap, none, drop_first, false≢true, not, false, sym, ◌&&◌, if◌then◌else◌, arith, is_empty,
}
use greentic_events.Base.Str.{Str, str_eq, str_eq_iff}
use greentic_events.Event.{Json}
use greentic_events.E2e.{
  RequirementsFixture, ProvisionPlan, SubscriptionOp, WebhookOp, SubscriptionAction, WebhookAction,
  create, update, delete, create_webhook, update_webhook, delete_webhook,
}
use greentic_events.E2e.Stages.Once.{op_eq_refl, webhook_eq_refl}
use greentic_events.E2e.Checks.{
  check_plan, list_eq, webhook_action_eq, webhook_eq, op_eq, action_eq, option_eq, plan_eq,
}

-- Two patches that are both missing, or equal as values.
pub data Alike (value_eq : Json → Json → Bool) : Option Json → Option Json → Type 0 where
  neither : Alike value_eq none none
  both : {a b : Json} → value_eq a b ≡ true → Alike value_eq (some a) (some b)

-- The second plan says what the first one said.
pub record Repeats (value_eq : Json → Json → Bool) (plan again : ProvisionPlan) : Type 0 where
  pub config : Alike value_eq plan.config_patch again.config_patch
  pub secrets : Alike value_eq plan.secrets_patch again.secrets_patch
  pub subscriptions : plan.subscriptions ≡ again.subscriptions
  pub webhooks : plan.webhooks ≡ again.webhooks

-- The plan has operations of each kind that is required.
pub record HasOperations (requirements : RequirementsFixture) (plan : ProvisionPlan) : Type 0 where
  pub subscriptions : requirements.subscriptions_required ≡ true → 0 < length plan.subscriptions
  pub webhooks : requirements.webhooks_required ≡ true → 0 < length plan.webhooks

and3_parts : (a b c : Bool) → (a && b && c) ≡ true → (a ≡ true) × (b ≡ true) × (c ≡ true)
and3_parts a b c h =
    let (ab, hc) = and_parts (a && b) c h in let (ha, hb) = and_parts a b ab in (ha, hb, hc)

and4_parts :
    (a b c d : Bool) → (a && b && c && d) ≡ true → (a ≡ true) × (b ≡ true) × (c ≡ true) × (d ≡ true)
and4_parts a b c d h =
    let (abc, hd) = and_parts (a && b && c) d h in
    let (ha, hb, hc) = and3_parts a b c abc in (ha, hb, hc, hd)

list_eq_iff :
    {A : Type 0} (eq : A → A → Bool)
    → ((a b : A) → (eq a b ≡ true) ↔ (a ≡ b))
    → (xs ys : List A) → (list_eq eq xs ys ≡ true) ↔ (xs ≡ ys)
unfolding list_eq
list_eq_iff eq h [] [] = (λ e. refl, λ e. refl)
list_eq_iff eq h [] (y ∷ ys) = (λ e. cc e, λ e. cc e)
list_eq_iff eq h (x ∷ xs) [] = (λ e. cc e, λ e. cc e)
list_eq_iff eq h (x ∷ xs) (y ∷ ys) = (
  λ e.
      let (p, q) = and_parts (eq x y) (list_eq eq xs ys) e in
      let r = (h x y).0 p in let s = (list_eq_iff eq h xs ys).0 q in λ i. r i ∷ s i,
  λ e.
      rw
        (
          (h x y).1 (ap (λ l. elim l [ [] ↦ x | ◌∷◌ z zs ↦ z ]) e),
          (list_eq_iff eq h xs ys).1 (ap drop_first e),
        )
        refl,
)

action_eq-same : (a b : SubscriptionAction) → action_eq a b ≡ true → a ≡ b
action_eq-same create create e = refl
action_eq-same update update e = refl
action_eq-same delete delete e = refl
action_eq-same _ _ e = elim (false≢true e) [ ]

webhook_action_eq-same : (a b : WebhookAction) → webhook_action_eq a b ≡ true → a ≡ b
webhook_action_eq-same create_webhook create_webhook e = refl
webhook_action_eq-same update_webhook update_webhook e = refl
webhook_action_eq-same delete_webhook delete_webhook e = refl
webhook_action_eq-same _ _ e = elim (false≢true e) [ ]

op_eq_iff : (a b : SubscriptionOp) → (op_eq a b ≡ true) ↔ (a ≡ b)
op_eq_iff a b = (
  λ e.
      let (p, q1, q2) =
        and3_parts (action_eq a.action b.action) (str_eq a.topic b.topic)
          (str_eq a.endpoint b.endpoint) e in
      let same = action_eq-same a.action b.action p in
      let same1 = (str_eq_iff a.topic b.topic).0 q1 in
      let same2 = (str_eq_iff a.endpoint b.endpoint).0 q2 in
      λ i. record { action = same i; topic = same1 i; endpoint = same2 i },
  λ e. rw (← e) (op_eq_refl a),
)

webhook_eq_iff : (a b : WebhookOp) → (webhook_eq a b ≡ true) ↔ (a ≡ b)
webhook_eq_iff a b = (
  λ e.
      let (p, q1, q2, q3) =
        and4_parts (webhook_action_eq a.action b.action) (str_eq a.name b.name) (str_eq a.url b.url)
          (list_eq str_eq a.events b.events) e in
      let same = webhook_action_eq-same a.action b.action p in
      let same1 = (str_eq_iff a.name b.name).0 q1 in
      let same2 = (str_eq_iff a.url b.url).0 q2 in
      let same3 = (list_eq_iff str_eq str_eq_iff a.events b.events).0 q3 in
      λ i. record { action = same i; name = same1 i; url = same2 i; events = same3 i },
  λ e. rw (← e) (webhook_eq_refl a),
)

option_eq_iff :
    (value_eq : Json → Json → Bool) (a b : Option Json)
    → (option_eq value_eq a b ≡ true) ↔ Alike value_eq a b
option_eq_iff value_eq none none = (λ e. neither, λ e. refl)
option_eq_iff value_eq none (some b) = (λ e. elim (false≢true e) [ ], λ e. elim e [ ])
option_eq_iff value_eq (some a) none = (λ e. elim (false≢true e) [ ], λ e. elim e [ ])
option_eq_iff value_eq (some a) (some b) = (λ e. both e, λ e. elim e [ both h ↦ h ])

required_iff :
    {A : Type 0} (required : Bool) (xs : List A)
    → ((required && is_empty xs) ≡ false) ↔ (required ≡ true → 0 < length xs)
required_iff false xs = (λ h e. absurd (false≢true e), λ h. refl)
required_iff true [] = (λ h e. absurd (false≢true (sym h)), λ h. absurd (none_less (h refl)))
  where
    none_less : ¬ 0 < 0
    none_less h = omega arith
required_iff true (x ∷ xs) = (λ h e. omega arith, λ h. refl)

if-ok :
    (test : Bool) (e : Str) (rest : Result Str Unit)
    → ((if test then err e else rest) ≡ ok tt) ↔ ((test ≡ false) × (rest ≡ ok tt))
if-ok true e rest = (λ h. cc h, λ h. absurd (false≢true (sym h.0)))
if-ok false e rest = (λ h. (refl, h), λ h. h.1)

plan_eq_iff :
    (value_eq : Json → Json → Bool) (plan again : ProvisionPlan)
    → (plan_eq value_eq plan again ≡ true) ↔ Repeats value_eq plan again
unfolding plan_eq
plan_eq_iff value_eq plan again = (
  λ e.
      let (p, q, r, s) =
        and4_parts (option_eq value_eq plan.config_patch again.config_patch)
          (option_eq value_eq plan.secrets_patch again.secrets_patch)
          (list_eq op_eq plan.subscriptions again.subscriptions)
          (list_eq webhook_eq plan.webhooks again.webhooks) e in
      record {
        config = (option_eq_iff value_eq plan.config_patch again.config_patch).0 p;
        secrets = (option_eq_iff value_eq plan.secrets_patch again.secrets_patch).0 q;
        subscriptions = (list_eq_iff op_eq op_eq_iff plan.subscriptions again.subscriptions).0 r;
        webhooks = (list_eq_iff webhook_eq webhook_eq_iff plan.webhooks again.webhooks).0 s;
      },
  λ k.
      rw
        (
          (option_eq_iff value_eq plan.config_patch again.config_patch).1 k.config,
          (option_eq_iff value_eq plan.secrets_patch again.secrets_patch).1 k.secrets,
          (list_eq_iff op_eq op_eq_iff plan.subscriptions again.subscriptions).1 k.subscriptions,
          (list_eq_iff webhook_eq webhook_eq_iff plan.webhooks again.webhooks).1 k.webhooks,
        )
        refl,
)

not-false : (b : Bool) → (not b ≡ false) ↔ (b ≡ true)
not-false true = (λ h. refl, λ h. refl)
not-false false = (λ h. absurd (false≢true (sym h)), λ h. absurd (false≢true h))

pub check_plan_iff :
    (value_eq : Json → Json → Bool) (requirements : RequirementsFixture)
    (plan again : ProvisionPlan)
    → (check_plan value_eq requirements plan again ≡ ok tt)
      ↔ (Repeats value_eq plan again × HasOperations requirements plan)
unfolding check_plan
check_plan_iff value_eq requirements plan again =
    let same = not-false (plan_eq value_eq plan again) in
    let repeated = plan_eq_iff value_eq plan again in
    let subs = required_iff requirements.subscriptions_required plan.subscriptions in
    let hooks = required_iff requirements.webhooks_required plan.webhooks in
    (
      λ h.
          let (a, h1) = (if-ok (not (plan_eq value_eq plan again)) _ _).0 h in
          let (b, h2) =
            (if-ok (requirements.subscriptions_required && is_empty plan.subscriptions) _ _).0 h1 in
          let (c, h3) =
            (if-ok (requirements.webhooks_required && is_empty plan.webhooks) _ _).0 h2 in
          (repeated.0 (same.0 a), record { subscriptions = subs.0 b; webhooks = hooks.0 c }),
      λ k. rw (same.1 (repeated.1 k.0), subs.1 k.1.subscriptions, hooks.1 k.1.webhooks) refl,
    )
