-- ===== src/InputCheck/Accepted.antt =====
-- src/validate.rs: which inputs `validate_publish_input` accepts.
use greentic_events.Base.{
  ◌≡◌, refl, ap, sym, ◌∙◌, ◌↔◌, inl, inr, Bool, true, false, false≢true, not, ◌||◌, Option, none,
  some, List, [], ◌∷◌, Result, ok, err, push, is_empty, any, and_then, if◌then◌else◌, Bool-cases,
  All,
}
use greentic_events.Base.Str.{Str, str_eq, str_eq_iff, is_blank}
use greentic_events.ProviderOps.{PublishInput}
use greentic_events.InputCheck.{
  ValidationIssue, issue_if, provided_and, event_topic_issue, times_differ, issues,
  validate_publish_input,
}

-- A value has the property if it is provided.
abbrev pub IfProvided : (Str → Type 0) → Option Str → Type 0
IfProvided P none = Unit
IfProvided P (some value) = P value

abbrev pub IsFilled : Str → Type 0
IsFilled s = is_blank s ≡ false

abbrev pub Agree : Option Str → Option Str → Type 0
Agree (some ts) (some time) = ts ≡ time
Agree _ _ = Unit

-- What an input must be. Its correlation identifier, its metadata and the tenant context of the event
-- may be anything.
pub record IsAcceptable (is_rfc3339 : Str → Bool) (input : PublishInput) : Type 0 where
  pub topic : IsFilled input.topic
  pub event_topic : IfProvided (λ t. IsFilled t × (t ≡ input.topic)) input.event.topic
  pub id : IfProvided IsFilled input.event.id
  pub event_type : IfProvided IsFilled input.event.event_type
  pub source : IfProvided IsFilled input.event.source
  pub subject : IfProvided IsFilled input.event.subject
  pub ts : IfProvided (λ t. is_rfc3339 t ≡ true) input.event.ts
  pub time : IfProvided (λ t. is_rfc3339 t ≡ true) input.event.time
  pub times : Agree input.event.ts input.event.time
  pub tenant : IfProvided IsFilled input.event.meta.tenant
  pub tags : All IsFilled input.event.meta.tags
  pub dedupe_key : IfProvided IsFilled (and_then input.options (λ o. o.dedupe_key))

push-nonempty : {A : Type 0} (xs : List A) (x : A) → is_empty (push xs x) ≡ false
push-nonempty [] x = refl
push-nonempty (y ∷ xs) x = refl

-- One more test: the list is still empty exactly if it was and the test does not fire.
step :
    {P Q : Type 0} (test : Bool) (message : Str) (errors : List Str)
    → (is_empty errors ≡ true) ↔ P
    → (test ≡ false) ↔ Q
    → (is_empty (issue_if test message errors) ≡ true) ↔ (P × Q)
step true message errors p q = (
  λ h. elim (false≢true (sym (push-nonempty errors message) ∙ h)) [ ],
  λ h. elim (false≢true (sym (q.1 h.1))) [ ],
)
step false message errors p q = (λ h. (p.0 h, q.0 refl), λ h. p.1 h.0)

-- Two tests of which the second is made only if the first does not fire.
two_steps :
    {P Q R : Type 0} (a b : Bool) (m n : Str) (errors : List Str)
    → (is_empty errors ≡ true) ↔ P
    → (a ≡ false) ↔ Q
    → (b ≡ false) ↔ R
    → (is_empty (if a then push errors m else issue_if b n errors) ≡ true) ↔ (P × (Q × R))
two_steps true b m n errors p q r = (
  λ h. elim (false≢true (sym (push-nonempty errors m) ∙ h)) [ ],
  λ h. elim (false≢true (sym (q.1 h.1.0))) [ ],
)
two_steps false true m n errors p q r = (
  λ h. elim (false≢true (sym (push-nonempty errors n) ∙ h)) [ ],
  λ h. elim (false≢true (sym (r.1 h.1.1))) [ ],
)
two_steps false false m n errors p q r = (λ h. (p.0 h, (q.0 refl, r.0 refl)), λ h. p.1 h.0)

same : {P : Type 0} → P ↔ P
same = (λ p. p, λ p. p)

not-false : (b : Bool) → (not b ≡ false) ↔ (b ≡ true)
not-false true = (λ h. refl, λ h. refl)
not-false false = (λ h. elim (false≢true (sym h)) [ ], λ h. elim (false≢true h) [ ])

provided_blank : (o : Option Str) → (provided_and is_blank o ≡ false) ↔ IfProvided IsFilled o
provided_blank none = (λ h. tt, λ h. refl)
provided_blank (some s) = same

provided_time :
    (p : Str → Bool) (o : Option Str)
    → (provided_and (λ t. not (p t)) o ≡ false) ↔ IfProvided (λ t. p t ≡ true) o
provided_time p none = (λ h. tt, λ h. refl)
provided_time p (some s) = not-false (p s)

times-Agree : (a b : Option Str) → (times_differ a b ≡ false) ↔ Agree a b
times-Agree none b = (λ h. tt, λ h. refl)
times-Agree (some a) none = (λ h. tt, λ h. refl)
times-Agree (some a) (some b) = (
  λ h. (str_eq_iff a b).0 ((not-false (str_eq a b)).0 h),
  λ e. (not-false (str_eq a b)).1 ((str_eq_iff a b).1 e),
)

tags-IsFilled : (tags : List Str) → (any is_blank tags ≡ false) ↔ All IsFilled tags
unfolding any
tags-IsFilled [] = (λ h. tt, λ h. refl)
tags-IsFilled (t ∷ tags) = elim (Bool-cases (is_blank t)) [
  | inl e ↦ (
    λ h. elim (false≢true (sym (sym (ap (λ b. b || any is_blank tags) e) ∙ h))) [ ],
    λ h. elim (false≢true (sym h.0 ∙ e)) [ ],
  )
  | inr e ↦ (
    λ h. (e, (tags-IsFilled tags).0 (sym (ap (λ b. b || any is_blank tags) e) ∙ h)),
    λ h. ap (λ b. b || any is_blank tags) e ∙ (tags-IsFilled tags).1 h.1,
  )
]

topic_step :
    {P : Type 0} (topic : Str) (o : Option Str) (errors : List Str)
    → (is_empty errors ≡ true) ↔ P
    → (is_empty (event_topic_issue topic o errors) ≡ true)
      ↔ (P × IfProvided (λ t. IsFilled t × (t ≡ topic)) o)
topic_step topic none errors p = (λ h. (p.0 h, tt), λ h. p.1 h.0)
topic_step topic (some t) errors p =
    two_steps (is_blank t) (not (str_eq t topic)) _ _ errors p same (
      λ h. (str_eq_iff t topic).0 ((not-false (str_eq t topic)).0 h),
      λ e. (not-false (str_eq t topic)).1 ((str_eq_iff t topic).1 e),
    )

abbrev Held : (Str → Bool) → PublishInput → Type 0
Held is_rfc3339 input =
    ((((((((((((true ≡ true) × IsFilled input.topic)
                        × IfProvided (λ t. IsFilled t × (t ≡ input.topic)) input.event.topic)
                      × IfProvided IsFilled input.event.id)
                    × IfProvided IsFilled input.event.event_type)
                  × IfProvided IsFilled input.event.source)
                × IfProvided IsFilled input.event.subject)
              × IfProvided (λ t. is_rfc3339 t ≡ true) input.event.ts)
            × IfProvided (λ t. is_rfc3339 t ≡ true) input.event.time)
          × Agree input.event.ts input.event.time)
        × IfProvided IsFilled input.event.meta.tenant)
      × All IsFilled input.event.meta.tags)
    × IfProvided IsFilled (and_then input.options (λ o. o.dedupe_key))

no_issues :
    (is_rfc3339 : Str → Bool) (input : PublishInput)
    → (is_empty (issues is_rfc3339 input) ≡ true) ↔ Held is_rfc3339 input
unfolding issues
no_issues is_rfc3339 input =
    let event = input.event in
    let p1 = step (is_blank input.topic) _ [] same same in
    let p2 = topic_step input.topic event.topic _ p1 in
    let p3 = step (provided_and is_blank event.id) _ _ p2 (provided_blank event.id) in
    let p4 =
      step (provided_and is_blank event.event_type) _ _ p3 (provided_blank event.event_type) in
    let p5 = step (provided_and is_blank event.source) _ _ p4 (provided_blank event.source) in
    let p6 = step (provided_and is_blank event.subject) _ _ p5 (provided_blank event.subject) in
    let p7 =
      step (provided_and (λ t. not (is_rfc3339 t)) event.ts) _ _ p6
        (provided_time is_rfc3339 event.ts) in
    let p8 =
      step (provided_and (λ t. not (is_rfc3339 t)) event.time) _ _ p7
        (provided_time is_rfc3339 event.time) in
    let p9 = step (times_differ event.ts event.time) _ _ p8 (times-Agree event.ts event.time) in
    let p10 =
      step (provided_and is_blank event.meta.tenant) _ _ p9 (provided_blank event.meta.tenant) in
    let p11 = step (any is_blank event.meta.tags) _ _ p10 (tags-IsFilled event.meta.tags) in
    step _ _ _ p11 (provided_blank (and_then input.options (λ o. o.dedupe_key)))

Held-IsAcceptable :
    (is_rfc3339 : Str → Bool) (input : PublishInput)
    → Held is_rfc3339 input
    → IsAcceptable is_rfc3339 input
Held-IsAcceptable is_rfc3339 input h = record {
  topic = h.0.0.0.0.0.0.0.0.0.0.0.1;
  event_topic = h.0.0.0.0.0.0.0.0.0.0.1;
  id = h.0.0.0.0.0.0.0.0.0.1;
  event_type = h.0.0.0.0.0.0.0.0.1;
  source = h.0.0.0.0.0.0.0.1;
  subject = h.0.0.0.0.0.0.1;
  ts = h.0.0.0.0.0.1;
  time = h.0.0.0.0.1;
  times = h.0.0.0.1;
  tenant = h.0.0.1;
  tags = h.0.1;
  dedupe_key = h.1;
}

IsAcceptable-Held :
    (is_rfc3339 : Str → Bool) (input : PublishInput)
    → IsAcceptable is_rfc3339 input
    → Held is_rfc3339 input
IsAcceptable-Held is_rfc3339 input h = (
  (
    (
      (
        (
          (((((((refl, h.topic), h.event_topic), h.id), h.event_type), h.source), h.subject), h.ts),
          h.time,
        ),
        h.times,
      ),
      h.tenant,
    ),
    h.tags,
  ),
  h.dedupe_key,
)

abbrev result_of : List Str → Result ValidationIssue Unit
result_of errors = if is_empty errors then ok tt else err (record { messages = errors })

accepted : (errors : List Str) → (result_of errors ≡ ok tt) ↔ (is_empty errors ≡ true)
accepted [] = (λ h. refl, λ h. refl)
accepted (m ∷ errors) = (λ h. cc h, λ h. elim (false≢true h) [ ])

-- A publish input is accepted exactly if its topic is not blank; of the event's topic, id, type,
-- source and subject, the tenant and the tags of its meta, and the key of the options, none is
-- blank that is provided; the event's topic, if provided, is the topic of the input; and the times
-- provided are time stamps that agree. Nothing else is asked of it, so that a correlation identifier
-- may be blank.
pub validate_publish_input_iff :
    (is_rfc3339 : Str → Bool) (input : PublishInput)
    → (validate_publish_input is_rfc3339 input ≡ ok tt) ↔ IsAcceptable is_rfc3339 input
unfolding validate_publish_input
validate_publish_input_iff is_rfc3339 input = (
  λ h.
      Held-IsAcceptable is_rfc3339 input
        ((no_issues is_rfc3339 input).0 ((accepted (issues is_rfc3339 input)).0 h)),
  λ h.
      (accepted (issues is_rfc3339 input)).1
        ((no_issues is_rfc3339 input).1 (IsAcceptable-Held is_rfc3339 input h)),
)
