-- ===== src/InputCheck.antt =====
-- src/validate.rs: the validation of a publish input.
-- The parser of RFC 3339 time stamps (crate chrono) is an argument: whether it accepts a text.
pub mod Accepted
use greentic_events.Base.{
  Bool, true, false, not, ◌++◌, Option, none, some, List, [], ◌∷◌, Result, ok, err, push, is_empty,
  any, and_then, if◌then◌else◌,
}
use greentic_events.Base.Str.{Str, codes, str_eq, is_blank}
use greentic_events.ProviderOps.{PublishInput, EventEnvelopeInput, EventMeta, PublishOptions}

pub record ValidationIssue : Type 0 where
  pub messages : List Str

abbrev pub single : Str → ValidationIssue
single message = record { messages = message ∷ [] }

-- `messages.join("; ")`
unfoldable pub join : List Str → Str
join [] = []
join (m ∷ []) = m
join (m ∷ n ∷ messages) = m ++ (codes "; " ++ join (n ∷ messages))

unfoldable pub display_issue : ValidationIssue → Str
unfolding join
display_issue issue =
    if is_empty issue.messages then codes "no validation issues" else join issue.messages

-- `errors.push(message)` under a test.
abbrev pub issue_if : Bool → Str → List Str → List Str
issue_if test message errors = if test then push errors message else errors

-- A value that was provided and fails a test.
abbrev pub provided_and : (Str → Bool) → Option Str → Bool
provided_and test none = false
provided_and test (some value) = test value

abbrev pub event_topic_issue : Str → Option Str → List Str → List Str
event_topic_issue topic none errors = errors
event_topic_issue topic (some event_topic) errors =
    if is_blank event_topic
    then push errors (codes "event.topic must not be empty when provided")
    else issue_if (not (str_eq event_topic topic))
        (codes "event.topic must match the top-level topic when provided") errors

abbrev pub times_differ : Option Str → Option Str → Bool
times_differ (some ts) (some time) = not (str_eq ts time)
times_differ _ _ = false

-- The tests up to the event's type, those up to its times, and the rest.
abbrev pub first_issues : PublishInput → List Str → List Str
first_issues input errors =
    let event = input.event in
    issue_if (provided_and is_blank event.event_type)
      (codes "event.type must not be empty when provided")
      (issue_if (provided_and is_blank event.id) (codes "event.id must not be empty when provided")
        (event_topic_issue input.topic event.topic
          (issue_if (is_blank input.topic) (codes "topic must not be empty") errors)))

abbrev pub time_issues : (Str → Bool) → PublishInput → List Str → List Str
time_issues is_rfc3339 input errors =
    let event = input.event in
    issue_if (times_differ event.ts event.time)
      (codes "event.ts and event.time must match when both are provided")
      (issue_if (provided_and (λ t. not (is_rfc3339 t)) event.time)
        (codes "event.time must be an RFC3339 timestamp")
        (issue_if (provided_and (λ t. not (is_rfc3339 t)) event.ts)
          (codes "event.ts must be an RFC3339 timestamp")
          (issue_if (provided_and is_blank event.subject)
            (codes "event.subject must not be empty when provided")
            (issue_if (provided_and is_blank event.source)
              (codes "event.source must not be empty when provided") errors))))

abbrev pub last_issues : PublishInput → List Str → List Str
last_issues input errors =
    issue_if (provided_and is_blank (and_then input.options (λ o. o.dedupe_key)))
      (codes "options.dedupe_key must not be empty when provided")
      (issue_if (any is_blank input.event.meta.tags)
        (codes "event.meta.tags entries must not be empty")
        (issue_if (provided_and is_blank input.event.meta.tenant)
          (codes "event.meta.tenant must not be empty when provided") errors))

unfoldable pub issues : (Str → Bool) → PublishInput → List Str
unfolding is_blank str_eq any
issues is_rfc3339 input = last_issues input (time_issues is_rfc3339 input (first_issues input []))

unfoldable pub validate_publish_input : (Str → Bool) → PublishInput → Result ValidationIssue Unit
unfolding issues
validate_publish_input is_rfc3339 input =
    let errors = issues is_rfc3339 input in
    if is_empty errors then ok tt else err (record { messages = errors })
