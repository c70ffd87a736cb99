-- ===== src/Acl.antt =====
-- src/acl.rs: publish and subscribe permissions, decided by the first rule that matches.
pub mod Permitted
use greentic_events.Base.{
  Bool, true, false, ◌&&◌, Option, none, some, List, Result, ok, err, if◌then◌else◌, find,
  map_option, unwrap_or,
}
use greentic_events.Base.Str.{Str, codes}
use greentic_events.Event.{TenantCtx}
use greentic_events.Error.{Outcome, acl_denied}
use greentic_events.Pattern.{matches_pattern}

pub record TopicAclRule : Type 0 where
  pub tenant_pattern : Str
  pub topic_pattern : Str
  pub allow_publish : Bool
  pub allow_subscribe : Bool

pub record TopicAcl : Type 0 where
  pub rules : List TopicAclRule
  pub default_allow : Bool

-- `TopicAclRule::matches`
unfoldable pub rule_matches : TenantCtx → Str → TopicAclRule → Bool
rule_matches tenant topic rule =
    matches_pattern rule.tenant_pattern tenant.tenant && matches_pattern rule.topic_pattern topic

unfoldable pub allow_publish : TopicAcl → TenantCtx → Str → Outcome Unit
unfolding rule_matches find
allow_publish acl tenant topic =
    let rule = find (rule_matches tenant topic) acl.rules in
    if unwrap_or (map_option (λ (r : TopicAclRule). r.allow_publish) rule) acl.default_allow
    then ok tt
    else err (acl_denied tenant.tenant topic (codes "publish"))

unfoldable pub allow_subscribe : TopicAcl → TenantCtx → Str → Outcome Unit
unfolding rule_matches find
allow_subscribe acl tenant topic =
    let rule = find (rule_matches tenant topic) acl.rules in
    if unwrap_or (map_option (λ (r : TopicAclRule). r.allow_subscribe) rule) acl.default_allow
    then ok tt
    else err (acl_denied tenant.tenant topic (codes "subscribe"))
