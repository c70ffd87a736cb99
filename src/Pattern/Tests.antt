-- ===== src/Pattern/Tests.antt =====
-- The unit tests of src/pattern.rs, and the theorems at inputs.
use greentic_events.Base.{◌≡◌, refl, true, false}
use greentic_events.Base.Str.{codes}
use greentic_events.Pattern.{matches_pattern}

prefix_star : matches_pattern (codes "greentic.*") (codes "greentic.repo.build") ≡ true
unfolding matches_pattern
prefix_star = refl

one_byte : matches_pattern (codes "foo?bar") (codes "fooxbar") ≡ true
unfolding matches_pattern
one_byte = refl

lone_star : matches_pattern (codes "*") (codes "anything") ≡ true
unfolding matches_pattern
lone_star = refl

exact : matches_pattern (codes "exact") (codes "other") ≡ false
unfolding matches_pattern
exact = refl

longer_prefix : matches_pattern (codes "prefix*") (codes "pre") ≡ false
unfolding matches_pattern
longer_prefix = refl

wildcard_topic : matches_pattern (codes "*.x") (codes "*.y.x") ≡ false
unfolding matches_pattern
wildcard_topic = refl
