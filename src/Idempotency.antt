-- ===== src/Idempotency.antt =====
-- src/idempotency.rs: the store of idempotency keys.
use greentic_events.Base.{Bool, true, false, List, ◌∷◌, any, if◌then◌else◌}
use greentic_events.Base.Str.{Str, str_eq}

-- The trait, over the state that an implementation keeps. `record_key` returns true where the key
-- is newly recorded.
pub record IdempotencyStore (S : Type 0) : Type 0 where
  pub record_key : Str → S → Bool × S

unfoldable pub seen_before : Str → List Str → Bool
unfolding any
seen_before key seen = any (str_eq key) seen

-- `HashSet::insert`, the set as a list without repetitions.
unfoldable pub insert_key : Str → List Str → Bool × List Str
unfolding seen_before
insert_key key seen = if seen_before key seen then (false, seen) else (true, key ∷ seen)

abbrev pub in_memory : IdempotencyStore (List Str)
in_memory = record { record_key = insert_key }
