-- ===== src/Base/Map.antt =====
-- Maps with text keys (`HashMap`, `BTreeMap`) as association lists.
use greentic_events.Base.{◌≡◌, refl, Option, none, some, List, [], ◌∷◌, arith, if◌then◌else◌}
use greentic_events.Base.Str.{Str, str_eq, str_eq_iff, str_eq_refl}

module _ {ℓ} {V : Type ℓ} where
  -- `get`
  unfoldable pub lookup : Str → List (Str × V) → Option V
  lookup k [] = none
  lookup k ((j, v) ∷ m) = if str_eq j k then some v else lookup k m

  -- `insert`
  unfoldable pub insert : Str → V → List (Str × V) → List (Str × V)
  insert k v [] = (k, v) ∷ []
  insert k v ((j, w) ∷ m) = if str_eq j k then (k, v) ∷ m else (j, w) ∷ insert k v m

  pub lookup-insert :
      (k j : Str) (v : V) (m : List (Str × V))
      → lookup j (insert k v m) ≡ (if str_eq k j then some v else lookup j m)
  unfolding lookup insert
  lookup-insert k j v [] = refl
  lookup-insert k j v ((i, w) ∷ m) =
      ground (
        arith,
        str_eq_iff k j,
        str_eq_iff i k,
        str_eq_iff i j,
        str_eq_refl i,
        lookup-insert k j v m,
      )
