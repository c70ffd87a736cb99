-- ===== src/Pattern/Glob.antt =====
-- What a glob pattern means, with no search order in it.
use greentic_events.Base.{ℕ, ◌≡◌, ◌≢◌, ◌⊎◌, [], ◌∷◌, All}
use greentic_events.Base.Str.{Str}

abbrev star : ℕ
star = b'*'

abbrev question : ℕ
question = b'?'

-- `*` stands for any run of bytes, `?` for one byte, and any other byte for itself.
pub data Matches : Str → Str → Type 0 where
  done : Matches [] []
  skip : {x : ℕ} {p s : Str} → x ≡ star → Matches p s → Matches (x ∷ p) s
  grow : {x c : ℕ} {p s : Str} → x ≡ star → Matches (x ∷ p) s → Matches (x ∷ p) (c ∷ s)
  byte :
      {x c : ℕ} {p s : Str}
      → x ≢ star
      → (x ≡ question) ⊎ (x ≡ c)
      → Matches p s
      → Matches (x ∷ p) (c ∷ s)

-- The text holds no star of its own.
abbrev pub NoStar : Str → Type 0
NoStar s = All (λ c. c ≢ star) s
