-- ===== src/E2e/Task.antt =====
-- Code whose outside calls may panic, and what `catch_unwind` makes of it.
use greentic_events.Base.{Bool, Result, ok, err, if◌then◌else◌, ◌≡◌, refl, ap, []}
use greentic_events.Base.Str.{Str}
use greentic_events.Base.Io.{Io}

-- How a call ended.
pub data Caught (A : Type 0) : Type 0 where
  returned : Result Str A → Caught A
  panicked : Caught A

-- `unwrap_or_else(|_| Err(anyhow!(message)))`
abbrev pub caught : {A : Type 0} → Str → Caught A → Result Str A
caught message (returned r) = r
caught message panicked = err message

abbrev pub Task : Type 0 → Type 0 → Type 0
Task W A = W → Caught A × W

module _ {W A B : Type 0} where
  -- The rest runs where the first part returned a value.
  abbrev pub proceed : (A → Task W B) → Caught A × W → Caught B × W
  proceed rest (returned (ok a), w) = rest a w
  proceed rest (returned (err e), w) = (returned (err e), w)
  proceed rest (panicked, w) = (panicked, w)

  infixl 5 ◌>>=◌ ◌>>◌
  abbrev pub ◌>>=◌ : Task W A → (A → Task W B) → Task W B
  ◌>>=◌ m rest w = proceed rest (m w)

  abbrev pub ◌>>◌ : Task W A → Task W B → Task W B
  ◌>>◌ m rest w = proceed (λ _. rest) (m w)

module _ {W A : Type 0} where
  abbrev pub give : Result Str A → Task W A
  give r w = (returned r, w)

-- Fallible code that does not panic.
abbrev pub safely : {W A : Type 0} → Io W A → Task W A
safely m w = let (r, w1) = m w in (returned r, w1)

-- `if test { return Err(anyhow!(message)) }`
abbrev pub bail_if : {W : Type 0} → Bool → Str → Task W Unit
bail_if test message w = (returned (if test then err message else ok tt), w)

-- What came out of two parts came out of both.
pub proceed-parts :
    {W A B : Type 0} (m : Caught A × W) (rest : A → Task W B) (b : B) (w : W)
    → proceed rest m ≡ (returned (ok b), w)
    → (a : A) × (w1 : W) × (m ≡ (returned (ok a), w1)) × (rest a w1 ≡ (returned (ok b), w))
proceed-parts (returned (ok a), w1) rest b w h = (a, w1, refl, h)
proceed-parts (returned (err e), w1) rest b w h = cc h
proceed-parts (panicked, w1) rest b w h = cc h

-- A value that was given.
pub give-parts :
    {W A : Type 0} (r : Result Str A) (a : A) (w w1 : W)
    → give r w ≡ (returned (ok a), w1)
    → (r ≡ ok a) × (w ≡ w1)
give-parts r a w w1 h = (ap (λ c. caught [] c.0) h, ap (λ c. c.1) h)
