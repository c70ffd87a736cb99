-- ===== src/Base/Io.antt =====
-- Fallible code that acts on the world outside, of states `W`: the error is its message.
use greentic_events.Base.Outcome.{Result, ok, err, map_err}
use greentic_events.Base.Str.{Str}
use mathlib.Core.Path.{◌≡◌, refl, ap}
use mathlib.Core.Logic.{◌⊎◌, inl, inr}

abbrev pub Io : Type 0 → Type 0 → Type 0
Io W A = W → Result Str A × W

module _ {W A B : Type 0} where
  -- The rest runs in the world that the first part leaves, unless that failed.
  abbrev pub io_then : (A → Io W B) → Result Str A × W → Result Str B × W
  io_then rest (ok a, w) = rest a w
  io_then rest (err e, w) = (err e, w)

  infixl 5 ◌>>=◌ ◌>>◌
  abbrev pub ◌>>=◌ : Io W A → (A → Io W B) → Io W B
  ◌>>=◌ m rest w = io_then rest (m w)

  abbrev pub ◌>>◌ : Io W A → Io W B → Io W B
  ◌>>◌ m rest w = io_then (λ _. rest) (m w)

module _ {W A : Type 0} where
  -- Code that does not look at the world.
  abbrev pub pure_io : Result Str A → Io W A
  pure_io r w = (r, w)

  -- `with_context`: the outermost message is the context.
  abbrev pub with_context : Str → Io W A → Io W A
  with_context message m w = let (r, w1) = m w in (map_err (λ _. message) r, w1)

  pub io-cases :
      (r : Result Str A × W)
      → ((a : A) × (w : W) × (r ≡ (ok a, w))) ⊎ ((e : Str) × (w : W) × (r ≡ (err e, w)))
  io-cases (ok a, w) = inl (a, w, refl)
  io-cases (err e, w) = inr (e, w, refl)

-- What came out of two parts came out of both.
pub io_then-parts :
    {W A B : Type 0} (m : Result Str A × W) (rest : A → Io W B) (b : B) (w : W)
    → io_then rest m ≡ (ok b, w)
    → (a : A) × (w1 : W) × (m ≡ (ok a, w1)) × (rest a w1 ≡ (ok b, w))
io_then-parts (ok a, w1) rest b w h = (a, w1, refl, h)
io_then-parts (err e, w1) rest b w h = cc h

-- A value that was found without the world, and that the world was left alone.
pub pure_io-parts :
    {W A : Type 0} (r : Result Str A) (a : A) (w w1 : W)
    → pure_io r w ≡ (ok a, w1)
    → (r ≡ ok a) × (w ≡ w1)
pure_io-parts r a w w1 h = (ap (λ p. p.0) h, ap (λ p. p.1) h)

-- A context changes errors only.
pub with_context-ok :
    {W A : Type 0} (message : Str) (m : Io W A) (a : A) (w w1 : W)
    → with_context message m w ≡ (ok a, w1)
    → m w ≡ (ok a, w1)
with_context-ok {W} {A} message m a w w1 = bare (m w)
  where
    bare :
        (r : Result Str A × W)
        → ◌≡◌ {A = Result Str A × W} (map_err (λ e. message) r.0, r.1) (ok a, w1)
        → r ≡ (ok a, w1)
    bare (ok b, w2) h = h
    bare (err e, w2) h = cc h
