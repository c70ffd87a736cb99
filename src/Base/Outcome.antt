-- ===== src/Base/Outcome.antt =====
-- Rust's `Result`, with its error type first, and `Option`'s combinators as the code writes them.
use mathlib.Core.Path.{◌≡◌, refl, ap}
use mathlib.Core.Logic.{◌⊎◌, inl, inr}
use mathlib.Core.Bool.{Bool, true, false}
use mathlib.Core.Option.{Option, none, some}

pub data Result {ℓ} (E A : Type ℓ) : Type ℓ where
  ok : A → Result E A
  err : E → Result E A

abbrev pub is_some {ℓ} : {A : Type ℓ} → Option A → Bool
is_some none = false
is_some (some a) = true

-- `Option::unwrap_or`
abbrev pub unwrap_or {ℓ} : {A : Type ℓ} → Option A → A → A
unwrap_or none d = d
unwrap_or (some a) d = a

-- `Option::map`
abbrev pub map_option {ℓ κ} : {A : Type ℓ} {B : Type κ} → (A → B) → Option A → Option B
map_option f none = none
map_option f (some a) = some (f a)

-- `Option::and_then`
abbrev pub and_then {ℓ κ} : {A : Type ℓ} {B : Type κ} → Option A → (A → Option B) → Option B
and_then none f = none
and_then (some a) f = f a

-- `Option::ok_or_else`
abbrev pub ok_or {ℓ} : {E A : Type ℓ} → Option A → E → Result E A
ok_or none e = err e
ok_or (some a) e = ok a

-- `Result::map_err`
abbrev pub map_err {ℓ} : {E F A : Type ℓ} → (E → F) → Result E A → Result F A
map_err f (ok a) = ok a
map_err f (err e) = err (f e)

-- The `?` operator.
abbrev pub then_ok {ℓ} : {E A B : Type ℓ} → Result E A → (A → Result E B) → Result E B
then_ok (ok a) rest = rest a
then_ok (err e) rest = err e

pub some_eq {ℓ} : {A : Type ℓ} {a b : A} → some a ≡ some b → a ≡ b
some_eq {a} h = ap (λ o. unwrap_or o a) h

pub ok_or-cases {ℓ} :
    {E A : Type ℓ} (o : Option A) (e : E) → ((a : A) × (ok_or o e ≡ ok a)) ⊎ (ok_or o e ≡ err e)
ok_or-cases none e = inr refl
ok_or-cases (some a) e = inl (a, refl)

pub Result-cases {ℓ} :
    {E A : Type ℓ} (r : Result E A) → ((a : A) × (r ≡ ok a)) ⊎ ((e : E) × (r ≡ err e))
Result-cases (ok a) = inl (a, refl)
Result-cases (err e) = inr (e, refl)

abbrev ok_value {ℓ} : {E A : Type ℓ} → A → Result E A → A
ok_value d (ok a) = a
ok_value d (err e) = d

pub ok_eq {ℓ} : {E A : Type ℓ} {a b : A} → ◌≡◌ {A = Result E A} (ok a) (ok b) → a ≡ b
ok_eq {a} h = ap (ok_value a) h

-- What came out of two steps came out of both.
pub then_ok-parts {ℓ} :
    {E A B : Type ℓ} (r : Result E A) (rest : A → Result E B) (b : B)
    → then_ok r rest ≡ ok b
    → (a : A) × (r ≡ ok a) × (rest a ≡ ok b)
then_ok-parts (ok a) rest b h = (a, refl, h)
then_ok-parts (err e) rest b h = cc h

pub ok_or-some {ℓ} : {E A : Type ℓ} (o : Option A) (e : E) (a : A) → ok_or o e ≡ ok a → o ≡ some a
ok_or-some none e a h = cc h
ok_or-some (some b) e a h = ap some (ok_eq h)

-- The value of a result whose error was changed.
pub map_err-ok :
    {E F A : Type 0} (g : E → F) (r : Result E A) (a : A) → map_err g r ≡ ok a → r ≡ ok a
map_err-ok g (ok b) a h = ap ok (ok_eq h)
map_err-ok g (err e) a h = cc h
