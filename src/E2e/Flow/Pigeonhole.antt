-- ===== src/E2e/Flow/Pigeonhole.antt =====
-- A list of names without repetition, all from another list, is no longer than that list.
use greentic_events.Base.{
  suc, ◌≤◌, ◌≡◌, refl, ap, sym, ◌∙◌, Bool, true, false, false≢true, List, [], ◌∷◌, length, any, All,
  arith, Bool-cases, inl, inr, if◌then◌else◌, ◌||◌,
}
use greentic_events.Base.Str.{Str, str_eq, str_eq_iff}

abbrev pub has : List Str → Str → Bool
has xs x = any (str_eq x) xs

abbrev pub NoRepeat : List Str → Type 0
NoRepeat [] = Unit
NoRepeat (x ∷ xs) = (has xs x ≡ false) × NoRepeat xs

erase : Str → List Str → List Str
erase x [] = []
erase x (y ∷ ys) = let rest = erase x ys in if str_eq x y then ys else y ∷ rest

length-erase : (x : Str) (ys : List Str) → has ys x ≡ true → suc (length (erase x ys)) ≡ length ys
unfolding erase any
length-erase x [] h = elim (false≢true h) [ ]
length-erase x (y ∷ ys) h = elim (Bool-cases (str_eq x y)) [
  | inl e ↦ rw e refl
  | inr e ↦ rw e (ap suc (length-erase x ys (sym (ap (λ b. b || has ys x) e) ∙ h)))
]

has-erase :
    (x z : Str) (ys : List Str) → str_eq z x ≡ false → has ys z ≡ true → has (erase x ys) z ≡ true
unfolding erase any
has-erase x z [] d h = h
has-erase x z (y ∷ ys) d h =
    ground (arith, str_eq_iff x y, str_eq_iff z y, str_eq_iff z x, has-erase x z ys)

neither : (a b : Bool) → (a || b) ≡ false → (a ≡ false) × (b ≡ false)
neither true b h = elim (false≢true (sym h)) [ ]
neither false b h = (refl, h)

-- What is left of a list that all members of another come from, when one is taken out that is no
-- member of the other.
All-erase :
    (x : Str) (xs ys : List Str)
    → has xs x ≡ false
    → All (λ z. has ys z ≡ true) xs
    → All (λ z. has (erase x ys) z ≡ true) xs
unfolding any
All-erase x [] ys h a = tt
All-erase x (z ∷ xs) ys h a =
    let (apart, rest) = neither (str_eq x z) (has xs x) h in
    (
      has-erase x z ys (ground (arith, str_eq_iff z x, str_eq_iff x z)) a.0,
      All-erase x xs ys rest a.1,
    )

pub pigeonhole :
    (xs ys : List Str) → NoRepeat xs → All (λ z. has ys z ≡ true) xs → length xs ≤ length ys
pigeonhole [] ys n a = omega arith
pigeonhole (x ∷ xs) ys n a =
    omega (arith, length-erase x ys a.0, pigeonhole xs (erase x ys) n.1 (All-erase x xs ys n.0 a.1))
