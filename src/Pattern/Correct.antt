-- ===== src/Pattern/Correct.antt =====
-- src/pattern.rs: `matches_pattern` against the meaning of glob patterns.
use greentic_events.Base.{
  ℕ, ◌+◌, ◌≡◌, ◌≢◌, refl, ◌↔◌, inl, inr, Bool, true, false, Option, none, some, [], ◌∷◌, arith,
  length, Bool-cases, unwrap_or,
}
use greentic_events.Base.Str.{Str, str_eq, str_eq_iff, codes}
use greentic_events.Pattern.{star, question, simple_match, matches_pattern}
use greentic_events.Pattern.Glob.{Matches, done, skip, grow, byte, NoStar}
use greentic_events.Pattern.Loop.{Answers, match_loop-Answers}

-- The loop ends within its fuel, with an answer that is right where it is true, and also where it is
-- false if the text has no star.
pub simple_match-Answers : (p s : Str) → Answers (Matches p s) (NoStar s) (simple_match p s)
unfolding simple_match
simple_match-Answers p s =
    match_loop-Answers (Matches p s) (NoStar s) (length p + 1) _ (length s) p s none (record {
      sound = λ d. d;
      complete = λ _ d. skip refl d;
      clean = λ n. n;
      meaning = λ _ d. d;
      text_bound = omega arith;
      pattern_bound = omega arith;
      fuel = omega arith;
    })

Matches-star : (s : Str) → Matches (star ∷ []) s
Matches-star [] = skip refl done
Matches-star (c ∷ s) = grow refl (Matches-star s)

answer→Matches :
    {G : Type 0} (C : Type 0) (r : Option Bool) → Answers G C r → unwrap_or r false ≡ true → G
answer→Matches C none a h = absurd a
answer→Matches C (some true) a h = a
answer→Matches C (some false) a h = cc

Matches→answer : {G C : Type 0} (r : Option Bool) → Answers G C r → C → G → unwrap_or r false ≡ true
Matches→answer none a c g = absurd a
Matches→answer (some true) a c g = refl
Matches→answer (some false) a c g = absurd (a c g)

-- Whatever the pattern and the value, a match that is reported is one.
pub matches_pattern_sound : (p s : Str) → matches_pattern p s ≡ true → Matches p s
unfolding matches_pattern
matches_pattern_sound p s h = elim (Bool-cases (str_eq p (codes "*"))) [
  | inl e ↦ rw ((str_eq_iff p (codes "*")).0 e) (Matches-star s)
  | inr n ↦ answer→Matches (NoStar s) (simple_match p s) (simple_match-Answers p s) (rw n at h)
]

-- On a value without a star, `matches_pattern` returns true exactly where the glob pattern matches.
pub matches_pattern_iff : (p s : Str) → NoStar s → (matches_pattern p s ≡ true) ↔ Matches p s
unfolding matches_pattern
matches_pattern_iff p s clean = (
  matches_pattern_sound p s,
  λ d. elim (Bool-cases (str_eq p (codes "*"))) [
    | inl e ↦ rw e
    | inr n ↦ rw n (Matches→answer (simple_match p s) (simple_match-Answers p s) clean d)
  ],
)

-- A pattern that begins with a star, on a value that begins with a star and a byte that the rest of
-- the pattern does not take: the star is read as a plain byte and the match is missed.
pub literal_star_missed :
    (y c : ℕ)
    → y ≢ star
    → y ≢ question
    → y ≢ c
    → (matches_pattern (star ∷ y ∷ []) (star ∷ c ∷ y ∷ []) ≡ false)
      × Matches (star ∷ y ∷ []) (star ∷ c ∷ y ∷ [])
unfolding matches_pattern str_eq
literal_star_missed y c ns nq nc = (ground arith, skip_two)
  where
    skip_two : Matches (star ∷ y ∷ []) (star ∷ c ∷ y ∷ [])
    skip_two = grow refl (grow refl (skip refl (byte ns (inr refl) done)))
