-- ===== src/Pattern/Loop.antt =====
-- The matching loop answers the question that `Matches` asks, within its fuel.
use mathlib.Core.Path.{subst}
use greentic_events.Base.{
  ℕ, zero, suc, ◌+◌, ◌*◌, ◌≤◌, ◌<◌, ◌≡◌, ◌≢◌, refl, ◌⊎◌, inl, inr, Bool, true, false, Option, none,
  some, [], ◌∷◌, arith, ◌==◌, length, Bool-cases, ==_iff, false≢true, sym, ◌∙◌,
}
use greentic_events.Base.Str.{Str}
use greentic_events.Pattern.{
  star, question, accepts, at_star, only_stars, Saved, resume, match_loop,
}
use greentic_events.Pattern.Glob.{Matches, done, skip, grow, byte, NoStar}

-- Lemmas on `Matches` at a pattern that begins with a star.
module _ {p : Str} where
  after_star : {x : ℕ} → x ≡ star → Matches (x ∷ p) [] → Matches p []
  after_star e (skip _ d) = d

  merge_stars :
      {x y : ℕ} {s : Str} → y ≡ star → Matches (x ∷ y ∷ p) s → x ≡ star → Matches (y ∷ p) s
  merge_stars e (skip _ d) h = d
  merge_stars e (grow _ d) h = grow e (merge_stars e d h)
  merge_stars e (byte n _ _) h = absurd (n h)

  byte_head :
      {x c : ℕ} {s : Str}
      → x ≢ star
      → Matches (x ∷ p) (c ∷ s)
      → ((x ≡ question) ⊎ (x ≡ c)) × Matches p s
  byte_head n (skip e _) = absurd (n e)
  byte_head n (grow e _) = absurd (n e)
  byte_head n (byte _ h d) = (h, d)

  must_grow :
      {x c : ℕ} {s : Str}
      → Matches (x ∷ p) (c ∷ s)
      → x ≡ star
      → ¬ Matches p (c ∷ s)
      → Matches (x ∷ p) s
  must_grow (skip _ d) e n = absurd (n d)
  must_grow (grow _ d) e n = d
  must_grow (byte m _ _) e n = absurd (m e)

  no_byte_at_end : {x : ℕ} → x ≢ star → ¬ Matches (x ∷ p) []
  no_byte_at_end n (skip e _) = n e

module _ {p : Str} where
  -- Where the star takes more, the byte pattern behind it still begins after the first byte.
  star_over_byte :
      {w x c : ℕ} (s : Str) → w ≡ star → x ≢ star → Matches (w ∷ x ∷ p) (c ∷ s) → Matches (w ∷ p) s
  star_over_byte s e n (skip _ d) = skip e (byte_head n d).1
  star_over_byte [] e n (grow _ d) = absurd (no_byte_at_end n (after_star e d))
  star_over_byte (c ∷ s) e n (grow _ d) = grow e (star_over_byte s e n d)
  star_over_byte s e n (byte m _ _) = absurd (m e)

not_empty : {c : ℕ} {s : Str} → ¬ Matches [] (c ∷ s)
not_empty d = elim d [ ]

accepts-nil : (c : ℕ) → accepts [] c ≡ false
unfolding accepts
accepts-nil c = refl

at_star-nil : at_star [] ≡ false
unfolding at_star
at_star-nil = refl

at_star-eq : (x : ℕ) (p : Str) → at_star (x ∷ p) ≡ true → x ≡ star
unfolding at_star
at_star-eq x p h = ground arith

at_star-ne : (x : ℕ) (p : Str) → at_star (x ∷ p) ≡ false → x ≢ star
unfolding at_star
at_star-ne x p h = ground arith

accepts-star_free : (x c : ℕ) (p : Str) → accepts (x ∷ p) c ≡ true → (x ≡ question) ⊎ (x ≡ c)
unfolding accepts
accepts-star_free x c p h = ground arith

not-accepts : (x c : ℕ) (p : Str) → accepts (x ∷ p) c ≡ false → ¬ ((x ≡ question) ⊎ (x ≡ c))
unfolding accepts
not-accepts x c p h = ground arith

only_stars→Matches : (p : Str) → only_stars p ≡ true → Matches p []
unfolding only_stars
only_stars→Matches [] h = done
only_stars→Matches (x ∷ p) h = elim (Bool-cases (x == star)) [
  | inl e ↦ skip (ground arith) (only_stars→Matches p (rw e at h))
  | inr n ↦ cc (rw n at h)
]

Matches→only_stars : {p : Str} → Matches p [] → only_stars p ≡ true
unfolding only_stars
Matches→only_stars done = refl
Matches→only_stars (skip e d) = ground (arith, Matches→only_stars d)

-- A run of the loop that ended: `true` is right, and `false` is right if the text is `Clean`.
abbrev pub Answers : Type 0 → Type 0 → Option Bool → Type 0
Answers G Clean none = ⊥
Answers G Clean (some true) = G
Answers G Clean (some false) = Clean → ¬ G

only_stars-Answers :
    {G Clean : Type 0} (p : Str)
    → (Matches p [] → G)
    → (Clean → G → Matches p [])
    → Answers G Clean (some (only_stars p))
only_stars-Answers {G} {Clean} p sound complete = elim (Bool-cases (only_stars p)) [
  | inl h ↦ rw h (sound (only_stars→Matches p h))
  | inr h ↦ rw h (λ c g. false≢true (sym h ∙ Matches→only_stars (complete c g)))
]

-- `G` is the question asked at the start, and every pattern in play is shorter than `k`.
module _ (G Clean : Type 0) (k : ℕ) where
  -- What the saved star stands for. `m` bounds the text that is left to retry.
  abbrev pub Meaning : ℕ → Str → Str → Saved → Type 0
  Meaning m p s none = Clean → G → Matches p s
  Meaning m p s (some (bp, bs)) =
      (Clean → G → Matches (star ∷ bp) bs)
      × (Matches (star ∷ bp) bs → G)
      × (Clean → Matches bp bs → Matches p s)
      × (Clean → NoStar bs)
      × (length s ≤ length bs)
      × (length bs ≤ m)
      × (length bp < k)

  pub record Inv (f m : ℕ) (p s : Str) (saved : Saved) : Type 0 where
    pub sound : Matches p s → G
    pub complete : Clean → G → Matches (star ∷ p) s
    pub clean : Clean → NoStar s
    pub meaning : Meaning m p s saved
    pub text_bound : length s ≤ m
    pub pattern_bound : length p < k
    pub fuel : m * k + length p < f

  pub Inv-restart :
      {f m : ℕ} {p s : Str}
      → (Clean → G → Matches (star ∷ p) s)
      → (Matches (star ∷ p) s → G)
      → (Clean → NoStar s)
      → length s ≤ m
      → length p < k
      → m * k + length p < f
      → Inv f m p s (some (p, s))
  Inv-restart complete sound clean hs hp hf = record {
    sound = λ d. sound (skip refl d);
    complete = complete;
    clean = clean;
    meaning = (complete, sound, λ _ d. d, clean, omega arith, hs, hp);
    text_bound = hs;
    pattern_bound = hp;
    fuel = hf;
  }

  Meaning-byte :
      (m x c : ℕ) (p s : Str) (saved : Saved)
      → (Clean → x ≢ star)
      → Meaning m (x ∷ p) (c ∷ s) saved
      → Meaning m p s saved
  Meaning-byte m x c p s none n h = λ cl g. (byte_head (n cl) (h cl g)).1
  Meaning-byte m x c p s (some (bp, bs)) n (complete, sound, down, clean, shorter, hs, hp) =
      (complete, sound, λ cl d. (byte_head (n cl) (down cl d)).1, clean, omega arith, hs, hp)

  no_star_taken :
      {f m x c : ℕ} {p s : Str} {saved : Saved}
      → Inv f m (x ∷ p) (c ∷ s) saved
      → accepts (x ∷ p) c ≡ true
      → Clean
      → x ≢ star
  no_star_taken {x} {c} {p} i h cl e =
      let n = (i.clean cl).0 in ground (arith, accepts-star_free x c p h, n)

  -- The pattern's byte took the text's: a star of the pattern can only meet one of the text.
  Inv-byte :
      {f m x c : ℕ} {p s : Str} {saved : Saved}
      → Inv (suc f) m (x ∷ p) (c ∷ s) saved
      → accepts (x ∷ p) c ≡ true
      → Inv f m p s saved
  Inv-byte {m} {x} {c} {p} {s} {saved} i h = record {
    sound = λ d. elim (Bool-cases (x == star)) [
      | inl e ↦ i.sound (grow ((==_iff x star).0 e) (skip ((==_iff x star).0 e) d))
      | inr n ↦
          i.sound
            (byte (λ e. false≢true (sym n ∙ (==_iff x star).1 e)) (accepts-star_free x c p h) d)
    ];
    complete = λ cl g. star_over_byte s refl (no_star_taken i h cl) (i.complete cl g);
    clean = λ cl. (i.clean cl).1;
    meaning = Meaning-byte m x c p s saved (no_star_taken i h) i.meaning;
    text_bound = omega arith;
    pattern_bound = omega arith;
    fuel = omega arith;
  }

  -- After a mismatch the saved star takes one more byte, which lowers `m` and pays for the pattern.
  resume-Answers :
      {f c : ℕ} {p s : Str} (m : ℕ) (saved : Saved) (next : Str → Str → Saved → Option Bool)
      → ((m' : ℕ) (p' s' : Str) (b : Saved) → Inv f m' p' s' b → Answers G Clean (next p' s' b))
      → Inv (suc f) m p (c ∷ s) saved
      → (Clean → ¬ Matches p (c ∷ s))
      → Answers G Clean (resume saved next)
  unfolding resume
  resume-Answers m none next ih i no_match = λ cl g. no_match cl (i.meaning cl g)
  resume-Answers m (some (bp, [])) next ih i no_match = absurd (omega arith)
  resume-Answers zero (some (bp, x ∷ bs)) next ih i no_match = absurd (omega arith)
  resume-Answers (suc m) (some (bp, x ∷ bs)) next ih i no_match =
      let (complete, sound, down, clean, _, _, _) = i.meaning in
      ih m bp bs (some (bp, bs)) (
        Inv-restart (λ cl g. must_grow (complete cl g) refl (λ d. no_match cl (down cl d)))
          (λ d. sound (grow refl d)) (λ cl. (clean cl).1) (omega arith) (omega arith) (omega arith))

  pub match_loop-Answers :
      (f m : ℕ) (p s : Str) (saved : Saved)
      → Inv f m p s saved
      → Answers G Clean (match_loop f p s saved)
  unfolding match_loop
  match_loop-Answers zero m p s saved i = omega arith
  match_loop-Answers (suc f) m p [] saved i =
      only_stars-Answers p i.sound (λ cl g. after_star refl (i.complete cl g))
  match_loop-Answers (suc f) m [] (c ∷ s) saved i =
      rw (accepts-nil c, at_star-nil)
        (resume-Answers m saved (match_loop f) (match_loop-Answers f) i (λ _ d. not_empty d))
  match_loop-Answers (suc f) m (x ∷ p) (c ∷ s) saved i = elim (Bool-cases (accepts (x ∷ p) c)) [
    | inl h ↦ rw h (match_loop-Answers f m p s saved (Inv-byte i h))
    | inr h ↦ elim (Bool-cases (at_star (x ∷ p))) [
      | inl e ↦
          rw (h, e)
            (match_loop-Answers f m p (c ∷ s) (some (p, c ∷ s)) (
              Inv-restart
                (λ cl g.
                  subst (λ y. Matches (y ∷ p) (c ∷ s)) (at_star-eq x p e)
                    (merge_stars (at_star-eq x p e) (i.complete cl g) refl))
                (subst (λ y. Matches (y ∷ p) (c ∷ s) → G) (at_star-eq x p e) i.sound) i.clean
                i.text_bound (omega arith) (omega arith)))
      | inr n ↦
          rw (h, n)
            (resume-Answers m saved (match_loop f) (match_loop-Answers f) i
              (λ _ d. not-accepts x c p h (byte_head (at_star-ne x p n) d).0))
    ]
  ]
