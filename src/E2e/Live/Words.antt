-- ===== src/E2e/Live/Words.antt =====
-- `str::split_whitespace`, by which src/e2e.rs splits a command.
use greentic_events.Base.{
  ℕ, zero, suc, refl, leb, ◌==◌, ◌&&◌, ◌||◌, List, [], ◌∷◌, ◌++◌, if◌then◌else◌, ◌≡◌,
}
use greentic_events.Base.Str.{Str}

-- The bytes of the white space that a text starts with: of one character, or none.
unfoldable pub leading_space : Str → ℕ
leading_space [] = 0
leading_space (a ∷ b ∷ c ∷ s) =
    if (leb 9 a && leb a 13) || a == 32
    then 1
    else if a == 0xc2 && (b == 0x85 || b == 0xa0)
    then 2
    else if (a == 0xe1 && b == 0x9a && c == 0x80)
        || (a == 0xe2
            && b == 0x80
            && ((leb 0x80 c && leb c 0x8a) || c == 0xa8 || c == 0xa9 || c == 0xaf))
        || (a == 0xe2 && b == 0x81 && c == 0x9f)
        || (a == 0xe3 && b == 0x80 && c == 0x80)
    then 3
    else 0
leading_space (a ∷ b ∷ []) =
    if (leb 9 a && leb a 13) || a == 32
    then 1
    else if a == 0xc2 && (b == 0x85 || b == 0xa0)
    then 2
    else 0
leading_space (a ∷ []) = if (leb 9 a && leb a 13) || a == 32 then 1 else 0

-- A word that ends, if there is one.
abbrev flush : Str → List Str → List Str
flush [] words = words
flush (c ∷ word) words = (c ∷ word) ∷ words

-- The words from here on: so many bytes of white space are still to be passed over, and the word
-- so far is that.
unfoldable pub split_words : ℕ → Str → Str → List Str
unfolding leading_space
split_words n word [] = flush word []
split_words (suc n) word (c ∷ s) = split_words n word s
split_words zero word (c ∷ s) = elim (leading_space (c ∷ s)) [
  | zero ↦ split_words zero (word ++ (c ∷ [])) s
  | suc n ↦ flush word (split_words n [] s)
]

unfoldable pub split_whitespace : Str → List Str
unfolding split_words
split_whitespace s = split_words 0 [] s

two_words :
    split_whitespace (10 ∷ 97 ∷ 0xc2 ∷ 0xa0 ∷ 32 ∷ 98 ∷ 99 ∷ []) ≡ (97 ∷ []) ∷ (98 ∷ 99 ∷ []) ∷ []
unfolding split_whitespace
two_words = refl
