-- ===== src/Pattern.antt =====
-- src/pattern.rs: the glob matcher that routing and access control share.
-- The loop's indices are modelled by the suffixes that they start: `pi` by the rest of the pattern,
-- `ti` by the rest of the text, `star_idx` and `match_idx` by the pair of suffixes saved at the last
-- star. The loop runs on fuel, and `none` stands for fuel that ran out.
pub mod Glob
mod Loop
pub mod Correct
pub mod Tests
use greentic_events.Base.{
  ℕ, zero, suc, ◌+◌, ◌*◌, Bool, true, false, ◌||◌, Option, none, some, List, [], ◌∷◌, ◌==◌,
  if◌then◌else◌, length, drop_first, unwrap_or,
}
use greentic_events.Base.Str.{Str, str_eq, codes}

abbrev pub star : ℕ
star = b'*'

abbrev pub question : ℕ
question = b'?'

-- `pi < pat.len() && (pat[pi] == b'?' || pat[pi] == text[ti])`
unfoldable pub accepts : Str → ℕ → Bool
accepts [] c = false
accepts (x ∷ p) c = x == question || x == c

-- `pi < pat.len() && pat[pi] == b'*'`
unfoldable pub at_star : Str → Bool
at_star [] = false
at_star (x ∷ p) = x == star

-- The second loop, and the test after it.
unfoldable pub only_stars : Str → Bool
only_stars [] = true
only_stars (x ∷ p) = if x == star then only_stars p else false

-- What `star_idx` and `match_idx` remember: the pattern behind the star, the text from the match on.
abbrev pub Saved : Type 0
Saved = Option (Str × Str)

-- The branch that returns to the last star.
unfoldable pub resume : Saved → (Str → Str → Saved → Option Bool) → Option Bool
resume none next = some false
resume (some (bp, bs)) next = next bp (drop_first bs) (some (bp, drop_first bs))

unfoldable pub match_loop : ℕ → Str → Str → Saved → Option Bool
match_loop zero p s saved = none
match_loop (suc f) p [] saved = some (only_stars p)
match_loop (suc f) p (c ∷ s) saved =
    let onward = match_loop f (drop_first p) s saved in
    let starred = match_loop f (drop_first p) (c ∷ s) (some (drop_first p, c ∷ s)) in
    let resumed = resume saved (match_loop f) in
    if accepts p c then onward else if at_star p then starred else resumed

abbrev pub match_fuel : Str → Str → ℕ
match_fuel p s = (length s + 1) * (length p + 1)

unfoldable pub simple_match : Str → Str → Option Bool
unfolding match_loop resume accepts at_star only_stars
simple_match pat text = match_loop (match_fuel pat text) pat text none

-- The loop always ends within its fuel (`Pattern.Correct`), so the default is never taken.
unfoldable pub matches_pattern : Str → Str → Bool
unfolding simple_match str_eq
matches_pattern pattern value =
    if str_eq pattern (codes "*") then true else unwrap_or (simple_match pattern value) false
