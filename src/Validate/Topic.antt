-- ===== src/Validate/Topic.antt =====
-- crates/greentic-events-validate/src/lib.rs: `is_valid_event_topic` against the regular expression
-- that its diagnostic cites.
use greentic_events.Base.{
  ℕ, ◌≡◌, refl, ap, sym, ◌∙◌, ◌↔◌, inl, inr, Bool, true, false, not, ◌&&◌, ◌||◌, false≢true, List,
  [], ◌∷◌, ◌++◌, if◌then◌else◌, ◌==◌, arith, all, is_empty, Bool-cases, and_parts, ==_iff, ==_refl,
}
use greentic_events.Base.Str.{Str}
use greentic_events.Validate.{
  dot, head_char, tail_char, cons_first, split_dot, check_tail, check_segments,
  is_valid_event_topic,
}
use mathlib.Core.Path.{subst}
use mathlib.Core.List.{append-nil}

pub data Regex : Type 0 where
  class : (ℕ → Bool) → Regex
  seq : Regex → Regex → Regex
  plus : Regex → Regex

-- `Matches r s`: the whole text is in the language of the expression.
pub data Matches : Regex → Str → Type 0 where
  char : {f : ℕ → Bool} (c : ℕ) → f c ≡ true → Matches (class f) (c ∷ [])
  both : {r q : Regex} {s t : Str} → Matches r s → Matches q t → Matches (seq r q) (s ++ t)
  once : {r : Regex} {s : Str} → Matches r s → Matches (plus r) s
  again : {r : Regex} {s t : Str} → Matches r s → Matches (plus r) t → Matches (plus r) (s ++ t)

-- ^[a-z0-9]+(\.[a-z0-9_-]+)+$
abbrev pub topic_regex : Regex
topic_regex =
    seq (plus (class head_char)) (plus (seq (class (λ c. c == dot)) (plus (class tail_char))))

-- A segment: some characters, all of the class.
abbrev segment_ok : (ℕ → Bool) → Str → Bool
segment_ok f s = not (is_empty s) && all f s

all-append : (f : ℕ → Bool) (s t : Str) → all f s ≡ true → all f t ≡ true → all f (s ++ t) ≡ true
unfolding all
all-append f [] t h k = k
all-append f (c ∷ s) t h k = ground (arith, all-append f s t)

plus-segment : {f : ℕ → Bool} {s : Str} → Matches (plus (class f)) s → segment_ok f s ≡ true
unfolding all
plus-segment (once (char c h)) = rw h refl
plus-segment {f} (again {t = t} (char c h) m) = rw h (and_parts _ _ (plus-segment m)).1

segment-plus : {f : ℕ → Bool} (s : Str) → segment_ok f s ≡ true → Matches (plus (class f)) s
unfolding all
segment-plus [] h = elim (false≢true h) [ ]
segment-plus (c ∷ []) h = once (char c (and_parts _ _ h).0)
segment-plus {f} (c ∷ d ∷ s) h =
    let (first, rest) = and_parts (f c) (all f (d ∷ s)) h in
    again (char c first) (segment-plus (d ∷ s) rest)

-- A dot before each segment.
abbrev dotted : List Str → Str
dotted [] = []
dotted (x ∷ xs) = dot ∷ (x ++ dotted xs)

abbrev joined : List Str → Str
joined [] = []
joined (x ∷ xs) = x ++ dotted xs

abbrev tail_regex : Regex
tail_regex = plus (seq (class (λ c. c == dot)) (plus (class tail_char)))

dotted-tail_regex :
    (x : Str) (xs : List Str)
    → all (segment_ok tail_char) (x ∷ xs) ≡ true
    → Matches tail_regex (dotted (x ∷ xs))
unfolding all
dotted-tail_regex x [] h =
    subst (λ t. Matches tail_regex (dot ∷ t)) (sym (append-nil x))
      (once (both (char dot (==_refl dot)) (segment-plus x (and_parts _ _ h).0)))
dotted-tail_regex x (y ∷ ys) h =
    let (first, rest) =
      and_parts (segment_ok tail_char x) (all (segment_ok tail_char) (y ∷ ys)) h in
    again (both (char dot (==_refl dot)) (segment-plus x first)) (dotted-tail_regex y ys rest)

one_tail :
    {s : Str}
    → Matches (seq (class (λ c. c == dot)) (plus (class tail_char))) s
    → (x : Str) × (s ≡ dot ∷ x) × (segment_ok tail_char x ≡ true)
one_tail (both {t = t} (char c h) m) = (t, ap (λ c. c ∷ t) ((==_iff c dot).0 h), plus-segment m)

tail_regex-dotted :
    {s : Str}
    → Matches tail_regex s
    → (xs : List Str) × (s ≡ dotted xs)
      × (all (segment_ok tail_char) xs ≡ true)
      × (is_empty xs ≡ false)
unfolding all
tail_regex-dotted (once m) =
    let (x, e, h) = one_tail m in
    (x ∷ [], e ∙ ap (λ t. dot ∷ t) (sym (append-nil x)), rw h refl, refl)
tail_regex-dotted (again m ms) =
    let (x, e, h) = one_tail m in
    let (xs, e', h', n) = tail_regex-dotted ms in
    (x ∷ xs, (λ i. e i ++ e' i), rw (h, h') refl, refl)

no_dot : (f : ℕ → Bool) → f dot ≡ false → (c : ℕ) → f c ≡ true → (c == dot) ≡ false
no_dot f h c k = elim (Bool-cases (c == dot)) [
  | inl e ↦ elim (false≢true (sym h ∙ ap f (sym ((==_iff c dot).0 e)) ∙ k)) [ ]
  | inr e ↦ e
]

split_dot-prefix :
    (f : ℕ → Bool) (a t : Str) (xs : List Str)
    → f dot ≡ false
    → all f a ≡ true
    → split_dot t ≡ [] ∷ xs
    → split_dot (a ++ t) ≡ a ∷ xs
unfolding all split_dot
split_dot-prefix f [] t xs d h e = e
split_dot-prefix f (c ∷ a) t xs d h e =
    let (first, rest) = and_parts (f c) (all f a) h in
    rw (no_dot f d c first, split_dot-prefix f a t xs d rest e) refl

split_dot-dotted :
    (xs : List Str) → all (segment_ok tail_char) xs ≡ true → split_dot (dotted xs) ≡ [] ∷ xs
unfolding all split_dot
split_dot-dotted [] h = refl
split_dot-dotted (x ∷ xs) h =
    let (first, rest) = and_parts (segment_ok tail_char x) (all (segment_ok tail_char) xs) h in
    ap (λ r. [] ∷ r)
      (split_dot-prefix tail_char x (dotted xs) xs refl (and_parts _ _ first).1
        (split_dot-dotted xs rest))

cons_first-nonempty : (c : ℕ) (xs : List Str) → is_empty (cons_first c xs) ≡ false
cons_first-nonempty c [] = refl
cons_first-nonempty c (x ∷ xs) = refl

joined-cons_first : (c : ℕ) (xs : List Str) → joined (cons_first c xs) ≡ c ∷ joined xs
joined-cons_first c [] = refl
joined-cons_first c (x ∷ xs) = refl

split_dot-nonempty : (s : Str) → is_empty (split_dot s) ≡ false
unfolding split_dot
split_dot-nonempty [] = refl
split_dot-nonempty (c ∷ s) = elim (Bool-cases (c == dot)) [
  | inl e ↦ rw e refl
  | inr e ↦ rw e (cons_first-nonempty c (split_dot s))
]

dotted-joined : (xs : List Str) → is_empty xs ≡ false → dotted xs ≡ dot ∷ joined xs
dotted-joined [] h = elim (false≢true (sym h)) [ ]
dotted-joined (x ∷ xs) h = refl

joined-split_dot : (s : Str) → joined (split_dot s) ≡ s
unfolding split_dot
joined-split_dot [] = refl
joined-split_dot (c ∷ s) = elim (Bool-cases (c == dot)) [
  | inl e ↦ rw e (
      dotted-joined (split_dot s) (split_dot-nonempty s)
      ∙ (λ i. sym ((==_iff c dot).0 e) i ∷ joined-split_dot s i))
  | inr e ↦ rw e (joined-cons_first c (split_dot s) ∙ ap (λ t. c ∷ t) (joined-split_dot s))
]

segment_test : (e a r : Bool) → (if e || not a then false else r) ≡ ((not e && a) && r)
segment_test true a r = refl
segment_test false true r = refl
segment_test false false r = refl

regroup : (o a b : Bool) → (o && (a && true)) ≡ ((o && a) && (b || true))
regroup o a b = ground arith

check_tail-all :
    (xs : List Str) (b : Bool)
    → check_tail xs b ≡ (all (segment_ok tail_char) xs && (b || not (is_empty xs)))
unfolding check_tail all
check_tail-all [] true = refl
check_tail-all [] false = refl
check_tail-all (x ∷ xs) b =
    segment_test (is_empty x) (all tail_char x) (check_tail xs true)
    ∙ ap (λ r. segment_ok tail_char x && r) (check_tail-all xs true)
    ∙ regroup (segment_ok tail_char x) (all (segment_ok tail_char) xs) b

check_segments-Matches :
    (s : Str) (xs : List Str) → joined xs ≡ s → check_segments xs ≡ true → Matches topic_regex s
unfolding check_tail
check_segments-Matches s [] e h = elim (false≢true h) [ ]
check_segments-Matches s (x ∷ []) e h =
    elim (false≢true
      (and_parts (segment_ok head_char x) false
        (sym (segment_test (is_empty x) (all head_char x) false) ∙ h)).1) [ ]
check_segments-Matches s (x ∷ y ∷ ys) e h =
    let (first, rest) =
      and_parts (segment_ok head_char x) (check_tail (y ∷ ys) false)
        (sym (segment_test (is_empty x) (all head_char x) (check_tail (y ∷ ys) false)) ∙ h) in
    let (tail, some_tail) =
      and_parts (all (segment_ok tail_char) (y ∷ ys)) true
        (sym (check_tail-all (y ∷ ys) false) ∙ rest) in
    subst (Matches topic_regex) e (both (segment-plus x first) (dotted-tail_regex y ys tail))

check_joined :
    (a : Str) (xs : List Str)
    → segment_ok head_char a ≡ true
    → all (segment_ok tail_char) xs ≡ true
    → is_empty xs ≡ false
    → is_valid_event_topic (a ++ dotted xs) ≡ true
unfolding is_valid_event_topic
check_joined [] xs h k n = elim (false≢true h) [ ]
check_joined (c ∷ a) xs h k n =
    rw
      (split_dot-prefix head_char (c ∷ a) (dotted xs) xs refl
        (and_parts true (all head_char (c ∷ a)) h).1 (split_dot-dotted xs k))
      (segment_test false (all head_char (c ∷ a)) (check_tail xs false)
        ∙ ap (λ ok. ok && check_tail xs false) h
        ∙ check_tail-all xs false
        ∙ (λ i. k i && (false || not (n i))))

topic_regex-valid : {s : Str} → Matches topic_regex s → is_valid_event_topic s ≡ true
topic_regex-valid (both {s = s} m ms) =
    let (xs, e, k, n) = tail_regex-dotted ms in
    subst (λ t. is_valid_event_topic (s ++ t) ≡ true) (sym e)
      (check_joined s xs (plus-segment m) k n)

valid-topic_regex : (s : Str) → is_valid_event_topic s ≡ true → Matches topic_regex s
unfolding is_valid_event_topic
valid-topic_regex [] h = elim (false≢true h) [ ]
valid-topic_regex (c ∷ s) h =
    check_segments-Matches (c ∷ s) (split_dot (c ∷ s)) (joined-split_dot (c ∷ s)) h

-- A text is a valid event topic exactly if it matches the regular expression
-- ^[a-z0-9]+(\.[a-z0-9_-]+)+$ that the diagnostic cites.
pub is_valid_event_topic_iff : (s : Str) → (is_valid_event_topic s ≡ true) ↔ Matches topic_regex s
is_valid_event_topic_iff s = (valid-topic_regex s, topic_regex-valid)
