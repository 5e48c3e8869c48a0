-- ===== src/Text/Words.antt =====
-- Splitting and trimming texts without separators or spaces, and the numbers that a parser gives.
use mathlib.Core.List.{reverse, reverse_aux, reverse-reverse}
use route_deck.Prelude.{
  ℕ, ◌+◌, ◌-◌, ◌*◌, ◌<◌, ◌≡◌, refl, ap, ◌∙◌, Bool, true, not, some, [], ◌∷◌, ◌++◌, all, arith, ◌==◌,
  Bool-cases, and-true, inl, inr,
}
use route_deck.Text.{Text, trim, trim_start, is_whitespace}
use route_deck.Text.Decimal.{parse_uint, parse_digits}
use route_deck.Text.Split.{split, prepend}

abbrev pub is_solid : ℕ → Bool
is_solid c = not (is_whitespace c)

trim_start-solid : (s : Text) → all is_solid s ≡ true → trim_start s ≡ s
unfolding trim_start
trim_start-solid [] h = refl
trim_start-solid (c ∷ s) h = elim (Bool-cases (is_whitespace c)) [
  | inl white ↦ cc (rw white at h)
  | inr black ↦ rw black refl
]

all-reverse_aux :
    (p : ℕ → Bool) (s t : Text) → all p s ≡ true → all p t ≡ true → all p (reverse_aux s t) ≡ true
all-reverse_aux p [] t h k = k
all-reverse_aux p (c ∷ s) t h k =
    let (x, y) = and-true (p c) (all p s) h in all-reverse_aux p s (c ∷ t) y (rw (x, k) refl)

all-reverse : (p : ℕ → Bool) (s : Text) → all p s ≡ true → all p (reverse s) ≡ true
all-reverse p s h = all-reverse_aux p s [] h refl

-- A text without spaces is trimmed already.
pub trim-solid : (s : Text) → all is_solid s ≡ true → trim s ≡ s
unfolding trim
trim-solid s h =
    ap (λ t. reverse (trim_start (reverse t))) (trim_start-solid s h)
    ∙ ap reverse (trim_start-solid (reverse s) (all-reverse is_solid s h))
    ∙ reverse-reverse s

pub split-whole : (d : ℕ) (s : Text) → all (λ c. not (c == d)) s ≡ true → split d s ≡ s ∷ []
unfolding split prepend
split-whole d [] h = refl
split-whole d (c ∷ s) h = elim (Bool-cases (c == d)) [
  | inl same ↦ cc (rw same at h)
  | inr other ↦ rw (other, split-whole d s (rw other at h)) refl
]

pub split-append :
    (d : ℕ) (s t : Text) → all (λ c. not (c == d)) s ≡ true → split d (s ++ d ∷ t) ≡ s ∷ split d t
unfolding split prepend
split-append d [] t h = ground arith
split-append d (c ∷ s) t h = elim (Bool-cases (c == d)) [
  | inl same ↦ cc (rw same at h)
  | inr other ↦ rw (other, split-append d s t (rw other at h)) refl
]

pub all-weaken :
    (p q : ℕ → Bool) (s : Text)
    → ((c : ℕ) → p c ≡ true → q c ≡ true)
    → all p s ≡ true
    → all q s ≡ true
all-weaken p q [] h k = refl
all-weaken p q (c ∷ s) h k = ground (arith, all-weaken p q s h, h c)

parse_digits-lt :
    (limit acc n : ℕ) (s : Text) → acc < limit → parse_digits limit acc s ≡ some n → n < limit
unfolding parse_digits
parse_digits-lt limit acc n [] h k = ground arith
parse_digits-lt limit acc n (c ∷ s) h k =
    ground (arith, parse_digits-lt limit (acc * 10 + (c - b'0')) n s)

-- A number that was read is below the bound of its type.
pub parse_uint-lt : (limit n : ℕ) (s : Text) → 0 < limit → parse_uint limit s ≡ some n → n < limit
unfolding parse_uint
parse_uint-lt limit n [] h k = cc
parse_uint-lt limit n (c ∷ s) h k =
    ground (arith, parse_digits-lt limit 0 n s, parse_digits-lt limit 0 n (c ∷ s))
