-- ===== src/Text/Decimal.antt =====
-- Decimal numerals: `u16::from_str`, `u64::from_str` and their `Display`.
use native.Mathlib.Nat.{pow-suc}
use route_deck.Prelude.{
  ℕ, zero, suc, ◌+◌, ◌-◌, ◌*◌, ◌/◌, ◌%◌, ◌^◌, ◌<◌, ◌≡◌, refl, true, false, ◌&&◌, Option, none, some,
  [], ◌∷◌, ◌++◌, ltb, ◌==◌, if◌then◌else◌, all, all-append, arith, ◌∙◌, subst, inl, inr, Bool-cases,
}
use route_deck.Text.{Text, is_ascii_digit, is_empty}

-- The digits of a numeral below `limit`, on top of those read before.
unfoldable pub parse_digits : ℕ → ℕ → Text → Option ℕ
parse_digits limit acc [] = some acc
parse_digits limit acc (c ∷ s) =
    let acc' = acc * 10 + (c - b'0') in
    let rest = parse_digits limit acc' s in
    if is_ascii_digit c && ltb acc' limit then rest else none

-- The parser of unsigned integers below `limit`; one leading `+` is accepted.
unfoldable pub parse_uint : ℕ → Text → Option ℕ
unfolding parse_digits
parse_uint limit [] = none
parse_uint limit (c ∷ s) =
    if c == b'+'
    then (if is_empty s then none else parse_digits limit 0 s)
    else parse_digits limit 0 (c ∷ s)

decimal_from : ℕ → ℕ → Text
decimal_from zero n = []
decimal_from (suc fuel) n =
    let rest = decimal_from fuel (n / 10) ++ (b'0' + n % 10) ∷ [] in
    if ltb n 10 then (b'0' + n) ∷ [] else rest

-- A 64-bit number has at most twenty digits.
unfoldable pub to_decimal : ℕ → Text
unfolding decimal_from
to_decimal n = decimal_from 20 n

parse_digits-snoc :
    (limit acc a d : ℕ) (s : Text)
    → parse_digits limit acc s ≡ some a
    → d < 10
    → a * 10 + d < limit
    → parse_digits limit acc (s ++ (b'0' + d) ∷ []) ≡ some (a * 10 + d)
unfolding parse_digits
parse_digits-snoc limit acc a d [] h k m = ground arith
parse_digits-snoc limit acc a d (c ∷ s) h k m =
    ground (arith, parse_digits-snoc limit (acc * 10 + (c - b'0')) a d s)

decimal_from-digits : (fuel n : ℕ) → all is_ascii_digit (decimal_from fuel n) ≡ true
unfolding decimal_from
decimal_from-digits zero n = refl
decimal_from-digits (suc fuel) n = elim (Bool-cases (ltb n 10)) [
  | inl small ↦ rw small (ground arith)
  | inr large ↦ rw large (
      all-append is_ascii_digit (decimal_from fuel (n / 10)) ((b'0' + n % 10) ∷ [])
        (decimal_from-digits fuel (n / 10)) (ground arith))
]

parse_digits-decimal_from :
    (limit fuel n : ℕ)
    → n < limit
    → n < 10 ^ fuel
    → parse_digits limit 0 (decimal_from fuel n) ≡ some n
unfolding decimal_from
parse_digits-decimal_from limit zero n h k = unfold parse_digits in ground arith
parse_digits-decimal_from limit (suc fuel) n h k = elim (Bool-cases (ltb n 10)) [
  | inl small ↦ rw small (unfold parse_digits in ground arith)
  | inr large ↦ rw large (
      subst
        (λ m. parse_digits limit 0 (decimal_from fuel (n / 10) ++ (b'0' + n % 10) ∷ []) ≡ some m)
        (omega arith)
        (parse_digits-snoc limit 0 (n / 10) (n % 10) (decimal_from fuel (n / 10))
          (parse_digits-decimal_from limit fuel (n / 10) (omega arith)
            (let p : n < 10 ^ fuel * 10 = rw pow-suc at k in omega arith))
          (omega arith) (omega arith)))
]

parse_uint-digits :
    (limit c : ℕ) (s : Text)
    → is_ascii_digit c ≡ true
    → parse_uint limit (c ∷ s) ≡ parse_digits limit 0 (c ∷ s)
unfolding parse_uint
parse_uint-digits limit c s h = ground arith

pub parse_uint-eq :
    (limit : ℕ) (s : Text)
    → is_empty s ≡ false
    → all is_ascii_digit s ≡ true
    → parse_uint limit s ≡ parse_digits limit 0 s
parse_uint-eq limit [] e h = cc
parse_uint-eq limit (c ∷ s) e h = parse_uint-digits limit c s (ground arith)

is_empty-append : (s : Text) (c : ℕ) → is_empty (s ++ c ∷ []) ≡ false
is_empty-append [] c = refl
is_empty-append (d ∷ s) c = refl

is_empty-decimal_from : (fuel n : ℕ) → is_empty (decimal_from (suc fuel) n) ≡ false
unfolding decimal_from
is_empty-decimal_from fuel n = elim (Bool-cases (ltb n 10)) [
  | inl small ↦ rw small
  | inr large ↦ rw large (is_empty-append (decimal_from fuel (n / 10)) (b'0' + n % 10))
]

-- A printed number reads back as itself, below the bound of its type.
pub parse_uint-to_decimal :
    (limit n : ℕ) → n < limit → n < 10 ^ 20 → parse_uint limit (to_decimal n) ≡ some n
unfolding to_decimal
parse_uint-to_decimal limit n h k =
    parse_uint-eq limit (decimal_from 20 n) (is_empty-decimal_from 19 n) (decimal_from-digits 20 n)
    ∙ parse_digits-decimal_from limit 20 n h k

pub to_decimal-digits : (n : ℕ) → all is_ascii_digit (to_decimal n) ≡ true
unfolding to_decimal
to_decimal-digits n = decimal_from-digits 20 n
