-- ===== src/PortableUpdate/Numbers.antt =====
-- portable_update/manifest.rs `newer`: the conversion of a stable version never panics.
use route_deck.Prelude.{
  ℕ, zero, suc, ◌+◌, ◌-◌, ◌*◌, ◌≤◌, ◌<◌, ◌≡◌, refl, ap, ◌∙◌, true, false, ◌&&◌, some, List, [], ◌∷◌,
  ltb, all, length, arith, Bool-cases, inl, inr, and-true, ◌⊎◌, lt→ltb,
}
use route_deck.Text.{Text, byte_len, is_ascii_digit, is_empty, len_utf8}
use route_deck.Text.Decimal.{parse_uint, parse_digits, parse_uint-eq}
use route_deck.Text.Split.{split}
use route_deck.PortableUpdate.{
  newer, stable_version, stable_part, numbers, u32_bound, is_gt, cmp_numbers,
}

-- The largest number that so many more digits can give.
top : ℕ → ℕ → ℕ
top zero acc = acc
top (suc k) acc = top k (acc * 10 + 9)

top-le : (k a b : ℕ) → a ≤ b → top k a ≤ top k b
unfolding top
top-le zero a b h = h
top-le (suc k) a b h = top-le k (a * 10 + 9) (b * 10 + 9) (omega (arith, h))

le-top : (k a : ℕ) → a ≤ top k a
unfolding top
le-top zero a = omega arith
le-top (suc k) a = omega (arith, le-top k (a * 10 + 9))

len_utf8-pos : (c : ℕ) → 1 ≤ len_utf8 c
len_utf8-pos c = ground arith

parse_digits-some :
    (limit k acc : ℕ) (s : Text)
    → all is_ascii_digit s ≡ true
    → byte_len s ≤ k
    → top k acc < limit
    → (n : ℕ) × (parse_digits limit acc s ≡ some n)
unfolding parse_digits top
parse_digits-some limit k acc [] h l b = (acc, refl)
parse_digits-some limit zero acc (c ∷ s) h l b = absurd (omega (arith, l, len_utf8-pos c))
parse_digits-some limit (suc k) acc (c ∷ s) h l b =
    let (digit, digits) = and-true (is_ascii_digit c) (all is_ascii_digit s) h in
    let small : acc * 10 + (c - b'0') ≤ acc * 10 + 9 = ground (arith, digit) in
    let bound : top k (acc * 10 + (c - b'0')) < limit =
      omega (arith, b, top-le k (acc * 10 + (c - b'0')) (acc * 10 + 9) small) in
    let (n, e) =
      parse_digits-some limit k (acc * 10 + (c - b'0')) s digits (omega (arith, l, len_utf8-pos c))
        bound in
    let fits : ltb (acc * 10 + (c - b'0')) limit ≡ true =
      lt→ltb _ _ (omega (arith, bound, le-top k (acc * 10 + (c - b'0')))) in
    (n, rw (digit, fits) e)

stable_part-parts :
    (p : Text)
    → stable_part p ≡ true
    → (is_empty p ≡ false) × (byte_len p ≤ 9) × (all is_ascii_digit p ≡ true)
unfolding stable_part
stable_part-parts p h = ground arith

parse_uint-stable_part :
    (p : Text) → stable_part p ≡ true → (n : ℕ) × (parse_uint u32_bound p ≡ some n)
unfolding top
parse_uint-stable_part p h =
    let (full, short, digits) = stable_part-parts p h in
    let (n, e) = parse_digits-some u32_bound 9 0 p digits short (omega arith) in
    (n, parse_uint-eq u32_bound p full digits ∙ e)

numbers-stable :
    (ps : List Text)
    → all stable_part ps ≡ true
    → (ns : List ℕ) × (numbers ps ≡ some ns) × (length ns ≡ length ps)
unfolding numbers
numbers-stable [] h = ([], refl, refl)
numbers-stable (p ∷ ps) h =
    let (first, rest) = and-true (stable_part p) (all stable_part ps) h in
    let (n, e) = parse_uint-stable_part p first in
    let (ns, f, g) = numbers-stable ps rest in (n ∷ ns, rw (e, f) refl, ap suc g)

stable_version-parts :
    (v : Text)
    → stable_version v ≡ true
    → (length (split b'.' v) ≡ 3) × (all stable_part (split b'.' v) ≡ true)
unfolding stable_version
stable_version-parts v h = ground arith

-- What a test of two versions answers: it panics on none, refuses what is not stable, and compares
-- three numbers of each.
abbrev pub Compares : Text → Text → Type 0
Compares next current =
    ((stable_version next && stable_version current) ≡ false) × (newer next current ≡ some false)
    ⊎ ((a : List ℕ) × (b : List ℕ) × (length a ≡ 3)
        × (length b ≡ 3)
        × (numbers (split b'.' next) ≡ some a)
        × (numbers (split b'.' current) ≡ some b)
        × (newer next current ≡ some (is_gt (cmp_numbers a b))))

-- The test for a newer version never panics: it is false unless both versions are stable, and then
-- compares the three numbers of each, all of which fit in 32 bits.
pub newer-Compares : (next current : Text) → Compares next current
unfolding newer
newer-Compares next current = elim (Bool-cases (stable_version next && stable_version current)) [
  | inr unstable ↦ inl (unstable, rw unstable refl)
  | inl stable ↦
      let (x, y) = and-true (stable_version next) (stable_version current) stable in
      let (three, parts) = stable_version-parts next x in
      let (three', parts') = stable_version-parts current y in
      let (a, e, n) = numbers-stable (split b'.' next) parts in
      let (b, f, m) = numbers-stable (split b'.' current) parts' in
      inr (a, b, n ∙ three, m ∙ three', e, f, rw (stable, e, f) refl)
]
