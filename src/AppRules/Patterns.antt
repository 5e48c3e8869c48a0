-- ===== src/AppRules/Patterns.antt =====
-- app_rule_matching.rs: the check of a pattern accepts exactly the patterns that are generated.
use route_deck.Prelude.{
  ℕ, ◌+◌, ◌*◌, ◌≤◌, ◌≡◌, ◌↔◌, refl, ap, ◌∙◌, Bool, true, false, Option, none, some, [], ◌∷◌, ◌++◌,
  arith, Bool-cases, ltb-false_of_le, if◌then◌else◌, subst, inl, inr, holds_of, holds_iff, subst,
}
use route_deck.Text.{Text, Text-discrete, byte_len, len_utf8, strip_prefix}
use route_deck.Action.{Result, ok, err, ok-injective}
use route_deck.Text.Split.{strip_last}
use route_deck.Domain.{DomainError}
use route_deck.AppRules.{
  escape, unescape, is_meta, prefix, pattern_of, is_valid_name, executable_name_pattern,
  validate_executable_name, validate_executable_name_pattern, literal_agrees, decoded_agrees,
  is_ok_and_eq, stripped, pattern_if,
}

unescape-escape : (s : Text) → unescape false (escape s) ≡ some s
unfolding unescape escape
unescape-escape [] = refl
unescape-escape (c ∷ s) = ground (arith, unescape-escape s)

strip_last-append : (d : ℕ) (s : Text) → strip_last d (s ++ d ∷ []) ≡ some s
unfolding strip_last
strip_last-append d [] = ground arith
strip_last-append d (c ∷ []) = ground (arith, strip_last-append d [])
strip_last-append d (c ∷ e ∷ s) = rw (strip_last-append d (e ∷ s)) refl

strip_prefix-append : (p s : Text) → strip_prefix p (p ++ s) ≡ some s
strip_prefix-append [] s = refl
strip_prefix-append (c ∷ p) s = ground (arith, strip_prefix-append p s)

byte_len-append : (s t : Text) → byte_len (s ++ t) ≡ byte_len s + byte_len t
byte_len-append [] t = omega arith
byte_len-append (c ∷ s) t = omega (arith, byte_len-append s t)

len_utf8-pos : (c : ℕ) → 1 ≤ len_utf8 c
len_utf8-pos c = ground arith

then-true : (b c : Bool) → (if b then false else c) ≡ true → c ≡ true
then-true b c h = ground arith

byte_len-escape : (s : Text) → byte_len (escape s) ≤ 2 * byte_len s
unfolding escape
byte_len-escape [] = omega arith
byte_len-escape (c ∷ s) = elim (Bool-cases (is_meta c)) [
  | inl special ↦ rw special (omega (arith, byte_len-escape s, len_utf8-pos c))
  | inr plain ↦ rw plain (omega (arith, byte_len-escape s))
]

unescape-pattern_of :
    (name : Text) → stripped (strip_prefix prefix (pattern_of name)) ≡ some (escape name)
unfolding stripped pattern_of
unescape-pattern_of name =
    ap stripped (strip_prefix-append prefix (escape name ++ b'$' ∷ []))
    ∙ strip_last-append b'$' (escape name)

byte_len-pattern_of :
    (name : Text) → byte_len name ≤ 260 → byte_len (pattern_of name) ≤ byte_len prefix + 260 * 2 + 1
unfolding pattern_of
byte_len-pattern_of name h = omega (
  arith,
  byte_len-append prefix (escape name ++ b'$' ∷ []),
  byte_len-append (escape name) (b'$' ∷ []),
  byte_len-escape name,
)

module _ (to_lowercase : Text → Text) where
  is_valid_name-short : (name : Text) → is_valid_name to_lowercase name ≡ true → byte_len name ≤ 260
  unfolding is_valid_name
  is_valid_name-short name h = ground arith

  executable_name_pattern-ok :
      (name p : Text)
      → executable_name_pattern to_lowercase name ≡ ok p
      → (is_valid_name to_lowercase name ≡ true) × (pattern_of name ≡ p)
  unfolding executable_name_pattern validate_executable_name pattern_if
  executable_name_pattern-ok name p h = elim (Bool-cases (is_valid_name to_lowercase name)) [
    | inl valid ↦ (valid, ok-injective _ _ (rw valid at h))
    | inr invalid ↦ cc (rw invalid at h)
  ]

  generated-valid :
      (name p : Text)
      → executable_name_pattern to_lowercase name ≡ ok p
      → validate_executable_name_pattern to_lowercase p ≡ true
  unfolding validate_executable_name_pattern literal_agrees decoded_agrees is_ok_and_eq
  generated-valid name p h =
      let (valid, e) = executable_name_pattern-ok name p h in
      let short : byte_len p ≤ byte_len prefix + 260 * 2 + 1 =
        subst (λ q. byte_len q ≤ byte_len prefix + 260 * 2 + 1) e
          (byte_len-pattern_of name (is_valid_name-short name valid)) in
      let literal : stripped (strip_prefix prefix p) ≡ some (escape name) =
        subst (λ q. stripped (strip_prefix prefix q) ≡ some (escape name)) e
          (unescape-pattern_of name) in
      rw (ltb-false_of_le _ _ short, literal, unescape-escape name, h)
        (holds_of (Text-discrete p p) refl)

  is_ok_and_eq-ok : (r : Result DomainError Text) (p : Text) → is_ok_and_eq r p ≡ true → r ≡ ok p
  unfolding is_ok_and_eq
  is_ok_and_eq-ok (ok q) p k = ap ok (holds_iff (Text-discrete q p) k)
  is_ok_and_eq-ok (err e) p k = cc

  decoded_agrees-name :
      (o : Option Text) (p : Text)
      → decoded_agrees to_lowercase o p ≡ true
      → (name : Text) × (executable_name_pattern to_lowercase name ≡ ok p)
  unfolding decoded_agrees
  decoded_agrees-name none p h = cc
  decoded_agrees-name (some name) p h = (name, is_ok_and_eq-ok _ p h)

  literal_agrees-name :
      (o : Option Text) (p : Text)
      → literal_agrees to_lowercase o p ≡ true
      → (name : Text) × (executable_name_pattern to_lowercase name ≡ ok p)
  unfolding literal_agrees
  literal_agrees-name none p h = cc
  literal_agrees-name (some s) p h = decoded_agrees-name (unescape false s) p h

-- The helper accepts a pattern exactly if it is the one generated for some executable name.
pub validate_executable_name_pattern_iff :
    (to_lowercase : Text → Text) (p : Text)
    → (validate_executable_name_pattern to_lowercase p ≡ true)
      ↔ ((name : Text) × (executable_name_pattern to_lowercase name ≡ ok p))
unfolding validate_executable_name_pattern
validate_executable_name_pattern_iff to_lowercase p = (
  λ h. literal_agrees-name to_lowercase (stripped (strip_prefix prefix p)) p (then-true _ _ h),
  λ h. generated-valid to_lowercase h.0 p h.1,
)
