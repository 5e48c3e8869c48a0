-- ===== src/AppRules.antt =====
-- app_rule_matching.rs: executable names and the one form of regular expression that is generated
-- for them, which the elevated helper decodes and checks again.
pub mod Patterns
pub mod Paths
mod Examples
use mathlib.Core.List.{reverse}
use route_deck.Prelude.{
  ℕ, ◌+◌, ◌*◌, ◌≡◌, Bool, true, false, not, ◌&&◌, ◌||◌, Option, none, some, List, [], ◌∷◌, ◌++◌,
  leb, ltb, ◌==◌, if◌then◌else◌, holds, any, map_some,
}
use route_deck.Text.{
  Text, Text-discrete, codes, byte_len, is_control, strip_prefix, trim, contains_char,
}
use route_deck.Text.Split.{strip_last}
use route_deck.Domain.{DomainError}
use route_deck.Action.{Result, ok, err}

abbrev is_separator : ℕ → Bool
is_separator c = c == b'\\' || c == b'/'

-- The part behind the last separator.
unfoldable pub executable_name : Text → Text
executable_name [] = []
executable_name (c ∷ path) =
    let rest = executable_name path in
    if any is_separator path then rest else if is_separator c then path else c ∷ path

-- split('.').next()
stem_of : Text → Text
stem_of [] = []
stem_of (c ∷ s) = let rest = stem_of s in if c == b'.' then [] else c ∷ rest

abbrev is_text : Text → Text → Bool
is_text a b = holds (Text-discrete a b)

starts_with : Text → Text → Bool
starts_with prefix s = elim (strip_prefix prefix s) [ none ↦ false | some rest ↦ true ]

ends_with : Text → Text → Bool
unfolding starts_with
ends_with suffix s = starts_with (reverse suffix) (reverse s)

-- as_bytes()[3] of four bytes of which three are ASCII
fourth_is_port : Text → Bool
fourth_is_port (a ∷ b ∷ c ∷ d ∷ s) = leb b'1' d && leb d b'9'
fourth_is_port _ = false

is_reserved : Text → Bool
unfolding starts_with fourth_is_port
is_reserved stem =
    is_text stem (codes "con")
    || is_text stem (codes "prn")
    || is_text stem (codes "aux")
    || is_text stem (codes "nul")
    || (byte_len stem == 4
        && (starts_with (codes "com") stem || starts_with (codes "lpt") stem)
        && fourth_is_port stem)

is_forbidden : ℕ → Bool
is_forbidden c = is_control c || contains_char c (codes "\\/:<>\"|?*")

abbrev meta : Text
meta = codes "\\.+*?()|[]{}^$"

abbrev is_meta : ℕ → Bool
is_meta c = contains_char c meta

-- (?i)(?:^|[\\/])
abbrev prefix : Text
prefix = codes "(?i)(?:^|[\\\\/])"

-- The literal matcher of a name.
escape : Text → Text
escape [] = []
escape (c ∷ s) = let rest = escape s in if is_meta c then b'\\' ∷ c ∷ rest else c ∷ rest

-- The loop over `chars`; the flag says that the backslash of an escape was read.
unescape : Bool → Text → Option Text
unescape true [] = none
unescape false [] = some []
unescape true (c ∷ s) =
    let rest = unescape false s in if is_meta c then map_some (c ∷◌) rest else none
unescape false (c ∷ s) =
    let rest = unescape (c == b'\\') s in
    if c == b'\\' then rest else if is_meta c then none else map_some (c ∷◌) rest

pattern_of : Text → Text
unfolding escape
pattern_of name = prefix ++ (escape name ++ b'$' ∷ [])

-- `?` on the validation, then the pattern
pattern_if : Result DomainError (Unit {0}) → Text → Result DomainError Text
unfolding pattern_of
pattern_if (ok u) name = ok (pattern_of name)
pattern_if (err e) name = err e

is_ok_and_eq : Result DomainError Text → Text → Bool
is_ok_and_eq (ok expected) pattern_text = is_text expected pattern_text
is_ok_and_eq (err e) pattern_text = false

stripped : Option Text → Option Text
unfolding strip_last
stripped none = none
stripped (some s) = strip_last b'$' s

-- `to_lowercase` is `str::to_lowercase`, with the tables of Unicode.
module _ (to_lowercase : Text → Text) where
  is_valid_name : Text → Bool
  unfolding is_reserved is_forbidden ends_with stem_of
  is_valid_name name =
      let lower = to_lowercase name in
      not (
        ltb 260 (byte_len name)
        || leb (byte_len name) 4
        || not (ends_with (codes ".exe") lower)
        || not (is_text name (trim name))
        || is_reserved (stem_of lower)
        || any is_forbidden name)

  unfoldable pub validate_executable_name : Text → Result DomainError (Unit {0})
  unfolding is_valid_name
  validate_executable_name name =
      if is_valid_name name
      then ok tt
      else err (record { message = "invalid executable file name" })

  unfoldable pub executable_name_pattern : Text → Result DomainError Text
  unfolding pattern_if validate_executable_name
  executable_name_pattern name = pattern_if (validate_executable_name name) name

  decoded_agrees : Option Text → Text → Bool
  unfolding is_ok_and_eq executable_name_pattern
  decoded_agrees none pattern_text = false
  decoded_agrees (some name) pattern_text = is_ok_and_eq (executable_name_pattern name) pattern_text

  literal_agrees : Option Text → Text → Bool
  unfolding decoded_agrees unescape
  literal_agrees none pattern_text = false
  literal_agrees (some literal) pattern_text = decoded_agrees (unescape false literal) pattern_text

  unfoldable pub validate_executable_name_pattern : Text → Bool
  unfolding literal_agrees stripped
  validate_executable_name_pattern pattern_text =
      if ltb (byte_len prefix + 260 * 2 + 1) (byte_len pattern_text)
      then false
      else literal_agrees (stripped (strip_prefix prefix pattern_text)) pattern_text
