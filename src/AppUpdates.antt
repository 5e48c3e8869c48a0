-- ===== src/AppUpdates.antt =====
-- app_updates.rs: semantic versions, their order, and what a release answer means.
pub mod Order
pub mod Releases
mod Examples
use route_deck.Prelude.{
  ℕ, ◌*◌, ◌^◌, String, Bool, true, false, not, ◌&&◌, ◌||◌, Option, none, some, List, [], ◌∷◌, ◌++◌,
  leb, ltb, ◌==◌, if◌then◌else◌, holds, all, length, compare, Ordering,
}
use route_deck.Text.{
  Text, Text-discrete, codes, byte_len, is_ascii_digit, is_ascii_alphanumeric, is_empty,
  contains_char, strip_prefix,
}
use route_deck.Prelude.Options.{◌>>=◌}
use route_deck.Prelude.Orders.{then_with}
use route_deck.Text.Decimal.{parse_uint}
use route_deck.Text.Split.{split, split_once}
use route_deck.Action.{Result, ok, err}

pub data AppUpdateStatus : Type 0 where
  up_to_date available no_release : AppUpdateStatus

pub record AppUpdateInfo : Type 0 where
  pub current_version : Text
  pub latest_version : Option Text
  pub status : AppUpdateStatus
  pub release_url : Option Text

pub record GithubRelease : Type 0 where
  pub tag_name : Text
  pub draft : Bool
  pub prerelease : Bool
  pub html_url : Text

pub data PrePart : Type 0 where
  numeric : ℕ → PrePart
  text : Text → PrePart

pub record Version : Type 0 where
  pub major : ℕ
  pub minor : ℕ
  pub patch : ℕ
  pub pre : Option (List PrePart)

abbrev u64_limit : ℕ
u64_limit = 2 ^ 64

abbrev starts_with_zero : Text → Bool
starts_with_zero [] = false
starts_with_zero (c ∷ s) = c == b'0'

abbrev has_leading_zero : Text → Bool
has_leading_zero s = ltb 1 (byte_len s) && starts_with_zero s

number : Text → Option ℕ
number item = if is_empty item || has_leading_zero item then none else parse_uint u64_limit item

as_numeric : Option ℕ → Option PrePart
as_numeric none = none
as_numeric (some n) = some (numeric n)

pre_part : Text → Option PrePart
unfolding as_numeric
pre_part part =
    if is_empty part || not (all (λ c. is_ascii_alphanumeric c || c == b'-') part)
    then none
    else if all is_ascii_digit part
    then (if has_leading_zero part then none else as_numeric (parse_uint u64_limit part))
    else some (text part)

-- collect::<Option<Vec<_>>>
collected : List Text → Option (List PrePart)
unfolding pre_part
collected [] = some []
collected (p ∷ ps) = do part ← pre_part p; parts ← collected ps; some (part ∷ parts)

pre_of : Option Text → Option (Option (List PrePart))
unfolding collected
pre_of none = some none
pre_of (some value) =
    if is_empty value then none else do parts ← collected (split b'.' value); some (some parts)

version_of : List Text → Option Text → Option Version
unfolding number pre_of
version_of (a ∷ b ∷ c ∷ []) pre = do
  major ← number a
  minor ← number b
  patch ← number c
  parts ← pre_of pre
  some (record { major = major; minor = minor; patch = patch; pre = parts })
version_of _ pre = none

split_version : Text → Option (Text × Text) → Option Version
unfolding version_of
split_version value none = version_of (split b'.' value) none
split_version value (some (core, pre)) = version_of (split b'.' core) (some pre)

-- Version::parse
unfoldable pub parse : Text → Option Version
unfolding split_version
parse value =
    if is_empty value || ltb 64 (byte_len value) || contains_char b'+' value
    then none
    else split_version value (split_once b'-' value)

-- str::cmp: the order of the bytes of UTF-8 is that of the scalar values.
unfoldable pub cmp_text : Text → Text → Ordering
cmp_text [] [] = Ordering.eq
cmp_text [] (d ∷ t) = Ordering.lt
cmp_text (c ∷ s) [] = Ordering.gt
cmp_text (c ∷ s) (d ∷ t) = then_with (compare c d) (cmp_text s t)

unfoldable pub cmp_part : PrePart → PrePart → Ordering
unfolding cmp_text
cmp_part (numeric a) (numeric b) = compare a b
cmp_part (numeric a) (text b) = Ordering.lt
cmp_part (text a) (numeric b) = Ordering.gt
cmp_part (text a) (text b) = cmp_text a b

-- The first difference along the zip of two lists.
unfoldable pub first_difference : List PrePart → List PrePart → Ordering
unfolding cmp_part
first_difference [] ys = Ordering.eq
first_difference (x ∷ xs) [] = Ordering.eq
first_difference (x ∷ xs) (y ∷ ys) = then_with (cmp_part x y) (first_difference xs ys)

-- With no difference the lengths decide.
unfoldable pub cmp_parts : List PrePart → List PrePart → Ordering
unfolding first_difference
cmp_parts xs ys = then_with (first_difference xs ys) (compare (length xs) (length ys))

unfoldable pub cmp_pre : Option (List PrePart) → Option (List PrePart) → Ordering
unfolding cmp_parts
cmp_pre none none = Ordering.eq
cmp_pre none (some ys) = Ordering.gt
cmp_pre (some xs) none = Ordering.lt
cmp_pre (some xs) (some ys) = cmp_parts xs ys

-- Version::cmp
unfoldable pub cmp : Version → Version → Ordering
unfolding cmp_pre
cmp v w = then_with (compare v.major w.major) (
    then_with (compare v.minor w.minor) (then_with (compare v.patch w.patch) (cmp_pre v.pre w.pre)))

abbrev pub is_greater : Ordering → Bool
is_greater Ordering.gt = true
is_greater _ = false
