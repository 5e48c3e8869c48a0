-- ===== src/PortableUpdate.antt =====
-- portable_update/manifest.rs: the signed list of an update's files, and which lists are accepted.
pub mod Directories
pub mod Names
pub mod Sound
pub mod Numbers
pub mod Signed
mod Examples
use route_deck.Prelude.{
  ℕ, ◌+◌, ◌-◌, ◌*◌, ◌^◌, ◌≡◌, Bool, true, false, not, ◌&&◌, ◌||◌, Option, none, some, List, [], ◌∷◌,
  ◌++◌, ltb, leb, ◌==◌, if◌then◌else◌, all, any, length, holds, Ordering, compare,
}
use mathlib.Core.List.{reverse}
use route_deck.Prelude.Options.{◌>>=◌}
use route_deck.Prelude.Orders.{then_with}
use route_deck.Text.{
  Text, Text-discrete, codes, byte_len, is_ascii_digit, is_ascii_alphanumeric, is_empty,
  contains_char, strip_prefix, to_ascii_lowercase,
}
use route_deck.Text.Decimal.{parse_uint}
use route_deck.Text.Hex.{unhex}
use route_deck.Text.Split.{split}
use route_deck.Action.{Result, ok, err}
use route_deck.Results.{ensure}

pub record BundleFile : Type 0 where
  pub path : Text
  pub size : ℕ
  pub sha256 : Text

pub record UpdateManifest : Type 0 where
  pub schema_version : ℕ
  pub version : Text
  pub platform : Text
  pub archive : Text
  pub size : ℕ
  pub sha256 : Text
  pub files : List BundleFile

-- ERROR
pub data UpdateError : Type 0 where
  invalid_update : UpdateError

abbrev pub bundle_limit : ℕ
bundle_limit = 536870912

abbrev pub expanded_limit : ℕ
expanded_limit = 1073741824

abbrev pub u64_bound : ℕ
u64_bound = 18446744073709551616

abbrev pub u32_bound : ℕ
u32_bound = 4294967296

abbrev same : Text → Text → Bool
same a b = holds (Text-discrete a b)

abbrev is_in : Text → List Text → Bool
is_in s = any (same s)

abbrev zero_first : Text → Bool
zero_first [] = false
zero_first (c ∷ s) = c == b'0'

unfoldable pub stable_part : Text → Bool
stable_part p =
    not (is_empty p)
    && leb (byte_len p) 9
    && all is_ascii_digit p
    && (byte_len p == 1 || not (zero_first p))

unfoldable pub stable_version : Text → Bool
unfolding stable_part
stable_version value =
    leb (byte_len value) 32 && length (split b'.' value) == 3 && all stable_part (split b'.' value)

-- The parts as u32; `unwrap` panics where this is none.
unfoldable pub numbers : List Text → Option (List ℕ)
numbers [] = some []
numbers (p ∷ ps) = parse_uint u32_bound p >>= λ n. numbers ps >>= λ ns. some (n ∷ ns)

-- The order of Vec<u32>.
unfoldable pub cmp_numbers : List ℕ → List ℕ → Ordering
cmp_numbers [] [] = Ordering.eq
cmp_numbers [] (m ∷ ms) = Ordering.lt
cmp_numbers (n ∷ ns) [] = Ordering.gt
cmp_numbers (n ∷ ns) (m ∷ ms) = then_with (compare n m) (cmp_numbers ns ms)

abbrev is_gt : Ordering → Bool
is_gt Ordering.gt = true
is_gt _ = false

-- None stands for the panic of `unwrap`.
unfoldable pub newer : Text → Text → Option Bool
unfolding numbers cmp_numbers stable_version
newer next current =
    if stable_version next && stable_version current
    then (numbers (split b'.' next) >>= λ a.
        numbers (split b'.' current) >>= λ b. some (is_gt (cmp_numbers a b)))
    else some false

abbrev first_of : List Text → Text
first_of [] = []
first_of (p ∷ ps) = p

abbrev ends_with_char : ℕ → Text → Bool
ends_with_char d [] = false
ends_with_char d (c ∷ []) = c == d
ends_with_char d (c ∷ e ∷ s) = ends_with_char d (e ∷ s)

abbrev to_ascii_uppercase : Text → Text
to_ascii_uppercase [] = []
to_ascii_uppercase (c ∷ s) = (if leb b'a' c && leb c b'z' then c - 32 else c) ∷ to_ascii_uppercase s

is_device : Text → Bool
is_device stem = is_in stem (
    codes "CON"
    ∷ codes "PRN"
    ∷ codes "AUX"
    ∷ codes "NUL"
    ∷ codes "COM1"
    ∷ codes "COM2"
    ∷ codes "COM3"
    ∷ codes "COM4"
    ∷ codes "COM5"
    ∷ codes "COM6"
    ∷ codes "COM7"
    ∷ codes "COM8"
    ∷ codes "COM9"
    ∷ codes "LPT1"
    ∷ codes "LPT2"
    ∷ codes "LPT3"
    ∷ codes "LPT4"
    ∷ codes "LPT5"
    ∷ codes "LPT6"
    ∷ codes "LPT7"
    ∷ codes "LPT8"
    ∷ codes "LPT9"
    ∷ [])

unfoldable pub safe_part : Text → Bool
unfolding is_device
safe_part p =
    not (is_empty p)
    && not (same p (codes "."))
    && not (same p (codes ".."))
    && not (ends_with_char b'.' p)
    && not (ends_with_char b' ' p)
    && all (λ c. is_ascii_alphanumeric c || contains_char c (codes "._-")) p
    && not (is_device (to_ascii_uppercase (first_of (split b'.' p))))

unfoldable pub safe_relative : Text → Bool
unfolding safe_part
safe_relative value =
    not (is_empty value) && leb (byte_len value) 200 && all safe_part (split b'/' value)

abbrev starts : Text → Text → Bool
starts value prefix = elim (strip_prefix prefix value) [ none ↦ false | some rest ↦ true ]

unfoldable pub allowed_file : Text → Bool
allowed_file value =
    is_in value (
      codes "routedeck.exe"
      ∷ codes "routedeck-tun-helper.exe"
      ∷ codes "routedeck-updater.exe"
      ∷ codes "routedeck-build.json"
      ∷ codes "README.txt"
      ∷ codes "THIRD-PARTY-NOTICES.txt"
      ∷ codes "dependency-inventory.json"
      ∷ codes "ENGINE-THIRD-PARTY-NOTICES.txt"
      ∷ codes "SOURCE-CODE.txt"
      ∷ codes "engine-distribution-inventory.json"
      ∷ [])
    || any (starts value) (
        codes "engine/"
        ∷ codes "xray/"
        ∷ codes "runtime-pins/"
        ∷ codes "licenses/"
        ∷ codes "controller-sources/"
        ∷ [])

abbrev required : List Text
required =
    codes "routedeck.exe"
    ∷ codes "routedeck-tun-helper.exe"
    ∷ codes "routedeck-updater.exe"
    ∷ codes "routedeck-build.json"
    ∷ codes "engine/sing-box.exe"
    ∷ codes "engine/libcronet.dll"
    ∷ codes "xray/xray.exe"
    ∷ codes "runtime-pins/sing-box.lock.json"
    ∷ codes "runtime-pins/xray-core.lock.json"
    ∷ []

-- The scan over the components: each path that leads to the last one, and the whole.
unfoldable pub leading_paths : Text → List Text → List Text
leading_paths parent [] = []
leading_paths parent (part ∷ parts) =
    let parent' = (if is_empty parent then [] else parent ++ b'/' ∷ []) ++ part in
    parent' ∷ leading_paths parent' parts

unfoldable pub is_digest : Text → Bool
is_digest s = elim (unhex 32 s) [ none ↦ false | some bytes ↦ true ]

unfoldable pub file_valid : BundleFile → Bool
unfolding safe_relative allowed_file is_digest
file_valid f =
    safe_relative f.path
    && allowed_file f.path
    && not (f.size == 0)
    && leb f.size bundle_limit
    && is_digest f.sha256

-- The loop over the files: the names so far in lower case, and the total, checked against u64.
unfoldable pub collected_names : List Text → ℕ → List BundleFile → Option (List Text × ℕ)
unfolding file_valid
collected_names names total [] = some (names, total)
collected_names names total (f ∷ fs) =
    let name = to_ascii_lowercase f.path in
    let rest = collected_names (name ∷ names) (total + f.size) fs in
    if file_valid f && not (is_in name names) && ltb (total + f.size) u64_bound then rest else none

unfoldable pub has_child : List Text → Text → Bool
unfolding leading_paths
has_child names p =
    any (λ parent. not (same parent p) && is_in parent names) (leading_paths [] (split b'/' p))

unfoldable pub head_valid : UpdateManifest → Bool
unfolding stable_version is_digest
head_valid m =
    m.schema_version == 1
    && stable_version m.version
    && same m.platform (codes "windows-x64")
    && same m.archive (codes "RouteDeck-" ++ (m.version ++ codes "-windows-x64.zip"))
    && not (m.size == 0)
    && leb m.size bundle_limit
    && is_digest m.sha256
    && leb (length m.files) 512
    && leb 8 (length m.files)

names_valid : Option (List Text × ℕ) → Bool
unfolding has_child
names_valid none = false
names_valid (some (names, total)) =
    all (λ r. is_in r names) required
    && leb total expanded_limit
    && not (any (has_child names) names)

unfoldable pub validate_manifest : UpdateManifest → Result UpdateError (Unit {0})
unfolding head_valid collected_names names_valid
validate_manifest m =
    ensure (head_valid m && names_valid (collected_names [] 0 m.files)) invalid_update
