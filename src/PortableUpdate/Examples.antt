-- ===== src/PortableUpdate/Examples.antt =====
-- The smallest list of files that is accepted, and versions: the theorems at concrete inputs.
use route_deck.Prelude.{Bool, ◌≤◌, ◌≡◌, refl, true, Option, some, [], ◌∷◌, map, ℕ_discrete}
use route_deck.Text.{Text, Text-discrete, codes}
use route_deck.Text.Hex.{unhex}
use route_deck.Text.Decimal.{parse_uint, parse_digits}
use route_deck.Text.Split.{split, prepend}
use route_deck.Action.{ok}
use route_deck.PortableUpdate.{
  UpdateManifest, validate_manifest, head_valid, names_valid, collected_names, file_valid,
  has_child, leading_paths, safe_relative, safe_part, is_device, allowed_file, is_digest,
  stable_version, stable_part, newer, numbers, cmp_numbers, required,
}
use route_deck.PortableUpdate.Signed.{
  signed_manifest_with_key, signed_manifest_with_key-IsSound, manifest_limit,
}
use route_deck.PortableUpdate.Sound.{IsSound}
use route_deck.PortableUpdate.Numbers.{Compares, newer-Compares}

abbrev digest : Text
digest = codes "00112233445566778899aabbccddeeff00112233445566778899aabbccddeeff"

abbrev manifest : UpdateManifest
manifest = record {
  schema_version = 1;
  version = codes "1.10.0";
  platform = codes "windows-x64";
  archive = codes "RouteDeck-1.10.0-windows-x64.zip";
  size = 100;
  sha256 = digest;
  files = map (λ name. record { path = name; size = 10; sha256 = digest }) required;
}

accepted_manifest : validate_manifest manifest ≡ ok tt
unfolding validate_manifest head_valid names_valid collected_names file_valid has_child
    leading_paths safe_relative safe_part is_device allowed_file is_digest stable_version
    stable_part unhex split prepend Text-discrete ℕ_discrete
accepted_manifest = refl

newer_release : newer (codes "1.10.0") (codes "1.9.3") ≡ some true
unfolding newer stable_version stable_part numbers cmp_numbers parse_uint parse_digits split prepend
newer_release = refl

newer-Compares_example : Compares (codes "1.10.0") (codes "1.9.3")
newer-Compares_example = newer-Compares (codes "1.10.0") (codes "1.9.3")

accepts_signed :
    signed_manifest_with_key (λ key body signature. true) (λ body. some manifest) (1 ∷ []) digest []
    ≡ ok manifest
unfolding signed_manifest_with_key accepted_manifest
accepts_signed = refl

signed_manifest_with_key-IsSound_example :
    (1 ≤ manifest_limit)
    × (◌≡◌ {A = Bool} true true)
    × (◌≡◌ {A = Option UpdateManifest} (some manifest) (some manifest))
    × IsSound manifest
signed_manifest_with_key-IsSound_example =
    signed_manifest_with_key-IsSound (λ key body signature. true) (λ body. some manifest) (1 ∷ [])
      digest [] manifest accepts_signed
