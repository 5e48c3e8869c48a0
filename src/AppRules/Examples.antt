-- ===== src/AppRules/Examples.antt =====
-- Executable names: tests, and the theorems at concrete inputs. Lower case is that of ASCII here.
use route_deck.Prelude.{◌≡◌, ◌↔◌, refl, true, false, ℕ_discrete}
use route_deck.Text.{to_ascii_lowercase, Text, Text-discrete, codes, trim}
use route_deck.Action.{ok}
use route_deck.Text.Split.{strip_last}
use route_deck.AppRules.{
  executable_name, executable_name_pattern, validate_executable_name,
  validate_executable_name_pattern, is_valid_name, is_reserved, is_forbidden, ends_with,
  starts_with, stem_of, pattern_if, pattern_of, escape, unescape, literal_agrees, decoded_agrees,
  stripped, fourth_is_port,
}
use route_deck.AppRules.Patterns.{validate_executable_name_pattern_iff}
use route_deck.AppRules.Paths.{LastComponent, executable_name-LastComponent}

abbrev curl : Text
curl = codes "C++ (x).EXE"

abbrev curl_pattern : Text
curl_pattern = codes "(?i)(?:^|[\\\\/])C\\+\\+ \\(x\\)\\.EXE$"

curl_generated : executable_name_pattern to_ascii_lowercase curl ≡ ok curl_pattern
unfolding executable_name_pattern validate_executable_name is_valid_name is_reserved is_forbidden
    ends_with starts_with stem_of pattern_if pattern_of escape trim Text-discrete fourth_is_port
    ℕ_discrete
curl_generated = refl

curl_accepted : validate_executable_name_pattern to_ascii_lowercase curl_pattern ≡ true
curl_accepted =
    (validate_executable_name_pattern_iff to_ascii_lowercase curl_pattern).1 (curl, curl_generated)

unescaped_refused :
    validate_executable_name_pattern to_ascii_lowercase (codes "(?i)(?:^|[\\\\/])a.exe$") ≡ false
unfolding validate_executable_name_pattern literal_agrees decoded_agrees unescape stripped
    strip_last
unescaped_refused = refl

reserved_refused : is_valid_name to_ascii_lowercase (codes "com1.exe") ≡ false
unfolding is_valid_name is_reserved is_forbidden ends_with starts_with stem_of trim Text-discrete
    fourth_is_port ℕ_discrete
reserved_refused = refl

validate_executable_name_pattern_iff_example :
    (validate_executable_name_pattern to_ascii_lowercase curl_pattern ≡ true)
    ↔ ((name : Text) × (executable_name_pattern to_ascii_lowercase name ≡ ok curl_pattern))
validate_executable_name_pattern_iff_example =
    validate_executable_name_pattern_iff to_ascii_lowercase curl_pattern

executable_name-LastComponent_example :
    LastComponent (codes "C:\\Tools/curl.exe") (codes "curl.exe")
unfolding executable_name
executable_name-LastComponent_example = executable_name-LastComponent (codes "C:\\Tools/curl.exe")
