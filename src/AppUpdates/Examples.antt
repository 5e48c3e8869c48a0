-- ===== src/AppUpdates/Examples.antt =====
-- Versions and releases: tests, and the theorem at a concrete input.
use route_deck.Prelude.{◌≡◌, ◌↔◌, refl, false, none, some, [], ◌∷◌, ℕ_discrete}
use route_deck.Text.{Text-discrete, codes}
use route_deck.Text.Decimal.{parse_uint, parse_digits}
use route_deck.Text.Split.{split, split_once, prepend}
use route_deck.Action.{ok}
use route_deck.AppUpdates.{
  GithubRelease, AppUpdateInfo, available, parse, split_version, version_of, number, pre_of,
  collected, pre_part, as_numeric, cmp, cmp_pre, cmp_parts, first_difference, cmp_part, cmp_text,
  numeric, text,
}
use route_deck.AppUpdates.Releases.{
  Accepts, parse_release_for_current, parse_release_for_current_iff, releases_url, checked_release,
  tagged_release, stable_release, compared, status_of, info_of, url_of, expected_url,
}

release_candidate :
    parse (codes "1.10.0-rc.2")
    ≡ some (record {
      major = 1;
      minor = 10;
      patch = 0;
      pre = some (text (codes "rc") ∷ numeric 2 ∷ []);
    })
unfolding parse split_version version_of number pre_of collected pre_part as_numeric parse_uint
    parse_digits split split_once prepend
release_candidate = refl

leading_zero : parse (codes "1.02.0") ≡ none
unfolding release_candidate
leading_zero = refl

abbrev release : GithubRelease
release = record {
  tag_name = codes "v1.10.0";
  draft = false;
  prerelease = false;
  html_url = expected_url (codes "v1.10.0");
}

abbrev offered : AppUpdateInfo
offered = record {
  current_version = codes "1.9.3";
  latest_version = some (codes "1.10.0");
  status = available;
  release_url = some releases_url;
}

offers_release :
    parse_release_for_current (λ body. some release) (b'{' ∷ []) (codes "1.9.3") ≡ ok offered
unfolding parse_release_for_current checked_release tagged_release stable_release compared status_of
    info_of url_of parse split_version version_of number pre_of collected pre_part as_numeric
    parse_uint parse_digits split split_once prepend cmp cmp_pre cmp_parts first_difference cmp_part
    cmp_text Text-discrete ℕ_discrete
offers_release = refl

parse_release_for_current_iff_example :
    (parse_release_for_current (λ body. some release) (b'{' ∷ []) (codes "1.9.3") ≡ ok offered)
    ↔ Accepts (λ body. some release) (b'{' ∷ []) (codes "1.9.3") offered
parse_release_for_current_iff_example =
    parse_release_for_current_iff (λ body. some release) (b'{' ∷ []) (codes "1.9.3") offered
