-- ===== src/AppUpdates/Releases.antt =====
-- app_updates.rs `parse_release_for_current`: which answers offer an update.
use route_deck.Prelude.{
  ℕ, ◌*◌, ◌≤◌, ◌≡◌, ◌≢◌, ◌↔◌, refl, ◌∙◌, String, Bool, true, false, not, ◌||◌, Option, none, some,
  List, [], ◌∷◌, ◌++◌, ltb, if◌then◌else◌, holds, length, arith, Ordering, sym, ap, Bool-cases, inl,
  inr, le_of_ltb-false, ltb-false_of_le,
}
use route_deck.Text.{Text, Text-discrete, codes, byte_len, strip_prefix}
use route_deck.Action.{Result, ok, err, ok-injective}
use route_deck.AppUpdates.{
  GithubRelease, AppUpdateInfo, AppUpdateStatus, up_to_date, available, Version, PrePart, parse,
  cmp, is_greater,
}

abbrev pub max_response_bytes : ℕ
max_response_bytes = 256 * 1024

abbrev pub releases_url : Text
releases_url = codes "https://github.com/oda02/RouteDeck/releases/latest"

abbrev pub expected_url : Text → Text
expected_url tag = codes "https://github.com/oda02/RouteDeck/releases/tag/" ++ tag

abbrev pub is_published : GithubRelease → Bool
is_published r = not (
    r.draft
    || r.prerelease
    || not (holds (Text-discrete r.html_url (expected_url r.tag_name)))
    || ltb 64 (byte_len r.tag_name))

abbrev is_some_pre : Option (List PrePart) → Bool
is_some_pre none = false
is_some_pre (some parts) = true

unfoldable pub status_of : Version → Version → AppUpdateStatus
status_of latest current = if is_greater (cmp latest current) then available else up_to_date

unfoldable pub url_of : AppUpdateStatus → Option Text
url_of available = some releases_url
url_of _ = none

unfoldable pub info_of : Text → Text → AppUpdateStatus → AppUpdateInfo
unfolding url_of
info_of current_text latest_text status = record {
  current_version = current_text;
  latest_version = some latest_text;
  status = status;
  release_url = url_of status;
}

unfoldable pub compared : Text → Text → Version → Option Version → Result String AppUpdateInfo
unfolding info_of status_of
compared current_text latest_text latest none = err "Current version is invalid"
compared current_text latest_text latest (some current) =
    ok (info_of current_text latest_text (status_of latest current))

unfoldable pub stable_release : Text → Text → Option Version → Result String AppUpdateInfo
unfolding compared
stable_release current_text latest_text none = err "Update response is invalid"
stable_release current_text latest_text (some latest) =
    if is_some_pre latest.pre
    then err "Update response is invalid"
    else compared current_text latest_text latest (parse current_text)

-- starts_with('v'), then the rest of the tag
unfoldable pub tagged_release : Text → Option Text → Result String AppUpdateInfo
unfolding stable_release
tagged_release current_text none = err "Update response is invalid"
tagged_release current_text (some latest_text) =
    stable_release current_text latest_text (parse latest_text)

unfoldable pub checked_release : Text → Option GithubRelease → Result String AppUpdateInfo
unfolding tagged_release
checked_release current_text none = err "Update response is invalid"
checked_release current_text (some r) =
    if is_published r
    then tagged_release current_text (strip_prefix (codes "v") r.tag_name)
    else err "Update response is invalid"

-- `from_slice` is serde_json's parser of a release.
unfoldable pub parse_release_for_current :
    (List ℕ → Option GithubRelease) → List ℕ → Text → Result String AppUpdateInfo
unfolding checked_release
parse_release_for_current from_slice body current_text =
    if ltb max_response_bytes (length body)
    then err "Update response is invalid"
    else checked_release current_text (from_slice body)

-- What an accepted answer comes from, and what it says.
pub record Accepts (from_slice : List ℕ → Option GithubRelease) (body : List ℕ)
    (current_text : Text) (info : AppUpdateInfo) : Type 0 where
  pub release : GithubRelease
  pub latest_text : Text
  pub latest : Version
  pub current : Version
  pub small : length body ≤ max_response_bytes
  pub parsed : from_slice body ≡ some release
  pub official : is_published release ≡ true
  pub tag : release.tag_name ≡ b'v' ∷ latest_text
  pub latest_parsed : parse latest_text ≡ some latest
  pub stable : latest.pre ≡ none
  pub current_parsed : parse current_text ≡ some current
  pub newer : cmp latest current ≡ Ordering.gt → info ≡ info_of current_text latest_text available
  pub not_newer :
      cmp latest current ≢ Ordering.gt → info ≡ info_of current_text latest_text up_to_date

strip_v : (tag : Text) (s : Text) → strip_prefix (codes "v") tag ≡ some s → tag ≡ b'v' ∷ s
strip_v [] s h = cc
strip_v (c ∷ t) s h = ground arith

is_some_pre-none : (o : Option (List PrePart)) → is_some_pre o ≡ false → o ≡ none
is_some_pre-none none h = refl
is_some_pre-none (some p) h = cc

is_greater-gt : (x : Ordering) → is_greater x ≡ true → x ≡ Ordering.gt
is_greater-gt x h = ground arith

is_greater-not : (x : Ordering) → is_greater x ≡ false → x ≢ Ordering.gt
is_greater-not x h e = ground arith

is_greater-of_not : (x : Ordering) → x ≢ Ordering.gt → is_greater x ≡ false
is_greater-of_not x h = ground (arith, h)

module _ (from_slice : List ℕ → Option GithubRelease) (body : List ℕ) (current_text : Text)
    (info : AppUpdateInfo) where
  compared-ok :
      (s : Text) (latest : Version) (o : Option Version)
      → compared current_text s latest o ≡ ok info
      → (current : Version) × (o ≡ some current)
        × (info ≡ info_of current_text s (status_of latest current))
  unfolding compared
  compared-ok s latest none h = cc
  compared-ok s latest (some current) h = (current, refl, ok-injective _ _ (sym h))

  status-newer :
      (s : Text) (latest current : Version)
      → info ≡ info_of current_text s (status_of latest current)
      → cmp latest current ≡ Ordering.gt
      → info ≡ info_of current_text s available
  unfolding status_of
  status-newer s latest current h e = rw e at h

  status-not_newer :
      (s : Text) (latest current : Version)
      → info ≡ info_of current_text s (status_of latest current)
      → cmp latest current ≢ Ordering.gt
      → info ≡ info_of current_text s up_to_date
  unfolding status_of
  status-not_newer s latest current h e = rw (is_greater-of_not _ e) at h

  stable_release-ok :
      (s : Text) (o : Option Version)
      → stable_release current_text s o ≡ ok info
      → (latest : Version) × (o ≡ some latest)
        × (latest.pre ≡ none)
        × (compared current_text s latest (parse current_text) ≡ ok info)
  unfolding stable_release
  stable_release-ok s none h = cc
  stable_release-ok s (some latest) h = elim (Bool-cases (is_some_pre latest.pre)) [
    | inl pre ↦ cc (rw pre at h)
    | inr release ↦ (latest, refl, is_some_pre-none _ release, rw release at h)
  ]

  stable_release-some :
      (s : Text) (latest : Version)
      → latest.pre ≡ none
      → stable_release current_text s (some latest)
        ≡ compared current_text s latest (parse current_text)
  unfolding stable_release
  stable_release-some s latest h =
      let e : is_some_pre latest.pre ≡ false = ap is_some_pre h in rw e refl

  accepted :
      (r : GithubRelease) (o : Option Text)
      → length body ≤ max_response_bytes
      → from_slice body ≡ some r
      → is_published r ≡ true
      → strip_prefix (codes "v") r.tag_name ≡ o
      → tagged_release current_text o ≡ ok info
      → Accepts from_slice body current_text info
  unfolding tagged_release
  accepted r none small parsed official tag h = cc
  accepted r (some s) small parsed official tag h =
      let (latest, e, stable, k) = stable_release-ok s (parse s) h in
      let (current, f, same) = compared-ok s latest (parse current_text) k in
      record {
        release = r;
        latest_text = s;
        latest = latest;
        current = current;
        small = small;
        parsed = parsed;
        official = official;
        tag = strip_v r.tag_name s tag;
        latest_parsed = e;
        stable = stable;
        current_parsed = f;
        newer = status-newer s latest current same;
        not_newer = status-not_newer s latest current same;
      }

  checked :
      (o : Option GithubRelease)
      → from_slice body ≡ o
      → length body ≤ max_response_bytes
      → checked_release current_text o ≡ ok info
      → Accepts from_slice body current_text info
  unfolding checked_release
  checked none parsed small h = cc
  checked (some r) parsed small h = elim (Bool-cases (is_published r)) [
    | inl official ↦ accepted r _ small parsed official refl (rw official at h)
    | inr other ↦ cc (rw other at h)
  ]

  parse_release-Accepts :
      parse_release_for_current from_slice body current_text ≡ ok info
      → Accepts from_slice body current_text info
  unfolding parse_release_for_current
  parse_release-Accepts h = elim (Bool-cases (ltb max_response_bytes (length body))) [
    | inl large ↦ cc (rw large at h)
    | inr small ↦ checked _ refl (le_of_ltb-false _ _ small) (rw small at h)
  ]

  info-of_Accepts :
      (a : Accepts from_slice body current_text info)
      → info_of current_text a.latest_text (status_of a.latest a.current) ≡ info
  unfolding status_of
  info-of_Accepts a = elim (Bool-cases (is_greater (cmp a.latest a.current))) [
    | inl more ↦ rw more (sym (a.newer (is_greater-gt _ more)))
    | inr less ↦ rw less (sym (a.not_newer (is_greater-not _ less)))
  ]

  Accepts-parse_release :
      Accepts from_slice body current_text info
      → parse_release_for_current from_slice body current_text ≡ ok info
  unfolding parse_release_for_current checked_release tagged_release compared
  Accepts-parse_release a =
      rw (ltb-false_of_le _ _ a.small, a.parsed, a.official, a.tag, a.latest_parsed)
        (stable_release-some a.latest_text a.latest a.stable
          ∙ ap (compared current_text a.latest_text a.latest) a.current_parsed
          ∙ ap ok (info-of_Accepts a))

-- An answer is accepted exactly if it is small, published, tagged `v` and a stable version, and the
-- current version parses; the result then offers the release page exactly if the release is newer.
pub parse_release_for_current_iff :
    (from_slice : List ℕ → Option GithubRelease) (body : List ℕ) (current_text : Text)
    (info : AppUpdateInfo)
    → (parse_release_for_current from_slice body current_text ≡ ok info)
      ↔ Accepts from_slice body current_text info
parse_release_for_current_iff from_slice body current_text info = (
  parse_release-Accepts from_slice body current_text info,
  Accepts-parse_release from_slice body current_text info,
)
