-- ===== src/PortableUpdate/Sound.antt =====
-- portable_update/manifest.rs `validate_manifest`: what an accepted list of files guarantees.
use mathlib.Core.List.{Memᴰ}
use route_deck.Prelude.{
  ℕ, ◌+◌, ◌≤◌, ◌≡◌, ◌≢◌, refl, ap, ◌∙◌, Bool, true, false, not, ◌&&◌, Option, none, some, List, [],
  ◌∷◌, ◌++◌, leb, all, any, arith, and-true, Bool-cases, inl, inr, ◌⊎◌, subst, ◌==◌, if◌then◌else◌,
  holds_of, holds_iff, length,
}
use route_deck.Text.{Text, Text-discrete, to_ascii_lowercase, codes, byte_len, is_empty}
use route_deck.Text.Hex.{unhex}
use route_deck.Text.Split.{split}
use route_deck.Action.{ok}
use route_deck.Results.{ensure-ok}
use route_deck.PortableUpdate.{
  UpdateManifest, BundleFile, validate_manifest, head_valid, names_valid, collected_names, same,
  file_valid, has_child, is_in, required, expanded_limit, bundle_limit, stable_version,
  allowed_file, safe_relative, safe_part, is_digest,
}
use route_deck.PortableUpdate.Directories.{has_child-directory}
use route_deck.PortableUpdate.Names.{
  total_size, names_from, Distinct, HasName, collected_names-FilesApart, FilesApart-Distinct,
  FilesApart-valid, named, names_from-file, any-is_in, all-mem,
}

-- 64 hexadecimal digits, which stand for bytes.
abbrev pub HasDigest : Text → Type 0
HasDigest s = (bytes : List ℕ) × (unhex 32 s ≡ some bytes)

-- A component of a path that leads somewhere below its parent.
abbrev pub IsBelow : Text → Type 0
IsBelow part = (part ≢ []) × (part ≢ codes ".") × (part ≢ codes "..")

pub record IsFile (f : BundleFile) : Type 0 where
  pub not_empty : 1 ≤ f.size
  pub bounded : f.size ≤ bundle_limit
  pub short : byte_len f.path ≤ 200
  pub below : (part : Text) → Memᴰ part (split b'/' f.path) → IsBelow part
  pub placed : allowed_file f.path ≡ true
  pub digest : HasDigest f.sha256

pub record IsHead (m : UpdateManifest) : Type 0 where
  pub schema : m.schema_version ≡ 1
  pub version : stable_version m.version ≡ true
  pub platform : m.platform ≡ codes "windows-x64"
  pub archive : m.archive ≡ codes "RouteDeck-" ++ (m.version ++ codes "-windows-x64.zip")
  pub not_empty : 1 ≤ m.size
  pub bounded : m.size ≤ bundle_limit
  pub digest : HasDigest m.sha256
  pub at_least : 8 ≤ length m.files
  pub at_most : length m.files ≤ 512

-- What an accepted manifest guarantees.
pub record IsSound (m : UpdateManifest) : Type 0 where
  pub head : IsHead m
  pub files : (f : BundleFile) → Memᴰ f m.files → IsFile f
  pub distinct : Distinct m.files
  pub complete : (r : Text) → Memᴰ r required → HasName r m.files
  pub bounded : total_size m.files ≤ expanded_limit
  pub no_directory :
      (f g : BundleFile) (rest : Text)
      → Memᴰ f m.files
      → Memᴰ g m.files
      → to_ascii_lowercase g.path ≢ to_ascii_lowercase f.path ++ b'/' ∷ rest

is_digest-HasDigest : (s : Text) → is_digest s ≡ true → HasDigest s
unfolding is_digest
is_digest-HasDigest s h = parsed (unhex 32 s) h
  where
    parsed :
        (o : Option (List ℕ))
        → elim o [ none ↦ false | some bytes ↦ true ] ≡ true
        → (bytes : List ℕ) × (o ≡ some bytes)
    parsed none k = cc
    parsed (some bytes) k = (bytes, refl)

same-false : (a b : Text) → same a b ≡ false → a ≢ b
same-false a b h e = cc (h, holds_of (Text-discrete a b) e)

safe_part-IsBelow : (part : Text) → safe_part part ≡ true → IsBelow part
unfolding safe_part
safe_part-IsBelow part h = (
  λ e. ground (arith, h, ap is_empty e),
  same-false part (codes ".") (ground (arith, h)),
  same-false part (codes "..") (ground (arith, h)),
)

five :
    (a b c d e : Bool)
    → (a && b && c && d && e) ≡ true
    → (a ≡ true) × (b ≡ true) × (c ≡ true) × (d ≡ true) × (e ≡ true)
five a b c d e h = ground arith

positive : (n : ℕ) → not (n == 0) ≡ true → 1 ≤ n
positive n h = ground (arith, h)

at_most : (m n : ℕ) → leb m n ≡ true → m ≤ n
at_most m n h = ground (arith, h)

safe_relative-parts :
    (path : Text)
    → safe_relative path ≡ true
    → (is_empty path ≡ false) × (byte_len path ≤ 200) × (all safe_part (split b'/' path) ≡ true)
unfolding safe_relative
safe_relative-parts path h =
    let (ab, c) =
      and-true (not (is_empty path) && leb (byte_len path) 200) (all safe_part (split b'/' path))
        h in
    let (a, b) = and-true (not (is_empty path)) (leb (byte_len path) 200) ab in
    (ground (arith, a), at_most (byte_len path) 200 b, c)

file_valid-IsFile : (f : BundleFile) → file_valid f ≡ true → IsFile f
unfolding file_valid
file_valid-IsFile f h =
    let (safe, placed, some_bytes, few_bytes, digest) =
      five (safe_relative f.path) (allowed_file f.path) (not (f.size == 0))
        (leb f.size bundle_limit) (is_digest f.sha256) h in
    let (some_path, short, parts) = safe_relative-parts f.path safe in
    record {
      not_empty = positive f.size some_bytes;
      bounded = at_most f.size bundle_limit few_bytes;
      short = short;
      below = λ part m. safe_part-IsBelow part (all-mem safe_part part (split b'/' f.path) parts m);
      placed = placed;
      digest = is_digest-HasDigest f.sha256 digest;
    }

head_valid-IsHead : (m : UpdateManifest) → head_valid m ≡ true → IsHead m
unfolding head_valid
head_valid-IsHead m h = record {
  schema = ground (arith, h);
  version = ground (arith, h);
  platform = holds_iff (Text-discrete m.platform (codes "windows-x64")) (ground (arith, h));
  archive =
      holds_iff
        (Text-discrete m.archive (codes "RouteDeck-" ++ (m.version ++ codes "-windows-x64.zip")))
        (ground (arith, h));
  not_empty = ground (arith, h);
  bounded = ground (arith, h);
  digest = is_digest-HasDigest m.sha256 (ground (arith, h));
  at_least = ground (arith, h);
  at_most = ground (arith, h);
}

safe_path : (f : BundleFile) → file_valid f ≡ true → safe_relative f.path ≡ true
unfolding file_valid
safe_path f h =
    (five (safe_relative f.path) (allowed_file f.path) (not (f.size == 0)) (leb f.size bundle_limit)
      (is_digest f.sha256) h).0

starts_safe : (c : ℕ) (s : Text) → all safe_part (split b'/' (c ∷ s)) ≡ true → (c == b'/') ≡ false
unfolding safe_part split
starts_safe c s h = elim (Bool-cases (c == b'/')) [ inl e ↦ cc (rw e at h) | inr o ↦ o ]

-- The name of an accepted path is not empty and does not begin with a separator.
begins :
    (path : Text)
    → safe_relative path ≡ true
    → (c : ℕ) × (s : Text) × (to_ascii_lowercase path ≡ c ∷ s) × ((c == b'/') ≡ false)
begins [] h = cc ((safe_relative-parts [] h).0)
begins (c ∷ s) h = (
  if leb b'A' c && leb c b'Z' then c + 32 else c,
  to_ascii_lowercase s,
  refl,
  lower (starts_safe c s (safe_relative-parts (c ∷ s) h).2),
)
  where
    lower : (c == b'/') ≡ false → ((if leb b'A' c && leb c b'Z' then c + 32 else c) == b'/') ≡ false
    lower k = ground arith

names_valid-parts :
    (o : Option (List Text × ℕ))
    → names_valid o ≡ true
    → (names : List Text) × (total : ℕ) × (o ≡ some (names, total))
      × (all (λ r. is_in r names) required ≡ true)
      × (total ≤ expanded_limit)
      × (any (has_child names) names ≡ false)
unfolding names_valid
names_valid-parts none h = cc
names_valid-parts (some (names, total)) h =
    let (a, b, c) = three _ _ _ h in (names, total, refl, a, ground (arith, b), c)
  where
    three : (a b c : Bool) → (a && b && not c) ≡ true → (a ≡ true) × (b ≡ true) × (c ≡ false)
    three a b c k = ground arith

-- No name is a directory of another one, if none was found to have a parent.
apart_directories :
    (fs : List BundleFile) (f g : BundleFile) (rest : Text)
    → safe_relative f.path ≡ true
    → any (has_child (names_from [] fs)) (names_from [] fs) ≡ false
    → Memᴰ f fs
    → Memᴰ g fs
    → to_ascii_lowercase g.path ≢ to_ascii_lowercase f.path ++ b'/' ∷ rest
apart_directories fs f g rest safe alone mf mg e =
    let names = names_from [] fs in
    let (c, s, lower, other) = begins f.path safe in
    let found =
      has_child-directory names c s rest other
        (subst (λ x. is_in x names ≡ true) lower (named [] f fs mf)) in
    let none_found =
      any-is_in (has_child names) (to_ascii_lowercase g.path) names alone (named [] g fs mg) in
    cc (found, none_found, ap (has_child names) (e ∙ ap (λ x. x ++ b'/' ∷ rest) lower))

pub validate_manifest-IsSound : (m : UpdateManifest) → validate_manifest m ≡ ok tt → IsSound m
unfolding validate_manifest
validate_manifest-IsSound m h =
    let (head, names) =
      and-true (head_valid m) (names_valid (collected_names [] 0 m.files)) (ensure-ok _ _ tt h) in
    let (ns, total, e, complete, bounded, alone) = names_valid-parts _ names in
    let (apart, same_names, sum) = collected_names-FilesApart [] 0 m.files (ns, total) e in
    let alone' : any (has_child (names_from [] m.files)) (names_from [] m.files) ≡ false =
      subst (λ x. any (has_child x) x ≡ false) same_names alone in
    let complete' : all (λ r. is_in r (names_from [] m.files)) required ≡ true =
      subst (λ x. all (λ r. is_in r x) required ≡ true) same_names complete in
    record {
      head = head_valid-IsHead m head;
      files = λ f i. file_valid-IsFile f (FilesApart-valid [] f m.files apart i);
      distinct = FilesApart-Distinct [] m.files apart;
      complete = λ r i. there (
          names_from-file r [] m.files
            (all-mem (λ x. is_in x (names_from [] m.files)) r required complete' i));
      bounded = omega (arith, sum, bounded);
      no_directory = λ f g rest i j.
          apart_directories m.files f g rest (safe_path f (FilesApart-valid [] f m.files apart i))
            alone' i j;
    }
  where
    there : {r : Text} → (is_in r [] ≡ true) ⊎ HasName r m.files → HasName r m.files
    there (inl e) = cc
    there (inr x) = x
