-- ===== src/PortableUpdate/Names.antt =====
-- portable_update/manifest.rs `validate_manifest`, the loop over the files: the names it collects.
use mathlib.Core.List.{Memᴰ}
use mathlib.Core.Option.{some-injective}
use route_deck.Prelude.{
  ℕ, ◌+◌, ◌≡◌, ◌≢◌, refl, sym, ap, ◌∙◌, Bool, true, false, not, ◌&&◌, some, List, [], ◌∷◌, ltb, all,
  any, arith, and-true, Bool-cases, inl, inr, ◌⊎◌, subst, holds_iff, holds_of,
}
use route_deck.Text.{Text, Text-discrete, to_ascii_lowercase}
use route_deck.PortableUpdate.{BundleFile, collected_names, file_valid, is_in, same}

abbrev pub total_size : List BundleFile → ℕ
total_size [] = 0
total_size (f ∷ fs) = f.size + total_size fs

-- Each file is valid by itself, and no two have one name, in whatever case.
abbrev pub FilesApart : List Text → List BundleFile → Type 0
FilesApart names [] = Unit {0}
FilesApart names (f ∷ fs) =
    (file_valid f ≡ true)
    × (is_in (to_ascii_lowercase f.path) names ≡ false)
    × FilesApart (to_ascii_lowercase f.path ∷ names) fs

-- The names of the files in lower case, the last first.
abbrev pub names_from : List Text → List BundleFile → List Text
names_from names [] = names
names_from names (f ∷ fs) = names_from (to_ascii_lowercase f.path ∷ names) fs

pub collected_names-FilesApart :
    (names : List Text) (total : ℕ) (fs : List BundleFile) (r : List Text × ℕ)
    → collected_names names total fs ≡ some r
    → FilesApart names fs × (r.0 ≡ names_from names fs) × (r.1 ≡ total + total_size fs)
unfolding collected_names
collected_names-FilesApart names total [] r h =
    let e = some-injective (names, total) r h in
    (tt, sym (ap (λ (x : List Text × ℕ). x.0) e), omega (arith, ap (λ (x : List Text × ℕ). x.1) e))
collected_names-FilesApart names total (f ∷ fs) r h =
    elim (Bool-cases (
      file_valid f
      && not (is_in (to_ascii_lowercase f.path) names)
      && ltb (total + f.size) 18446744073709551616)) [
        | inl valid ↦
            let (a, b) = fields _ _ _ valid in
            let (apart, e, sum) =
              collected_names-FilesApart (to_ascii_lowercase f.path ∷ names) (total + f.size) fs r
                (rw valid at h) in
            ((a, b, apart), e, omega (arith, sum))
        | inr invalid ↦ cc (rw invalid at h)
      ]
  where
    fields : (a b c : Bool) → (a && not b && c) ≡ true → (a ≡ true) × (b ≡ false)
    fields a b c k = ground arith

-- The lists of the loop, by what stands in them.
module _ {A : Type 0} where
  pub all-mem : (p : A → Bool) (x : A) (xs : List A) → all p xs ≡ true → Memᴰ x xs → p x ≡ true
  all-mem p x [] h m = elim m [ ]
  all-mem p x (y ∷ xs) h (Memᴰ.head e) = ap p e ∙ (and-true (p y) (all p xs) h).0
  all-mem p x (y ∷ xs) h (Memᴰ.tail m) = all-mem p x xs (and-true (p y) (all p xs) h).1 m

is_in-eq : (x y : Text) (ys : List Text) → is_in x (y ∷ ys) ≡ true → (x ≡ y) ⊎ (is_in x ys ≡ true)
is_in-eq x y ys h = elim (Bool-cases (same x y)) [
  | inl e ↦ inl (holds_iff (Text-discrete x y) e)
  | inr o ↦ inr (rw o at h)
]

is_in-here : (x : Text) (xs : List Text) → is_in x (x ∷ xs) ≡ true
is_in-here x xs = rw (holds_of (Text-discrete x x) refl) refl

is_in-there : (x y : Text) (xs : List Text) → is_in x xs ≡ true → is_in x (y ∷ xs) ≡ true
is_in-there x y xs h = ground (arith, h)

pub any-is_in :
    (p : Text → Bool) (x : Text) (xs : List Text)
    → any p xs ≡ false
    → is_in x xs ≡ true
    → p x ≡ false
any-is_in p x [] h i = cc
any-is_in p x (y ∷ xs) h i = elim (is_in-eq x y xs i) [
  | inl e ↦ ap p e ∙ ground (arith, h)
  | inr k ↦ any-is_in p x xs (ground (arith, h)) k
]

is_in-names_from :
    (x : Text) (names : List Text) (fs : List BundleFile)
    → is_in x names ≡ true
    → is_in x (names_from names fs) ≡ true
is_in-names_from x names [] h = h
is_in-names_from x names (f ∷ fs) h =
    is_in-names_from x (to_ascii_lowercase f.path ∷ names) fs
      (is_in-there x (to_ascii_lowercase f.path) names h)

-- The name of each file is among those that were collected.
pub named :
    (names : List Text) (f : BundleFile) (fs : List BundleFile)
    → Memᴰ f fs
    → is_in (to_ascii_lowercase f.path) (names_from names fs) ≡ true
named names f [] m = elim m [ ]
named names f (g ∷ fs) (Memᴰ.head e) =
    is_in-names_from (to_ascii_lowercase f.path) (to_ascii_lowercase g.path ∷ names) fs (
      subst (λ x. is_in x (to_ascii_lowercase g.path ∷ names) ≡ true)
        (ap (λ (h : BundleFile). to_ascii_lowercase h.path) (sym e))
        (is_in-here (to_ascii_lowercase g.path) names))
named names f (g ∷ fs) (Memᴰ.tail m) = named (to_ascii_lowercase g.path ∷ names) f fs m

-- A file with the name.
abbrev pub HasName : Text → List BundleFile → Type 0
HasName r fs = (f : BundleFile) × Memᴰ f fs × (to_ascii_lowercase f.path ≡ r)

-- And each name that was collected is one from before or that of a file.
pub names_from-file :
    (r : Text) (names : List Text) (fs : List BundleFile)
    → is_in r (names_from names fs) ≡ true
    → (is_in r names ≡ true) ⊎ HasName r fs
names_from-file r names [] h = inl h
names_from-file r names (f ∷ fs) h =
    elim (names_from-file r (to_ascii_lowercase f.path ∷ names) fs h) [
      | inl k ↦ elim (is_in-eq r (to_ascii_lowercase f.path) names k) [
        | inl e ↦ inr (f, Memᴰ.head refl, sym e)
        | inr o ↦ inl o
      ]
      | inr (g, m, e) ↦ inr (g, Memᴰ.tail m, e)
    ]

apart_from :
    (names : List Text) (f : BundleFile) (fs : List BundleFile)
    → FilesApart names fs
    → Memᴰ f fs
    → is_in (to_ascii_lowercase f.path) names ≡ false
apart_from names f [] h m = elim m [ ]
apart_from names f (g ∷ fs) h (Memᴰ.head e) =
    ap (λ (x : BundleFile). is_in (to_ascii_lowercase x.path) names) e ∙ h.1
apart_from names f (g ∷ fs) h (Memᴰ.tail m) =
    let k = apart_from (to_ascii_lowercase g.path ∷ names) f fs h.2 m in ground (arith, k)

-- No two of the files have one name, in whatever case.
abbrev pub Distinct : List BundleFile → Type 0
Distinct [] = Unit {0}
Distinct (f ∷ fs) =
    ((g : BundleFile) → Memᴰ g fs → to_ascii_lowercase g.path ≢ to_ascii_lowercase f.path)
    × Distinct fs

pub FilesApart-Distinct :
    (names : List Text) (fs : List BundleFile) → FilesApart names fs → Distinct fs
FilesApart-Distinct names [] h = tt
FilesApart-Distinct names (f ∷ fs) h = (
  λ g m e.
      let k = apart_from (to_ascii_lowercase f.path ∷ names) g fs h.2 m in
      let i : is_in (to_ascii_lowercase g.path) (to_ascii_lowercase f.path ∷ names) ≡ true =
        subst (λ x. is_in x (to_ascii_lowercase f.path ∷ names) ≡ true) (sym e)
          (is_in-here (to_ascii_lowercase f.path) names) in
      cc (k, i),
  FilesApart-Distinct (to_ascii_lowercase f.path ∷ names) fs h.2,
)

pub FilesApart-valid :
    (names : List Text) (f : BundleFile) (fs : List BundleFile)
    → FilesApart names fs
    → Memᴰ f fs
    → file_valid f ≡ true
FilesApart-valid names f [] h m = elim m [ ]
FilesApart-valid names f (g ∷ fs) h (Memᴰ.head e) = ap file_valid e ∙ h.0
FilesApart-valid names f (g ∷ fs) h (Memᴰ.tail m) =
    FilesApart-valid (to_ascii_lowercase g.path ∷ names) f fs h.2 m
