-- ===== src/PortableUpdate/Directories.antt =====
-- portable_update/manifest.rs `validate_manifest`, the test for parents: a path with another one as a
-- directory is found.
use mathlib.Core.List.{append-nil, append_assoc}
use route_deck.Prelude.{
  ℕ, ◌≡◌, refl, sym, ap, ◌∙◌, Bool, true, false, not, ◌&&◌, ◌||◌, List, [], ◌∷◌, ◌++◌, any, arith,
  Bool-cases, inl, inr, ◌⊎◌, subst, ◌==◌, if◌then◌else◌, length, length-append, holds_iff,
}
use route_deck.Text.{Text, Text-discrete, is_empty}
use route_deck.Text.Split.{split, prepend}
use route_deck.PortableUpdate.{leading_paths, has_child, is_in, same}

-- A component behind a parent.
abbrev joined : Text → Text → Text
joined parent part = (if is_empty parent then [] else parent ++ b'/' ∷ []) ++ part

-- The first component goes on with what was read of it.
abbrev continued : Text → List Text → List Text
continued q [] = q ∷ []
continued q (p ∷ ps) = (q ++ p) ∷ ps

-- The paths that a reader of the text passes, component by component.
lead : Text → Text → Text → List Text
lead parent q [] = joined parent q ∷ []
lead parent q (c ∷ s) =
    let ends = lead (joined parent q) [] s in
    let goes = lead parent (q ++ c ∷ []) s in if c == b'/' then joined parent q ∷ ends else goes

continued-prepend :
    (q : Text) (c : ℕ) (ps : List Text) → continued q (prepend c ps) ≡ continued (q ++ c ∷ []) ps
unfolding prepend
continued-prepend q c [] = refl
continued-prepend q c (p ∷ ps) = ap (λ x. x ∷ ps) (sym (append_assoc q (c ∷ []) p))

continued_nil : (s : Text) → continued [] (split b'/' s) ≡ split b'/' s
unfolding split prepend
continued_nil [] = refl
continued_nil (c ∷ s) = elim (Bool-cases (c == b'/')) [
  | inl ends ↦ rw ends refl
  | inr goes ↦ rw goes (kept (split b'/' s))
]
  where
    kept : (ps : List Text) → continued [] (prepend c ps) ≡ prepend c ps
    kept [] = refl
    kept (p ∷ ps) = refl

leading_paths-lead :
    (s parent q : Text) → leading_paths parent (continued q (split b'/' s)) ≡ lead parent q s
unfolding leading_paths lead split
leading_paths-lead [] parent q = ap (λ x. joined parent x ∷ []) (append-nil q)
leading_paths-lead (c ∷ s) parent q = elim (Bool-cases (c == b'/')) [
  | inl ends ↦ rw ends (
      ap (λ x. joined parent x ∷ leading_paths (joined parent x) (split b'/' s)) (append-nil q)
      ∙ ap (λ y. joined parent q ∷ y)
          (ap (leading_paths (joined parent q)) (sym (continued_nil s))
            ∙ leading_paths-lead s (joined parent q) []))
  | inr goes ↦ rw goes (
      ap (leading_paths parent) (continued-prepend q c (split b'/' s))
      ∙ leading_paths-lead s parent (q ++ c ∷ []))
]

nonempty_append : (x : Text) (c : ℕ) → is_empty (x ++ c ∷ []) ≡ false
nonempty_append [] c = refl
nonempty_append (d ∷ x) c = refl

joined_nil : (x : Text) → is_empty x ≡ false → joined x [] ≡ x ++ b'/' ∷ []
joined_nil x h = rw h (append-nil (x ++ b'/' ∷ []))

or_right : (a b : Bool) → b ≡ true → (a || b) ≡ true
or_right a b h = ground arith

-- If a test holds of what stands before a separator, then it holds of a path on the way.
lead-passes :
    (f : Text → Bool) (a rest parent q : Text)
    → is_empty (joined parent q) ≡ false
    → f (joined parent q ++ a) ≡ true
    → any f (lead parent q (a ++ b'/' ∷ rest)) ≡ true
unfolding lead
lead-passes f [] rest parent q n h =
    rw (subst (λ x. f x ≡ true) (append-nil (joined parent q)) h) refl
lead-passes f (c ∷ a) rest parent q n h =
    let x = joined parent q in
    elim (Bool-cases (c == b'/')) [
      | inl ends ↦
          let slash : c ≡ b'/' = ground (arith, ends) in
          let e : joined x [] ++ a ≡ x ++ c ∷ a =
            ap (λ y. y ++ a) (joined_nil x n)
            ∙ append_assoc x (b'/' ∷ []) a
            ∙ ap (λ d. x ++ d ∷ a) (sym slash) in
          rw ends (
            or_right _ _ (
              lead-passes f a rest x [] (ap is_empty (joined_nil x n) ∙ nonempty_append x b'/')
                (subst (λ y. f y ≡ true) (sym e) h)))
      | inr goes ↦
          let longer : joined parent (q ++ c ∷ []) ≡ x ++ c ∷ [] =
            sym (append_assoc _ q (c ∷ [])) in
          rw goes (
            lead-passes f a rest parent (q ++ c ∷ []) (ap is_empty longer ∙ nonempty_append x c) (
              subst (λ y. f y ≡ true) (sym (ap (λ y. y ++ a) longer ∙ append_assoc x (c ∷ []) a))
                h))
    ]

-- A path that has a name of the list, which does not begin with a separator, as a directory.
pub has_child-directory :
    (names : List Text) (c : ℕ) (a rest : Text)
    → (c == b'/') ≡ false
    → is_in (c ∷ a) names ≡ true
    → has_child names (c ∷ a ++ b'/' ∷ rest) ≡ true
unfolding has_child lead
has_child-directory names c a rest h i =
    let p : Text = c ∷ a ++ b'/' ∷ rest in
    let f : Text → Bool = λ x. not (same x p) && is_in x names in
    ap (any f) (ap (leading_paths []) (sym (continued_nil p)) ∙ leading_paths-lead p [] [])
    ∙ rw h
        (lead-passes f a rest [] (c ∷ []) refl (rw (other (Bool-cases (same (c ∷ a) p)), i) refl))
  where
    shorter : (x y : Text) → x ≡ x ++ b'/' ∷ y → ⊥
    shorter x y e = omega (arith, ap length e, length-append x (b'/' ∷ y))

    other :
        (same (c ∷ a) (c ∷ a ++ b'/' ∷ rest) ≡ true) ⊎ (same (c ∷ a) (c ∷ a ++ b'/' ∷ rest) ≡ false)
        → same (c ∷ a) (c ∷ a ++ b'/' ∷ rest) ≡ false
    other (inl e) =
        absurd (shorter (c ∷ a) rest (holds_iff (Text-discrete (c ∷ a) (c ∷ a ++ b'/' ∷ rest)) e))
    other (inr e) = e
