-- ===== src/AppRules/Paths.antt =====
-- app_rule_matching.rs `executable_name`: the last component of a path.
use route_deck.Prelude.{
  ℕ, ◌≡◌, ◌⊎◌, inl, inr, refl, ap, true, false, [], ◌∷◌, ◌++◌, any, Bool-cases,
}
use route_deck.Text.{Text}
use route_deck.AppRules.{executable_name, is_separator}

-- `name` is what stands behind the last separator of `path`, or the whole of it.
abbrev pub LastComponent : Text → Text → Type 0
LastComponent path name =
    (any is_separator name ≡ false)
    × ((path ≡ name)
        ⊎ ((parent : Text) × (c : ℕ) × (is_separator c ≡ true) × (path ≡ parent ++ c ∷ name)))

-- The executable name of a path is its last component: it has no separator, and is the whole path or
-- stands behind one.
pub executable_name-LastComponent : (path : Text) → LastComponent path (executable_name path)
unfolding executable_name
executable_name-LastComponent [] = (refl, inl refl)
executable_name-LastComponent (c ∷ path) = elim (Bool-cases (any is_separator path)) [
  | inl deeper ↦
      let (clean, behind) = executable_name-LastComponent path in
      rw deeper (
        clean,
        inr (elim behind [
          | inl whole ↦ cc (ap (any is_separator) whole, clean, deeper)
          | inr (parent, d, sep, e) ↦ (c ∷ parent, d, sep, ap (c ∷◌) e)
        ]),
      )
  | inr last ↦ rw last (elim (Bool-cases (is_separator c)) [
    | inl sep ↦ rw sep (last, inr ([], c, sep, refl))
    | inr plain ↦ rw plain (rw plain last, inl refl)
  ])
]
