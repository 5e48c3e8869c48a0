-- ===== src/Text/Split.antt =====
-- `str::split` and `str::split_once` at one character.
use route_deck.Prelude.{ℕ, Option, none, some, List, [], ◌∷◌, ◌==◌, if◌then◌else◌, map_some, suc}
use route_deck.Text.{Text}

-- The parts before and behind the first separator.
unfoldable pub split_once : ℕ → Text → Option (Text × Text)
split_once d [] = none
split_once d (c ∷ s) =
    let rest = split_once d s in
    if c == d then some ([], s) else map_some (λ (h, t). (c ∷ h, t)) rest

unfoldable pub prepend : ℕ → List Text → List Text
prepend c [] = (c ∷ []) ∷ []
prepend c (p ∷ ps) = (c ∷ p) ∷ ps

-- The parts between the separators, one more than there are separators.
unfoldable pub split : ℕ → Text → List Text
unfolding prepend
split d [] = [] ∷ []
split d (c ∷ s) = let rest = split d s in if c == d then [] ∷ rest else prepend c rest

keep_later : ℕ → ℕ → Text → Option (Text × Text) → Option (Text × Text)
keep_later d c s (some (h, t)) = some (c ∷ h, t)
keep_later d c s none = if c == d then some ([], s) else none

-- The parts before and behind the last separator.
unfoldable pub rsplit_once : ℕ → Text → Option (Text × Text)
unfolding keep_later
rsplit_once d [] = none
rsplit_once d (c ∷ s) = keep_later d c s (rsplit_once d s)

-- matches(_).count()
abbrev pub count_char : ℕ → Text → ℕ
count_char d [] = 0
count_char d (c ∷ s) = let rest = count_char d s in if c == d then suc rest else rest

-- str::strip_suffix of one character
unfoldable pub strip_last : ℕ → Text → Option Text
strip_last d [] = none
strip_last d (c ∷ []) = if c == d then some [] else none
strip_last d (c ∷ e ∷ s) = map_some (c ∷◌) (strip_last d (e ∷ s))
