-- ===== src/Diagnostics/Bounds.antt =====
-- engine_runtime.rs `DiagnosticBuffer::push`: the bounds that it keeps and the lines that it loses.
use route_deck.Prelude.{
  ℕ, ◌+◌, ◌-◌, ◌≤◌, ◌<◌, ◌≡◌, refl, ap, ◌⊎◌, inl, inr, Bool-cases, ltb, le_of_ltb-false, List, [],
  ◌∷◌, ◌++◌, length, arith, ◌⊎◌, Bool-cases, ◌∙◌, sym,
}
use route_deck.Text.{Text, byte_len}
use route_deck.Diagnostics.{
  DiagnosticBuffer, default, push, trimmed, is_over, kept_line, max_diagnostic_lines,
  max_diagnostic_bytes, max_line_bytes, ltb, true,
}

abbrev pub total : List Text → ℕ
total [] = 0
total (l ∷ ls) = byte_len l + total ls

total-append : (xs ys : List Text) → total (xs ++ ys) ≡ total xs + total ys
total-append [] ys = omega arith
total-append (x ∷ xs) ys = omega (arith, total-append xs ys)

-- The byte count is that of the lines, and both bounds hold.
pub record IsBounded (b : DiagnosticBuffer) : Type 0 where
  pub counted : b.bytes ≡ total b.lines
  pub few_lines : length b.lines ≤ max_diagnostic_lines
  pub few_bytes : b.bytes ≤ max_diagnostic_bytes

pub default-IsBounded : IsBounded default
default-IsBounded = record { counted = refl; few_lines = omega arith; few_bytes = omega arith }

trimmed-IsBounded : (ls : List Text) (n : ℕ) → n ≡ total ls → IsBounded (trimmed ls n)
unfolding trimmed is_over
trimmed-IsBounded [] n h = record { counted = h; few_lines = omega arith; few_bytes = omega arith }
trimmed-IsBounded (l ∷ ls) n h = elim (Bool-cases (is_over (length (l ∷ ls)) n)) [
  | inl over ↦ rw over (trimmed-IsBounded ls (n - byte_len l) (omega arith))
  | inr under ↦
      rw under (record { counted = h; few_lines = ground arith; few_bytes = ground arith })
]

kept_line-short : (line : Text) → byte_len (kept_line line) ≤ max_line_bytes
unfolding kept_line
kept_line-short line = elim (Bool-cases (ltb max_line_bytes (byte_len line))) [
  | inl long ↦ rw long (omega arith)
  | inr short ↦ rw short (le_of_ltb-false _ _ short)
]

-- Each line that was dropped stood at the front of lines that passed a bound.
abbrev pub Needed : List Text → List Text → Type 0
Needed [] kept = Unit {0}
Needed (l ∷ ls) kept =
    ((max_diagnostic_lines < length (l ∷ ls ++ kept))
      ⊎ (max_diagnostic_bytes < total (l ∷ ls ++ kept)))
    × Needed ls kept

-- `after` is what a line leaves of `before`: the newest lines, and no fewer than the bounds allow.
abbrev pub Appends : Text → List Text → List Text → Type 0
Appends line before after =
    (dropped : List Text) × (rest : List Text) × (before ≡ dropped ++ rest)
    × (after ≡ rest ++ line ∷ [])
    × Needed dropped after

regroup :
    (dropped rest ls after : List Text) (line : Text)
    → ls ≡ dropped ++ rest
    → after ≡ rest ++ line ∷ []
    → dropped ++ after ≡ ls ++ line ∷ []
regroup [] rest ls after line e f = cc
regroup (d ∷ ds) rest ls after line e f =
    ap (d ∷◌) (regroup ds rest (ds ++ rest) after line refl f) ∙ ap (◌++ line ∷ []) (sym e)

over-either :
    (xs : List Text) (l : Text) (n : ℕ) (ys : List Text)
    → is_over (length (l ∷ ys)) n ≡ true
    → n ≡ total (l ∷ ys)
    → xs ≡ ys
    → (max_diagnostic_lines < length (l ∷ xs)) ⊎ (max_diagnostic_bytes < total (l ∷ xs))
unfolding is_over
over-either xs l n ys h k e = ground (arith, ap length e, ap total e)

trimmed-Appends :
    (line : Text) (ls : List Text) (n : ℕ)
    → byte_len line ≤ max_line_bytes
    → n ≡ total (ls ++ line ∷ [])
    → Appends line ls (trimmed (ls ++ line ∷ []) n).lines
unfolding trimmed is_over
trimmed-Appends line [] n h k = ([], [], refl, ground arith, tt)
trimmed-Appends line (l ∷ ls) n h k =
    let (dropped, rest, e, f, needed) = trimmed-Appends line ls (n - byte_len l) h (omega arith) in
    elim (Bool-cases (is_over (length (l ∷ ls ++ line ∷ [])) n)) [
      | inl over ↦ rw over (
        l ∷ dropped,
        rest,
        ap (l ∷◌) e,
        f,
        (over-either _ l n _ over k (regroup dropped rest ls _ line e f), needed),
      )
      | inr under ↦ rw under ([], l ∷ ls, refl, refl, tt)
    ]

pub push-IsBounded : (line : Text) (b : DiagnosticBuffer) → IsBounded b → IsBounded (push line b)
unfolding push
push-IsBounded line b h =
    trimmed-IsBounded (b.lines ++ kept_line line ∷ []) (b.bytes + byte_len (kept_line line))
      (omega (arith, h.counted, total-append b.lines (kept_line line ∷ [])))

-- From a bounded buffer a push gives a bounded one, with the exact byte count; it ends with the new
-- line, or the note in its place, and lost only lines from the front, each while a bound was passed.
pub push-Appends :
    (line : Text) (b : DiagnosticBuffer)
    → IsBounded b
    → IsBounded (push line b) × Appends (kept_line line) b.lines (push line b).lines
unfolding push
push-Appends line b h = (
  push-IsBounded line b h,
  trimmed-Appends (kept_line line) b.lines (b.bytes + byte_len (kept_line line))
      (kept_line-short line) (omega (arith, h.counted, total-append b.lines (kept_line line ∷ []))),
)
