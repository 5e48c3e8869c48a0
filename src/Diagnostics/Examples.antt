-- ===== src/Diagnostics/Examples.antt =====
-- The buffer of diagnostic lines: tests, and the theorem at a concrete input.
use route_deck.Prelude.{ℕ, zero, suc, ◌≡◌, refl, [], ◌∷◌}
use route_deck.Text.{Text, codes}
use route_deck.Diagnostics.{DiagnosticBuffer, default, push, trimmed, kept_line, is_over, omitted}
use route_deck.Diagnostics.Bounds.{IsBounded, Appends, push-Appends, default-IsBounded}

zeros : ℕ → Text
zeros zero = []
zeros (suc n) = b'0' ∷ zeros n

long_omitted : (push (zeros 5000) default).lines ≡ omitted ∷ []
unfolding push trimmed kept_line is_over zeros
long_omitted = refl

filled : ℕ → DiagnosticBuffer
unfolding push
filled zero = default
filled (suc n) = push (codes "started") (filled n)

push-Appends_example :
    IsBounded (push (codes "started") default)
    × Appends (kept_line (codes "started")) [] (push (codes "started") default).lines
push-Appends_example = push-Appends (codes "started") default default-IsBounded
