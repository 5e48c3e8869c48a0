-- ===== src/Domain/Examples.antt =====
-- Ports: tests, and the theorems at concrete inputs.
use route_deck.Prelude.{◌≡◌, ◌↔◌, refl, [], ◌∷◌}
use route_deck.Text.{Text, codes, trim}
use route_deck.Text.Decimal.{parse_uint, parse_digits, to_decimal}
use route_deck.Text.Split.{split, prepend}
use route_deck.Action.{ok}
use route_deck.Domain.Ports.{
  normalize_port_range, port_range_of, port_range_from, validate_port, port_ranges, normalized,
  ranges,
}
use route_deck.Domain.NormalForm.{
  IsNormal, normalize_port_range-IsNormal, Selects, port_ranges-Selects,
}

normalizes : normalize_port_range (codes " +443:0500 ") ≡ ok (codes "443:500")
unfolding normalize_port_range port_range_of port_range_from validate_port trim split prepend
    parse_uint parse_digits to_decimal
normalizes = refl

selects :
    port_ranges (codes "8443" ∷ codes "20000:30000" ∷ [])
    ≡ ok (ranges (codes "8443" ∷ codes "20000:30000" ∷ []))
unfolding normalizes port_ranges normalized
selects = refl

normalize_port_range-IsNormal_example :
    (((value : Text) × (normalize_port_range value ≡ ok (codes "443:500")))
      ↔ IsNormal (codes "443:500"))
    × (((value : Text) × (normalize_port_range value ≡ ok (codes "443:500")))
        ↔ (normalize_port_range (codes "443:500") ≡ ok (codes "443:500")))
normalize_port_range-IsNormal_example = normalize_port_range-IsNormal (codes "443:500")

port_ranges-Selects_example : Selects (ranges (codes "8443" ∷ codes "20000:30000" ∷ []))
port_ranges-Selects_example =
    port_ranges-Selects (codes "8443" ∷ codes "20000:30000" ∷ [])
      (ranges (codes "8443" ∷ codes "20000:30000" ∷ [])) selects
