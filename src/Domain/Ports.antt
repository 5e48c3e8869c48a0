-- ===== src/Domain/Ports.antt =====
-- domain.rs: ports and ranges of ports in their normal form.
use route_deck.Prelude.{
  ℕ, Bool, true, false, not, ◌||◌, Option, none, some, List, [], ◌∷◌, ◌++◌, ltb, ◌==◌, length,
}
use route_deck.Text.{Text, trim}
use route_deck.Text.Decimal.{parse_uint, to_decimal}
use route_deck.Text.Split.{split}
use route_deck.Action.{Result, ok, err}
use route_deck.Results.{◌>>=◌, ◌>>◌, ensure, ok_or}
use route_deck.Domain.{DomainError, String}

abbrev pub fails : String → DomainError
fails m = record { message = m }

abbrev pub u16_limit : ℕ
u16_limit = 65536

unfoldable pub validate_port : ℕ → Result DomainError (Unit {0})
validate_port port = ensure (not (port == 0)) (fails "port must be between 1 and 65535")

-- The match on what follows the first port.
unfoldable pub port_range_from : ℕ → List Text → Result DomainError Text
unfolding validate_port
port_range_from start [] = ok (to_decimal start)
port_range_from start (last ∷ []) = do
  end ← ok_or (parse_uint u16_limit last) (fails "invalid server port range")
  validate_port end
  ensure (not (ltb end start)) (fails "server port range is reversed")
  ok (to_decimal start ++ (b':' ∷ to_decimal end))
port_range_from start (last ∷ more ∷ rest) = err (fails "invalid server port range")

unfoldable pub port_range_of : List Text → Result DomainError Text
unfolding port_range_from
port_range_of [] = err (fails "invalid server port range")
port_range_of (first ∷ rest) = do
  start ← ok_or (parse_uint u16_limit first) (fails "invalid server port range")
  validate_port start
  port_range_from start rest

unfoldable pub normalize_port_range : Text → Result DomainError Text
unfolding port_range_of
normalize_port_range value = port_range_of (split b':' (trim value))

pub data PortSelection : Type 0 where
  single : ℕ → PortSelection
  ranges : List Text → PortSelection

-- PortSelection::single
unfoldable pub single_port : ℕ → Result DomainError PortSelection
unfolding validate_port
single_port port = do validate_port port; ok (single port)

-- map, then collect::<Result<Vec<_>, _>>
unfoldable pub normalized : List Text → Result DomainError (List Text)
unfolding normalize_port_range
normalized [] = ok []
normalized (value ∷ values) = do
  range ← normalize_port_range value
  rest ← normalized values
  ok (range ∷ rest)

-- PortSelection::ranges
unfoldable pub port_ranges : List Text → Result DomainError PortSelection
unfolding normalized
port_ranges values = do
  ensure (not (is_no_list values || ltb 32 (length values)))
      (fails "server_ports must contain 1 to 32 items")
  rest ← normalized values
  ok (ranges rest)
  where
    is_no_list : List Text → Bool
    is_no_list [] = true
    is_no_list (v ∷ vs) = false

abbrev pub or_one : Option ℕ → ℕ
or_one none = 1
or_one (some n) = n

unfoldable pub first_port : List Text → ℕ
first_port [] = 1
first_port (part ∷ parts) = or_one (parse_uint u16_limit part)

-- `values[0]` of an empty list would panic; `ranges` never builds one.
unfoldable pub primary_port : PortSelection → ℕ
unfolding first_port
primary_port (single port) = port
primary_port (ranges []) = 1
primary_port (ranges (range ∷ rest)) = first_port (split b':' range)
