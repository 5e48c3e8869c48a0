-- ===== src/Domain/NormalForm.antt =====
-- domain.rs `normalize_port_range` and `PortSelection`: what a normalised range looks like.
use route_deck.Prelude.{
  ℕ, ◌≤◌, ◌<◌, ◌≡◌, ◌⊎◌, ◌↔◌, inl, inr, refl, sym, ap, ◌∙◌, true, not, some, List, [], ◌∷◌, ◌++◌,
  ltb, arith, all, all-append, length, ◌==◌, ltb-false_of_le, subst,
}
use route_deck.Text.{Text, is_ascii_digit}
use route_deck.Text.Decimal.{parse_uint, to_decimal, parse_uint-to_decimal, to_decimal-digits}
use route_deck.Text.Split.{split}
use route_deck.Text.Words.{
  trim-solid, split-whole, split-append, all-weaken, parse_uint-lt, is_solid,
}
use route_deck.Action.{ok, ok-injective}
use route_deck.Results.{ensure, bind-ok, ensure-ok, ok_or-ok}
use route_deck.Domain.Ports.{
  validate_port, port_range_from, port_range_of, normalize_port_range, u16_limit, fails,
  PortSelection, ranges, normalized, port_ranges, primary_port, first_port,
}

abbrev pub IsPort : ℕ → Type 0
IsPort n = (0 < n) × (n < u16_limit)

-- A range in its normal form starts with a port, and may end with one that is no smaller.
abbrev pub RangeFrom : ℕ → Text → Type 0
RangeFrom start r =
    IsPort start
    × ((r ≡ to_decimal start)
        ⊎ ((end : ℕ) × IsPort end
            × (start ≤ end)
            × (r ≡ to_decimal start ++ b':' ∷ to_decimal end)))

abbrev pub IsNormal : Text → Type 0
IsNormal r = (start : ℕ) × RangeFrom start r

pub validate_port-pos : (n : ℕ) (u : Unit {0}) → validate_port n ≡ ok u → 0 < n
unfolding validate_port
validate_port-pos n u h = ground (arith, ensure-ok (not (n == 0)) _ u h)

validate_port-ok : (n : ℕ) → 0 < n → validate_port n ≡ ok tt
unfolding validate_port
validate_port-ok n h = ground arith

port_range_from-RangeFrom :
    (start : ℕ) (parts : List Text) (r : Text)
    → IsPort start
    → port_range_from start parts ≡ ok r
    → RangeFrom start r
unfolding port_range_from
port_range_from-RangeFrom start [] r p h = (p, inl (sym (ok-injective _ _ h)))
port_range_from-RangeFrom start (last ∷ []) r p h =
    let (end, e, h1) = bind-ok _ _ _ h in
    let (u, f, h2) = bind-ok _ _ _ h1 in
    let (v, g, h3) = bind-ok _ _ _ h2 in
    let parsed = ok_or-ok _ _ _ e in
    let ordered = ensure-ok (not (ltb end start)) (fails "server port range is reversed") v g in
    (
      p,
      inr (
        end,
        (validate_port-pos end u f, parse_uint-lt u16_limit end last (omega arith) parsed),
        ground (arith, ordered),
        sym (ok-injective (to_decimal start ++ b':' ∷ to_decimal end) r h3),
      ),
    )
port_range_from-RangeFrom start (last ∷ more ∷ rest) r p h = cc

port_range_of-IsNormal : (parts : List Text) (r : Text) → port_range_of parts ≡ ok r → IsNormal r
unfolding port_range_of
port_range_of-IsNormal [] r h = cc
port_range_of-IsNormal (first ∷ rest) r h =
    let (start, e, h1) = bind-ok _ _ _ h in
    let (u, f, h2) = bind-ok _ _ _ h1 in
    let parsed = ok_or-ok _ _ _ e in
    (
      start,
      port_range_from-RangeFrom start rest r
          (validate_port-pos start u f, parse_uint-lt u16_limit start first (omega arith) parsed)
          h2,
    )

digit-solid : (c : ℕ) → is_ascii_digit c ≡ true → is_solid c ≡ true
digit-solid c h = ground arith

digit-no_colon : (c : ℕ) → is_ascii_digit c ≡ true → not (c == b':') ≡ true
digit-no_colon c h = ground arith

to_decimal-solid : (n : ℕ) → all is_solid (to_decimal n) ≡ true
to_decimal-solid n =
    all-weaken is_ascii_digit is_solid (to_decimal n) digit-solid (to_decimal-digits n)

to_decimal-no_colon : (n : ℕ) → all (λ c. not (c == b':')) (to_decimal n) ≡ true
to_decimal-no_colon n =
    all-weaken is_ascii_digit (λ c. not (c == b':')) (to_decimal n) digit-no_colon
      (to_decimal-digits n)

parse-port : (n : ℕ) → IsPort n → parse_uint u16_limit (to_decimal n) ≡ some n
parse-port n p = parse_uint-to_decimal u16_limit n p.1 (omega (arith, p))

split-RangeFrom :
    (start : ℕ) (r : Text)
    → RangeFrom start r
    → (rest : List Text) × (split b':' r ≡ to_decimal start ∷ rest)
split-RangeFrom start r (p, inl e) =
    ([], rw e (split-whole b':' (to_decimal start) (to_decimal-no_colon start)))
split-RangeFrom start r (p, inr (end, q, o, e)) = (
  split b':' (to_decimal end),
  rw e (split-append b':' (to_decimal start) (to_decimal end) (to_decimal-no_colon start)),
)

port_range_of-single :
    (start : ℕ) → IsPort start → port_range_of (to_decimal start ∷ []) ≡ ok (to_decimal start)
unfolding port_range_of port_range_from
port_range_of-single start p = rw (parse-port start p, validate_port-ok start p.0) refl

port_range_of-pair :
    (start end : ℕ)
    → IsPort start
    → IsPort end
    → start ≤ end
    → port_range_of (to_decimal start ∷ to_decimal end ∷ [])
      ≡ ok (to_decimal start ++ b':' ∷ to_decimal end)
unfolding port_range_of port_range_from
port_range_of-pair start end p q o =
    rw
      (
        parse-port start p,
        validate_port-ok start p.0,
        parse-port end q,
        validate_port-ok end q.0,
        ltb-false_of_le _ _ o,
      )
      refl

normal-fixed : (start : ℕ) (r : Text) → RangeFrom start r → normalize_port_range r ≡ ok r
unfolding normalize_port_range
normal-fixed start r (p, inl e) =
    rw
      (
        e,
        trim-solid (to_decimal start) (to_decimal-solid start),
        split-whole b':' (to_decimal start) (to_decimal-no_colon start),
      )
      (port_range_of-single start p)
normal-fixed start r (p, inr (end, q, o, e)) =
    rw
      (
        e,
        trim-solid (to_decimal start ++ b':' ∷ to_decimal end) (
            all-append is_solid (to_decimal start) (b':' ∷ to_decimal end) (to_decimal-solid start)
              (to_decimal-solid end)),
        split-append b':' (to_decimal start) (to_decimal end) (to_decimal-no_colon start),
        split-whole b':' (to_decimal end) (to_decimal-no_colon end),
      )
      (port_range_of-pair start end p q o)

-- The results of the normalisation are exactly the ranges in normal form, and each of them is its
-- own normal form.
pub normalize_port_range-IsNormal :
    (r : Text)
    → (((value : Text) × (normalize_port_range value ≡ ok r)) ↔ IsNormal r)
      × (((value : Text) × (normalize_port_range value ≡ ok r)) ↔ (normalize_port_range r ≡ ok r))
unfolding normalize_port_range
normalize_port_range-IsNormal r = (
  (λ h. port_range_of-IsNormal _ r h.1, λ n. (r, normal-fixed n.0 r n.1)),
  (λ h. let n = port_range_of-IsNormal _ r h.1 in normal-fixed n.0 r n.1, λ h. (r, h)),
)

abbrev pub AllNormal : List Text → Type 0
AllNormal [] = Unit {0}
AllNormal (r ∷ rs) = IsNormal r × AllNormal rs

normalized-cons :
    (value : Text) (values rs : List Text)
    → normalized (value ∷ values) ≡ ok rs
    → (range : Text) × (rest : List Text) × (normalize_port_range value ≡ ok range)
      × (normalized values ≡ ok rest)
      × (rs ≡ range ∷ rest)
unfolding normalized
normalized-cons value values rs h =
    let (range, e, h1) = bind-ok (normalize_port_range value) _ rs h in
    let (rest, f, h2) = bind-ok (normalized values) _ rs h1 in
    (range, rest, e, f, sym (ok-injective (range ∷ rest) rs h2))

normalized-AllNormal : (values rs : List Text) → normalized values ≡ ok rs → AllNormal rs
unfolding normalized
normalized-AllNormal [] rs h = subst AllNormal (ok-injective [] rs h) tt
normalized-AllNormal (value ∷ values) rs h =
    let (range, rest, e, f, same) = normalized-cons value values rs h in
    subst AllNormal (sym same)
      ((normalize_port_range-IsNormal range).0.0 (value, e), normalized-AllNormal values rest f)

primary_port-RangeFrom :
    (start : ℕ) (first : Text) (rest : List Text)
    → RangeFrom start first
    → primary_port (ranges (first ∷ rest)) ≡ start
unfolding primary_port first_port
primary_port-RangeFrom start first rest n =
    let (parts, e) = split-RangeFrom start first n in rw (e, parse-port start n.0) refl

-- What ranges of ports are after their construction.
abbrev pub Selects : PortSelection → Type 0
Selects s =
    (first : Text) × (rest : List Text) × (s ≡ ranges (first ∷ rest))
    × RangeFrom (primary_port s) first
    × AllNormal rest

-- Ranges that were accepted are one or more in normal form, and the primary port is a port, the
-- first of the first of them: the fallback for a range without a port is never taken.
pub port_ranges-Selects :
    (values : List Text) (s : PortSelection) → port_ranges values ≡ ok s → Selects s
unfolding port_ranges
port_ranges-Selects [] s h = cc
port_ranges-Selects (value ∷ values) s h =
    let (u, e, h1) =
      bind-ok
        (ensure (not (ltb 32 (length (value ∷ values))))
          (fails "server_ports must contain 1 to 32 items"))
        _ s h in
    let (rs, f, h2) = bind-ok (normalized (value ∷ values)) _ s h1 in
    let (first, rest, e1, e2, g) = normalized-cons value values rs f in
    let (n, ns) = subst AllNormal g (normalized-AllNormal (value ∷ values) rs f) in
    let same : ranges (first ∷ rest) ≡ s = ap ranges (sym g) ∙ ok-injective (ranges rs) s h2 in
    (
      first,
      rest,
      sym same,
      subst (λ t. RangeFrom (primary_port t) first) same
          (subst (λ m. RangeFrom m first) (sym (primary_port-RangeFrom n.0 first rest n.1)) n.1),
      ns,
    )
