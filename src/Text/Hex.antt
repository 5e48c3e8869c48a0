-- ===== src/Text/Hex.antt =====
-- Lower-case hexadecimal: portable_update/manifest.rs `hex` and `unhex`, which the `{byte:02x}`
-- of `random_hex` in engine_runtime.rs prints too.
use route_deck.Prelude.{
  ℕ, ◌+◌, ◌-◌, ◌*◌, ◌/◌, ◌%◌, ◌<◌, ◌≡◌, refl, Bool, true, ◌&&◌, ◌||◌, Option, none, some, List, [],
  ◌∷◌, leb, ltb, ◌==◌, if◌then◌else◌, all, arith, length, not,
}
use route_deck.Text.{Text, is_ascii_digit, is_ascii_hexdigit, byte_len}

hex_digit : ℕ → ℕ
hex_digit d = if ltb d 10 then b'0' + d else b'a' + d - 10

unfoldable pub hex : List ℕ → Text
unfolding hex_digit
hex [] = []
hex (b ∷ bs) = hex_digit (b / 16) ∷ hex_digit (b % 16) ∷ hex bs

abbrev is_lower_hexdigit : ℕ → Bool
is_lower_hexdigit c = is_ascii_digit c || (leb b'a' c && leb c b'f')

-- The value of a hexadecimal digit of either case.
hex_value : ℕ → Option ℕ
hex_value c =
    if is_ascii_digit c
    then some (c - b'0')
    else if leb b'a' c && leb c b'f'
    then some (c - b'a' + 10)
    else if leb b'A' c && leb c b'F'
    then some (c - b'A' + 10)
    else none

-- u8::from_str_radix(_, 16) on two digits
byte_of_pair : ℕ → ℕ → Option ℕ
unfolding hex_value
byte_of_pair h l = elim (hex_value h) [
  | none ↦ none
  | some x ↦ elim (hex_value l) [ none ↦ none | some y ↦ some (x * 16 + y) ]
]

push_byte : Option ℕ → Option (List ℕ) → Option (List ℕ)
push_byte (some b) (some bs) = some (b ∷ bs)
push_byte (some b) none = none
push_byte none bs = none

-- The loop over `out`, two digits of the text a round.
bytes_of_pairs : Text → Option (List ℕ)
unfolding byte_of_pair push_byte
bytes_of_pairs [] = some []
bytes_of_pairs (h ∷ []) = none
bytes_of_pairs (h ∷ l ∷ s) = push_byte (byte_of_pair h l) (bytes_of_pairs s)

unfoldable pub unhex : ℕ → Text → Option (List ℕ)
unfolding bytes_of_pairs
unhex n value =
    if not (byte_len value == n * 2) || not (all is_lower_hexdigit value)
    then none
    else bytes_of_pairs value

abbrev pub is_byte : ℕ → Bool
is_byte b = ltb b 256

byte_of_pair-hex_digit :
    (b : ℕ) → is_byte b ≡ true → byte_of_pair (hex_digit (b / 16)) (hex_digit (b % 16)) ≡ some b
unfolding byte_of_pair hex_digit
byte_of_pair-hex_digit b h = ground arith

hex_digit-lower : (d : ℕ) → d < 16 → is_lower_hexdigit (hex_digit d) ≡ true
unfolding hex_digit
hex_digit-lower d h = ground arith

hex_digit-hexdigit : (d : ℕ) → d < 16 → is_ascii_hexdigit (hex_digit d) ≡ true
unfolding hex_digit
hex_digit-hexdigit d h = ground arith

hex_digit-lt : (d : ℕ) → d < 16 → hex_digit d < 0x80
unfolding hex_digit
hex_digit-lt d h = ground arith

bytes_of_pairs-hex : (bs : List ℕ) → all is_byte bs ≡ true → bytes_of_pairs (hex bs) ≡ some bs
unfolding hex bytes_of_pairs
bytes_of_pairs-hex [] h = refl
bytes_of_pairs-hex (b ∷ bs) h = ground (arith, byte_of_pair-hex_digit b, bytes_of_pairs-hex bs)

pub byte_len-hex : (bs : List ℕ) → all is_byte bs ≡ true → byte_len (hex bs) ≡ length bs * 2
unfolding hex
byte_len-hex [] h = refl
byte_len-hex (b ∷ bs) h =
    ground (arith, hex_digit-lt (b / 16), hex_digit-lt (b % 16), byte_len-hex bs)

hex-lower : (bs : List ℕ) → all is_byte bs ≡ true → all is_lower_hexdigit (hex bs) ≡ true
unfolding hex
hex-lower [] h = refl
hex-lower (b ∷ bs) h =
    ground (arith, hex_digit-lower (b / 16), hex_digit-lower (b % 16), hex-lower bs)

pub hex-hexdigits : (bs : List ℕ) → all is_byte bs ≡ true → all is_ascii_hexdigit (hex bs) ≡ true
unfolding hex
hex-hexdigits [] h = refl
hex-hexdigits (b ∷ bs) h =
    ground (arith, hex_digit-hexdigit (b / 16), hex_digit-hexdigit (b % 16), hex-hexdigits bs)

-- The digest of any bytes is read back as those bytes, at their length and at no other.
pub unhex-hex :
    (n : ℕ) (bs : List ℕ)
    → all is_byte bs ≡ true
    → unhex n (hex bs) ≡ (if length bs == n then some bs else none)
unfolding unhex
unhex-hex n bs h = ground (arith, byte_len-hex bs, hex-lower bs, bytes_of_pairs-hex bs)
