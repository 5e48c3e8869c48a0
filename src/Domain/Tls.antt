-- ===== src/Domain/Tls.antt =====
-- domain.rs: secrets, TLS and REALITY options, and the addresses of servers.
use route_deck.Prelude.{
  ℕ, ◌%◌, Bool, true, false, not, ◌&&◌, ◌||◌, Option, none, some, List, [], ◌∷◌, ltb, ◌==◌,
  if◌then◌else◌, all, any, length, holds,
}
use route_deck.Text.{
  to_ascii_lowercase, Text, Text-discrete, codes, byte_len, is_control, is_whitespace,
  is_ascii_alphanumeric, is_ascii_hexdigit, is_empty, contains_char, strip_prefix, trim,
}
use route_deck.Text.Decimal.{parse_uint}
use route_deck.Text.Split.{split_once, rsplit_once, count_char}
use route_deck.Action.{Result, ok, err}
use route_deck.Results.{◌>>=◌, ◌>>◌, ensure, ok_or}
use route_deck.Domain.{DomainError}
use route_deck.Domain.Ports.{fails, u16_limit, validate_port}

abbrev pub max_secret_bytes : ℕ
max_secret_bytes = 8192

-- A `Secret` is its text; the constructors below are the only ways to one.
abbrev pub Secret : Type 0
Secret = Text

unfoldable pub secret_allow_empty : Text → Result DomainError Secret
secret_allow_empty value = do
  ensure (not (ltb max_secret_bytes (byte_len value))) (fails "secret value is too long")
  ensure (not (any is_control value)) (fails "secret value contains control characters")
  ok value

unfoldable pub secret : Text → Result DomainError Secret
unfolding secret_allow_empty
secret value = do
  ensure (not (is_empty value)) (fails "secret value is empty")
  secret_allow_empty value

pub record RealityOptions : Type 0 where
  pub public_key : Secret
  pub short_id : Secret
  pub spider_x : Option Secret

pub record TlsOptions : Type 0 where
  pub enabled : Bool
  pub server_name : Option Text
  pub insecure : Bool
  pub alpn : List Text
  pub certificate_public_key_sha256 : List Secret
  pub ech_config : List Secret
  pub utls_fingerprint : Option Text
  pub reality : Option RealityOptions

-- TlsOptions::disabled
abbrev pub disabled_tls : TlsOptions
disabled_tls = record {
  enabled = false;
  server_name = none;
  insecure = false;
  alpn = [];
  certificate_public_key_sha256 = [];
  ech_config = [];
  utls_fingerprint = none;
  reality = none;
}

abbrev pub is_some {ℓ} : {A : Type ℓ} → Option A → Bool
is_some none = false
is_some (some a) = true

abbrev pub is_list {ℓ} : {A : Type ℓ} → List A → Bool
is_list [] = false
is_list (a ∷ as') = true

abbrev starts_with_slash : Text → Bool
starts_with_slash [] = false
starts_with_slash (c ∷ s) = c == b'/'

unfoldable pub spider_x_valid : Option Secret → Bool
spider_x_valid none = true
spider_x_valid (some s) =
    not (ltb 2048 (byte_len s) || (not (is_empty s) && not (starts_with_slash s)))

-- RealityOptions::validate
unfoldable pub validate_reality : RealityOptions → Result DomainError (Unit {0})
unfolding spider_x_valid
validate_reality r = do
  ensure
      (byte_len r.public_key == 43
        && all (λ c. is_ascii_alphanumeric c || c == b'-' || c == b'_') r.public_key)
      (fails "invalid REALITY public key")
  ensure
      (not (
        ltb 16 (byte_len r.short_id)
        || not (byte_len r.short_id % 2 == 0)
        || not (all is_ascii_hexdigit r.short_id)))
      (fails "invalid REALITY short ID")
  ensure (spider_x_valid r.spider_x) (fails "invalid REALITY SpiderX path")

unfoldable pub allowed_fingerprint : Text → Bool
allowed_fingerprint s =
    any (λ a. holds (Text-discrete a s))
      (codes "chrome"
        ∷ codes "firefox"
        ∷ codes "edge"
        ∷ codes "safari"
        ∷ codes "ios"
        ∷ codes "android"
        ∷ codes "360"
        ∷ codes "qq"
        ∷ codes "random"
        ∷ codes "randomized"
        ∷ [])

-- The parsers that are not the program's: `IpAddr` and its printed form, `Ipv6Addr`, and the domain
-- that `url::Host::parse` finds.
pub record AddressParsers : Type 0 where
  pub ip_addr : Text → Option Text
  pub is_ipv6 : Text → Bool
  pub host_domain : Text → Option Text

unfoldable pub validate_fingerprint : Option Text → Result DomainError (Unit {0})
unfolding allowed_fingerprint
validate_fingerprint none = ok tt
validate_fingerprint (some f) =
    ensure (allowed_fingerprint f) (fails "unsupported uTLS fingerprint")

unfoldable pub validate_reality_option : Option RealityOptions → Result DomainError (Unit {0})
unfolding validate_reality
validate_reality_option none = ok tt
validate_reality_option (some r) = validate_reality r

unfoldable pub has_options : TlsOptions → Bool
has_options t =
    is_some t.server_name
    || t.insecure
    || is_list t.alpn
    || is_list t.certificate_public_key_sha256
    || is_list t.ech_config
    || is_some t.utls_fingerprint
    || is_some t.reality

port_suffix : Option Text → Result DomainError (Unit {0})
unfolding validate_port
port_suffix none = err (fails "invalid HTTP Host value")
port_suffix (some s) = do
  port ← ok_or (parse_uint u16_limit s) (fails "invalid HTTP Host value")
  ensure (not (port == 0)) (fails "invalid HTTP Host value")
  validate_port port

module _ (parsers : AddressParsers) where
  unfoldable pub domain_server : Option Text → Result DomainError Text
  domain_server none = err (fails "invalid server address")
  domain_server (some domain) = do
    ensure (not (ltb 253 (byte_len domain))) (fails "invalid server address")
    ok (to_ascii_lowercase domain)

  unfoldable pub parsed_server : Text → Option Text → Result DomainError Text
  unfolding domain_server
  parsed_server value none = domain_server (parsers.host_domain value)
  parsed_server value (some address) = ok address

  unfoldable pub normalize_server : Text → Result DomainError Text
  unfolding parsed_server
  normalize_server value =
      let value' = trim value in
      ensure (not (is_empty value' || ltb 253 (byte_len value') || any is_control value'))
        (fails "invalid server address")
      >> parsed_server value' (parsers.ip_addr value')

  unfoldable pub validate_server_name : Option Text → Result DomainError (Unit {0})
  unfolding normalize_server
  validate_server_name none = ok tt
  validate_server_name (some name) = normalize_server name >> ok tt

  -- TlsOptions::validate
  unfoldable pub validate_tls : TlsOptions → Result DomainError (Unit {0})
  unfolding has_options validate_server_name validate_fingerprint validate_reality_option
  validate_tls t = do
    ensure (t.enabled || not (has_options t))
        (fails "TLS options are present while TLS is disabled")
    validate_server_name t.server_name
    ensure (not (ltb 8 (length t.alpn))) (fails "too many ALPN values")
    ensure (all (λ v. not (is_empty v || ltb 32 (byte_len v) || any is_control v)) t.alpn)
        (fails "invalid ALPN value")
    validate_fingerprint t.utls_fingerprint
    validate_reality_option t.reality

  bracketed_host : Option (Text × Text) → Result DomainError (Unit {0})
  unfolding port_suffix
  bracketed_host none = err (fails "invalid HTTP Host value")
  bracketed_host (some (address, suffix)) = do
    ensure (parsers.is_ipv6 address) (fails "invalid HTTP Host value")
    if is_empty suffix then ok tt else port_suffix (strip_prefix (codes ":") suffix)

  named_host : Text → Option (Text × Text) → Result DomainError (Unit {0})
  unfolding normalize_server port_suffix
  named_host value none = normalize_server value >> ok tt
  named_host value (some (host, port)) = do port_suffix (some port); normalize_server host; ok tt

  unbracketed_host : Text → Result DomainError (Unit {0})
  unfolding named_host
  unbracketed_host value = do
    ensure
        (not
          (contains_char b'[' value || contains_char b']' value || ltb 1 (count_char b':' value)))
        (fails "invalid HTTP Host value")
    named_host value (rsplit_once b':' value)

  host_by_prefix : Text → Option Text → Result DomainError (Unit {0})
  unfolding bracketed_host unbracketed_host
  host_by_prefix value none = unbracketed_host value
  host_by_prefix value (some rest) = bracketed_host (split_once b']' rest)

  unfoldable pub validate_http_host : Text → Result DomainError (Unit {0})
  unfolding host_by_prefix
  validate_http_host value = do
    ensure
        (not (
          is_empty value
          || ltb 512 (byte_len value)
          || any is_whitespace value
          || any is_control value
          || any (λ c. contains_char c (codes "/?#@,")) value))
        (fails "invalid HTTP Host value")
    host_by_prefix value (strip_prefix (codes "[") value)
