-- ===== src/Domain/Nodes.antt =====
-- domain.rs: the protocols of a node, their validation, and the construction of a node.
pub mod Secure
mod Examples
use route_deck.Prelude.{
  ℕ, ◌+◌, ◌≡◌, String, Bool, true, false, not, ◌&&◌, ◌||◌, Option, none, some, List, [], ◌∷◌, ltb,
  leb, ◌==◌, if◌then◌else◌, all, any, length, holds, suc,
}
use route_deck.Text.{
  to_ascii_lowercase, Text, Text-discrete, codes, byte_len, is_control, is_ascii_alphanumeric,
  is_ascii_hexdigit, is_empty, contains_char, trim,
}
use route_deck.Text.Decimal.{parse_uint}
use route_deck.Text.Split.{strip_last}
use route_deck.Action.{Result, ok, err}
use route_deck.Results.{◌>>=◌, ◌>>◌, ensure, ok_or}
use route_deck.Domain.{DomainError}
use route_deck.Domain.Ports.{fails, validate_port, PortSelection}
use route_deck.Domain.Tls.{
  Secret, TlsOptions, AddressParsers, validate_tls, validate_http_host, normalize_server, is_some,
}

pub data VlessTransport : Type 0 where
  tcp : VlessTransport
  web_socket : Text → Option Text → VlessTransport
  grpc : Text → VlessTransport

pub data VlessFlow : Type 0 where
  vision : VlessFlow

pub data PacketEncoding : Type 0 where
  packet_addr xudp : PacketEncoding

pub record VlessNode : Type 0 where
  pub server_port : ℕ
  pub uuid : Secret
  pub flow : Option VlessFlow
  pub packet_encoding : Option PacketEncoding
  pub transport : VlessTransport
  pub tls : TlsOptions

pub data HysteriaObfsKind : Type 0 where
  salamander : HysteriaObfsKind

pub record HysteriaObfs : Type 0 where
  pub kind : HysteriaObfsKind
  pub password : Secret

pub record Hysteria2Node : Type 0 where
  pub ports : PortSelection
  pub hop_interval : Option Text
  pub password : Secret
  pub obfs : Option HysteriaObfs
  pub tls : TlsOptions

-- `extra_headers` is a BTreeMap: its entries in the order of the names.
pub record NaiveNode : Type 0 where
  pub server_port : ℕ
  pub username : Option Secret
  pub password : Option Secret
  pub quic : Bool
  pub extra_headers : List (Text × Text)
  pub tls : TlsOptions

pub data NodeProtocol : Type 0 where
  vless : VlessNode → NodeProtocol
  hysteria2 : Hysteria2Node → NodeProtocol
  naive : NaiveNode → NodeProtocol

unfoldable pub protocol_tls : NodeProtocol → Option TlsOptions
protocol_tls (vless n) = if n.tls.enabled then some n.tls else none
protocol_tls (hysteria2 n) = some n.tls
protocol_tls (naive n) = some n.tls

abbrev is_dash_at : ℕ → Bool
is_dash_at i = i == 8 || i == 13 || i == 18 || i == 23

-- The loop over the bytes, from an index on.
uuid_from : ℕ → Text → Bool
uuid_from i [] = true
uuid_from i (c ∷ s) =
    let rest = uuid_from (suc i) s in
    (if is_dash_at i then c == b'-' else is_ascii_hexdigit c) && rest

unfoldable pub validate_uuid : Text → Result DomainError (Unit {0})
unfolding uuid_from
validate_uuid value = do
  ensure (byte_len value == 36) (fails "invalid VLESS UUID")
  ensure (uuid_from 0 value) (fails "invalid VLESS UUID")
  ensure (not (all (λ c. not (is_ascii_hexdigit c) || c == b'0') value))
      (fails "nil VLESS UUID is not allowed")

unfoldable pub validate_hop_interval : Text → Result DomainError (Unit {0})
unfolding strip_last
validate_hop_interval value = do
  number ← ok_or (strip_last b's' value) (fails "hop interval must use whole seconds")
  seconds ← ok_or (parse_uint 4294967296 number) (fails "invalid hop interval")
  ensure (leb 1 seconds && leb seconds 3600) (fails "hop interval is out of range")

is_header_name_byte : ℕ → Bool
is_header_name_byte c = is_ascii_alphanumeric c || contains_char c (codes "!#$%&'*+-.^_`|~")

abbrev pub max_header_count : ℕ
max_header_count = 16

abbrev pub max_header_bytes : ℕ
max_header_bytes = 8192

-- `code <= 0x1f` but for the tab, or 0x7f
is_header_control : ℕ → Bool
is_header_control c = (leb c 0x1f && not (c == 9)) || c == 0x7f

abbrev is_one_of : Text → List Text → Bool
is_one_of s = any (λ t. holds (Text-discrete t s))

abbrev is_path : Text → Bool
is_path [] = false
is_path (c ∷ s) = c == b'/'

abbrev pub is_tcp : VlessTransport → Bool
is_tcp tcp = true
is_tcp _ = false

validate_hop_option : Option Text → Result DomainError (Unit {0})
unfolding validate_hop_interval
validate_hop_option none = ok tt
validate_hop_option (some interval) = validate_hop_interval interval

header_name_valid : Text → Bool
unfolding is_header_name_byte
header_name_valid name = not (
    is_empty name
    || not (all is_header_name_byte name)
    || is_one_of (to_ascii_lowercase name)
        (codes "authorization" ∷ codes "proxy-authorization" ∷ []))

-- One turn of the loop over the headers for each, with the names so far in lower case.
headers_from : List Text → List (Text × Text) → ℕ → Result DomainError ℕ
unfolding header_name_valid is_header_control
headers_from names [] total = ok total
headers_from names ((name, value) ∷ headers) total = do
  ensure (header_name_valid name) (fails "invalid or forbidden extra header name")
  ensure (not (is_one_of (to_ascii_lowercase name) names)) (fails "duplicate extra header name")
  ensure (not (any is_header_control value)) (fails "extra header contains a control character")
  headers_from (to_ascii_lowercase name ∷ names) headers
      (total + (byte_len name + byte_len value + 2))

unfoldable pub validate_headers : List (Text × Text) → Result DomainError (Unit {0})
unfolding headers_from
validate_headers headers = do
  ensure (not (ltb max_header_count (length headers))) (fails "too many extra headers")
  total ← headers_from [] headers 0
  ensure (not (ltb max_header_bytes total)) (fails "extra headers are too large")

module _ (parsers : AddressParsers) where
  validate_host_option : Option Text → Result DomainError (Unit {0})
  unfolding validate_http_host
  validate_host_option none = ok tt
  validate_host_option (some host) = validate_http_host parsers host

  -- VlessTransport::validate
  unfoldable pub validate_transport : VlessTransport → Result DomainError (Unit {0})
  unfolding validate_host_option
  validate_transport tcp = ok tt
  validate_transport (web_socket path host) = do
    ensure
        (not
          (is_empty path || ltb 2048 (byte_len path) || not (is_path path) || any is_control path))
        (fails "invalid VLESS WebSocket path")
    validate_host_option host
  validate_transport (grpc service_name) =
      ensure (not (ltb 1024 (byte_len service_name) || any is_control service_name))
        (fails "invalid VLESS gRPC service name")

  -- NodeProtocol::validate
  unfoldable pub validate_protocol : NodeProtocol → Result DomainError (Unit {0})
  unfolding validate_transport validate_headers validate_hop_option
  validate_protocol (vless n) = do
    validate_port n.server_port
    validate_uuid n.uuid
    validate_tls parsers n.tls
    ensure (not (is_some n.flow && not n.tls.enabled)) (fails "VLESS Vision requires TLS")
    validate_transport n.transport
    ensure (not (is_some n.flow && not (is_tcp n.transport)))
        (fails "VLESS Vision is only supported with TCP transport")
  validate_protocol (hysteria2 n) = do
    validate_hop_option n.hop_interval
    ensure n.tls.enabled (fails "Hysteria2 requires TLS")
    validate_tls parsers n.tls
  validate_protocol (naive n) = do
    validate_port n.server_port
    validate_headers n.extra_headers
    ensure n.tls.enabled (fails "Naive requires TLS")
    validate_tls parsers n.tls
