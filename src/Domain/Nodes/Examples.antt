-- ===== src/Domain/Nodes/Examples.antt =====
-- A node over VLESS with Vision: the validation, and the theorem at this input.
use route_deck.Prelude.{◌≡◌, refl, true, false, none, some, [], ◌∷◌, ℕ_discrete}
use route_deck.Text.{Text-discrete, codes, trim}
use route_deck.Action.{ok}
use route_deck.Domain.Ports.{validate_port}
use route_deck.Domain.Tls.{
  TlsOptions, AddressParsers, validate_tls, has_options, validate_server_name, normalize_server,
  parsed_server, domain_server, validate_fingerprint, allowed_fingerprint, validate_reality_option,
}
use route_deck.Domain.Nodes.{
  NodeProtocol, vless, tcp, vision, xudp, validate_protocol, validate_uuid, uuid_from,
  validate_transport,
}
use route_deck.Domain.Nodes.Secure.{Secure, validate_protocol-Secure}

-- A resolver of names that accepts every text as a domain.
abbrev domains : AddressParsers
domains = record { ip_addr = λ s. none; is_ipv6 = λ s. false; host_domain = λ s. some s }

abbrev tls : TlsOptions
tls = record {
  enabled = true;
  server_name = some (codes "Example.org");
  insecure = false;
  alpn = codes "h2" ∷ [];
  certificate_public_key_sha256 = [];
  ech_config = [];
  utls_fingerprint = some (codes "chrome");
  reality = none;
}

abbrev node : NodeProtocol
node = vless (record {
  server_port = 443;
  uuid = codes "01234567-89ab-cdef-0123-456789abcdef";
  flow = some vision;
  packet_encoding = some xudp;
  transport = tcp;
  tls = tls;
})

accepts : validate_protocol domains node ≡ ok tt
unfolding validate_protocol validate_port validate_uuid uuid_from validate_tls has_options
    validate_server_name normalize_server parsed_server domain_server trim validate_fingerprint
    allowed_fingerprint Text-discrete ℕ_discrete validate_reality_option validate_transport
accepts = refl

validate_protocol-Secure_example : Secure node
validate_protocol-Secure_example = validate_protocol-Secure domains node accepts
