-- ===== src/Domain/Nodes/Secure.antt =====
-- domain.rs `NodeProtocol::validate`: what holds of every protocol that was accepted.
use route_deck.Prelude.{
  ℕ, ◌+◌, ◌≤◌, ◌<◌, ◌≡◌, ◌⊎◌, inl, inr, refl, Bool, true, false, not, ◌&&◌, ◌||◌, Option, none,
  some, List, [], ◌∷◌, ltb, ◌==◌, any, arith, length, all, Bool-cases,
}
use route_deck.Text.{Text, codes, is_empty, byte_len, to_ascii_lowercase}
use route_deck.Action.{ok, ok-injective}
use route_deck.Results.{ensure, bind-ok, ensure-ok}
use route_deck.Domain.Ports.{validate_port}
use route_deck.Domain.NormalForm.{validate_port-pos}
use route_deck.Domain.Tls.{
  TlsOptions, AddressParsers, validate_tls, has_options, disabled_tls, is_some, is_list,
}
use route_deck.Domain.Nodes.{
  NodeProtocol, vless, hysteria2, naive, VlessTransport, tcp, is_tcp, validate_protocol,
  validate_headers, headers_from, header_name_valid, is_header_name_byte, is_header_control,
  max_header_count, max_header_bytes, is_one_of, validate_uuid, validate_transport,
  validate_hop_option,
}

-- TLS is on, or none of its options is set.
abbrev pub IsConsistent : TlsOptions → Type 0
IsConsistent t = (t.enabled ≡ true) ⊎ (t ≡ disabled_tls)

or-true : (a b : Bool) → (a || b) ≡ true → (a ≡ true) ⊎ (b ≡ true)
or-true a b h = ground arith

not-true : (b : Bool) → not b ≡ true → b ≡ false
not-true b h = ground arith

is_some-none : {A : Type 0} (o : Option A) → is_some o ≡ false → o ≡ none
is_some-none none h = refl
is_some-none (some a) h = cc

is_list-empty : {A : Type 0} (l : List A) → is_list l ≡ false → l ≡ []
is_list-empty [] h = refl
is_list-empty (a ∷ l) h = cc

none_set :
    (a b c d e f g : Bool)
    → (a || b || c || d || e || f || g) ≡ false
    → (a ≡ false)
      × (b ≡ false)
      × (c ≡ false)
      × (d ≡ false)
      × (e ≡ false)
      × (f ≡ false)
      × (g ≡ false)
none_set a b c d e f g h = ground arith

no_options : (t : TlsOptions) → t.enabled ≡ false → has_options t ≡ false → t ≡ disabled_tls
unfolding has_options
no_options t off h =
    let (name, insecure, alpn, pins, ech, fingerprint, reality) =
      none_set (is_some t.server_name) t.insecure (is_list t.alpn)
        (is_list t.certificate_public_key_sha256) (is_list t.ech_config)
        (is_some t.utls_fingerprint) (is_some t.reality) h in
    λ i. record {
      enabled = off i;
      server_name = is_some-none t.server_name name i;
      insecure = insecure i;
      alpn = is_list-empty t.alpn alpn i;
      certificate_public_key_sha256 = is_list-empty t.certificate_public_key_sha256 pins i;
      ech_config = is_list-empty t.ech_config ech i;
      utls_fingerprint = is_some-none t.utls_fingerprint fingerprint i;
      reality = is_some-none t.reality reality i;
    }

validate_tls-IsConsistent :
    (parsers : AddressParsers) (t : TlsOptions) (u : Unit {0})
    → validate_tls parsers t ≡ ok u
    → IsConsistent t
unfolding validate_tls
validate_tls-IsConsistent parsers t u h =
    let (v, e, h1) = bind-ok (ensure (t.enabled || not (has_options t)) _) _ u h in
    elim (Bool-cases t.enabled) [
      | inl on ↦ inl on
      | inr off ↦
          let k : (false || not (has_options t)) ≡ true = rw off at (ensure-ok _ _ v e) in
          inr (no_options t off (not-true _ k))
    ]

abbrev pub header_bytes : List (Text × Text) → ℕ
header_bytes [] = 0
header_bytes ((name, value) ∷ headers) = byte_len name + byte_len value + 2 + header_bytes headers

-- No header carries credentials, and no two have one name, in whatever case.
abbrev pub NamesApart : List Text → List (Text × Text) → Type 0
NamesApart names [] = Unit {0}
NamesApart names ((name, value) ∷ headers) =
    (is_one_of (to_ascii_lowercase name) (codes "authorization" ∷ codes "proxy-authorization" ∷ [])
      ≡ false)
    × (is_one_of (to_ascii_lowercase name) names ≡ false)
    × NamesApart (to_ascii_lowercase name ∷ names) headers

third_off : (a b c : Bool) → not (a || b || c) ≡ true → c ≡ false
third_off a b c h = ground arith

header_name_valid-plain :
    (name : Text)
    → header_name_valid name ≡ true
    → is_one_of (to_ascii_lowercase name) (codes "authorization" ∷ codes "proxy-authorization" ∷ [])
      ≡ false
unfolding header_name_valid
header_name_valid-plain name h = third_off (is_empty name) (not (all is_header_name_byte name)) _ h

headers_from-NamesApart :
    (names : List Text) (headers : List (Text × Text)) (before total : ℕ)
    → headers_from names headers before ≡ ok total
    → NamesApart names headers × (total ≡ before + header_bytes headers)
unfolding headers_from
headers_from-NamesApart names [] before total h = (tt, omega (arith, ok-injective before total h))
headers_from-NamesApart names ((name, value) ∷ headers) before total h =
    let (u, e, h1) = bind-ok (ensure (header_name_valid name) _) _ total h in
    let (v, f, h2) =
      bind-ok (ensure (not (is_one_of (to_ascii_lowercase name) names)) _) _ total h1 in
    let (w, g, h3) = bind-ok (ensure (not (any is_header_control value)) _) _ total h2 in
    let (apart, sum) =
      headers_from-NamesApart (to_ascii_lowercase name ∷ names) headers
        (before + (byte_len name + byte_len value + 2)) total h3 in
    (
      (
        header_name_valid-plain name (ensure-ok (header_name_valid name) _ u e),
        not-true _ (ensure-ok (not (is_one_of (to_ascii_lowercase name) names)) _ v f),
        apart,
      ),
      omega (arith, sum),
    )

-- Headers that were accepted: few, short, with names apart and no credentials.
abbrev pub HeadersSafe : List (Text × Text) → Type 0
HeadersSafe headers =
    (length headers ≤ max_header_count)
    × (header_bytes headers ≤ max_header_bytes)
    × NamesApart [] headers

validate_headers-HeadersSafe :
    (headers : List (Text × Text)) (u : Unit {0})
    → validate_headers headers ≡ ok u
    → HeadersSafe headers
unfolding validate_headers
validate_headers-HeadersSafe headers u h =
    let (v, e, h1) = bind-ok (ensure (not (ltb max_header_count (length headers))) _) _ u h in
    let (total, f, h2) = bind-ok (headers_from [] headers 0) _ u h1 in
    let (apart, sum) = headers_from-NamesApart [] headers 0 total f in
    let few = ensure-ok (not (ltb max_header_count (length headers))) _ v e in
    let short = ensure-ok (not (ltb max_header_bytes total)) _ u h2 in
    (ground (arith, few), ground (arith, short, sum), apart)

-- What an accepted protocol guarantees.
abbrev pub Secure : NodeProtocol → Type 0
Secure (vless n) =
    (0 < n.server_port)
    × (byte_len n.uuid ≡ 36)
    × IsConsistent n.tls
    × (is_some n.flow ≡ true → (n.tls.enabled ≡ true) × (n.transport ≡ tcp))
Secure (hysteria2 n) = n.tls.enabled ≡ true
Secure (naive n) = (0 < n.server_port) × HeadersSafe n.extra_headers × (n.tls.enabled ≡ true)

is_tcp-eq : (t : VlessTransport) → is_tcp t ≡ true → t ≡ tcp
is_tcp-eq t h = ground arith

vision-tls : (f e : Bool) → not (f && not e) ≡ true → f ≡ true → e ≡ true
vision-tls f e h k = ground arith

uuid-length : (value : Text) (u : Unit {0}) → validate_uuid value ≡ ok u → byte_len value ≡ 36
unfolding validate_uuid
uuid-length value u h =
    let (v, e, h1) = bind-ok (ensure (byte_len value == 36) _) _ u h in
    ground (arith, ensure-ok (byte_len value == 36) _ v e)

-- An accepted protocol has TLS where it needs it: Hysteria2 and Naive always, VLESS with Vision, which
-- also runs over plain TCP; VLESS without TLS has no TLS option set. The port of VLESS and Naive is
-- not zero, the identifier has 36 bytes, and the headers of Naive are few, short, distinct and without
-- credentials.
pub validate_protocol-Secure :
    (parsers : AddressParsers) (n : NodeProtocol) → validate_protocol parsers n ≡ ok tt → Secure n
unfolding validate_protocol
validate_protocol-Secure parsers (vless n) h =
    let (u1, e1, h1) = bind-ok (validate_port n.server_port) _ tt h in
    let (u2, e2, h2) = bind-ok (validate_uuid n.uuid) _ tt h1 in
    let (u3, e3, h3) = bind-ok (validate_tls parsers n.tls) _ tt h2 in
    let (u4, e4, h4) = bind-ok (ensure (not (is_some n.flow && not n.tls.enabled)) _) _ tt h3 in
    let (u5, e5, h5) = bind-ok (validate_transport parsers n.transport) _ tt h4 in
    let on = ensure-ok (not (is_some n.flow && not n.tls.enabled)) _ u4 e4 in
    let plain = ensure-ok (not (is_some n.flow && not (is_tcp n.transport))) _ tt h5 in
    (
      validate_port-pos n.server_port u1 e1,
      uuid-length n.uuid u2 e2,
      validate_tls-IsConsistent parsers n.tls u3 e3,
      λ k. (vision-tls _ _ on k, is_tcp-eq _ (vision-tls _ _ plain k)),
    )
validate_protocol-Secure parsers (hysteria2 n) h =
    let (u1, e1, h1) = bind-ok (validate_hop_option n.hop_interval) _ tt h in
    let (u2, e2, h2) = bind-ok (ensure n.tls.enabled _) _ tt h1 in ensure-ok n.tls.enabled _ u2 e2
validate_protocol-Secure parsers (naive n) h =
    let (u1, e1, h1) = bind-ok (validate_port n.server_port) _ tt h in
    let (u2, e2, h2) = bind-ok (validate_headers n.extra_headers) _ tt h1 in
    let (u3, e3, h3) = bind-ok (ensure n.tls.enabled _) _ tt h2 in
    (
      validate_port-pos n.server_port u1 e1,
      validate_headers-HeadersSafe n.extra_headers u2 e2,
      ensure-ok n.tls.enabled _ u3 e3,
    )
