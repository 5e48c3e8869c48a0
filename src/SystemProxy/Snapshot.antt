-- ===== src/SystemProxy/Snapshot.antt =====
-- system_proxy.rs: the errors, the WinINet settings and the settings that RouteDeck publishes.
use route_deck.Prelude.{
  ℕ, ◌*◌, ◌/◌, ◌%◌, ◌^◌, String, Bool, true, false, not, ◌&&◌, ◌||◌, Option, none, some, ◌++◌, leb,
  ◌==◌, if◌then◌else◌, all, ℕ_discrete,
}
use route_deck.Action.{Result, ok, err}
use route_deck.Text.{Text, codes, byte_len, is_ascii_hexdigit, contains_char}
use route_deck.Text.Decimal.{to_decimal}

pub data SystemProxyError : Type 0 where
  unchanged : String → SystemProxyError
  recovery_required : String → SystemProxyError

unfoldable pub may_have_changed : SystemProxyError → Bool
may_have_changed (unchanged m) = false
may_have_changed (recovery_required m) = true

-- SystemProxyError::unchanged
abbrev pub as_unchanged : SystemProxyError → SystemProxyError
as_unchanged (unchanged m) = unchanged m
as_unchanged (recovery_required m) = unchanged m

pub record SystemProxySnapshot : Type 0 where
  pub flags : ℕ
  pub proxy_server : Option Text
  pub proxy_bypass : Option Text
  pub auto_config_url : Option Text

unfoldable pub SystemProxySnapshot-discrete : Discrete SystemProxySnapshot
SystemProxySnapshot-discrete = hlevel ℕ_discrete

abbrev pub max_proxy_config_chars : ℕ
max_proxy_config_chars = 4 * 1024

abbrev pub proxy_type_direct_value : ℕ
proxy_type_direct_value = 1

-- `flags & (1 << bit) != 0`
abbrev pub has_bit : ℕ → ℕ → Bool
has_bit flags bit = flags / 2 ^ bit % 2 == 1

abbrev pub proxy_bit : ℕ
proxy_bit = 1

unfoldable pub valid_owner_id : Text → Bool
valid_owner_id value = byte_len value == 32 && all is_ascii_hexdigit value

abbrev pub routedeck_proxy_bypass : Text
routedeck_proxy_bypass = codes "localhost;127.*;[::1];<local>"

abbrev pub loopback_prefix : Text
loopback_prefix = codes "127.0.0.1:"

-- What a session publishes: PROXY_TYPE_DIRECT | PROXY_TYPE_PROXY at its own port, with its mark.
unfoldable pub published : ℕ → Text → SystemProxySnapshot
published http_port owner_id = record {
  flags = 3;
  proxy_server = some (loopback_prefix ++ to_decimal http_port);
  proxy_bypass =
      some
        (routedeck_proxy_bypass ++ (codes ";routedeck-owner-" ++ (owner_id ++ codes ".invalid")));
  auto_config_url = none;
}

-- SystemProxySnapshot::routedeck
unfoldable pub routedeck : ℕ → Text → Result SystemProxyError SystemProxySnapshot
unfolding published valid_owner_id
routedeck http_port owner_id =
    if http_port == 0 || not (valid_owner_id owner_id)
    then err (recovery_required "system proxy port must be non-zero")
    else ok (published http_port owner_id)

valid_value : Text → Bool
valid_value value =
    leb (byte_len value) max_proxy_config_chars
    && not (contains_char 0 value || contains_char 13 value || contains_char 10 value)

-- `flatten` skips an absent value.
valid_option : Option Text → Bool
unfolding valid_value
valid_option none = true
valid_option (some value) = valid_value value

-- SystemProxySnapshot::valid
unfoldable pub snapshot_valid : SystemProxySnapshot → Bool
unfolding valid_option
snapshot_valid s =
    valid_option s.proxy_server && valid_option s.proxy_bypass && valid_option s.auto_config_url
