-- ===== src/SystemProxy/Cleanup.antt =====
-- system_proxy.rs: the observations of the Windows proxy settings, their classification, and what a
-- cleanup of a stale proxy has to leave behind.
pub mod Classify
pub mod Desk
pub mod Tokens
pub mod Offering
pub mod Examples
use route_deck.Prelude.{
  ℕ, ◌+◌, ◌*◌, ◌/◌, ◌≡◌, String, Bool, true, false, not, ◌&&◌, ◌||◌, Option, none, some, List, [],
  ◌∷◌, leb, ltb, ◌==◌, if◌then◌else◌, holds, length, ℕ_discrete, all,
}
use route_deck.Text.{Text, Text-discrete, byte_len, is_ascii_hexdigit, contains_char, trim}
use route_deck.Action.{Result, ok, err, Action, pure, raise, lift, map_err, require, ◌>>=◌, ◌>>◌}
use route_deck.SystemProxy.Snapshot.{
  SystemProxySnapshot, SystemProxySnapshot-discrete, SystemProxyError, unchanged, recovery_required,
  as_unchanged, has_bit, proxy_bit, proxy_type_direct_value,
}
use route_deck.SystemProxy.Journal.{SystemProxyJournal}
use route_deck.SystemProxy.Platform.{Platform}
use route_deck.SystemProxy.Manager.{load_journal, random_hex}

pub data SystemProxyDiagnosticState : Type 0 where
  disabled owned foreign_active stale conflict unavailable : SystemProxyDiagnosticState

pub record SystemProxyDiagnostics : Type 0 where
  pub state : SystemProxyDiagnosticState
  pub endpoint : Option Text
  pub detail : String
  pub cleanup_token : Option Text

pub record CleanupObservation : Type 0 where
  pub wininet : SystemProxySnapshot
  pub policy : Option ℕ
  pub user_enabled : Option ℕ
  pub user_server : Option Text
  pub user_bypass : Option Text
  pub user_auto_config_url : Option Text
  pub ras_active : Bool
  pub listener_present : Bool

unfoldable pub CleanupObservation-discrete : Discrete CleanupObservation
CleanupObservation-discrete = hlevel ℕ_discrete

unfoldable pub Option_Text-discrete : Discrete (Option Text)
Option_Text-discrete = hlevel ℕ_discrete

pub record CleanupPreview : Type 0 where
  pub token : Text
  pub observation : CleanupObservation

pub record CleanupJournal : Type 0 where
  pub version : ℕ
  pub owner_id : Text
  pub previous : CleanupObservation

diagnosed : SystemProxyDiagnosticState → Option Text → String → SystemProxyDiagnostics
diagnosed s endpoint detail = record {
  state = s;
  endpoint = endpoint;
  detail = detail;
  cleanup_token = none;
}

-- `SocketAddr` of the standard library: what the code asks of it, and its printed form.
pub record SocketAddr : Type 0 where
  pub port : ℕ
  pub is_loopback : Bool
  pub display : Text

-- LoopbackProxyEndpoint::new, then printed
loopback_proxy_endpoint : Option SocketAddr → Option Text
loopback_proxy_endpoint none = none
loopback_proxy_endpoint (some a) =
    if not (a.port == 0) && a.is_loopback then some a.display else none

-- `socket_addr` is `SocketAddr::from_str`.
module _ (socket_addr : Text → Option SocketAddr) where
  parse_single_loopback_proxy : Text → Option Text
  unfolding loopback_proxy_endpoint
  parse_single_loopback_proxy value =
      let trimmed = trim value in
      if contains_char b'=' trimmed || contains_char b';' trimmed
      then none
      else loopback_proxy_endpoint (socket_addr trimmed)

  unfoldable pub sanitized_endpoint : CleanupObservation → Option Text
  unfolding parse_single_loopback_proxy
  sanitized_endpoint o = elim o.user_server [
    | none ↦ none
    | some server ↦ parse_single_loopback_proxy server
  ]

-- `None | Some(1)`
abbrev pub is_user_policy : Option ℕ → Bool
is_user_policy none = true
is_user_policy (some n) = n == 1

abbrev pub is_some_one : Option ℕ → Bool
is_some_one none = false
is_some_one (some n) = n == 1

-- `None | Some(0)`
abbrev pub is_off : Option ℕ → Bool
is_off none = true
is_off (some n) = n == 0

abbrev present : Option Text → Bool
present none = false
present (some t) = true

abbrev pub nonempty : Option Text → Bool
nonempty none = false
nonempty (some []) = false
nonempty (some (c ∷ s)) = true

abbrev pub same_text : Option Text → Option Text → Bool
same_text a b = holds (Option_Text-discrete a b)

ownership_observation_matches : CleanupObservation → SystemProxyJournal → Bool
ownership_observation_matches o j =
    holds (SystemProxySnapshot-discrete o.wininet j.applied)
    && not o.ras_active
    && is_user_policy o.policy
    && is_some_one o.user_enabled
    && same_text o.user_server j.applied.proxy_server
    && same_text o.user_bypass j.applied.proxy_bypass
    && same_text o.user_auto_config_url j.applied.auto_config_url

-- Settings that no cleanup may touch.
is_ambiguous : CleanupObservation → Bool
is_ambiguous o =
    o.ras_active
    || not (is_user_policy o.policy)
    || o.wininet.flags == 0
    || leb 16 o.wininet.flags
    || has_bit o.wininet.flags 2
    || has_bit o.wininet.flags 3
    || present o.wininet.auto_config_url
    || nonempty o.user_auto_config_url

wininet_manual_matches : CleanupObservation → Bool
wininet_manual_matches o =
    has_bit o.wininet.flags proxy_bit && same_text o.wininet.proxy_server o.user_server

abbrev stale_detail : String
stale_detail = "A stale loopback System Proxy has no local listener"

-- The arms of the match, in order.
classify_manual : CleanupObservation → Option Text → SystemProxyDiagnostics
unfolding diagnosed wininet_manual_matches
classify_manual o endpoint =
    if is_off o.user_enabled && o.wininet.flags == proxy_type_direct_value
    then diagnosed disabled none "System Proxy is disabled"
    else if is_some_one o.user_enabled
        && present endpoint
        && not (has_bit o.wininet.flags proxy_bit)
        && not o.listener_present
    then diagnosed stale endpoint stale_detail
    else if is_some_one o.user_enabled
        && present endpoint
        && (o.wininet.flags == proxy_type_direct_value || wininet_manual_matches o)
        && o.listener_present
    then diagnosed foreign_active endpoint
        "A local listener exists on the configured System Proxy port"
    else if is_some_one o.user_enabled
        && present endpoint
        && wininet_manual_matches o
        && not o.listener_present
    then diagnosed stale endpoint stale_detail
    else diagnosed conflict endpoint "System Proxy configuration is ambiguous and was preserved"

classify_at : CleanupObservation → Option Text → SystemProxyDiagnostics
unfolding is_ambiguous classify_manual
classify_at o endpoint =
    if is_ambiguous o
    then diagnosed conflict endpoint "System Proxy configuration is ambiguous and was preserved"
    else classify_manual o endpoint

unfoldable pub classify_cleanup_observation :
    (Text → Option SocketAddr) → CleanupObservation → SystemProxyDiagnostics
unfolding classify_at
classify_cleanup_observation socket_addr o = classify_at o (sanitized_endpoint socket_addr o)

-- (previous & !PROXY_TYPE_PROXY) | PROXY_TYPE_DIRECT
unfoldable pub disabled_manual_flags : ℕ → ℕ
disabled_manual_flags previous_flags = previous_flags / 4 * 4 + 1

-- The observation that a cleanup must find afterwards.
unfoldable pub expected_after : CleanupObservation → CleanupObservation
unfolding disabled_manual_flags
expected_after o = record o {
  wininet = record (o.wininet) { flags = disabled_manual_flags o.wininet.flags };
  user_enabled = some 0;
}

pub is_stale : SystemProxyDiagnosticState → Bool
is_stale stale = true
is_stale _ = false

pub is_disabled : SystemProxyDiagnosticState → Bool
is_disabled disabled = true
is_disabled _ = false
