-- ===== src/SystemProxy/FetchProxy.antt =====
-- system_proxy.rs: the manual proxy that the registry configures, read for the program's own requests,
-- and the check that the registry agrees with WinINet.
pub mod Loopback
mod Examples
use route_deck.Prelude.{
  ℕ, ◌≡◌, Bool, true, false, not, ◌&&◌, ◌||◌, Option, none, some, List, [], ◌∷◌, leb, ltb, ◌==◌,
  if◌then◌else◌, holds,
}
use route_deck.Text.{
  Text, Text-discrete, codes, byte_len, is_empty, contains_char, trim, to_ascii_lowercase,
}
use route_deck.Text.Split.{split, split_once}
use route_deck.Action.{Result, ok, err}
use route_deck.Results.{◌>>=◌, ◌>>◌, ensure}
use route_deck.SystemProxy.Snapshot.{
  SystemProxySnapshot, SystemProxyError, recovery_required, max_proxy_config_chars, has_bit,
  proxy_bit,
}
use route_deck.SystemProxy.Cleanup.{
  SocketAddr, is_off, is_some_one, is_user_policy, same_text, nonempty,
}

pub data FetchProxyScope : Type 0 where
  user machine : FetchProxyScope

-- The trait FetchProxyRegistry.
pub record FetchProxyRegistry : Type 0 where
  pub policy : Result SystemProxyError (Option ℕ)
  pub enabled : FetchProxyScope → Result SystemProxyError (Option ℕ)
  pub server : FetchProxyScope → Result SystemProxyError (Option Text)

pub data ManualFetchProxy : Type 0 where
  absent switched_off : ManualFetchProxy
  switched_on : SocketAddr → ManualFetchProxy

abbrev pub fetch_proxy_error : SystemProxyError
fetch_proxy_error = recovery_required "could not read the current manual proxy configuration"

abbrev ambiguous : SystemProxyError
ambiguous =
    recovery_required
      "Windows proxy configuration is ambiguous; preserve it until the conflict is resolved"

-- LoopbackProxyEndpoint::new, on an address that parsed
unfoldable pub loopback_only : Option SocketAddr → Option SocketAddr
loopback_only none = none
loopback_only (some a) = if not (a.port == 0) && a.is_loopback then some a else none

unfoldable pub matches_wininet : Option Text → Option Text → Bool
matches_wininet flat_server proxy_server =
    nonempty flat_server && same_text flat_server proxy_server

ownership_enabled :
    FetchProxyRegistry → SystemProxySnapshot → Option ℕ → Result SystemProxyError (Unit {0})
unfolding matches_wininet
ownership_enabled registry s user_enabled =
    if is_off user_enabled && not (has_bit s.flags proxy_bit)
    then ok tt
    else if is_some_one user_enabled && has_bit s.flags proxy_bit
    then (registry.server user >>= λ flat_server.
        ensure (matches_wininet flat_server s.proxy_server) ambiguous)
    else err ambiguous

-- validate_ownership_snapshot
unfoldable pub validate_ownership_snapshot :
    SystemProxySnapshot → Bool → FetchProxyRegistry → Result SystemProxyError (Unit {0})
unfolding ownership_enabled
validate_ownership_snapshot s ras_active registry = do
  ensure (not (ras_active || s.flags == 0 || leb 16 s.flags)) ambiguous
  policy ← registry.policy
  ensure (is_user_policy policy) ambiguous
  user_enabled ← registry.enabled user
  ownership_enabled registry s user_enabled

-- `socket_addr` is `SocketAddr::from_str`.
module _ (socket_addr : Text → Option SocketAddr) where
  unfoldable pub parse_loopback_endpoint : Text → Option SocketAddr
  unfolding loopback_only
  parse_loopback_endpoint value = loopback_only (socket_addr value)

  -- https.replace(endpoint).is_some() is an error
  replaced : Option SocketAddr → Option SocketAddr → Option (Option SocketAddr)
  replaced found none = none
  replaced none (some a) = some (some a)
  replaced (some b) (some a) = none

  https_entry : Option SocketAddr → Option (Text × Text) → Option (Option SocketAddr)
  unfolding parse_loopback_endpoint replaced
  https_entry found none = none
  https_entry found (some (scheme, endpoint)) =
      if contains_char b'=' endpoint || is_empty (trim scheme) || is_empty (trim endpoint)
      then none
      else if holds (Text-discrete (to_ascii_lowercase (trim scheme)) (codes "https"))
      then replaced found (parse_loopback_endpoint (trim endpoint))
      else some found

  and_then :
      Option (Option SocketAddr) → (Option SocketAddr → Option SocketAddr) → Option SocketAddr
  and_then none f = none
  and_then (some found) f = f found

  -- The loop over the entries, from what was found on.
  https_of : List Text → Option SocketAddr → Option SocketAddr
  unfolding https_entry and_then
  https_of [] found = found
  https_of (entry ∷ entries) found =
      and_then (https_entry found (split_once b'=' entry)) (https_of entries)

  unfoldable pub parse_proxy_server : Text → Option SocketAddr
  unfolding https_of
  parse_proxy_server value =
      if ltb max_proxy_config_chars (byte_len value)
        || contains_char b'@' value
        || contains_char 13 value
        || contains_char 10 value
        || is_empty (trim value)
      then none
      else if contains_char b'=' (trim value) || contains_char b';' (trim value)
      then https_of (split b';' (trim value)) none
      else parse_loopback_endpoint (trim value)

  -- select_loopback_proxy, of the flags, the server and the RAS test
  unfoldable pub select_loopback_proxy : ℕ → Option Text → Bool → Option SocketAddr
  unfolding parse_proxy_server
  select_loopback_proxy flags none ras_active = none
  select_loopback_proxy flags (some server) ras_active =
      if ras_active || not (has_bit flags proxy_bit) || is_empty (trim server)
      then none
      else parse_proxy_server server

  enabled_endpoint : Option SocketAddr → Result SystemProxyError ManualFetchProxy
  enabled_endpoint none = err fetch_proxy_error
  enabled_endpoint (some a) = ok (switched_on a)

  enabled_server : Option Text → Result SystemProxyError ManualFetchProxy
  unfolding enabled_endpoint parse_proxy_server
  enabled_server none = err fetch_proxy_error
  enabled_server (some server) = enabled_endpoint (parse_proxy_server server)

  not_set : FetchProxyScope → ManualFetchProxy
  not_set machine = switched_off
  not_set user = absent

  manual_in :
      FetchProxyRegistry → FetchProxyScope → Option ℕ → Result SystemProxyError ManualFetchProxy
  unfolding enabled_server not_set
  manual_in registry scope none = ok (not_set scope)
  manual_in registry scope (some n) =
      if n == 0
      then ok switched_off
      else if n == 1
      then registry.server scope >>= enabled_server
      else err fetch_proxy_error

  scope_of : Option ℕ → Result SystemProxyError FetchProxyScope
  scope_of none = ok user
  scope_of (some n) =
      if n == 0 then ok machine else if n == 1 then ok user else err fetch_proxy_error

  unfoldable pub read_manual_fetch_proxy :
      FetchProxyRegistry → Result SystemProxyError ManualFetchProxy
  unfolding manual_in scope_of
  read_manual_fetch_proxy registry = do
    policy ← registry.policy
    scope ← scope_of policy
    enabled ← registry.enabled scope
    manual_in registry scope enabled
