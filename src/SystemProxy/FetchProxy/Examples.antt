-- ===== src/SystemProxy/FetchProxy/Examples.antt =====
-- A manual proxy for HTTPS in the registry: the theorems at concrete inputs.
use route_deck.Prelude.{ℕ, ◌≡◌, ◌≢◌, refl, Bool, true, Option, none, some, ℕ_discrete}
use route_deck.Text.{Text, Text-discrete, codes, trim}
use route_deck.Text.Split.{split, split_once, prepend}
use route_deck.Action.{ok}
use route_deck.SystemProxy.Cleanup.{SocketAddr}
use route_deck.SystemProxy.FetchProxy.{
  FetchProxyRegistry, user, machine, switched_on, loopback_only, parse_loopback_endpoint, replaced,
  https_entry, and_then, https_of, parse_proxy_server, enabled_endpoint, enabled_server, manual_in,
  scope_of, read_manual_fetch_proxy,
}
use route_deck.SystemProxy.FetchProxy.Loopback.{
  read_manual_fetch_proxy-loopback, read_manual_fetch_proxy-machine,
}

abbrev address : SocketAddr
address = record { port = 8080; is_loopback = true; display = codes "127.0.0.1:8080" }

abbrev addresses : Text → Option SocketAddr
addresses s = some address

abbrev registry : ℕ → Option ℕ → FetchProxyRegistry
registry policy user_enabled = record {
  policy = ok (some policy);
  enabled = λ scope. elim scope [ user ↦ ok user_enabled | machine ↦ ok (some 1) ];
  server = λ scope. ok (some (codes "http=a:1; https=127.0.0.1:8080"));
}

reads : read_manual_fetch_proxy addresses (registry 1 (some 1)) ≡ ok (switched_on address)
unfolding read_manual_fetch_proxy scope_of manual_in enabled_server enabled_endpoint
    parse_proxy_server https_of https_entry and_then replaced parse_loopback_endpoint loopback_only
    split split_once prepend trim Text-discrete ℕ_discrete
reads = refl

read_manual_fetch_proxy-loopback_example : (◌≡◌ {A = Bool} true true) × (◌≢◌ {A = ℕ} 8080 0)
read_manual_fetch_proxy-loopback_example =
    read_manual_fetch_proxy-loopback addresses (registry 1 (some 1)) address reads

read_manual_fetch_proxy-machine_example :
    read_manual_fetch_proxy addresses (registry 0 none)
    ≡ read_manual_fetch_proxy addresses (registry 0 (some 0))
read_manual_fetch_proxy-machine_example =
    read_manual_fetch_proxy-machine addresses (registry 0 none) (registry 0 (some 0)) refl refl refl
      refl
