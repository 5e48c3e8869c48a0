-- ===== src/SystemProxy/FetchProxy/Loopback.antt =====
-- system_proxy.rs `read_manual_fetch_proxy`: only loopback endpoints, and only of the scope in force.
use route_deck.Prelude.{
  ℕ, ◌≡◌, ◌≢◌, refl, true, not, ◌&&◌, ◌||◌, Option, none, some, List, [], ◌∷◌, ◌==◌, arith,
  Bool-cases, inl, inr, holds, ltb, subst,
}
use route_deck.Text.{
  Text, Text-discrete, codes, is_empty, contains_char, trim, to_ascii_lowercase, byte_len,
}
use route_deck.Text.Split.{split, split_once}
use route_deck.Action.{Result, ok, err}
use route_deck.Results.{◌>>=◌, bind-ok}
use route_deck.SystemProxy.Snapshot.{SystemProxyError}
use route_deck.SystemProxy.Cleanup.{SocketAddr}
use route_deck.SystemProxy.FetchProxy.{
  FetchProxyScope, user, machine, FetchProxyRegistry, ManualFetchProxy, switched_on, loopback_only,
  parse_loopback_endpoint, replaced, https_entry, and_then, https_of, parse_proxy_server,
  enabled_endpoint, enabled_server, manual_in, scope_of, not_set, read_manual_fetch_proxy,
}

-- An endpoint, if there is one, is on the loopback interface and has a port.
abbrev pub IsLoopback : Option SocketAddr → Type 0
IsLoopback none = Unit {0}
IsLoopback (some a) = (a.is_loopback ≡ true) × (a.port ≢ 0)

loopback_only-IsLoopback : (o : Option SocketAddr) → IsLoopback (loopback_only o)
unfolding loopback_only
loopback_only-IsLoopback none = tt
loopback_only-IsLoopback (some a) = elim (Bool-cases (not (a.port == 0) && a.is_loopback)) [
  | inl local ↦ rw local (ground (arith, local))
  | inr other ↦ rw other tt
]

module _ (socket_addr : Text → Option SocketAddr) where
  abbrev Entries : Option (Option SocketAddr) → Type 0
  Entries none = Unit {0}
  Entries (some found) = IsLoopback found

  replaced-Entries :
      (found o : Option SocketAddr) → IsLoopback o → Entries (replaced socket_addr found o)
  unfolding replaced
  replaced-Entries found none h = tt
  replaced-Entries none (some a) h = h
  replaced-Entries (some b) (some a) h = tt

  https_entry-Entries :
      (found : Option SocketAddr) (parts : Option (Text × Text))
      → IsLoopback found
      → Entries (https_entry socket_addr found parts)
  unfolding https_entry parse_loopback_endpoint
  https_entry-Entries found none h = tt
  https_entry-Entries found (some (scheme, endpoint)) h =
      elim (Bool-cases
        (contains_char b'=' endpoint || is_empty (trim scheme) || is_empty (trim endpoint))) [
          | inl bad ↦ rw bad tt
          | inr good ↦
              rw good
                (elim (Bool-cases
                  (holds (Text-discrete (to_ascii_lowercase (trim scheme)) (codes "https")))) [
                    | inl secure ↦ rw secure (
                        replaced-Entries found _
                          (loopback_only-IsLoopback (socket_addr (trim endpoint))))
                    | inr plain ↦ rw plain h
                  ])
        ]

  and_then-IsLoopback :
      (o : Option (Option SocketAddr)) (f : Option SocketAddr → Option SocketAddr)
      → Entries o
      → ((found : Option SocketAddr) → IsLoopback found → IsLoopback (f found))
      → IsLoopback (and_then socket_addr o f)
  unfolding and_then
  and_then-IsLoopback none f h k = tt
  and_then-IsLoopback (some found) f h k = k found h

  https_of-IsLoopback :
      (entries : List Text) (found : Option SocketAddr)
      → IsLoopback found
      → IsLoopback (https_of socket_addr entries found)
  unfolding https_of
  https_of-IsLoopback [] found h = h
  https_of-IsLoopback (entry ∷ entries) found h =
      and_then-IsLoopback _ _ (https_entry-Entries found (split_once b'=' entry) h)
        (https_of-IsLoopback entries)

  parse_proxy_server-IsLoopback : (value : Text) → IsLoopback (parse_proxy_server socket_addr value)
  unfolding parse_proxy_server parse_loopback_endpoint
  parse_proxy_server-IsLoopback value =
      elim (Bool-cases (
        ltb 4096 (byte_len value)
        || contains_char b'@' value
        || contains_char 13 value
        || contains_char 10 value
        || is_empty (trim value))) [
          | inl bad ↦ rw bad tt
          | inr good ↦
              rw good
                (elim (Bool-cases
                  (contains_char b'=' (trim value) || contains_char b';' (trim value))) [
                    | inl listed ↦ rw listed (https_of-IsLoopback (split b';' (trim value)) none tt)
                    | inr plain ↦ rw plain (loopback_only-IsLoopback (socket_addr (trim value)))
                  ])
        ]

  -- What a reading can give: nothing enabled, or a loopback endpoint.
  abbrev Reading : Result SystemProxyError ManualFetchProxy → Type 0
  Reading (ok (switched_on a)) = (a.is_loopback ≡ true) × (a.port ≢ 0)
  Reading _ = Unit {0}

  enabled_endpoint-Reading :
      (o : Option SocketAddr) → IsLoopback o → Reading (enabled_endpoint socket_addr o)
  unfolding enabled_endpoint
  enabled_endpoint-Reading none h = tt
  enabled_endpoint-Reading (some a) h = h

  enabled_server-Reading :
      (o : Result SystemProxyError (Option Text)) → Reading (o >>= enabled_server socket_addr)
  unfolding enabled_server
  enabled_server-Reading (err e) = tt
  enabled_server-Reading (ok none) = tt
  enabled_server-Reading (ok (some server)) =
      enabled_endpoint-Reading _ (parse_proxy_server-IsLoopback server)

  manual_in-Reading :
      (registry : FetchProxyRegistry) (scope : FetchProxyScope) (o : Option ℕ)
      → Reading (manual_in socket_addr registry scope o)
  unfolding manual_in not_set
  manual_in-Reading registry user none = tt
  manual_in-Reading registry machine none = tt
  manual_in-Reading registry scope (some n) = elim (Bool-cases (n == 0)) [
    | inl off ↦ rw off tt
    | inr other ↦ rw other (elim (Bool-cases (n == 1)) [
      | inl on ↦ rw on (enabled_server-Reading (registry.server scope))
      | inr unknown ↦ rw unknown tt
    ])
  ]

-- A manual proxy that is read as switched on is on the loopback interface and has a port.
pub read_manual_fetch_proxy-loopback :
    (socket_addr : Text → Option SocketAddr) (registry : FetchProxyRegistry) (a : SocketAddr)
    → read_manual_fetch_proxy socket_addr registry ≡ ok (switched_on a)
    → (a.is_loopback ≡ true) × (a.port ≢ 0)
unfolding read_manual_fetch_proxy
read_manual_fetch_proxy-loopback socket_addr registry a h =
    let (policy, e, h1) = bind-ok registry.policy _ (switched_on a) h in
    let (scope, f, h2) = bind-ok (scope_of socket_addr policy) _ (switched_on a) h1 in
    let (enabled, g, h3) = bind-ok (registry.enabled scope) _ (switched_on a) h2 in
    subst (Reading socket_addr) h3 (manual_in-Reading socket_addr registry scope enabled)

-- Under a machine policy the user's settings are never read: registries that differ in them alone give
-- the same answer.
pub read_manual_fetch_proxy-machine :
    (socket_addr : Text → Option SocketAddr) (r s : FetchProxyRegistry)
    → r.policy ≡ ok (some 0)
    → s.policy ≡ ok (some 0)
    → r.enabled machine ≡ s.enabled machine
    → r.server machine ≡ s.server machine
    → read_manual_fetch_proxy socket_addr r ≡ read_manual_fetch_proxy socket_addr s
unfolding read_manual_fetch_proxy scope_of manual_in
read_manual_fetch_proxy-machine socket_addr r s p q e f = rw (p, q, e) (same_in (s.enabled machine))
  where
    same_from :
        (o : Option ℕ) → manual_in socket_addr r machine o ≡ manual_in socket_addr s machine o
    same_from none = refl
    same_from (some n) = rw f refl

    same_in :
        (o : Result SystemProxyError (Option ℕ))
        → (o >>= manual_in socket_addr r machine) ≡ (o >>= manual_in socket_addr s machine)
    same_in (ok o) = same_from o
    same_in (err x) = refl
