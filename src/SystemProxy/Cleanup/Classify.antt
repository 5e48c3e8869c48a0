-- ===== src/SystemProxy/Cleanup/Classify.antt =====
-- system_proxy.rs `classify_cleanup_observation`: which observations count as stale, and what the
-- cleanup turns them into.
use route_deck.Prelude.{
  ℕ, ◌+◌, ◌*◌, ◌/◌, ◌<◌, ◌≡◌, refl, ◌↔◌, ◌⊎◌, Bool, true, false, not, ◌||◌, Option, none, some,
  arith, Bool-cases, inl, inr, ◌==◌, leb, sym, ◌∙◌,
}
use route_deck.Text.{Text}
use route_deck.SystemProxy.Snapshot.{has_bit, proxy_bit}
use route_deck.SystemProxy.Cleanup.{
  SocketAddr, CleanupObservation, stale, disabled, classify_cleanup_observation, classify_at,
  classify_manual, is_ambiguous, expected_after, sanitized_endpoint, is_user_policy, is_some_one,
  present, nonempty, same_text, conflict, disabled_manual_flags,
}

-- A manual loopback proxy that Windows or the user's registry enables, with nothing listening.
pub record IsStale (socket_addr : Text → Option SocketAddr) (o : CleanupObservation) : Type 0 where
  pub no_ras : o.ras_active ≡ false
  pub user_policy : is_user_policy o.policy ≡ true
  pub flags_known : (0 < o.wininet.flags) × (o.wininet.flags < 4)
  pub no_wininet_url : o.wininet.auto_config_url ≡ none
  pub no_user_url : nonempty o.user_auto_config_url ≡ false
  pub enabled : o.user_enabled ≡ some 1
  pub loopback : present (sanitized_endpoint socket_addr o) ≡ true
  pub no_listener : o.listener_present ≡ false
  pub agrees :
      (has_bit o.wininet.flags proxy_bit ≡ false)
      ⊎ (same_text o.wininet.proxy_server o.user_server ≡ true)

small_flags :
    (f : ℕ)
    → (f == 0) ≡ false
    → leb 16 f ≡ false
    → has_bit f 2 ≡ false
    → has_bit f 3 ≡ false
    → (0 < f) × (f < 4)
small_flags f h k l m = ground arith

is_some_one-eq : (o : Option ℕ) → is_some_one o ≡ true → o ≡ some 1
is_some_one-eq none h = cc
is_some_one-eq (some n) h = ground arith

flags-ambiguous :
    (f : ℕ)
    → 0 < f
    → f < 4
    → ((f == 0) ≡ false) × (leb 16 f ≡ false) × (has_bit f 2 ≡ false) × (has_bit f 3 ≡ false)
flags-ambiguous f h k = ground arith

or-false_parts :
    (a b c d e f g h : Bool)
    → (a || b || c || d || e || f || g || h) ≡ false
    → (a ≡ false)
      × (b ≡ false)
      × (c ≡ false)
      × (d ≡ false)
      × (e ≡ false)
      × (f ≡ false)
      × (g ≡ false)
      × (h ≡ false)
or-false_parts a b c d e f g h k = ground arith

not-eq_false : (b : Bool) → not b ≡ false → b ≡ true
not-eq_false true h = refl
not-eq_false false h = cc

absent : (o : Option Text) → present o ≡ false → o ≡ none
absent none h = refl
absent (some t) h = cc

module _ (socket_addr : Text → Option SocketAddr) (o : CleanupObservation) where
  not-ambiguous :
      is_ambiguous o ≡ false
      → (o.ras_active ≡ false)
        × (is_user_policy o.policy ≡ true)
        × (0 < o.wininet.flags)
        × (o.wininet.flags < 4)
        × (o.wininet.auto_config_url ≡ none)
        × (nonempty o.user_auto_config_url ≡ false)
  unfolding is_ambiguous
  not-ambiguous h =
      let (ras, policy, zero_flags, unknown, auto, detect, url, user_url) =
        or-false_parts o.ras_active (not (is_user_policy o.policy)) (o.wininet.flags == 0)
          (leb 16 o.wininet.flags) (has_bit o.wininet.flags 2) (has_bit o.wininet.flags 3)
          (present o.wininet.auto_config_url) (nonempty o.user_auto_config_url) h in
      let (positive, small) = small_flags o.wininet.flags zero_flags unknown auto detect in
      (ras, not-eq_false _ policy, positive, small, absent o.wininet.auto_config_url url, user_url)

  stale_of_manual :
      (e : Option Text)
      → (classify_manual o e).state ≡ stale
      → (is_some_one o.user_enabled ≡ true)
        × (present e ≡ true)
        × (o.listener_present ≡ false)
        × ((has_bit o.wininet.flags proxy_bit ≡ false)
            ⊎ (same_text o.wininet.proxy_server o.user_server ≡ true))
  unfolding classify_manual
  stale_of_manual e h = ground arith

  manual_of_stale :
      (e : Option Text)
      → (is_some_one o.user_enabled ≡ true)
      → (present e ≡ true)
      → (o.listener_present ≡ false)
      → ((has_bit o.wininet.flags proxy_bit ≡ false)
          ⊎ (same_text o.wininet.proxy_server o.user_server ≡ true))
      → (classify_manual o e).state ≡ stale
  unfolding classify_manual
  manual_of_stale e h k l m = ground arith

  ambiguous_state : (e : Option Text) → is_ambiguous o ≡ true → (classify_at o e).state ≡ conflict
  unfolding classify_at
  ambiguous_state e h = rw h

  clear_state :
      (e : Option Text)
      → is_ambiguous o ≡ false
      → (classify_at o e).state ≡ (classify_manual o e).state
  unfolding classify_at
  clear_state e h = rw h

  unambiguous : IsStale socket_addr o → is_ambiguous o ≡ false
  unfolding is_ambiguous
  unambiguous s =
      let (zero_flags, unknown, auto, detect) =
        flags-ambiguous o.wininet.flags s.flags_known.0 s.flags_known.1 in
      rw (s.no_ras, s.user_policy, zero_flags, unknown, auto, detect, s.no_wininet_url)
        s.no_user_url

  IsStale-of_parts :
      is_ambiguous o ≡ false
      → (classify_manual o (sanitized_endpoint socket_addr o)).state ≡ stale
      → IsStale socket_addr o
  IsStale-of_parts clear h =
      let (ras, policy, positive, small, url, user_url) = not-ambiguous clear in
      let (on, endpoint, silent, agrees) = stale_of_manual (sanitized_endpoint socket_addr o) h in
      record {
        no_ras = ras;
        user_policy = policy;
        flags_known = (positive, small);
        no_wininet_url = url;
        no_user_url = user_url;
        enabled = is_some_one-eq o.user_enabled on;
        loopback = endpoint;
        no_listener = silent;
        agrees = agrees;
      }

-- An observation is classified as stale exactly if the user's settings alone govern, name no
-- automatic configuration and enable a loopback proxy, nothing listens there, and WinINet either has
-- no manual proxy or the same one.
pub classify_cleanup_observation-IsStale :
    (socket_addr : Text → Option SocketAddr) (o : CleanupObservation)
    → ((classify_cleanup_observation socket_addr o).state ≡ stale) ↔ IsStale socket_addr o
unfolding classify_cleanup_observation
classify_cleanup_observation-IsStale socket_addr o = (forth, back)
  where
    endpoint : Option Text
    endpoint = sanitized_endpoint socket_addr o

    forth : (classify_at o endpoint).state ≡ stale → IsStale socket_addr o
    forth h = elim (Bool-cases (is_ambiguous o)) [
      | inl unclear ↦ cc (ambiguous_state socket_addr o endpoint unclear)
      | inr clear ↦
          IsStale-of_parts socket_addr o clear (sym (clear_state socket_addr o endpoint clear) ∙ h)
    ]

    back : IsStale socket_addr o → (classify_at o endpoint).state ≡ stale
    back s =
        clear_state socket_addr o endpoint (unambiguous socket_addr o s)
        ∙ manual_of_stale socket_addr o endpoint (rw s.enabled refl) s.loopback s.no_listener
            s.agrees

-- What the cleanup must find after clearing a stale observation is always classified as disabled.
pub classify_cleanup_observation-expected_after :
    (socket_addr : Text → Option SocketAddr) (o : CleanupObservation)
    → IsStale socket_addr o
    → (classify_cleanup_observation socket_addr (expected_after o)).state ≡ disabled
unfolding classify_cleanup_observation expected_after classify_at classify_manual is_ambiguous
    disabled_manual_flags
classify_cleanup_observation-expected_after socket_addr o s =
    let e : o.wininet.flags / 4 * 4 + 1 ≡ 1 = omega (arith, s.flags_known) in
    rw (s.no_ras, s.user_policy, e, s.no_wininet_url, s.no_user_url) refl
