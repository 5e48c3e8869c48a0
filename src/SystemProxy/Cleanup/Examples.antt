-- ===== src/SystemProxy/Cleanup/Examples.antt =====
-- The cleanup of a stale proxy on a machine: tests, and the theorems at concrete inputs.
use route_deck.Prelude.{
  ◌≡◌, ◌↔◌, refl, true, false, Option, none, some, [], ◌==◌, if◌then◌else◌, ℕ_discrete,
}
use route_deck.Text.{Text, Text-discrete, codes, trim}
use route_deck.Text.Hex.{hex}
use route_deck.Action.{ok, ◌>>=◌}
use route_deck.SystemProxy.Snapshot.{SystemProxySnapshot}
use route_deck.SystemProxy.Manager.{
  random_hex, load_journal, load_journal_at, decode_journal, random_text,
}
use route_deck.SystemProxy.Cleanup.{
  is_stale, classify_at, classify_manual, is_ambiguous, wininet_manual_matches, diagnosed,
  sanitized_endpoint, parse_single_loopback_proxy, loopback_proxy_endpoint, Option_Text-discrete,
  is_disabled, CleanupObservation, CleanupObservation-discrete, stale, disabled, SocketAddr,
  classify_cleanup_observation, expected_after, disabled_manual_flags,
}
use route_deck.SystemProxy.Cleanup.Desk.{
  diagnose_after, diagnose_observed, foreign_unless, diagnose_owned, diagnose_foreign, offer_token,
  on_world, on_desk, take_preview, matching, clear_previewed, clear_observed, write_cleanup_journal,
  cleanup_call, cleanup_bytes, CleanupPlatform, Desk, diagnostics, clear_stale,
}
use route_deck.SystemProxy.Cleanup.Classify.{
  IsStale, classify_cleanup_observation-IsStale, classify_cleanup_observation-expected_after,
}
use route_deck.SystemProxy.Cleanup.Tokens.{Clears, clear_stale-Clears}
use route_deck.SystemProxy.Cleanup.Offering.{Offers, diagnostics-Offers}
use route_deck.Examples.Machine.{Machine, machine, file_of, read, sevens}

abbrev loopback_addr : Text → Option SocketAddr
loopback_addr t = some (record { port = 8080; is_loopback = true; display = t })

abbrev observed : SystemProxySnapshot → CleanupObservation
observed s = record {
  wininet = s;
  policy = none;
  user_enabled = if s.flags == 1 then some 0 else some 1;
  user_server = s.proxy_server;
  user_bypass = s.proxy_bypass;
  user_auto_config_url = none;
  ras_active = false;
  listener_present = false;
}

-- Evidence is not kept here: the machine has no file for it.
abbrev cleanup : CleanupPlatform Machine
cleanup = record {
  socket_addr = loopback_addr;
  cleanup_observation = λ m. (ok (observed m.now), m);
  clear_manual_if_exact = λ o m.
      (ok tt, record m { now = record (m.now) { flags = disabled_manual_flags m.now.flags } });
  create_parent = λ m. (true, m);
  to_vec = λ j. some [];
  create_new = λ owner m. (true, m);
  write_all = λ owner b m. (true, m);
}

abbrev left_behind : SystemProxySnapshot
left_behind = record {
  flags = 3;
  proxy_server = some (codes "127.0.0.1:8080");
  proxy_bypass = none;
  auto_config_url = none;
}

abbrev before : Desk (machine 0) cleanup
before = record {
  world = record { now = left_behind; journal = none; evidence = λ o. none; refusals = 0 };
  preview = none;
}

shown : Desk (machine 0) cleanup
unfolding diagnostics diagnose_after diagnose_observed foreign_unless diagnose_owned
    diagnose_foreign offer_token is_stale classify_cleanup_observation classify_at classify_manual
    is_ambiguous wininet_manual_matches diagnosed sanitized_endpoint parse_single_loopback_proxy
    loopback_proxy_endpoint trim load_journal load_journal_at decode_journal random_hex random_text
    hex sevens file_of read clear_stale Text-discrete Option_Text-discrete ℕ_discrete ◌>>=◌ on_world
    on_desk take_preview matching clear_previewed clear_observed write_cleanup_journal cleanup_call
    cleanup_bytes CleanupObservation-discrete expected_after disabled_manual_flags is_disabled
shown = (diagnostics (machine 0) cleanup before).1

token : Text
unfolding shown
token = hex (sevens 32)

reports_stale : (diagnostics (machine 0) cleanup before).0.state ≡ stale
unfolding shown
reports_stale = refl

clears : (clear_stale (machine 0) cleanup token shown).1.world.now.flags ≡ 1
unfolding shown token
clears = refl

IsStale-observed : IsStale loopback_addr (observed left_behind)
unfolding shown
IsStale-observed =
    (classify_cleanup_observation-IsStale loopback_addr (observed left_behind)).0 observed_stale
  where
    observed_stale :
        (classify_cleanup_observation loopback_addr (observed left_behind)).state ≡ stale
    observed_stale = refl

classify_cleanup_observation-IsStale_example :
    ((classify_cleanup_observation loopback_addr (observed left_behind)).state ≡ stale)
    ↔ IsStale loopback_addr (observed left_behind)
classify_cleanup_observation-IsStale_example =
    classify_cleanup_observation-IsStale loopback_addr (observed left_behind)

classify_cleanup_observation-expected_after_example :
    (classify_cleanup_observation loopback_addr (expected_after (observed left_behind))).state
    ≡ disabled
classify_cleanup_observation-expected_after_example =
    classify_cleanup_observation-expected_after loopback_addr (observed left_behind)
      IsStale-observed

clear_stale-Clears_example :
    Clears
      (machine 0)
      cleanup
      token
      shown.preview
      (clear_stale (machine 0) cleanup token shown).0
      (clear_stale (machine 0) cleanup token shown).1
clear_stale-Clears_example = clear_stale-Clears (machine 0) cleanup token shown

diagnostics-Offers_example :
    Offers (machine 0) cleanup (diagnostics (machine 0) cleanup before).0 shown.preview
unfolding shown
diagnostics-Offers_example = diagnostics-Offers (machine 0) cleanup before
