-- ===== src/Controller/Wiring/Examples.antt =====
-- The controller over the manager on a machine: the theorems at concrete inputs.
use route_deck.Controller.Wiring.Roundtrip.{start_system_proxy-stop}
use route_deck.Text.Decimal.{to_decimal, parse_uint}
use route_deck.Text.Hex.{hex}
use route_deck.Examples.Codec.{encode, decode}
use route_deck.SystemProxy.Journal.{journal_valid, SystemProxyJournal-discrete}
use route_deck.Controller.Rollback.{begin_diagnostic_attempt}
use route_deck.Controller.Proving.{
  route_of, session_of, store_session, mark_error, failing, prove_ingress, set_check, describe,
  published, publish, announce, prove_session, start_locked,
}
use route_deck.Controller.Starting.{
  failure, proxy_failure, proves_traffic_since, is_naive, scope_of, ready_phase, perform,
  perform_with, modify, prove_capture, set_proofs, enter, label, choose_upstream, check_sidecar,
  engine_version_text, guarded, wait_bridges, start_sidecar, start_child, launch_session,
}
use route_deck.Controller.Wiring.Restoring.{Allows, stop_active_locked-Restores}
use route_deck.SystemProxy.Manager.Restore.{Restores}
use route_deck.SystemProxy.Manager.{
  SystemProxyRestoreOutcome, random_hex, load_journal, load_journal_at, decode_journal,
  check_parsed, check_valid, write_journal, call, serialized, verify_exact, owned_by,
  restore_journal, restore_from, put_back, keep_foreign, drop_journal, remove_journal, is_removed,
  preserve_conflict_journal, link_evidence, check_evidence, publish_as, publish_over, commit,
}
use route_deck.Controller.Teardown.{
  Answer, stop_active_locked, needs_recovery, with_world, set_restore, with_active, drop_active,
  pause, pause_reconnect, conclude, reconciled, stopped, stop_child, proxy_restored, restore_proxy,
  teardown, stop_request, stop,
}
use route_deck.Controller.Connect.{
  start_system_proxy, reprove_proxy, unverified, proxy_verdict, conclude_proxy, finish_proxy_proof,
  started_proxy, connect_proxy, node_is_naive, unless_closed, start_system_proxy_locked, set_intent,
  finished, may_request,
}
use route_deck.Controller.Requests.{
  RuntimeMode-discrete, find_node, into_policy, node_missing, unresolved, changed_error,
  same_tun_options, is_session, same_config, child_alive, listener_owned,
}
use route_deck.Controller.Wiring.Cycle.{Connects, start_system_proxy-Connects}
use route_deck.Controller.Status.{
  PublicPorts, RuntimeError, PublicError, RuntimeStatus, default_status, ProofKind-discrete,
  default_proofs, set_row,
}
use route_deck.Prelude.{◌≡◌, ◌<◌, refl, none, some, arith, subst, ℕ_discrete, Bool, true, false}
use route_deck.Text.{codes, Text-discrete}
use route_deck.Action.{Result, ok, err, ok-injective, ◌>>=◌, require, pure, lift, raise, map_err}
use route_deck.SystemProxy.Manager
use route_deck.SystemProxy.Snapshot
use route_deck.Controller.Children
use route_deck.SystemProxy.Platform.{active_journal}
use route_deck.SystemProxy.Snapshot.{
  SystemProxySnapshot, SystemProxyError, snapshot_valid, routedeck, SystemProxySnapshot-discrete,
}
use route_deck.SystemProxy.Manager.Steps.{Same, Same-refl}
use route_deck.Controller.Services.{Services, single}
use route_deck.Controller.Session.{
  State, reconnect_delay, is_ready, is_verified, is_blocked, is_disconnected, is_tun, pauses,
  is_paused, emit_status, retry_delay, sync_reconnect_status, set_phase, relabel, update_status,
  clear_active_metadata, without_session, reset_disconnected, set_proof, after_attempt,
  pausing_error, schedule, republish, finish_connection_attempt,
}
use route_deck.Controller.Samples.{quiet, idle, routing, sample_ports, session}
use route_deck.Examples.Machine.{
  Machine, machine, machine_laws, file_of, with_file, sevens, create, read, link, remove,
}
use route_deck.Controller.Wiring.{Wiring}

abbrev services : Services
services =
    quiet Machine (λ m. 1000) (Manager.restore_if_owned (machine 0)) (Manager.is_owned (machine 0))
      (Manager.publish_loopback (machine 0))

still : (m : Machine) → Same (machine 0) (machine_laws 0) m m
still m = Same-refl (machine 0) (machine_laws 0) m

abbrev wiring : Wiring (machine 0) (machine_laws 0) services
wiring = record {
  view = λ m. m;
  restore_lem = record { answers = λ m. refl; moves = λ m. refl };
  publish_lem = λ port. record { answers = λ m. refl; moves = λ m. refl };
  owned_lem = record { answers = λ m. refl; moves = λ m. refl };
  now_Leaves = still;
  random_Leaves = λ n. still;
  alive_Leaves = λ c. still;
  stop_Leaves = λ c. still;
  drop_Spares = λ c. still;
  check_Leaves = λ c. still;
  start_Leaves = λ c. still;
  owned_now_Leaves = λ a c. still;
  ready_Leaves = λ a c. still;
  sidecar_owned_Leaves = λ port c. still;
  sidecar_ready_Leaves = λ port c. still;
  prove_Leaves = λ h. still;
  ordinary_Leaves = λ port. still;
  tun_Leaves = still;
  capture_Leaves = λ c. still;
  upstream_Leaves = still;
  sessions_Leaves = still;
  ports_Leaves = still;
  ports_fit = λ m ports e. fit ports e;
  prepare_Leaves = λ a b c d e f g h i j. still;
  create_Leaves = λ u f. still;
  create_sidecar_Leaves = λ f. still;
}
  where
    fit :
        (ports : PublicPorts)
        → ◌≡◌ {A = Result RuntimeError PublicPorts} (ok sample_ports) (ok ports)
        → ports.http < 65536
    fit ports e =
        subst (λ (x : PublicPorts). x.http < 65536) (ok-injective sample_ports ports e)
          (omega arith)

abbrev direct : SystemProxySnapshot
direct = record {
  flags = 1;
  proxy_server = none;
  proxy_bypass = some (codes "<local>");
  auto_config_url = none;
}

abbrev start : State services
start = idle services (record { now = direct; journal = none; evidence = λ o. none; refusals = 0 })

start_system_proxy-Connects_example :
    Connects
      (machine 0)
      (machine_laws 0)
      services
      wiring
      start.world
      (start_system_proxy services (codes "n1") routing start)
start_system_proxy-Connects_example =
    start_system_proxy-Connects (machine 0) (machine_laws 0) services wiring (codes "n1") routing
      start refl tt

-- A session that holds the System Proxy, as far as the controller knows.
abbrev active : State services
active = record start { active = some (session services (single 1) tt) }

stop_active_locked-Restores_example :
    (r : Result SystemProxyError SystemProxyRestoreOutcome) × Restores
      (machine 0)
      (machine_laws 0)
      active.world
      r
      (stop_active_locked services none active).1.world
    × Allows (stop_active_locked services none active).0 r
stop_active_locked-Restores_example =
    stop_active_locked-Restores (machine 0) (machine_laws 0) services wiring none
      (session services (single 1) tt) active refl refl tt

-- What a connection and a disconnection answer.
abbrev given_status : Result PublicError RuntimeStatus → RuntimeStatus
given_status (ok t) = t
given_status (err e) = default_status

abbrev connection : Answer services
connection = start_system_proxy services (codes "n1") routing start

abbrev succeeded : Result PublicError RuntimeStatus → Bool
succeeded (ok t) = true
succeeded (err e) = false

ok-given_status :
    (x : Result PublicError RuntimeStatus) → succeeded x ≡ true → x ≡ ok (given_status x)
ok-given_status (ok t) h = refl
ok-given_status (err e) h = cc

abbrev disconnection : Answer services
disconnection = stop services connection.1

connects : (succeeded connection.0 ≡ true) × (succeeded disconnection.0 ≡ true)
unfolding reconnect_delay is_ready is_verified is_blocked is_disconnected is_tun pauses is_paused
    emit_status retry_delay sync_reconnect_status set_phase relabel update_status
    clear_active_metadata without_session reset_disconnected set_proof after_attempt pausing_error
    schedule republish finish_connection_attempt needs_recovery with_world set_restore with_active
    drop_active pause pause_reconnect conclude reconciled stopped stop_child proxy_restored
    restore_proxy teardown stop_active_locked stop_request stop failure proxy_failure
    proves_traffic_since is_naive scope_of ready_phase perform perform_with modify prove_capture
    set_proofs enter label choose_upstream check_sidecar engine_version_text guarded wait_bridges
    start_sidecar start_child launch_session route_of session_of store_session mark_error failing
    prove_ingress set_check describe published publish announce prove_session start_locked
    RuntimeMode-discrete find_node into_policy node_missing unresolved changed_error
    same_tun_options is_session same_config child_alive listener_owned reprove_proxy unverified
    proxy_verdict conclude_proxy finish_proxy_proof started_proxy connect_proxy node_is_naive
    unless_closed start_system_proxy_locked set_intent finished may_request start_system_proxy
    begin_diagnostic_attempt ProofKind-discrete default_proofs default_status set_row machine_laws
    file_of with_file random_hex load_journal load_journal_at decode_journal check_parsed
    check_valid write_journal call serialized verify_exact snapshot_valid routedeck journal_valid
    ◌>>=◌ sevens create read link remove encode decode hex to_decimal parse_uint
    SystemProxySnapshot-discrete SystemProxyJournal-discrete Text-discrete ℕ_discrete owned_by
    restore_journal restore_from put_back keep_foreign drop_journal remove_journal is_removed
    preserve_conflict_journal link_evidence check_evidence publish_as publish_over commit
    Manager.publish_loopback Manager.is_owned Manager.restore_if_owned Children.is_alive
    Children.stop Children.drop Snapshot.published require pure lift raise map_err
connects = (refl, refl)

start_system_proxy-stop_example :
    (disconnection.1.world.now ≡ direct) × (file_of active_journal disconnection.1.world ≡ none)
unfolding stop machine_laws file_of
start_system_proxy-stop_example =
    start_system_proxy-stop (machine 0) (machine_laws 0) services wiring (codes "n1") routing start
      (given_status connection.0) (given_status disconnection.0) refl tt
      (ok-given_status connection.0 connects.0) (ok-given_status disconnection.0 connects.1)
