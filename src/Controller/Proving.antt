-- ===== src/Controller/Proving.antt =====
-- application.rs, `start_locked`, from the processes on: the session is stored, its listeners, its
-- traffic and its ownership are proved, the System Proxy is published, and it is ready.
use route_deck.Prelude.{ℕ, true, false, ◌&&◌, none, some}
use route_deck.Action.{Result, ok, err, pure, map_err, require, ◌>>=◌, ◌>>◌}
use route_deck.SystemProxy.Snapshot.{SystemProxyError, may_have_changed}
use route_deck.Controller.Status.{RuntimePhase, RuntimeMode, ProofKind, ProofState, RuntimeError}
use route_deck.Controller.Services.{Services, HealthRoute}
use route_deck.Controller.Children
use route_deck.Controller.Session.{State, ActiveSession, set_proof}
use route_deck.Controller.Teardown.{with_world, with_active, set_restore}
use route_deck.Controller.Starting.{
  Act, Start, Running, perform, modify, enter, failure, proxy_failure, prove_capture, is_naive,
  set_proofs, listeners, launch_session,
}

module _ (services : Services) where
  open services use {
    now, wait_until_ready, verify_owned_now, prove, prove_ordinary, is_owned, publish_loopback,
  }

  unfoldable pub route_of : Running services → HealthRoute
  route_of n = record { port = n.ports.health; password = n.password }

  unfoldable pub session_of : Start services → Running services → ℕ → ActiveSession services
  unfolding is_naive route_of
  session_of r n t = record {
    switching = n.switching;
    child = n.child;
    node_id = r.node_id;
    config_identity = r.stored.config_identity;
    session_id = n.session_id;
    mode = r.mode;
    routing = r.policy;
    tun_options = r.tun_options;
    naive_udp_over_tcp = r.naive_udp_over_tcp && is_naive r.stored.protocol;
    system_proxy_requires_restore = false;
    ports = n.ports;
    health_route = route_of n;
    engine_version = n.engine_version;
    redactor = n.redactor;
    last_probe = t;
    consecutive_probe_failures = 0;
    generation = n.generation;
  }

  -- state.active = Some(..), with the time of the last probe
  unfoldable pub store_session :
      Start services → Running services → Act services (ActiveSession services)
  unfolding session_of with_world with_active
  store_session r n s =
      let (t, w) = now s.world in
      let a = session_of r n t in (ok a, with_active services (some a) (with_world services w s))

  unfoldable pub mark_error :
      {A : Type 0}
      → ProofKind
      → Result RuntimeError A × State services
      → Result RuntimeError A × State services
  mark_error k (ok a, s) = (ok a, s)
  mark_error k (err e, s) = (err e, set_proof services k ProofState.failed none s)

  -- A proof failed: its row says so before the error leaves.
  unfoldable pub failing : {A : Type 0} → ProofKind → Act services A → Act services A
  unfolding mark_error
  failing k m s = mark_error k (m s)

  -- What each mode proves besides the selected outbound.
  unfoldable pub prove_ingress : Running services → ℕ → RuntimeMode → Act services (Unit {0})
  unfolding perform modify
  prove_ingress n latency RuntimeMode.local_only = do
    perform services (prove_ordinary n.ports.http)
    pure tt
  prove_ingress n latency RuntimeMode.system_proxy = do
    perform services (prove_ordinary n.ports.http)
    pure tt
  prove_ingress n latency RuntimeMode.tun = do
    modify services
        (set_proof services ProofKind.selected_outbound_https ProofState.passed (some latency))
    modify services (set_proof services ProofKind.local_scope_ownership ProofState.pending none)
    failing ProofKind.local_scope_ownership (perform services (prove_capture services n.child))
    pure tt

  -- The measurements that go with a verified outbound.
  unfoldable pub set_check : ℕ → State services → State services
  set_check latency s = record s { status = record s.status { route_check_ms = some latency } }

  unfoldable pub describe : Running services → State services → State services
  describe n s = record s {
    status = record s.status { ports = some n.ports; engine_version = some n.engine_version };
  }

  unfoldable pub published :
      ActiveSession services
      → Result SystemProxyError (Unit {0})
      → State services
      → Result RuntimeError (Unit {0}) × State services
  unfolding proxy_failure with_active set_restore
  published a (ok u) s = (ok u, s)
  published a (err e) s = (
    err (proxy_failure "system_proxy_publish" e),
    with_active services (some (set_restore services (may_have_changed e) a)) s,
  )

  -- publish_loopback; after an error the flag says whether anything may have changed.
  unfoldable pub publish : ActiveSession services → Running services → Act services (Unit {0})
  unfolding with_world
  publish a n s =
      let (r, w) = publish_loopback n.ports.http s.world in published a r (with_world services w s)

  -- From the verified outbound to the phase that is ready.
  unfoldable pub announce :
      RuntimeMode
      → Start services
      → ActiveSession services
      → Running services
      → ℕ
      → Act services (Unit {0})
  unfolding set_check modify perform proxy_failure failure
  announce RuntimeMode.local_only r a n latency = enter services RuntimePhase.local_proxy_ready r
  announce RuntimeMode.tun r a n latency = enter services RuntimePhase.tun_ready r
  announce RuntimeMode.system_proxy r a n latency = do
    modify services (set_proof services ProofKind.system_proxy_ownership ProofState.pending none)
    enter services RuntimePhase.applying_system_proxy r
    modify services (with_active services (some (set_restore services true a)))
    publish a n
    owned ← perform services (map_err (proxy_failure "system_proxy_ownership") is_owned)
    require owned (
        failure "system_proxy_ownership"
          "Windows System Proxy changed before readiness could be confirmed")
    modify services (set_proof services ProofKind.system_proxy_ownership ProofState.passed none)
    modify services (set_check latency)
    enter services RuntimePhase.system_proxy_ready r

  unfoldable pub prove_session :
      Start services → ActiveSession services → Running services → Act services (Unit {0})
  unfolding modify perform set_proofs describe set_check failure
  prove_session r a n = do
    modify services (set_proof services ProofKind.engine_process ProofState.passed none)
    modify services (set_proofs services (listeners services) ProofState.pending)
    enter services RuntimePhase.verifying_listener r
    perform services (wait_until_ready n.ports n.child)
    modify services (set_proofs services (listeners services) ProofState.passed)
    modify services (set_proof services ProofKind.selected_outbound_https ProofState.pending none)
    enter services RuntimePhase.proving_traffic r
    latency ← perform services (prove (route_of n))
    prove_ingress n latency r.mode
    modify services
        (set_proof services ProofKind.selected_outbound_https ProofState.passed (some latency))
    alive ← perform services (Children.is_alive services n.child)
    require alive (failure "prove_traffic" "sing-box exited immediately after traffic proof")
    perform services (verify_owned_now n.ports n.child)
    modify services (set_proof services ProofKind.local_scope_ownership ProofState.passed none)
    modify services (describe n)
    modify services (set_check latency)
    enter services RuntimePhase.outbound_verified r
    announce r.mode r a n latency

  unfoldable pub start_locked : Start services → Act services (Unit {0})
  start_locked r = do n ← launch_session services r; a ← store_session r n; prove_session r a n
