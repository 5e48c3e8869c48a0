-- ===== src/Controller/Connect.antt =====
-- application.rs: `start_system_proxy` and `start_tun`. A connection that is already active is proved
-- again, any other session is refused, and with none a session is started. Where the source
-- releases the lock of the state for a proof, no other thread runs in between here.
use route_deck.Prelude.{
  ℕ, Bool, true, false, not, ◌&&◌, ◌||◌, Option, none, some, if◌then◌else◌, ◌+◌, ◌*◌,
}
use route_deck.Text.{Text}
use route_deck.Action.{Result, ok, err, pure, ◌>>=◌, ◌>>◌}
use route_deck.Domain.Tls.{is_some}
use route_deck.Controller.Status.{
  RuntimePhase, RuntimeMode, ProofKind, ProofState, PublicErrorCode, PublicErrorStage, PublicError,
  RuntimeError, fixed,
}
use route_deck.Controller.Services.{Services, StoredNode}
use route_deck.Controller.Session.{
  State, ActiveSession, ConnectionRequest, SystemProxyRouting, update_status, set_proof,
  reconnect_delay, second, is_blocked, finish_connection_attempt,
}
use route_deck.Controller.Teardown.{Answer, answer, with_world}
use route_deck.Controller.Starting.{Start, is_naive}
use route_deck.Controller.Proving.{start_locked, set_check}
use route_deck.Controller.Rollback.{begin_diagnostic_attempt, roll_back_system_proxy}
use route_deck.Controller.Requests.{
  find_node, into_policy, start_error, conflict_error, node_missing, unresolved, changed_error,
  or_false, Request, is_session, same_config, attempt, child_alive, listener_owned,
}

module _ (services : Services) where
  open services use {World, now, prove, prove_ordinary, is_owned, valid_policy, from_nodes}

  -- The proof that runs with the state unlocked, of a session whose child is alive.
  unfoldable pub reprove_proxy : ActiveSession services → World → Option ℕ × World
  reprove_proxy a w =
      let (alive, w') = child_alive services a w in
      if alive
      then attempt services
          (do latency ← prove a.health_route; prove_ordinary a.ports.http; pure latency) w'
      else (none, w')

  unfoldable pub unverified : Bool → PublicError
  unverified true =
      fixed PublicErrorCode.runtime_failure PublicErrorStage.prove_traffic
        "The active System Proxy connection could not be verified"
  unverified false =
      fixed PublicErrorCode.runtime_failure PublicErrorStage.system_proxy_ownership
        "The active System Proxy connection could not be verified"

  -- The traffic was proved or not, and who owns the listeners and the settings is known.
  unfoldable pub proxy_verdict : Text → Option ℕ → Bool → Bool → State services → Answer services
  unfolding set_check
  proxy_verdict node_id (some latency) true true s = answer services (
      update_status services RuntimePhase.system_proxy_ready (some node_id) none (
        set_proof services ProofKind.system_proxy_ownership ProofState.passed none (
          set_proof services ProofKind.local_scope_ownership ProofState.passed none (
            set_proof services ProofKind.selected_outbound_https ProofState.passed (some latency)
              (set_check services latency s)))))
  proxy_verdict node_id proof listener owned s = (
    err (unverified owned),
    update_status services
        (if owned then RuntimePhase.degraded else RuntimePhase.blocked_by_conflict) (some node_id)
        (some (unverified owned)) s,
  )

  -- The second section, in whatever state the proof ends.
  unfoldable pub conclude_proxy :
      Request services
      → Option ℕ
      → Option (ActiveSession services)
      → State services
      → Answer services
  conclude_proxy q proof none s =
      (err (changed_error "Active session changed while traffic was being verified"), s)
  conclude_proxy q proof (some a) s =
      if is_session services q a
      then (let (listener, w) = listener_owned services a s.world in
          let (owned, w') = is_owned w in
          proxy_verdict q.node_id proof listener (or_false owned) (with_world services w' s))
      else (err (changed_error "Active session changed while traffic was being verified"), s)

  unfoldable pub finish_proxy_proof : Request services → Option ℕ → State services → Answer services
  finish_proxy_proof q proof s = conclude_proxy q proof s.active s

  unfoldable pub started_proxy :
      Start services → Result RuntimeError (Unit {0}) × State services → Answer services
  started_proxy r (ok u, s) = answer services s
  started_proxy r (err e, s) = roll_back_system_proxy services (some r.node_id) e r.redactor s

  unfoldable pub connect_proxy :
      Request services
      → Option StoredNode
      → Option (ActiveSession services)
      → State services
      → Answer services
  connect_proxy q stored (some a) s =
      if is_session services q a && same_config services a stored
      then (let (proof, w) = reprove_proxy a s.world in
          finish_proxy_proof q proof (with_world services w s))
      else (
        err (conflict_error "Stop the active connection before changing System Proxy routing"),
        s,
      )
  connect_proxy q none none s = (err node_missing, s)
  connect_proxy q (some n) none s =
      let r : Start services = record {
        node_id = q.node_id;
        stored = n;
        policy = q.policy;
        mode = RuntimeMode.system_proxy;
        tun_options = none;
        naive_udp_over_tcp = q.naive_udp_over_tcp;
        redactor = from_nodes q.node_id n;
      } in
      started_proxy r (start_locked services r (begin_diagnostic_attempt services s))

  unfoldable pub node_is_naive : Option StoredNode → Bool
  unfolding is_naive
  node_is_naive none = false
  node_is_naive (some n) = is_naive n.protocol

  -- The guards that both kinds of start share.
  unfoldable pub unless_closed : State services → Answer services → Answer services
  unless_closed s go =
      if s.shutting_down
      then (err (start_error "Application shutdown is in progress"), s)
      else if s.recovery_required
      then (
        err (
            fixed PublicErrorCode.recovery_required PublicErrorStage.session_recovery
              "Review preserved recovery data before reconnecting"),
        s,
      )
      else go

  unfoldable pub start_system_proxy_locked :
      Text → SystemProxyRouting → State services → Answer services
  unfolding into_policy
  start_system_proxy_locked node_id routing s =
      let policy = into_policy routing.default_route routing.apps in
      let stored = find_node node_id s.nodes in
      let q : Request services = record {
        node_id = node_id;
        policy = policy;
        mode = RuntimeMode.system_proxy;
        naive_udp_over_tcp = routing.naive_udp_over_tcp && node_is_naive stored;
      } in
      if not (valid_policy policy)
      then (err (start_error "Application routing rules are invalid"), s)
      else unless_closed s (connect_proxy q stored s.active s)

  -- The intent that a new request leaves.
  unfoldable pub set_intent : ConnectionRequest → State services → State services
  unfolding reconnect_delay with_world
  set_intent request s =
      let (t, w) = now s.world in
      record (with_world services w s) {
        reconnect = some (record {
          request = request;
          failures = 0;
          next_attempt = t + reconnect_delay 0 * second;
          paused = false;
        });
      }

  -- finish_connection_attempt, and the status that is published then.
  unfoldable pub finished : Answer services → Answer services
  finished (ok t, s) =
      let s' = finish_connection_attempt services true s in (ok s'.published_status, s')
  finished (err e, s) = (err e, finish_connection_attempt services false s)

  unfoldable pub may_request : State services → Bool
  unfolding is_blocked
  may_request s = not (s.shutting_down || s.recovery_required || is_blocked s.status.phase)

  unfoldable pub start_system_proxy : Text → SystemProxyRouting → State services → Answer services
  unfolding into_policy unresolved node_missing
  start_system_proxy node_id routing s =
      if not (valid_policy (into_policy routing.default_route routing.apps))
      then (err (start_error "Application routing rules are invalid"), s)
      else if not (is_some (find_node node_id s.nodes))
      then (err node_missing, s)
      else if not (may_request s)
      then (err unresolved, s)
      else finished (
          start_system_proxy_locked node_id routing
            (set_intent (ConnectionRequest.proxy node_id routing) s))
