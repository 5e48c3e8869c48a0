-- ===== src/Controller/ConnectTun.antt =====
-- application.rs, `start_tun`: as `start_system_proxy`, but a TUN session that cannot be proved again
-- is given up, and traffic must have passed the adapter that the session owns.
use route_deck.Prelude.{ℕ, Bool, true, false, not, ◌&&◌, Option, none, some, List, if◌then◌else◌}
use route_deck.Text.{Text}
use route_deck.Action.{Result, ok, err, pure, ◌>>=◌, ◌>>◌}
use route_deck.Domain.Tls.{is_some}
use route_deck.Domain.Routes.{DefaultRoute, AppRoute}
use route_deck.Controller.Status.{
  RuntimePhase, RuntimeMode, ProofKind, ProofState, PublicErrorCode, PublicErrorStage, PublicError,
  RuntimeError, fixed,
}
use route_deck.Controller.Services.{Services, StoredNode, Switching, TunCaptureSnapshot}
use route_deck.Controller.Children
use route_deck.Controller.Session.{
  State, ActiveSession, ConnectionRequest, update_status, set_proof,
}
use route_deck.Controller.Teardown.{Answer, answer, with_world}
use route_deck.Controller.Starting.{Start, proves_traffic_since}
use route_deck.Controller.Proving.{start_locked, set_check}
use route_deck.Controller.Rollback.{begin_diagnostic_attempt, roll_back_tun, end_session}
use route_deck.Controller.Connect.{node_is_naive, unless_closed, set_intent, finished, may_request}
use route_deck.Controller.Requests.{
  Request, is_session, same_config, same_tun_options, child_alive, listener_owned, attempt,
  find_node, into_policy, node_missing, unresolved, changed_error, start_error, conflict_error,
}

unfoldable pub unverified : PublicError
unfolding fixed
unverified =
    fixed PublicErrorCode.runtime_failure PublicErrorStage.prove_traffic
      "The active TUN connection could not be verified"

unfoldable pub is_uncertain : Option Switching → Bool
is_uncertain none = false
is_uncertain (some x) = x.uncertain

module _ (services : Services) where
  open services use {
    World, TunOptions, prove, prove_tun_capture, valid_policy, valid_options, is_elevated,
    from_nodes, redact, default_redactor,
  }

  pub record TunRouting : Type 0 where
    pub default_route : DefaultRoute
    pub naive_udp_over_tcp : Bool
    pub apps : List AppRoute
    pub options : TunOptions

  unfoldable pub is_tun_session : Request services → TunOptions → ActiveSession services → Bool
  is_tun_session q options a =
      is_session services q a && same_tun_options services a.tun_options (some options)

  -- The counters before, if the child is alive, then both proofs.
  unfoldable pub reprove_tun :
      ActiveSession services → World → Option (ℕ × TunCaptureSnapshot) × World
  reprove_tun a w =
      let (alive, w') = child_alive services a w in
      if alive
      then attempt services
          (do
            before ← Children.tun_capture_snapshot services a.child
            latency ← prove a.health_route
            prove_tun_capture
            pure (latency, before))
          w'
      else (none, w')

  unfoldable pub traversed : TunCaptureSnapshot → Option TunCaptureSnapshot → Bool
  unfolding proves_traffic_since
  traversed before none = false
  traversed before (some after) = proves_traffic_since after before

  -- Whether the listeners are owned and the counters went up.
  unfoldable pub captured :
      ActiveSession services → Option (ℕ × TunCaptureSnapshot) → World → Bool × World
  captured a none w = let (owned, w') = listener_owned services a w in (false, w')
  captured a (some (latency, before)) w =
      let (owned, w') = listener_owned services a w in
      if owned
      then (let (after, w'') =
            attempt services (Children.tun_capture_snapshot services a.child) w' in
          (traversed before after, w''))
      else (false, w')

  unfoldable pub tun_verdict :
      Text
      → Option (ℕ × TunCaptureSnapshot)
      → Bool
      → ActiveSession services
      → State services
      → Answer services
  unfolding set_check
  tun_verdict node_id (some (latency, before)) true a s = answer services (
      update_status services RuntimePhase.tun_ready (some node_id) none (
        set_proof services ProofKind.local_scope_ownership ProofState.passed none (
          set_proof services ProofKind.selected_outbound_https ProofState.passed (some latency)
            (set_check services latency s))))
  tun_verdict node_id proof owned a s =
      end_session services (some node_id) unverified a.redactor (some a)
        (update_status services RuntimePhase.rolling_back (some node_id) none s)

  unfoldable pub conclude_tun :
      Request services
      → TunOptions
      → Option (ℕ × TunCaptureSnapshot)
      → Option (ActiveSession services)
      → State services
      → Answer services
  conclude_tun q options proof none s =
      (err (changed_error "Active session changed while TUN traffic was being verified"), s)
  conclude_tun q options proof (some a) s =
      if is_tun_session q options a
      then (let (owned, w) = captured a proof s.world in
          tun_verdict q.node_id proof owned a (with_world services w s))
      else (err (changed_error "Active session changed while TUN traffic was being verified"), s)

  unfoldable pub finish_tun_proof :
      Request services
      → TunOptions
      → Option (ℕ × TunCaptureSnapshot)
      → State services
      → Answer services
  finish_tun_proof q options proof s = conclude_tun q options proof s.active s

  unfoldable pub started_tun :
      Start services → Result RuntimeError (Unit {0}) × State services → Answer services
  started_tun r (ok u, s) = answer services s
  started_tun r (err e, s) = roll_back_tun services (some r.node_id) e r.redactor s

  unfoldable pub connect_tun :
      Request services
      → TunOptions
      → Bool
      → Option StoredNode
      → Option (ActiveSession services)
      → State services
      → Answer services
  connect_tun q options requested stored (some a) s =
      if is_tun_session q options a && same_config services a stored
      then (let (proof, w) = reprove_tun a s.world in
          finish_tun_proof q options proof (with_world services w s))
      else (err (conflict_error "Stop the active connection before changing TUN routing"), s)
  connect_tun q options requested none none s = (err node_missing, s)
  connect_tun q options requested (some n) none s =
      let r : Start services = record {
        node_id = q.node_id;
        stored = n;
        policy = q.policy;
        mode = RuntimeMode.tun;
        tun_options = some options;
        naive_udp_over_tcp = requested;
        redactor = from_nodes q.node_id n;
      } in
      started_tun r (start_locked services r (begin_diagnostic_attempt services s))

  unfoldable pub switching_of : Option (ActiveSession services) → Option Switching
  switching_of none = none
  switching_of (some a) = a.switching

  -- The answer of `is_elevated`.
  unfoldable pub elevated :
      Text → TunRouting → Result RuntimeError Bool → State services → Answer services
  unfolding into_policy
  elevated node_id routing (err e) s = (
    err (record {
      code = PublicErrorCode.runtime_failure;
      stage = PublicErrorStage.start;
      message = "TUN availability could not be checked";
      detail = some (redact default_redactor e.message);
    }),
    s,
  )
  elevated node_id routing (ok false) s =
      (err (start_error "TUN requires RouteDeck to be run as administrator"), s)
  elevated node_id routing (ok true) s =
      let stored = find_node node_id s.nodes in
      let q : Request services = record {
        node_id = node_id;
        policy = into_policy routing.default_route routing.apps;
        mode = RuntimeMode.tun;
        naive_udp_over_tcp = routing.naive_udp_over_tcp && node_is_naive services stored;
      } in
      unless_closed services s (
        if is_uncertain (switching_of s.active)
        then (err (conflict_error "switch_server.uncertain"), s)
        else connect_tun q routing.options routing.naive_udp_over_tcp stored s.active s)

  unfoldable pub start_tun_locked : Text → TunRouting → State services → Answer services
  unfolding into_policy with_world
  start_tun_locked node_id routing s =
      if not (valid_options routing.options)
      then (err (start_error "TUN traffic rules are invalid"), s)
      else if not (valid_policy (into_policy routing.default_route routing.apps))
      then (err (start_error "Application routing rules are invalid"), s)
      else (let (r, w) = is_elevated s.world in
          elevated node_id routing r (with_world services w s))

  unfoldable pub start_tun : Text → TunRouting → State services → Answer services
  unfolding into_policy node_missing
  start_tun node_id routing s =
      if not (valid_policy (into_policy routing.default_route routing.apps))
      then (err (start_error "Application routing rules are invalid"), s)
      else if not (valid_options routing.options)
      then (err (start_error "TUN traffic rules are invalid"), s)
      else if not (is_some (find_node node_id s.nodes))
      then (err node_missing, s)
      else if not (may_request services s)
      then (err unresolved, s)
      else finished services
          (start_tun_locked node_id routing (set_intent services ConnectionRequest.tun s))
