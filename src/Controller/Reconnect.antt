-- ===== src/Controller/Reconnect.antt =====
-- application.rs: `handle_runtime_loss`, `handle_tun_capture_loss` and `reconnect_tick`, which tries
-- a connection again that the user still wants.
use route_deck.Prelude.{
  ℕ, ◌-◌, ◌*◌, Bool, true, false, not, ◌&&◌, ◌||◌, Option, none, some, [], ◌∷◌, ltb, leb,
  if◌then◌else◌, holds, any, ◌%◌,
}
use route_deck.Text.{Text}
use route_deck.Action.{Result, ok, err}
use route_deck.Domain.Tls.{is_some}
use route_deck.Controller.Status.{
  RuntimePhase, RuntimeMode, ProofKind, ProofState, PublicErrorStage, PublicError, RuntimeError,
  public_runtime_error, stage_is,
}
use route_deck.Controller.Services.{Services, Switching}
use route_deck.Controller.Children
use route_deck.Controller.Children.{Child}
use route_deck.Controller.Session.{
  State, ActiveSession, ReconnectIntent, ConnectionRequest, update_status, set_proof, second,
  is_blocked, finish_connection_attempt, is_tun, saturating_suc, u8_max,
}
use route_deck.Controller.Teardown.{
  Answer, stop_active_locked, with_world, with_active, pause_reconnect,
}
use route_deck.Controller.Connect.{start_system_proxy_locked}
use route_deck.Controller.Requests.{RuntimeMode-discrete, is_ok}

unfoldable pub mode_is : RuntimeMode → RuntimeMode → Bool
unfolding RuntimeMode-discrete
mode_is a b = holds (RuntimeMode-discrete a b)

-- The stages after which an owned core is restarted at once.
unfoldable pub restarts : Option PublicError → Bool
restarts none = false
restarts (some e) = restarts_at e.stage
  where
    restarts_at : PublicErrorStage → Bool
    restarts_at PublicErrorStage.engine_process = true
    restarts_at PublicErrorStage.runtime = true
    restarts_at PublicErrorStage.verify_listeners = true
    restarts_at _ = false

unfoldable pub must_pause : Text → Bool
unfolding stage_is
must_pause stage = any (stage_is stage) (
    "tun_preflight" ∷ "config_check" ∷ "engine_integrity" ∷ "tun_helper_protocol"
    ∷ "session_recovery" ∷ [])

-- `current as u16`, or 0
unfoldable pub target_index : Option Switching → ℕ
target_index none = 0
target_index (some x) = x.current % 65536

unfoldable pub wants_tun : Option ReconnectIntent → Bool
unfolding is_tun
wants_tun none = false
wants_tun (some i) = is_tun i.request

module _ (services : Services) where
  open services use {World, now, random_hex, redact}

  unfoldable pub owns_restartable_tun : Option (ActiveSession services) → World → Bool
  unfolding mode_is
  owns_restartable_tun none w = false
  owns_restartable_tun (some a) w =
      mode_is a.mode RuntimeMode.tun && Children.can_restart_owned_core services a.child w

  unfoldable pub active_node : Option (ActiveSession services) → Option Text
  active_node none = none
  active_node (some a) = some a.node_id

  -- A TUN intent is paused: another helper would need the user.
  unfoldable pub pause_tun : State services → State services
  unfolding pause_reconnect
  pause_tun s = if wants_tun s.reconnect then pause_reconnect services s else s

  -- An owned TUN core stays and is restarted later; every other session is torn down.
  unfoldable pub handle_runtime_loss : PublicError → State services → State services
  handle_runtime_loss error s =
      if is_some s.reconnect && owns_restartable_tun s.active s.world
      then update_status services RuntimePhase.degraded (active_node s.active) (some error) s
      else (stop_active_locked services (some error) (pause_tun s)).1

  unfoldable pub count_failure : Option (ActiveSession services) → Option (ActiveSession services)
  count_failure none = none
  count_failure (some a) =
      some (record a {
        consecutive_probe_failures = saturating_suc u8_max a.consecutive_probe_failures;
      })

  unfoldable pub clear_check : State services → State services
  clear_check s = record s { status = record s.status { route_check_ms = none } }

  unfoldable pub handle_tun_capture_loss : PublicError → Bool → State services → State services
  unfolding count_failure clear_check with_active
  handle_tun_capture_loss error counted s =
      let s' = if counted then with_active services (count_failure s.active) s else s in
      handle_runtime_loss error (
        set_proof services ProofKind.selected_outbound_https ProofState.failed none (
          set_proof services ProofKind.local_scope_ownership ProofState.failed none
            (clear_check s')))

  -- The generation stays if there is no randomness.
  unfoldable pub regenerate :
      Result RuntimeError Text → ActiveSession services → ActiveSession services
  regenerate (ok generation) a = record a { generation = generation }
  regenerate (err e) a = a

  -- The session of a core that runs again is probed at once.
  unfoldable pub revived : Child services → ℕ → ActiveSession services → ActiveSession services
  revived child t a = record a {
    child = child;
    last_probe = t - 10 * second;
    consecutive_probe_failures = 0;
  }

  -- A new generation, and the traffic has to be proved anew.
  unfoldable pub restarted :
      ActiveSession services → Child services → State services → State services
  unfolding clear_check with_active with_world revived
  restarted a child s =
      let (t, w) = now s.world in
      let (generation, w') = random_hex 16 w in
      clear_check (
        set_proof services ProofKind.selected_outbound_https ProofState.failed none (
          set_proof services ProofKind.engine_process ProofState.passed none (
            with_active services (some (regenerate generation (revived child t a)))
              (with_world services w' s))))

  unfoldable pub pause_if : Bool → State services → State services
  unfolding pause_reconnect
  pause_if true s = pause_reconnect services s
  pause_if false s = s

  -- Whether a recovery is needed now.
  unfoldable pub refused :
      Bool → ActiveSession services → RuntimeError → State services → State services
  refused true a e s =
      update_status services RuntimePhase.recovery_required (some a.node_id)
        (some (public_runtime_error e (redact a.redactor))) (record s { recovery_required = true })
  refused false a e s =
      update_status services RuntimePhase.degraded (some a.node_id)
        (some (public_runtime_error e (redact a.redactor))) s

  unfoldable pub not_restarted :
      ActiveSession services → Child services → RuntimeError → State services → State services
  unfolding with_active
  not_restarted a child e s =
      refused (s.recovery_required || stage_is e.stage "session_recovery") a e
        (pause_if (must_pause e.stage) (with_active services (some (record a { child = child })) s))

  -- Whether the core runs again, and the state in which the lock is released.
  unfoldable pub restart_result :
      ActiveSession services
      → Child services
      → Result RuntimeError (Unit {0})
      → State services
      → Bool × State services
  restart_result a child (ok u) s = (true, restarted a child s)
  restart_result a child (err e) s = (false, not_restarted a child e s)

  unfoldable pub restart_tun : ActiveSession services → State services → Bool × State services
  unfolding with_world
  restart_tun a s =
      let (r, cw) =
        Children.restart_owned_core services a.child (target_index a.switching)
          (a.child, s.world) in
      let (child, w) = cw in restart_result a child r (with_world services w s)

  -- A System Proxy connection is started again; a TUN connection needs the user.
  unfoldable pub connect_again : ConnectionRequest → State services → State services
  connect_again (ConnectionRequest.proxy node_id routing) s =
      let (r, s') = start_system_proxy_locked services node_id routing s in
      finish_connection_attempt services (is_ok r) s'
  connect_again ConnectionRequest.tun s = s

  unfoldable pub stopped_first : ConnectionRequest → Answer services → State services
  stopped_first request (ok t, s) = connect_again request s
  stopped_first request (err e, s) = s

  unfoldable pub reconnect :
      ConnectionRequest → Option (ActiveSession services) → State services → State services
  unfolding mode_is
  reconnect request none s = connect_again request s
  reconnect request (some a) s =
      let sustained_failure = leb 6 a.consecutive_probe_failures in
      if mode_is a.mode RuntimeMode.system_proxy
      then (if sustained_failure
          then stopped_first request (stop_active_locked services none s)
          else s)
      else if not (mode_is a.mode RuntimeMode.tun)
          || not (Children.can_restart_owned_core services a.child s.world)
      then s
      else if not sustained_failure && not (restarts s.status.error)
      then s
      else (let (succeeded, s') = restart_tun a s in
          finish_connection_attempt services succeeded s')

  unfoldable pub when_due : Option ReconnectIntent → State services → State services
  unfolding with_world
  when_due none s = s
  when_due (some i) s =
      if i.paused
      then s
      else (let (t, w) = now s.world in
          let s' = with_world services w s in
          if ltb t i.next_attempt then s' else reconnect i.request s.active s')

  -- Nothing happens if another operation holds the lock.
  unfoldable pub reconnect_tick : State services → State services
  reconnect_tick s =
      if s.shutting_down || s.recovery_required || is_blocked s.status.phase
      then s
      else when_due s.reconnect s
