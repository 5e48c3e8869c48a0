-- ===== src/Controller/MonitorProof.antt =====
-- application.rs, `monitor_tick` after the proof: who owns the listeners and the adapter, what the
-- proof means for the status, and the latency that is shown.
use route_deck.Prelude.{
  ℕ, Bool, true, false, not, ◌&&◌, ◌||◌, Option, none, some, leb, if◌then◌else◌, holds,
}
use route_deck.Text.{Text-discrete}
use route_deck.Action.{Result, ok, err, Action, pure, raise, require, ◌>>=◌, ◌>>◌}
use route_deck.Domain.Tls.{is_some}
use route_deck.Controller.Status.{
  RuntimePhase, RuntimeMode, ProofKind, ProofState, PublicError, RuntimeError, public_runtime_error,
  stage_is,
}
use route_deck.Controller.Services.{Services, TunCaptureSnapshot}
use route_deck.Controller.Children
use route_deck.Controller.Session.{
  State, ActiveSession, update_status, set_proof, is_ready, republish, saturating_suc, u8_max,
}
use route_deck.Controller.Teardown.{with_world, with_active}
use route_deck.Controller.Starting.{failure, proves_traffic_since, ready_phase}
use route_deck.Controller.Proving.{set_check}
use route_deck.Controller.Reconnect.{mode_is, handle_tun_capture_loss, clear_check}
use route_deck.Controller.Monitor.{ProbeSnapshot, needs_review, lost, exited}

module _ (services : Services) where
  open services use {World, Redactor, verify_owned_now, warm_latency, redact}

  -- The session is the one that was observed.
  unfoldable pub same_generation : ProbeSnapshot services → ActiveSession services → Bool
  same_generation x a =
      holds (Text-discrete a.generation x.generation)
      && holds (Text-discrete a.session_id x.session_id)

  -- The counters of the adapter went up since the observation.
  unfoldable pub check_capture :
      ProbeSnapshot services → ActiveSession services → Action World RuntimeError (Unit {0})
  unfolding proves_traffic_since failure
  check_capture x a = since x.tun_before
    where
      since : Option TunCaptureSnapshot → Action World RuntimeError (Unit {0})
      since none = raise (failure "tun_capture" "the owned TUN capture snapshot was unavailable")
      since (some before) = do
        after ← Children.tun_capture_snapshot services a.child
        require (proves_traffic_since after before) (
            failure "tun_capture"
              "periodic unproxied traffic did not traverse the owned TUN adapter")

  unfoldable pub check_ownership :
      ProbeSnapshot services → ActiveSession services → Action World RuntimeError (Unit {0})
  unfolding failure mode_is
  check_ownership x a = do
    alive ← Children.is_alive services a.child
    require alive (failure "engine_process" "sing-box exited during traffic proof")
    verify_owned_now a.ports a.child
    if mode_is x.mode RuntimeMode.tun then check_capture x a else pure tt

  -- What ended the session is its capture, or something else.
  unfoldable pub ownership_lost : Bool → PublicError → State services → State services
  ownership_lost true e s = handle_tun_capture_loss services e true s
  ownership_lost false e s = lost services ProofKind.local_scope_ownership e s

  -- A System Proxy session also renews its ownership.
  unfoldable pub renew_ownership : RuntimeMode → State services → State services
  renew_ownership RuntimeMode.system_proxy s =
      set_proof services ProofKind.system_proxy_ownership ProofState.passed none s
  renew_ownership RuntimeMode.local_only s = s
  renew_ownership RuntimeMode.tun s = s

  -- The proofs that a success renews.
  unfoldable pub renew : RuntimeMode → ℕ → State services → State services
  unfolding set_check renew_ownership
  renew mode latency s = renew_ownership mode (
      set_proof services ProofKind.local_scope_ownership ProofState.passed none (
        set_proof services ProofKind.selected_outbound_https ProofState.passed (some latency)
          (set_check services latency s)))

  -- Whether the status is ready already; if not it passes through the verified outbound.
  unfoldable pub show_ready : Bool → ProbeSnapshot services → State services → State services
  unfolding ready_phase
  show_ready true x s = update_status services (ready_phase x.mode) (some x.node_id) none s
  show_ready false x s =
      update_status services (ready_phase x.mode) (some x.node_id) none
        (update_status services RuntimePhase.outbound_verified (some x.node_id) none s)

  unfoldable pub proof_passed :
      ProbeSnapshot services → ActiveSession services → ℕ → State services → State services
  unfolding with_active is_ready
  proof_passed x a latency s =
      let s' =
        renew x.mode latency
          (with_active services (some (record a { consecutive_probe_failures = 0 })) s) in
      show_ready (is_ready s.status.phase) x s'

  unfoldable pub clear_latency : State services → State services
  clear_latency s = record s { status = record s.status { steady_latency_ms = none } }

  -- One failure is forgiven, but an old latency is not shown on; the second in a row degrades.
  unfoldable pub count_probe :
      Bool → Bool → ProbeSnapshot services → RuntimeError → State services → State services
  unfolding clear_check
  count_probe true had_latency x e s =
      update_status services RuntimePhase.degraded (some x.node_id)
        (some (public_runtime_error e (redact x.redactor)))
        (set_proof services ProofKind.selected_outbound_https ProofState.failed none
          (clear_check services s))
  count_probe false true x e s = republish services s
  count_probe false false x e s = s

  unfoldable pub proof_failed :
      ProbeSnapshot services
      → ActiveSession services
      → RuntimeError
      → State services
      → State services
  unfolding with_active clear_latency
  proof_failed x a e s =
      let failures = saturating_suc u8_max a.consecutive_probe_failures in
      count_probe (leb 2 failures) (is_some s.status.steady_latency_ms) x e (
        clear_latency
          (with_active services (some (record a { consecutive_probe_failures = failures })) s))

  unfoldable pub judge :
      ProbeSnapshot services
      → ActiveSession services
      → Result RuntimeError ℕ
      → State services
      → State services
  judge x a (ok latency) s = proof_passed x a latency s
  judge x a (err e) s = proof_failed x a e s

  unfoldable pub owned_or_lost :
      ProbeSnapshot services
      → ActiveSession services
      → Result RuntimeError ℕ
      → Result RuntimeError (Unit {0})
      → State services
      → State services
  owned_or_lost x a proof (ok u) s = judge x a proof s
  owned_or_lost x a proof (err e) s =
      ownership_lost (mode_is x.mode RuntimeMode.tun && stage_is e.stage "tun_capture")
        (public_runtime_error e (redact x.redactor)) s

  unfoldable pub conclude_active :
      ProbeSnapshot services
      → Result RuntimeError ℕ
      → Option (ActiveSession services)
      → State services
      → State services
  unfolding with_world
  conclude_active x proof none s = s
  conclude_active x proof (some a) s =
      if same_generation x a
      then (let (r, w) = check_ownership x a s.world in
          owned_or_lost x a proof r (with_world services w s))
      else s

  -- The second section: the proof of the observed session, in the state that it finds.
  unfoldable pub conclude_probe :
      ProbeSnapshot services → Result RuntimeError ℕ → State services → State services
  conclude_probe x proof s =
      if needs_review services s then s else conclude_active x proof s.active s

  unfoldable pub set_latency : Option ℕ → State services → State services
  set_latency latency s =
      republish services (record s { status = record s.status { steady_latency_ms = latency } })

  unfoldable pub latency_alive :
      ProbeSnapshot services → Option ℕ → Result RuntimeError Bool → State services → State services
  latency_alive x latency (ok true) s = set_latency latency s
  latency_alive x latency (ok false) s =
      lost services ProofKind.engine_process
        (exited "The local proxy process exited during latency measurement") s
  latency_alive x latency (err e) s =
      lost services ProofKind.engine_process (public_runtime_error e (redact x.redactor)) s

  unfoldable pub latency_active :
      ProbeSnapshot services
      → Option ℕ
      → Option (ActiveSession services)
      → State services
      → State services
  unfolding with_world
  latency_active x latency none s = s
  latency_active x latency (some a) s =
      if same_generation x a
      then (let (r, w) = Children.is_alive services a.child s.world in
          latency_alive x latency r (with_world services w s))
      else s

  -- The third section: the latency of a session that is still ready and without error.
  unfoldable pub conclude_latency :
      ProbeSnapshot services → Option ℕ → State services → State services
  unfolding is_ready
  conclude_latency x latency s =
      if s.recovery_required || is_some s.status.error || not (is_ready s.status.phase)
      then s
      else latency_active x latency s.active s
