-- ===== src/Controller/Monitor.antt =====
-- application.rs, `monitor_tick`: the sections that it runs under the lock of the state. Between them
-- the lock is free while traffic is proved, so each section starts in whatever state it finds.
use route_deck.Prelude.{
  ℕ, ◌-◌, ◌*◌, String, Bool, true, false, ◌&&◌, ◌||◌, Option, none, some, leb, if◌then◌else◌,
}
use route_deck.Text.{Text}
use route_deck.Action.{Result, ok, err, Action, pure, ◌>>=◌, ◌>>◌}
use route_deck.SystemProxy.Snapshot.{SystemProxyError}
use route_deck.Controller.Status.{
  RuntimePhase, RuntimeMode, ProofKind, ProofState, PublicErrorCode, PublicErrorStage, PublicError,
  RuntimeError, public_runtime_error, stage_is, fixed,
}
use route_deck.Controller.Services.{Services, HealthRoute, TunCaptureSnapshot}
use route_deck.Controller.Children
use route_deck.Controller.Session.{State, ActiveSession, update_status, set_proof, second}
use route_deck.Controller.Teardown.{with_world, with_active}
use route_deck.Controller.Requests.{attempt}
use route_deck.Controller.ConnectTun.{is_uncertain}
use route_deck.Controller.Reconnect.{mode_is, handle_runtime_loss, handle_tun_capture_loss}

unfoldable pub is_recovery : RuntimePhase → Bool
is_recovery RuntimePhase.recovery_required = true
is_recovery _ = false

unfoldable pub exited : String → PublicError
unfolding fixed
exited m = fixed PublicErrorCode.runtime_failure PublicErrorStage.engine_process m

unfoldable pub ownership_error : String → PublicError
unfolding fixed
ownership_error m = fixed PublicErrorCode.runtime_failure PublicErrorStage.system_proxy_ownership m

module _ (services : Services) where
  open services use {
    World, Redactor, now, prove, prove_ordinary, prove_tun_capture, verify_owned_now, is_owned,
    warm_latency, redact,
  }

  pub record ProbeSnapshot : Type 0 where
    pub generation : Text
    pub session_id : Text
    pub mode : RuntimeMode
    pub route : HealthRoute
    pub http_port : ℕ
    pub redactor : Redactor
    pub node_id : Text
    pub tun_before : Option TunCaptureSnapshot

  unfoldable pub needs_review : State services → Bool
  unfolding is_recovery
  needs_review s = s.recovery_required || is_recovery s.status.phase

  -- `elapsed() >= 10 s`
  unfoldable pub due : ActiveSession services → ℕ → Bool
  due a t = leb (10 * second) (t - a.last_probe)

  unfoldable pub lost : ProofKind → PublicError → State services → State services
  lost k e s = handle_runtime_loss services e (set_proof services k ProofState.failed none s)

  -- A capture that is lost counts at the cadence of the probes.
  unfoldable pub count_capture :
      Bool → ActiveSession services → PublicError → State services → State services
  unfolding with_world with_active
  count_capture true a e s =
      let (t, w) = now s.world in
      handle_tun_capture_loss services e true
        (with_active services (some (record a { last_probe = t })) (with_world services w s))
  count_capture false a e s = handle_tun_capture_loss services e false s

  unfoldable pub capture_lost :
      ActiveSession services → PublicError → State services → State services
  unfolding with_world
  capture_lost a e s =
      let (t, w) = now s.world in count_capture (due a t) a e (with_world services w s)

  -- The System Proxy of the session is not its own any more, or cannot be asked.
  unfoldable pub proxy_lost :
      RuntimePhase → PublicError → ActiveSession services → State services → State services
  proxy_lost phase e a s =
      update_status services phase (some a.node_id) (some e)
        (set_proof services ProofKind.system_proxy_ownership ProofState.failed none s)

  unfoldable pub snapshot_of : ActiveSession services → Option TunCaptureSnapshot → ProbeSnapshot
  snapshot_of a before = record {
    generation = a.generation;
    session_id = a.session_id;
    mode = a.mode;
    route = a.health_route;
    http_port = a.ports.http;
    redactor = a.redactor;
    node_id = a.node_id;
    tun_before = before;
  }

  unfoldable pub tun_before : ActiveSession services → World → Option TunCaptureSnapshot × World
  tun_before a w =
      if mode_is a.mode RuntimeMode.tun
      then attempt services (Children.tun_capture_snapshot services a.child) w
      else (none, w)

  abbrev pub Observed : Type 0
  Observed = Option ProbeSnapshot × State services

  unfoldable pub take_snapshot : Bool → ActiveSession services → State services → Observed
  unfolding with_world with_active
  take_snapshot true a s =
      let (t, w) = now s.world in
      let (before, w') = tun_before a w in
      (
        some (snapshot_of a before),
        with_active services (some (record a { last_probe = t })) (with_world services w' s),
      )
  take_snapshot false a s = (none, s)

  -- A probe is due at most every ten seconds, and none while a switch is uncertain.
  unfoldable pub schedule_probe : ActiveSession services → State services → Observed
  unfolding with_world
  schedule_probe a s =
      if is_uncertain a.switching
      then (none, s)
      else (let (t, w) = now s.world in take_snapshot (due a t) a (with_world services w s))

  unfoldable pub ownership_seen :
      ActiveSession services → Result SystemProxyError Bool → State services → Observed
  ownership_seen a (ok true) s = schedule_probe a s
  ownership_seen a (ok false) s = (
    none,
    proxy_lost RuntimePhase.blocked_by_conflict
        (ownership_error "Windows System Proxy was changed by another application") a s,
  )
  ownership_seen a (err e) s = (
    none,
    proxy_lost RuntimePhase.degraded
        (ownership_error "Windows System Proxy ownership could not be checked") a s,
  )

  -- The child could not be asked, for the capture or for another reason.
  unfoldable pub unavailable :
      Bool → ActiveSession services → PublicError → State services → State services
  unavailable true a e s = capture_lost a e s
  unavailable false a e s = lost ProofKind.engine_process e s

  unfoldable pub liveness_seen :
      ActiveSession services → Result RuntimeError Bool → State services → Observed
  unfolding with_world
  liveness_seen a (ok true) s =
      if mode_is a.mode RuntimeMode.system_proxy
      then (let (r, w) = is_owned s.world in ownership_seen a r (with_world services w s))
      else schedule_probe a s
  liveness_seen a (ok false) s =
      (none, lost ProofKind.engine_process (exited "The local proxy process exited unexpectedly") s)
  liveness_seen a (err e) s = (
    none,
    unavailable (mode_is a.mode RuntimeMode.tun && stage_is e.stage "tun_capture") a
        (public_runtime_error e (redact a.redactor)) s,
  )

  unfoldable pub observe_active : Option (ActiveSession services) → State services → Observed
  unfolding with_world
  observe_active none s = (none, s)
  observe_active (some a) s =
      let (r, w) = Children.is_alive services a.child s.world in
      liveness_seen a r (with_world services w s)

  -- The first section: what it proves next, if anything.
  unfoldable pub observe : State services → Observed
  observe s = if needs_review s then (none, s) else observe_active s.active s

  -- With the lock free: the proof of the mode.
  unfoldable pub probe : ProbeSnapshot → Action World RuntimeError ℕ
  probe x = do latency ← prove x.route; prove_mode x.mode x.http_port; pure latency
    where
      prove_mode : RuntimeMode → ℕ → Action World RuntimeError ℕ
      prove_mode RuntimeMode.tun port = prove_tun_capture
      prove_mode RuntimeMode.local_only port = prove_ordinary port
      prove_mode RuntimeMode.system_proxy port = prove_ordinary port
