-- ===== src/Controller/Coherence/Reconnecting.antt =====
-- Automatic reconnection keeps the state coherent.
use route_deck.Prelude.{
  ◌≡◌, refl, ap, ◌∙◌, Bool, true, false, not, ◌&&◌, ◌||◌, leb, ltb, Option, none, some, List, arith,
  Bool-cases, inl, inr,
}
use route_deck.Action.{Result, ok, err}
use route_deck.Domain.Tls.{is_some}
use route_deck.Controller.Status.{
  RuntimePhase, RuntimeMode, RuntimeError, ProofKind, ProofState, ProofRow, proof_kinds,
}
use route_deck.Controller.Services.{Services}
use route_deck.Controller.Children
use route_deck.Controller.Children.{Child}
use route_deck.Controller.Session.{
  State, ActiveSession, ReconnectIntent, ConnectionRequest, set_proof, is_ready, is_blocked,
}
use route_deck.Controller.Teardown.{Answer, with_world, pause_reconnect, needs_recovery}
use route_deck.Controller.Monitor.{is_recovery}
use route_deck.Controller.Reconnect.{
  mode_is, clear_check, regenerate, revived, restarted, pause_if, refused, not_restarted,
  restart_result, restart_tun, restarts, connect_again, stopped_first, reconnect, when_due,
  reconnect_tick,
}
use route_deck.Controller.Rows.{kinds, kinds-set_row}
use route_deck.Controller.Coherence.{IsCoherent, IsCoherent-with_world, keeps_start, if_elim}
use route_deck.Controller.Coherence.Stopping.{
  stop_active_locked-IsCoherent, needs_recovery-IsCoherent,
}
use route_deck.Controller.Coherence.Losing.{tun-ne-proxy, claims_of_not_ready, degraded-IsCoherent}
use route_deck.Controller.Coherence.Watching.{Watches, Watches-with_world}
use route_deck.Controller.Coherence.Probing.{Watches-with_active}
use route_deck.Controller.Coherence.Connecting.{
  start_system_proxy_locked-IsCoherent, finish_connection_attempt-IsCoherent,
}

module _ (services : Services) where
  -- A session that is shown as ready has fewer failed probes than a restart waits for.
  abbrev pub Rested : State services → Type 0
  Rested s =
      (a : ActiveSession services)
      → s.active ≡ some a
      → is_ready s.status.phase ≡ true
      → leb 6 a.consecutive_probe_failures ≡ false

  mode-regenerate :
      (r : Result RuntimeError _) (a : ActiveSession services)
      → (regenerate services r a).mode ≡ a.mode
  unfolding regenerate
  mode-regenerate (ok g) a = refl
  mode-regenerate (err e) a = refl

  tun_keeps :
      (a : ActiveSession services) (r : Bool) (rows : List ProofRow)
      → mode_is a.mode RuntimeMode.tun ≡ true
      → keeps_start services r (some a) rows ≡ true
  tun_keeps a r rows h = ground (arith, tun-ne-proxy a.mode h)

  restarted-IsCoherent :
      (a : ActiveSession services) (child : Child services) (s : State services)
      → Watches services a s
      → mode_is a.mode RuntimeMode.tun ≡ true
      → is_ready s.status.phase ≡ false
      → IsCoherent services (restarted services a child s)
  unfolding restarted revived clear_check set_proof
  restarted-IsCoherent a child s h m n = record {
    honest = record {
      steady = h.coherent.honest.steady;
      checked = λ p. cc;
      clean = h.coherent.honest.clean;
      proved = claims_of_not_ready s.status.phase _ n;
    };
    published_honest = h.coherent.published_honest;
    rows =
        kinds-set_row ProofKind.selected_outbound_https ProofState.failed none _
        ∙ (kinds-set_row ProofKind.engine_process ProofState.passed none _ ∙ h.coherent.rows);
    review = h.coherent.review;
    live = refl;
    started =
        tun_keeps
          (regenerate services (services.random_hex 16 (services.now s.world).1).0
            (revived services child (services.now s.world).0 a))
          _ _
          (ap (λ k. mode_is k RuntimeMode.tun)
              (mode-regenerate _ (revived services child (services.now s.world).0 a))
            ∙ m);
  }

  refused-IsCoherent :
      (b : Bool) (a : ActiveSession services) (e : RuntimeError) (s : State services)
      → kinds s.status.proofs ≡ proof_kinds
      → s.recovery_required ≡ false
      → is_some s.active ≡ true
      → keeps_start services s.recovery_required s.active s.status.proofs ≡ true
      → IsCoherent services (refused services b a e s)
  unfolding refused needs_recovery is_ready is_recovery
  refused-IsCoherent true a e s h r i k = needs_recovery-IsCoherent services _ _ s h
  refused-IsCoherent false a e s h r i k =
      degraded-IsCoherent services RuntimePhase.degraded _ _ s refl refl i h r k

  -- The same after the intent was paused or not; the error names the session of before.
  paused-IsCoherent :
      (p b : Bool) (a c : ActiveSession services) (e : RuntimeError) (s : State services)
      → Watches services c s
      → IsCoherent services (refused services b a e (pause_if services p s))
  unfolding pause_if pause_reconnect
  paused-IsCoherent true b a c e s h =
      refused-IsCoherent b a e _ h.coherent.rows h.calm (ap is_some h.active) h.coherent.started
  paused-IsCoherent false b a c e s h =
      refused-IsCoherent b a e s h.coherent.rows h.calm (ap is_some h.active) h.coherent.started

  -- The core was not restarted; the old child, or what is left of it, stays.
  not_restarted-IsCoherent :
      (a : ActiveSession services) (child : Child services) (e : RuntimeError) (s : State services)
      → Watches services a s
      → IsCoherent services (not_restarted services a child e s)
  unfolding not_restarted
  not_restarted-IsCoherent a child e s h =
      paused-IsCoherent _ _ a (record a { child = child }) e _
        (Watches-with_active services a (record a { child = child }) s refl h)

  restart_result-IsCoherent :
      (a : ActiveSession services) (child : Child services) (r : Result RuntimeError (Unit {0}))
      (s : State services)
      → Watches services a s
      → mode_is a.mode RuntimeMode.tun ≡ true
      → is_ready s.status.phase ≡ false
      → IsCoherent services (restart_result services a child r s).1
  unfolding restart_result
  restart_result-IsCoherent a child (ok u) s h m n = restarted-IsCoherent a child s h m n
  restart_result-IsCoherent a child (err e) s h m n = not_restarted-IsCoherent a child e s h

  restart_tun-IsCoherent :
      (a : ActiveSession services) (s : State services)
      → Watches services a s
      → mode_is a.mode RuntimeMode.tun ≡ true
      → is_ready s.status.phase ≡ false
      → IsCoherent services (restart_tun services a s).1
  unfolding restart_tun with_world
  restart_tun-IsCoherent a s h m n =
      restart_result-IsCoherent a _ _ _ (Watches-with_world services _ a s h) m n

  connect_again-IsCoherent :
      (request : ConnectionRequest) (s : State services)
      → IsCoherent services s
      → IsCoherent services (connect_again services request s)
  unfolding connect_again
  connect_again-IsCoherent (ConnectionRequest.proxy node_id routing) s c =
      finish_connection_attempt-IsCoherent services _ _
        (start_system_proxy_locked-IsCoherent services node_id routing s c)
  connect_again-IsCoherent ConnectionRequest.tun s c = c

  stopped_first-IsCoherent :
      (request : ConnectionRequest) (x : Answer services)
      → IsCoherent services x.1
      → IsCoherent services (stopped_first services request x)
  unfolding stopped_first
  stopped_first-IsCoherent request (ok t, s) c = connect_again-IsCoherent request s c
  stopped_first-IsCoherent request (err e, s) c = c

  -- A session that is ready is not restarted.
  not_ready :
      (a : ActiveSession services) (s : State services)
      → IsCoherent services s
      → s.active ≡ some a
      → Rested s
      → (not (leb 6 a.consecutive_probe_failures) && not (restarts s.status.error)) ≡ false
      → is_ready s.status.phase ≡ false
  unfolding restarts
  not_ready a s c e q t = elim (Bool-cases (is_ready s.status.phase)) [
    | inl r ↦ ground (arith, q a e r, ap restarts (c.honest.clean r))
    | inr r ↦ r
  ]

  -- The section of the restart, of a session whose proofs or whose processes failed.
  pub restart_tun-failed :
      (a : ActiveSession services) (s : State services)
      → IsCoherent services s
      → s.active ≡ some a
      → s.recovery_required ≡ false
      → mode_is a.mode RuntimeMode.tun ≡ true
      → (not (leb 6 a.consecutive_probe_failures) && not (restarts s.status.error)) ≡ false
      → Rested s
      → IsCoherent services (restart_tun services a s).1
  restart_tun-failed a s c e r m t q =
      restart_tun-IsCoherent a s (record { coherent = c; active = e; calm = r }) m
        (not_ready a s c e q t)

  reconnect-IsCoherent :
      (request : ConnectionRequest) (o : Option (ActiveSession services)) (s : State services)
      → s.active ≡ o
      → IsCoherent services s
      → s.recovery_required ≡ false
      → Rested s
      → IsCoherent services (reconnect services request o s)
  unfolding reconnect
  reconnect-IsCoherent request none s e c r q = connect_again-IsCoherent request s c
  reconnect-IsCoherent request (some a) s e c r q =
      if_elim (IsCoherent services) (mode_is a.mode RuntimeMode.system_proxy) _ _
        (λ p.
          if_elim (IsCoherent services) (leb 6 a.consecutive_probe_failures) _ _
            (λ f.
              stopped_first-IsCoherent request _ (stop_active_locked-IsCoherent services none s c))
            (λ f. c))
        (λ p.
          if_elim (IsCoherent services)
            (not (mode_is a.mode RuntimeMode.tun)
              || not (Children.can_restart_owned_core services a.child s.world))
            _ _ (λ u. c)
            (λ u.
              if_elim (IsCoherent services)
                (not (leb 6 a.consecutive_probe_failures) && not (restarts s.status.error)) _ _
                (λ t. c)
                (λ t.
                  finish_connection_attempt-IsCoherent services _ _
                    (restart_tun-failed a s c e r (ground arith) t q))))

  when_due-IsCoherent :
      (o : Option ReconnectIntent) (s : State services)
      → IsCoherent services s
      → s.recovery_required ≡ false
      → Rested s
      → IsCoherent services (when_due services o s)
  unfolding when_due with_world
  when_due-IsCoherent none s c r q = c
  when_due-IsCoherent (some i) s c r q =
      if_elim (IsCoherent services) i.paused _ _ (λ p. c)
        (λ p.
          if_elim (IsCoherent services) (ltb (services.now s.world).0 i.next_attempt) _ _
            (λ t. IsCoherent-with_world services _ s c)
            (λ t.
              reconnect-IsCoherent i.request s.active _ refl (IsCoherent-with_world services _ s c)
                r q))

  pub reconnect_tick-IsCoherent :
      (s : State services)
      → IsCoherent services s
      → Rested s
      → IsCoherent services (reconnect_tick services s)
  unfolding reconnect_tick
  reconnect_tick-IsCoherent s c q =
      if_elim (IsCoherent services)
        (s.shutting_down || s.recovery_required || is_blocked s.status.phase) _ _ (λ t. c)
        (λ t. when_due-IsCoherent s.reconnect s c (ground arith) q)
