-- ===== src/Controller/Coherence/Watching.antt =====
-- The monitor keeps the state coherent: its first section, whatever it observes.
use route_deck.Prelude.{
  ℕ, ◌≡◌, refl, ap, ◌∙◌, Bool, true, false, any, Option, none, some, List, if◌then◌else◌, arith,
}
use route_deck.Action.{Result, ok, err}
use route_deck.Domain.Tls.{is_some}
use route_deck.SystemProxy.Snapshot.{SystemProxyError}
use route_deck.Controller.Status.{
  RuntimePhase, RuntimeMode, PublicError, ProofKind, ProofState, RuntimeError, proof_kinds,
  ProofRow, set_row, proof_state, set_row,
}
use route_deck.Controller.Services.{Services}
use route_deck.Controller.Session.{State, ActiveSession, set_proof, is_ready}
use route_deck.Controller.Teardown.{with_world}
use route_deck.Controller.Monitor.{
  Observed, is_recovery, needs_review, capture_lost, count_capture, take_snapshot, unavailable,
  proxy_lost, schedule_probe, ownership_seen, liveness_seen, observe_active, observe,
}
use route_deck.Controller.ConnectTun.{is_uncertain}
use route_deck.Controller.Reconnect.{mode_is}
use route_deck.Controller.Rows.{kinds, kinds-set_row, is_kind, proof_state-set_row}
use route_deck.Controller.Coherence.{
  IsCoherent, IsCoherent-with_world, IsCoherent-with_active, keeps_start, if_elim, static_kinds,
}
use route_deck.Controller.Coherence.Losing.{
  degraded-IsCoherent, lost-IsCoherent, handle_tun_capture_loss-IsCoherent,
}

module _ (services : Services) where
  -- A coherent state with the session that is watched.
  pub record Watches (a : ActiveSession services) (s : State services) : Type 0 where
    pub coherent : IsCoherent services s
    pub active : s.active ≡ some a
    pub calm : s.recovery_required ≡ false

  -- A section of the monitor left a coherent state.
  pub record Keeps (x : Observed services) : Type 0 where
    pub at : IsCoherent services x.1

  kept : {x : Observed services} → IsCoherent services x.1 → Keeps x
  kept c = record { at = c }

  pub Watches-with_world :
      (w : services.World) (a : ActiveSession services) (s : State services)
      → Watches a s
      → Watches a (with_world services w s)
  unfolding with_world
  Watches-with_world w a s h = record {
    coherent = IsCoherent-with_world services w s h.coherent;
    active = h.active;
    calm = h.calm;
  }

  -- A proof that is not among those of the start leaves them.
  pub static-set_row :
      (k : ProofKind) (p : ProofState) (l : Option ℕ) (r : Bool)
      (o : Option (ActiveSession services)) (rows : List ProofRow)
      → any (is_kind k) static_kinds ≡ false
      → kinds rows ≡ proof_kinds
      → keeps_start services r o rows ≡ true
      → keeps_start services r o (set_row k p l rows) ≡ true
  static-set_row k p l r none rows n h c = refl
  static-set_row k p l r (some a) rows n h c =
      let unchanged : (j : ProofKind)
          → is_kind k j ≡ false
          → proof_state j (set_row k p l rows) ≡ proof_state j rows =
        λ j e.
          proof_state-set_row k j p l rows h ∙ ap (λ b. if b then p else proof_state j rows) e in
      ground (
        arith,
        unchanged ProofKind.engine_config,
        unchanged ProofKind.engine_process,
        unchanged ProofKind.http_listener,
        unchanged ProofKind.socks_listener,
        unchanged ProofKind.health_listener,
      )

  proxy_lost-IsCoherent :
      (phase : RuntimePhase) (e : PublicError) (a : ActiveSession services) (s : State services)
      → is_ready phase ≡ false
      → is_recovery phase ≡ false
      → Watches a s
      → IsCoherent services (proxy_lost services phase e a s)
  unfolding proxy_lost set_proof is_kind
  proxy_lost-IsCoherent phase e a s n m h =
      degraded-IsCoherent services phase _ (some e) _ n m (ap is_some h.active)
        (kinds-set_row ProofKind.system_proxy_ownership ProofState.failed none s.status.proofs
          ∙ h.coherent.rows)
        h.calm
        (static-set_row ProofKind.system_proxy_ownership ProofState.failed none _ s.active _ refl
          h.coherent.rows h.coherent.started)

  take_snapshot-IsCoherent :
      (b : Bool) (a : ActiveSession services) (s : State services)
      → Watches a s
      → Keeps (take_snapshot services b a s)
  unfolding take_snapshot
  take_snapshot-IsCoherent true a s h = kept (
      IsCoherent-with_active services a _ _ h.active refl
        (IsCoherent-with_world services _ s h.coherent))
  take_snapshot-IsCoherent false a s h = kept h.coherent

  schedule_probe-IsCoherent :
      (a : ActiveSession services) (s : State services)
      → Watches a s
      → Keeps (schedule_probe services a s)
  unfolding schedule_probe
  schedule_probe-IsCoherent a s h =
      if_elim Keeps (is_uncertain a.switching) _ _ (λ e. kept h.coherent)
        (λ e. take_snapshot-IsCoherent _ a _ (Watches-with_world _ a s h))

  count_capture-IsCoherent :
      (b : Bool) (e : PublicError) (a : ActiveSession services) (s : State services)
      → Watches a s
      → IsCoherent services (count_capture services b a e s)
  unfolding count_capture
  count_capture-IsCoherent true e a s h =
      handle_tun_capture_loss-IsCoherent services _ e true _ refl h.coherent.rows h.calm
  count_capture-IsCoherent false e a s h =
      handle_tun_capture_loss-IsCoherent services a e false s h.active h.coherent.rows h.calm

  unavailable-IsCoherent :
      (b : Bool) (e : PublicError) (a : ActiveSession services) (s : State services)
      → Watches a s
      → IsCoherent services (unavailable services b a e s)
  unfolding unavailable capture_lost
  unavailable-IsCoherent true e a s h =
      count_capture-IsCoherent _ e a _ (Watches-with_world _ a s h)
  unavailable-IsCoherent false e a s h =
      lost-IsCoherent services ProofKind.engine_process a e s h.active h.coherent.rows h.calm

  ownership_seen-IsCoherent :
      (a : ActiveSession services) (r : Result SystemProxyError Bool) (s : State services)
      → Watches a s
      → Keeps (ownership_seen services a r s)
  unfolding ownership_seen is_ready is_recovery
  ownership_seen-IsCoherent a (ok true) s h = schedule_probe-IsCoherent a s h
  ownership_seen-IsCoherent a (ok false) s h =
      kept (proxy_lost-IsCoherent RuntimePhase.blocked_by_conflict _ a s refl refl h)
  ownership_seen-IsCoherent a (err e) s h =
      kept (proxy_lost-IsCoherent RuntimePhase.degraded _ a s refl refl h)

  liveness_seen-IsCoherent :
      (a : ActiveSession services) (r : Result RuntimeError Bool) (s : State services)
      → Watches a s
      → Keeps (liveness_seen services a r s)
  unfolding liveness_seen
  liveness_seen-IsCoherent a (ok true) s h =
      if_elim Keeps (mode_is a.mode RuntimeMode.system_proxy) _ _
        (λ e. ownership_seen-IsCoherent a _ _ (Watches-with_world _ a s h))
        (λ e. schedule_probe-IsCoherent a s h)
  liveness_seen-IsCoherent a (ok false) s h =
      kept (lost-IsCoherent services ProofKind.engine_process a _ s h.active h.coherent.rows h.calm)
  liveness_seen-IsCoherent a (err e) s h = kept (unavailable-IsCoherent _ _ a s h)

  pub calm_of_reviewed :
      (s : State services) → needs_review services s ≡ false → s.recovery_required ≡ false
  unfolding needs_review
  calm_of_reviewed s h = ground arith

  observe_active-IsCoherent :
      (o : Option (ActiveSession services)) (s : State services)
      → IsCoherent services s
      → s.active ≡ o
      → s.recovery_required ≡ false
      → Keeps (observe_active services o s)
  unfolding observe_active
  observe_active-IsCoherent none s c h r = kept c
  observe_active-IsCoherent (some a) s c h r =
      liveness_seen-IsCoherent a _ _
        (Watches-with_world _ a s (record { coherent = c; active = h; calm = r }))

  pub observe-IsCoherent : (s : State services) → IsCoherent services s → Keeps (observe services s)
  unfolding observe
  observe-IsCoherent s c =
      if_elim Keeps (needs_review services s) _ _ (λ e. kept c)
        (λ e. observe_active-IsCoherent s.active s c refl (calm_of_reviewed s e))
