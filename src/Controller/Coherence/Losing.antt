-- ===== src/Controller/Coherence/Losing.antt =====
-- A session that is lost, or may be: what follows is coherent.
use route_deck.Prelude.{
  ◌≡◌, refl, sym, ap, ◌∙◌, Bool, true, false, ◌&&◌, Option, none, some, List, arith,
}
use route_deck.Domain.Tls.{is_some}
use route_deck.Controller.Status.{
  RuntimePhase, RuntimeMode, PublicError, ProofKind, ProofState, proof_kinds, ProofRow, set_row,
}
use route_deck.Controller.Services.{Services}
use route_deck.Controller.Session.{State, ActiveSession, update_status, set_proof, is_ready}
use route_deck.Controller.Teardown.{pause_reconnect, with_active}
use route_deck.Controller.Monitor.{is_recovery, lost}
use route_deck.Controller.Reconnect.{
  mode_is, handle_runtime_loss, handle_tun_capture_loss, owns_restartable_tun, pause_tun,
  count_failure, clear_check,
}
use route_deck.Controller.Rows.{kinds, kinds-set_row}
use route_deck.Controller.Coherence.{
  IsCoherent, update_status-IsCoherent, keeps_start, claims, if_elim,
}
use route_deck.Controller.Coherence.Stopping.{Listed, stop_session-IsCoherent}

pub tun-ne-proxy :
    (m : RuntimeMode)
    → mode_is m RuntimeMode.tun ≡ true
    → mode_is m RuntimeMode.system_proxy ≡ false
unfolding mode_is
tun-ne-proxy RuntimeMode.tun h = refl
tun-ne-proxy RuntimeMode.local_only h = cc
tun-ne-proxy RuntimeMode.system_proxy h = cc

pub claims_of_not_ready :
    (phase : RuntimePhase) (rows : List ProofRow)
    → is_ready phase ≡ false
    → claims phase rows ≡ true
unfolding is_ready
claims_of_not_ready RuntimePhase.tun_ready rows h = cc
claims_of_not_ready RuntimePhase.system_proxy_ready rows h = cc
claims_of_not_ready _ rows h = refl

module _ (services : Services) where
  -- An update that is not ready, of a session that stays.
  pub degraded-IsCoherent :
      (phase : RuntimePhase) (node_id : Option _) (error : Option PublicError) (s : State services)
      → is_ready phase ≡ false
      → is_recovery phase ≡ false
      → is_some s.active ≡ true
      → Listed services s
      → s.recovery_required ≡ false
      → keeps_start services s.recovery_required s.active s.status.proofs ≡ true
      → IsCoherent services (update_status services phase node_id error s)
  degraded-IsCoherent phase node_id error s n m a h r k =
      update_status-IsCoherent services phase node_id error s (λ p. cc)
        (claims_of_not_ready phase s.status.proofs n) h (r ∙ sym m) (ground arith) k

  tun-keeps_start :
      (o : Option (ActiveSession services)) (w : services.World) (r : Bool) (rows : List ProofRow)
      → owns_restartable_tun services o w ≡ true
      → (is_some o ≡ true) × (keeps_start services r o rows ≡ true)
  unfolding owns_restartable_tun
  tun-keeps_start none w r rows h = cc
  tun-keeps_start (some a) w r rows h = (refl, ground (arith, tun-ne-proxy a.mode))

  status-pause_tun :
      (s : State services)
      → ((pause_tun services s).status ≡ s.status) × ((pause_tun services s).active ≡ s.active)
  unfolding pause_tun pause_reconnect
  status-pause_tun s = ground arith

  pub handle_runtime_loss-IsCoherent :
      (a : ActiveSession services) (e : PublicError) (s : State services)
      → s.active ≡ some a
      → Listed services s
      → s.recovery_required ≡ false
      → IsCoherent services (handle_runtime_loss services e s)
  unfolding handle_runtime_loss is_ready is_recovery
  handle_runtime_loss-IsCoherent a e s h l r =
      if_elim (IsCoherent services)
        (is_some s.reconnect && owns_restartable_tun services s.active s.world) _ _
        (λ t.
          let kept =
            tun-keeps_start s.active s.world s.recovery_required s.status.proofs (ground arith) in
          degraded-IsCoherent RuntimePhase.degraded _ (some e) s refl refl kept.0 l r kept.1)
        (λ t.
          stop_session-IsCoherent services a (some e) (pause_tun services s)
            ((status-pause_tun s).1 ∙ h) (ap (λ t. kinds t.proofs) (status-pause_tun s).0 ∙ l))

  -- The same after a proof failed.
  pub lost-IsCoherent :
      (k : ProofKind) (a : ActiveSession services) (e : PublicError) (s : State services)
      → s.active ≡ some a
      → Listed services s
      → s.recovery_required ≡ false
      → IsCoherent services (lost services k e s)
  unfolding lost set_proof
  lost-IsCoherent k a e s h l r =
      handle_runtime_loss-IsCoherent a e _ h
        (kinds-set_row k ProofState.failed none s.status.proofs ∙ l) r

  traffic-Listed :
      (s : State services)
      → Listed services s
      → kinds (
          set_row ProofKind.selected_outbound_https ProofState.failed none
            (set_row ProofKind.local_scope_ownership ProofState.failed none s.status.proofs))
        ≡ proof_kinds
  traffic-Listed s l =
      kinds-set_row ProofKind.selected_outbound_https ProofState.failed none _
      ∙ (kinds-set_row ProofKind.local_scope_ownership ProofState.failed none s.status.proofs ∙ l)

  pub handle_tun_capture_loss-IsCoherent :
      (a : ActiveSession services) (e : PublicError) (counted : Bool) (s : State services)
      → s.active ≡ some a
      → Listed services s
      → s.recovery_required ≡ false
      → IsCoherent services (handle_tun_capture_loss services e counted s)
  unfolding handle_tun_capture_loss set_proof clear_check with_active count_failure
  handle_tun_capture_loss-IsCoherent a e true s h l r =
      handle_runtime_loss-IsCoherent _ e _ (ap (count_failure services) h) (traffic-Listed s l) r
  handle_tun_capture_loss-IsCoherent a e false s h l r =
      handle_runtime_loss-IsCoherent a e _ h (traffic-Listed s l) r
