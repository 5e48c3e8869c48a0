-- ===== src/Controller/Wiring/Undoing.antt =====
-- The roll back of a start that failed: the user's settings are back, or a recovery is required.
use route_deck.Controller.Wiring.Restoring.{Restores-Same, restore-Restores}
use route_deck.Controller.Coherence.{if_elim}
use route_deck.Controller.Wiring.Leasing.{Failed, holds_proxy, free, doubtful, leased}
use route_deck.Controller.Starting.{set_proofs}
use route_deck.Controller.Status.{PublicError, RuntimeError, RuntimePhase, ProofKind, ProofState}
use route_deck.SystemProxy.Manager.Restore.{Restores}
use route_deck.Text.{Text}
use route_deck.Controller.Wiring.Ending.{
  Calm, Calm-update_status, Calm-with_world, stop_Leaves, Calm-drop_active, Calm-set_proof,
}
use route_deck.SystemProxy.Manager.{
  SystemProxyRestoreOutcome, restored, foreign_preserved, no_journal,
}
use route_deck.Controller.Cleanup.{IsFailed}
use route_deck.Controller.Teardown.{Answer, needs_recovery, with_active, set_restore, with_world}
use route_deck.SystemProxy.Snapshot.{SystemProxyError}
use route_deck.Controller.Rollback.{
  abandon, end_session, proxy_rolled_back, settled, child_stopped, rolling_back,
  roll_back_system_proxy, restore_first, mark_failed_proof, record_runtime_failure, refuted,
}
use route_deck.Prelude.{
  ◌≡◌, refl, ◌∙◌, true, false, inl, inr, Option, some, none, List, arith, ◌∷◌, [],
}
use route_deck.Action.{Result, ok, err}
use route_deck.SystemProxy.Platform.{Platform, PlatformLaws}
use route_deck.Controller.Services.{Services}
use route_deck.Controller.Session.{State, ActiveSession, update_status, clear_active_metadata}
use route_deck.Controller.Wiring.{Wiring, SparesSink}
use route_deck.SystemProxy.Manager.Steps.{Same-refl}
use route_deck.Controller.Wiring.Settling.{Settles, Undone, doubtful-Undone, leased-Undone}

module _ (p : Platform) (l : PlatformLaws p) (services : Services)
    (wiring : Wiring p l services) where
  open wiring use {view}

  -- The settings are back, with the error; or a recovery is required.
  pub data RolledBack (v : p.World) : Answer services → Type 0 where
    undone :
        {x : Answer services}
        → IsFailed x.0
        → SparesSink p l services view x.1.event_sink
        → Undone p l v (view x.1.world)
        → RolledBack v x
    reviewed :
        {x : Answer services}
        → IsFailed x.0
        → SparesSink p l services view x.1.event_sink
        → x.1.recovery_required ≡ true
        → RolledBack v x

  module _ (v : p.World) where
    abbrev Ends : Answer services → Type 0
    Ends x = IsFailed x.0 × Calm p l services wiring v x.1

    needs_recovery-Ends :
        (node_id : Option Text) (e : PublicError) (s : State services)
        → Calm p l services wiring v s
        → Ends (needs_recovery services node_id e s)
    unfolding needs_recovery
    needs_recovery-Ends node_id e s c = (
      tt,
      Calm-update_status p l services wiring v RuntimePhase.recovery_required node_id (some e)
          (record s { recovery_required = true }) (record { same = c.same; sink = c.sink }),
    )

    settled-Ends :
        (node_id : Option Text) (e : PublicError) (r : Result RuntimeError (Unit {0}))
        (s : State services)
        → Calm p l services wiring v s
        → Ends (settled services node_id e r s)
    unfolding settled
    settled-Ends node_id e (ok u) s c = (
      tt,
      Calm-update_status p l services wiring v RuntimePhase.disconnected_with_error node_id (some e)
          s c,
    )
    settled-Ends node_id e (err x) s c = needs_recovery-Ends node_id e s c

    abandon-Ends :
        (node_id : Option Text) (e : PublicError) (o : Option (ActiveSession services))
        (s : State services)
        → Calm p l services wiring v s
        → Ends (abandon services node_id e o s)
    unfolding abandon clear_active_metadata
    abandon-Ends node_id e none s c = settled-Ends node_id e _ _ (
        Calm-with_world p l services wiring v _ (clear_active_metadata services s)
          (record { same = c.same; sink = c.sink }) (wiring.sessions_Leaves _))
    abandon-Ends node_id e (some a) s c = settled-Ends node_id e _ _ (
        Calm-with_world p l services wiring v _ _ (Calm-drop_active p l services wiring v a s c)
          (wiring.sessions_Leaves _))

    child_stopped-Ends :
        (node_id : Option Text) (e : PublicError) (redactor : services.Redactor)
        (a : ActiveSession services) (r : Result RuntimeError (Unit {0})) (s : State services)
        → Calm p l services wiring v s
        → Ends (child_stopped services node_id e redactor a r s)
    unfolding child_stopped
    child_stopped-Ends node_id e redactor a (ok u) s c = abandon-Ends node_id e (some a) s c
    child_stopped-Ends node_id e redactor a (err x) s c = needs_recovery-Ends node_id _ s c

    end_session-Ends :
        (node_id : Option Text) (e : PublicError) (redactor : services.Redactor)
        (o : Option (ActiveSession services)) (s : State services)
        → Calm p l services wiring v s
        → Ends (end_session services node_id e redactor o s)
    unfolding end_session
    end_session-Ends node_id e redactor none s c = abandon-Ends node_id e none s c
    end_session-Ends node_id e redactor (some a) s c = child_stopped-Ends node_id e redactor a _ _ (
        Calm-with_world p l services wiring v _ s c
          (stop_Leaves p l services wiring a.child s.world))

  end_kept :
      (node_id : Option Text) (e : PublicError) (redactor : services.Redactor)
      (a : ActiveSession services) (s : State services)
      → SparesSink p l services view s.event_sink
      → let a' = set_restore services false a in
        Ends
          (view s.world)
          (end_session services node_id e redactor (some a') (with_active services (some a') s))
  unfolding with_active
  end_kept node_id e redactor a s k =
      end_session-Ends (view s.world) node_id e redactor (some (set_restore services false a))
        (with_active services (some (set_restore services false a)) s)
        (record { same = Same-refl p l _; sink = k })

  Ends-RolledBack :
      (v u : p.World) (x : Answer services) → Undone p l v u → Ends u x → RolledBack v x
  Ends-RolledBack v u x (inl a) (f, c) = undone f c.sink (inl (c.same.settings_same ∙ a))
  Ends-RolledBack v u x (inr (k, valid, a, b)) (f, c) =
      undone f c.sink (inr (k, valid, a, c.same.settings_same ∙ b))

  proxy_rolled_back-RolledBack :
      (v : p.World) (node_id : Option Text) (e : PublicError) (redactor : services.Redactor)
      (a : ActiveSession services) (r : Result SystemProxyError SystemProxyRestoreOutcome)
      (s : State services)
      → SparesSink p l services view s.event_sink
      → (Settles r → Undone p l v (view s.world))
      → RolledBack v (proxy_rolled_back services node_id e redactor a r s)
  unfolding proxy_rolled_back needs_recovery update_status
  proxy_rolled_back-RolledBack v node_id e redactor a (ok restored) s k h =
      Ends-RolledBack v (view s.world) _ (h tt) (end_kept node_id e redactor a s k)
  proxy_rolled_back-RolledBack v node_id e redactor a (ok foreign_preserved) s k h =
      Ends-RolledBack v (view s.world) _ (h tt) (end_kept node_id e redactor a s k)
  proxy_rolled_back-RolledBack v node_id e redactor a (ok no_journal) s k h = reviewed tt k refl
  proxy_rolled_back-RolledBack v node_id e redactor a (err x) s k h = reviewed tt k refl

  restore_first-RolledBack :
      (v u : p.World) (node_id : Option Text) (e : PublicError) (redactor : services.Redactor)
      (o : Option (ActiveSession services)) (s : State services)
      → Calm p l services wiring u s
      → (holds_proxy services o ≡ false → Undone p l v u)
      → (holds_proxy services o ≡ true
          → (r : Result SystemProxyError SystemProxyRestoreOutcome) (w : p.World)
          → Restores p l u r w
          → Settles r
          → Undone p l v w)
      → RolledBack v (restore_first services node_id e redactor o s)
  unfolding restore_first with_world
  restore_first-RolledBack v u node_id e redactor none s c h k =
      Ends-RolledBack v u _ (h refl) (end_session-Ends u node_id e redactor none s c)
  restore_first-RolledBack v u node_id e redactor (some a) s c h k =
      if_elim (RolledBack v) a.system_proxy_requires_restore _ _
        (λ t. proxy_rolled_back-RolledBack v node_id e redactor a _ _ c.sink (
          k t _ _ (
            Restores-Same p l u _ (services.restore_if_owned s.world).0 _ _ c.same
              (restore-Restores p l services wiring s.world) (Same-refl p l _))))
        (λ t. Ends-RolledBack v u _ (h t) (end_session-Ends u node_id e redactor (some a) s c))

  Calm-set_proofs :
      (u : p.World) (ks : List ProofKind) (x : ProofState) (s : State services)
      → Calm p l services wiring u s
      → Calm p l services wiring u (set_proofs services ks x s)
  unfolding set_proofs
  Calm-set_proofs u [] x s c = c
  Calm-set_proofs u (k ∷ ks) x s c =
      Calm-set_proofs u ks x _ (Calm-set_proof p l services wiring u k x none s c)

  Calm-rolling_back :
      (u : p.World) (node_id : Option Text) (e : RuntimeError) (redactor : services.Redactor)
      (s : State services)
      → Calm p l services wiring u s
      → Calm p l services wiring u (rolling_back services node_id e redactor s)
  unfolding rolling_back mark_failed_proof record_runtime_failure
  Calm-rolling_back u node_id e redactor s c =
      let proved = Calm-set_proofs u (refuted e.stage) ProofState.failed s c in
      Calm-update_status p l services wiring u RuntimePhase.rolling_back node_id none
        (record_runtime_failure services e redactor (mark_failed_proof services e.stage s))
        (record { same = proved.same; sink = proved.sink })

  -- The roll back of a start that failed from settings `v`.
  pub roll_back_system_proxy-RolledBack :
      (v : p.World) (node_id : Option Text) (e : RuntimeError) (redactor : services.Redactor)
      (s : State services)
      → Failed p l services wiring v s
      → RolledBack v (roll_back_system_proxy services node_id e redactor s)
  unfolding roll_back_system_proxy
  roll_back_system_proxy-RolledBack v node_id e redactor s (free h) =
      restore_first-RolledBack v v node_id _ redactor s.active _
        (Calm-rolling_back v node_id e redactor s h.calm) (λ f. inl refl)
        (λ t. absurd (ground (arith, h.unheld)))
  roll_back_system_proxy-RolledBack v node_id e redactor s (doubtful h) =
      restore_first-RolledBack v h.world node_id _ redactor s.active _
        (Calm-rolling_back h.world node_id e redactor s h.calm) (λ f. absurd (cc (f, h.held)))
        (λ t r w x n. doubtful-Undone p l v h.world w r h.same_settings x n)
  roll_back_system_proxy-RolledBack v node_id e redactor s (leased h) =
      restore_first-RolledBack v h.world node_id _ redactor s.active _
        (Calm-rolling_back h.world node_id e redactor s h.calm) (λ f. absurd (cc (f, h.held)))
        (λ t r w x n. inl (leased-Undone p l v h.world w h.journal r h.on_disk h.in_force x n))
