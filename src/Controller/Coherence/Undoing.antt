-- ===== src/Controller/Coherence/Undoing.antt =====
-- A start that failed leaves a coherent state, whatever step failed and whatever the rollback meets.
use route_deck.Prelude.{◌≡◌, refl, ◌∙◌, false, Option, none, some, List, [], ◌∷◌}
use route_deck.Text.{Text}
use route_deck.Action.{Result, ok, err}
use route_deck.SystemProxy.Snapshot.{SystemProxyError}
use route_deck.SystemProxy.Manager.{
  SystemProxyRestoreOutcome, restored, foreign_preserved, no_journal,
}
use route_deck.Controller.Status.{PublicError, ProofKind, ProofState, RuntimeError}
use route_deck.Controller.Services.{Services}
use route_deck.Controller.Session.{State, ActiveSession, update_status, set_proof}
use route_deck.Controller.Teardown.{Answer, with_world, with_active}
use route_deck.Controller.Starting.{set_proofs}
use route_deck.Controller.Rollback.{
  refuted, mark_failed_proof, record_runtime_failure, settled, abandon, child_stopped, end_session,
  proxy_rolled_back, restore_first, rolling_back, roll_back_system_proxy, note_stop_error, tun_end,
  roll_back_tun,
}
use route_deck.Controller.Rows.{kinds-set_row}
use route_deck.Controller.Coherence.{IsCoherent, if_elim}
use route_deck.Controller.Coherence.Stopping.{
  Listed, needs_recovery-IsCoherent, disconnected-IsCoherent,
}

module _ (services : Services) where
  -- What a failed start leaves: rows for all proofs, and no recovery that is already due.
  pub record Failed (o : Option (ActiveSession services)) (s : State services) : Type 0 where
    pub rows : Listed services s
    pub calm : s.recovery_required ≡ false
    pub active : s.active ≡ o

  settled-IsCoherent :
      (node_id : Option Text) (e : PublicError) (r : Result RuntimeError (Unit {0}))
      (s : State services)
      → Failed none s
      → IsCoherent services (settled services node_id e r s).1
  unfolding settled
  settled-IsCoherent node_id e (ok u) s h =
      disconnected-IsCoherent services node_id e s h.rows h.calm h.active
  settled-IsCoherent node_id e (err r) s h = needs_recovery-IsCoherent services node_id e s h.rows

  abandon-IsCoherent :
      (node_id : Option Text) (e : PublicError) (o : Option (ActiveSession services))
      (s : State services)
      → Failed o s
      → IsCoherent services (abandon services node_id e o s).1
  unfolding abandon
  abandon-IsCoherent node_id e none s h =
      settled-IsCoherent node_id e _ _ (record { rows = h.rows; calm = h.calm; active = h.active })
  abandon-IsCoherent node_id e (some a) s h =
      settled-IsCoherent node_id e _ _ (record { rows = h.rows; calm = h.calm; active = refl })

  child_stopped-IsCoherent :
      (node_id : Option Text) (e : PublicError) (redactor : services.Redactor)
      (a : ActiveSession services) (r : Result RuntimeError (Unit {0})) (s : State services)
      → Failed (some a) s
      → IsCoherent services (child_stopped services node_id e redactor a r s).1
  unfolding child_stopped
  child_stopped-IsCoherent node_id e redactor a (ok u) s h =
      abandon-IsCoherent node_id e (some a) s h
  child_stopped-IsCoherent node_id e redactor a (err r) s h =
      needs_recovery-IsCoherent services node_id _ s h.rows

  Failed-with_world :
      (o : Option (ActiveSession services)) (w : services.World) (s : State services)
      → Failed o s
      → Failed o (with_world services w s)
  unfolding with_world
  Failed-with_world o w s h = record { rows = h.rows; calm = h.calm; active = h.active }

  pub end_session-IsCoherent :
      (node_id : Option Text) (e : PublicError) (redactor : services.Redactor)
      (o : Option (ActiveSession services)) (s : State services)
      → Failed o s
      → IsCoherent services (end_session services node_id e redactor o s).1
  unfolding end_session
  end_session-IsCoherent node_id e redactor none s h = abandon-IsCoherent node_id e none s h
  end_session-IsCoherent node_id e redactor (some a) s h =
      child_stopped-IsCoherent node_id e redactor a _ _ (Failed-with_world _ _ s h)

  Failed-with_active :
      (a b : ActiveSession services) (s : State services)
      → Failed (some a) s
      → Failed (some b) (with_active services (some b) s)
  unfolding with_active
  Failed-with_active a b s h = record { rows = h.rows; calm = h.calm; active = refl }

  proxy_rolled_back-IsCoherent :
      (node_id : Option Text) (e : PublicError) (redactor : services.Redactor)
      (a : ActiveSession services) (r : Result SystemProxyError SystemProxyRestoreOutcome)
      (s : State services)
      → Failed (some a) s
      → IsCoherent services (proxy_rolled_back services node_id e redactor a r s).1
  unfolding proxy_rolled_back
  proxy_rolled_back-IsCoherent node_id e redactor a (ok restored) s h =
      end_session-IsCoherent node_id e redactor _ _ (Failed-with_active a _ s h)
  proxy_rolled_back-IsCoherent node_id e redactor a (ok foreign_preserved) s h =
      end_session-IsCoherent node_id e redactor _ _ (Failed-with_active a _ s h)
  proxy_rolled_back-IsCoherent node_id e redactor a (ok no_journal) s h =
      needs_recovery-IsCoherent services node_id _ s h.rows
  proxy_rolled_back-IsCoherent node_id e redactor a (err r) s h =
      needs_recovery-IsCoherent services node_id _ s h.rows

  restore_first-IsCoherent :
      (node_id : Option Text) (e : PublicError) (redactor : services.Redactor)
      (o : Option (ActiveSession services)) (s : State services)
      → Failed o s
      → IsCoherent services (restore_first services node_id e redactor o s).1
  unfolding restore_first
  restore_first-IsCoherent node_id e redactor none s h =
      end_session-IsCoherent node_id e redactor none s h
  restore_first-IsCoherent node_id e redactor (some a) s h =
      if_elim (λ (x : Answer services). IsCoherent services x.1) a.system_proxy_requires_restore _ _
        (λ p. proxy_rolled_back-IsCoherent node_id e redactor a _ _ (Failed-with_world _ _ s h))
        (λ p. end_session-IsCoherent node_id e redactor (some a) s h)

  Failed-set_proofs :
      (ks : List ProofKind) (p : ProofState) (o : Option (ActiveSession services))
      (s : State services)
      → Failed o s
      → Failed o (set_proofs services ks p s)
  unfolding set_proofs set_proof
  Failed-set_proofs [] p o s h = h
  Failed-set_proofs (k ∷ ks) p o s h =
      Failed-set_proofs ks p o (set_proof services k p none s) (record {
        rows = kinds-set_row k p none s.status.proofs ∙ h.rows;
        calm = h.calm;
        active = h.active;
      })

  Failed-rolling_back :
      (node_id : Option Text) (e : RuntimeError) (redactor : services.Redactor)
      (o : Option (ActiveSession services)) (s : State services)
      → Failed o s
      → Failed o (rolling_back services node_id e redactor s)
  unfolding rolling_back record_runtime_failure update_status mark_failed_proof
  Failed-rolling_back node_id e redactor o s h =
      let h' = Failed-set_proofs (refuted e.stage) ProofState.failed o s h in
      record { rows = h'.rows; calm = h'.calm; active = h'.active }

  -- The failed start of a System Proxy connection.
  pub roll_back_system_proxy-IsCoherent :
      (node_id : Option Text) (e : RuntimeError) (redactor : services.Redactor) (s : State services)
      → Listed services s
      → s.recovery_required ≡ false
      → IsCoherent services (roll_back_system_proxy services node_id e redactor s).1
  unfolding roll_back_system_proxy
  roll_back_system_proxy-IsCoherent node_id e redactor s l r =
      restore_first-IsCoherent node_id _ redactor s.active _ (
        Failed-rolling_back node_id e redactor s.active s
          (record { rows = l; calm = r; active = refl }))

  Failed-note :
      (r : Result RuntimeError (Unit {0})) (redactor : services.Redactor)
      (o : Option (ActiveSession services)) (s : State services)
      → Failed o s
      → Failed o (note_stop_error services redactor r s)
  unfolding note_stop_error record_runtime_failure
  Failed-note (ok u) redactor o s h = h
  Failed-note (err e) redactor o s h = record { rows = h.rows; calm = h.calm; active = h.active }

  tun_end-IsCoherent :
      (node_id : Option Text) (e : PublicError) (redactor : services.Redactor)
      (o : Option (ActiveSession services)) (s : State services)
      → Failed o s
      → IsCoherent services (tun_end services node_id e redactor o s).1
  unfolding tun_end
  tun_end-IsCoherent node_id e redactor none s h = abandon-IsCoherent node_id e none s h
  tun_end-IsCoherent node_id e redactor (some a) s h =
      child_stopped-IsCoherent node_id e redactor a _ _
        (Failed-note _ redactor _ _ (Failed-with_world _ _ s h))

  -- The failed start of a TUN connection.
  pub roll_back_tun-IsCoherent :
      (node_id : Option Text) (e : RuntimeError) (redactor : services.Redactor) (s : State services)
      → Listed services s
      → s.recovery_required ≡ false
      → IsCoherent services (roll_back_tun services node_id e redactor s).1
  unfolding roll_back_tun
  roll_back_tun-IsCoherent node_id e redactor s l r =
      tun_end-IsCoherent node_id _ redactor s.active _ (
        Failed-rolling_back node_id e redactor s.active s
          (record { rows = l; calm = r; active = refl }))
