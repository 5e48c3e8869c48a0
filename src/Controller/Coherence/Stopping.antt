-- ===== src/Controller/Coherence/Stopping.antt =====
-- Tearing a session down leaves a coherent state on every path, errors included.
use route_deck.Prelude.{◌≡◌, refl, sym, subst, Bool, true, false, Option, none, some, arith}
use route_deck.Text.{Text}
use route_deck.Action.{Result, ok, err}
use route_deck.SystemProxy.Snapshot.{SystemProxyError}
use route_deck.SystemProxy.Manager.{
  SystemProxyRestoreOutcome, restored, foreign_preserved, no_journal,
}
use route_deck.Controller.Status.{
  RuntimePhase, PublicError, RuntimeError, ProofKind, ProofState, proof_kinds,
}
use route_deck.Controller.Services.{Services}
use route_deck.Controller.Session.{
  State, ActiveSession, update_status, is_ready, reset_disconnected, without_session,
}
use route_deck.Controller.Teardown.{
  Answer, needs_recovery, conclude, reconciled, stopped, stop_child, proxy_restored, restore_proxy,
  teardown, stop_active_locked,
}
use route_deck.Controller.Monitor.{is_recovery}
use route_deck.Controller.Rows.{kinds, kinds-default_proofs, kinds-set_row}
use route_deck.Controller.Coherence.{IsCoherent, update_status-IsCoherent, if_elim}

module _ (services : Services) where
  abbrev pub Listed : State services → Type 0
  Listed s = kinds s.status.proofs ≡ proof_kinds

  pub needs_recovery-IsCoherent :
      (node_id : Option Text) (e : PublicError) (s : State services)
      → Listed s
      → IsCoherent services (needs_recovery services node_id e s).1
  unfolding needs_recovery is_ready is_recovery
  needs_recovery-IsCoherent node_id e s h =
      update_status-IsCoherent services RuntimePhase.recovery_required node_id (some e)
        (record s { recovery_required = true }) (λ p. cc) refl h refl (ground arith) (ground arith)

  -- A state without a session that says it is disconnected after an error.
  pub disconnected-IsCoherent :
      (node_id : Option Text) (e : PublicError) (s : State services)
      → Listed s
      → s.recovery_required ≡ false
      → s.active ≡ none
      → IsCoherent services
          (update_status services RuntimePhase.disconnected_with_error node_id (some e) s)
  unfolding is_ready is_recovery
  disconnected-IsCoherent node_id e s h r a =
      update_status-IsCoherent services RuntimePhase.disconnected_with_error node_id (some e) s
        (λ p. cc) refl h r (ground arith) (ground arith)

  pub reset_disconnected-IsCoherent :
      (s : State services)
      → s.recovery_required ≡ false
      → s.active ≡ none
      → IsCoherent services (reset_disconnected services s)
  unfolding reset_disconnected without_session is_ready is_recovery
  reset_disconnected-IsCoherent s r a =
      update_status-IsCoherent services RuntimePhase.disconnected none none
        (without_session services s) (λ p. refl) refl kinds-default_proofs r (ground arith)
        (ground arith)

  conclude-IsCoherent :
      (node_id : Option Text) (conflict : Bool) (terminal : Option PublicError) (s : State services)
      → Listed s
      → s.recovery_required ≡ false
      → s.active ≡ none
      → IsCoherent services (conclude services node_id conflict terminal s).1
  unfolding conclude
  conclude-IsCoherent node_id true terminal s h r a = disconnected-IsCoherent node_id _ _ h r a
  conclude-IsCoherent node_id false (some e) s h r a = disconnected-IsCoherent node_id e s h r a
  conclude-IsCoherent node_id false none s h r a = reset_disconnected-IsCoherent s r a

  reconciled-IsCoherent :
      (node_id : Option Text) (conflict : Bool) (terminal : Option PublicError)
      (r : Result RuntimeError (Unit {0})) (s : State services)
      → Listed s
      → s.active ≡ none
      → IsCoherent services (reconciled services node_id conflict terminal r s).1
  unfolding reconciled
  reconciled-IsCoherent node_id conflict terminal (ok u) s h a =
      conclude-IsCoherent node_id conflict terminal (record s { recovery_required = false }) h refl
        a
  reconciled-IsCoherent node_id conflict terminal (err e) s h a =
      needs_recovery-IsCoherent node_id _ s h

  stopped-IsCoherent :
      (node_id : Option Text) (conflict : Bool) (terminal : Option PublicError)
      (a : ActiveSession services) (r : Result RuntimeError (Unit {0})) (s : State services)
      → Listed s
      → IsCoherent services (stopped services node_id conflict terminal a r s).1
  unfolding stopped
  stopped-IsCoherent node_id conflict terminal a (ok u) s h =
      reconciled-IsCoherent node_id conflict terminal _ _ h refl
  stopped-IsCoherent node_id conflict terminal a (err e) s h =
      needs_recovery-IsCoherent node_id _ s h

  stop_child-IsCoherent :
      (node_id : Option Text) (conflict : Bool) (terminal : Option PublicError)
      (a : ActiveSession services) (s : State services)
      → Listed s
      → IsCoherent services (stop_child services node_id conflict terminal a s).1
  unfolding stop_child update_status
  stop_child-IsCoherent node_id conflict terminal a s h =
      stopped-IsCoherent node_id conflict terminal a _ _ h

  proxy_restored-IsCoherent :
      (node_id : Option Text) (terminal : Option PublicError) (a : ActiveSession services)
      (r : Result SystemProxyError SystemProxyRestoreOutcome) (s : State services)
      → Listed s
      → IsCoherent services (proxy_restored services node_id terminal a r s).1
  unfolding proxy_restored
  proxy_restored-IsCoherent node_id terminal a (ok restored) s h =
      stop_child-IsCoherent node_id false terminal _ _ (
        rw (kinds-set_row ProofKind.system_proxy_ownership ProofState.passed none s.status.proofs)
          h)
  proxy_restored-IsCoherent node_id terminal a (ok foreign_preserved) s h =
      stop_child-IsCoherent node_id true terminal _ _ (
        rw (kinds-set_row ProofKind.system_proxy_ownership ProofState.failed none s.status.proofs)
          h)
  proxy_restored-IsCoherent node_id terminal a (ok no_journal) s h =
      needs_recovery-IsCoherent node_id _ s h
  proxy_restored-IsCoherent node_id terminal a (err e) s h = needs_recovery-IsCoherent node_id _ s h

  -- A session, whatever else holds of the state.
  pub teardown-IsCoherent :
      (a : ActiveSession services) (terminal : Option PublicError) (s : State services)
      → Listed s
      → IsCoherent services (teardown services (some a) terminal s).1
  unfolding teardown restore_proxy update_status
  teardown-IsCoherent a terminal s h =
      if_elim (λ (x : Answer services). IsCoherent services x.1) a.system_proxy_requires_restore _ _
        (λ e. proxy_restored-IsCoherent s.status.node_id terminal a _ _ h)
        (λ e. stop_child-IsCoherent s.status.node_id false terminal a s h)

  -- An active session, whatever else holds.
  pub stop_session-IsCoherent :
      (a : ActiveSession services) (terminal : Option PublicError) (s : State services)
      → s.active ≡ some a
      → Listed s
      → IsCoherent services (stop_active_locked services terminal s).1
  unfolding stop_active_locked
  stop_session-IsCoherent a terminal s e h =
      subst (λ o. IsCoherent services (teardown services o terminal s).1) (sym e)
        (teardown-IsCoherent a terminal s h)

  pub stop_active_locked-IsCoherent :
      (terminal : Option PublicError) (s : State services)
      → IsCoherent services s
      → IsCoherent services (stop_active_locked services terminal s).1
  unfolding stop_active_locked teardown
  stop_active_locked-IsCoherent terminal s c = go s.active refl
    where
      go :
          (o : Option (ActiveSession services))
          → s.active ≡ o
          → IsCoherent services (teardown services o terminal s).1
      go (some a) e = teardown-IsCoherent a terminal s c.rows
      go none e =
          if_elim (λ (x : Answer services). IsCoherent services x.1) s.recovery_required _ _
            (λ r. c) (λ r. reset_disconnected-IsCoherent s r e)
