-- ===== src/Controller/Rollback.antt =====
-- application.rs: what follows a start that failed: the failed proof, the diagnostic line, the
-- restoration of the System Proxy and the end of the processes.
use route_deck.Prelude.{
  Bool, false, Option, none, some, List, [], ◌∷◌, ◌++◌, if◌then◌else◌, String, ◌||◌, any,
}
use route_deck.Text.{Text, codes}
use route_deck.Action.{Result, ok, err}
use route_deck.Diagnostics.{push, clear}
use route_deck.SystemProxy.Snapshot.{SystemProxyError}
use route_deck.SystemProxy.Manager.{
  SystemProxyRestoreOutcome, restored, foreign_preserved, no_journal,
}
use route_deck.Controller.Status.{
  RuntimePhase, ProofKind, ProofState, PublicErrorCode, PublicErrorStage, PublicError, RuntimeError,
  fixed, public_runtime_error, stage_is, is_safe_helper_start_stage,
}
use route_deck.Controller.Services.{Services}
use route_deck.Controller.Children
use route_deck.Controller.Session.{State, ActiveSession, update_status, clear_active_metadata}
use route_deck.Controller.Teardown.{
  Answer, needs_recovery, with_world, with_active, set_restore, drop_active,
}
use route_deck.Controller.Starting.{set_proofs}

abbrev stage_in : Text → List String → Bool
stage_in stage = any (stage_is stage)

-- The proofs that a failure at a stage refutes.
unfoldable pub refuted : Text → List ProofKind
unfolding is_safe_helper_start_stage stage_is
refuted stage =
    if stage_in stage ("generate_config" ∷ "session_storage" ∷ "config_check" ∷ [])
    then ProofKind.engine_config ∷ []
    else if stage_in stage ("start_engine" ∷ "engine_process" ∷ [])
        || is_safe_helper_start_stage stage
    then ProofKind.engine_process ∷ []
    else if stage_is stage "verify_listeners"
    then ProofKind.http_listener ∷ ProofKind.socks_listener ∷ ProofKind.health_listener
      ∷ ProofKind.local_scope_ownership ∷ []
    else if stage_is stage "prove_traffic"
    then ProofKind.selected_outbound_https ∷ []
    else if stage_is stage "tun_capture"
    then ProofKind.local_scope_ownership ∷ []
    else if stage_in stage ("system_proxy_publish" ∷ "system_proxy_ownership" ∷ [])
    then ProofKind.system_proxy_ownership ∷ []
    else []

unfoldable pub rollback_error : PublicError
unfolding fixed
rollback_error =
    fixed PublicErrorCode.recovery_required PublicErrorStage.system_proxy_restore
      "Windows System Proxy could not be restored after startup failed"

module _ (services : Services) where
  open services use {World, Redactor, redact, restore_if_owned, reconcile_stale_sessions}

  unfoldable pub mark_failed_proof : Text → State services → State services
  unfolding set_proofs
  mark_failed_proof stage s = set_proofs services (refuted stage) ProofState.failed s

  unfoldable pub begin_diagnostic_attempt : State services → State services
  begin_diagnostic_attempt s = record s { diagnostics = clear s.diagnostics }

  unfoldable pub record_runtime_failure : RuntimeError → Redactor → State services → State services
  record_runtime_failure e redactor s = record s {
    diagnostics = push (redact redactor (e.stage ++ (codes ": " ++ e.message))) s.diagnostics;
  }

  -- reconcile_stale_sessions decides where it ends; the error is the same.
  unfoldable pub settled :
      Option Text → PublicError → Result RuntimeError (Unit {0}) → State services → Answer services
  settled node_id public (ok u) s = (
    err public,
    update_status services RuntimePhase.disconnected_with_error node_id (some public) s,
  )
  settled node_id public (err e) s = needs_recovery services node_id public s

  -- The session is given up: `active.take()`, its metadata, and what it left behind.
  unfoldable pub abandon :
      Option Text → PublicError → Option (ActiveSession services) → State services → Answer services
  unfolding with_world drop_active clear_active_metadata
  abandon node_id public none s =
      let s' = clear_active_metadata services s in
      let (r, w) = reconcile_stale_sessions s'.world in
      settled node_id public r (with_world services w s')
  abandon node_id public (some a) s =
      let s' = drop_active services a s in
      let (r, w) = reconcile_stale_sessions s'.world in
      settled node_id public r (with_world services w s')

  -- The child was asked to stop; an error of that needs the redactor `redactor`.
  unfoldable pub child_stopped :
      Option Text
      → PublicError
      → Redactor
      → ActiveSession services
      → Result RuntimeError (Unit {0})
      → State services
      → Answer services
  child_stopped node_id public redactor a (ok u) s = abandon node_id public (some a) s
  child_stopped node_id public redactor a (err e) s =
      needs_recovery services node_id (public_runtime_error e (redact redactor)) s

  unfoldable pub end_session :
      Option Text
      → PublicError
      → Redactor
      → Option (ActiveSession services)
      → State services
      → Answer services
  unfolding with_world
  end_session node_id public redactor none s = abandon node_id public none s
  end_session node_id public redactor (some a) s =
      let (r, w) = Children.stop services a.child s.world in
      child_stopped node_id public redactor a r (with_world services w s)

  unfoldable pub proxy_rolled_back :
      Option Text
      → PublicError
      → Redactor
      → ActiveSession services
      → Result SystemProxyError SystemProxyRestoreOutcome
      → State services
      → Answer services
  unfolding with_active set_restore
  proxy_rolled_back node_id public redactor a (ok restored) s =
      let a' = set_restore services false a in
      end_session node_id public redactor (some a') (with_active services (some a') s)
  proxy_rolled_back node_id public redactor a (ok foreign_preserved) s =
      let a' = set_restore services false a in
      end_session node_id public redactor (some a') (with_active services (some a') s)
  proxy_rolled_back node_id public redactor a (ok no_journal) s =
      needs_recovery services node_id rollback_error s
  proxy_rolled_back node_id public redactor a (err e) s =
      needs_recovery services node_id rollback_error s

  unfoldable pub restore_first :
      Option Text
      → PublicError
      → Redactor
      → Option (ActiveSession services)
      → State services
      → Answer services
  unfolding with_world
  restore_first node_id public redactor none s = end_session node_id public redactor none s
  restore_first node_id public redactor (some a) s =
      if a.system_proxy_requires_restore
      then (let (r, w) = restore_if_owned s.world in
          proxy_rolled_back node_id public redactor a r (with_world services w s))
      else end_session node_id public redactor (some a) s

  -- What both starts do first after `start_locked` failed.
  unfoldable pub rolling_back :
      Option Text → RuntimeError → Redactor → State services → State services
  rolling_back node_id e redactor s =
      update_status services RuntimePhase.rolling_back node_id none
        (record_runtime_failure e redactor (mark_failed_proof e.stage s))

  unfoldable pub roll_back_system_proxy :
      Option Text → RuntimeError → Redactor → State services → Answer services
  roll_back_system_proxy node_id e redactor s =
      restore_first node_id (public_runtime_error e (redact redactor)) redactor s.active
        (rolling_back node_id e redactor s)

  unfoldable pub note_stop_error :
      Redactor → Result RuntimeError (Unit {0}) → State services → State services
  note_stop_error redactor (ok u) s = s
  note_stop_error redactor (err e) s = record_runtime_failure e redactor s

  unfoldable pub tun_end :
      Option Text
      → PublicError
      → Redactor
      → Option (ActiveSession services)
      → State services
      → Answer services
  unfolding with_world
  tun_end node_id public redactor none s = abandon node_id public none s
  tun_end node_id public redactor (some a) s =
      let (r, w) = Children.stop services a.child s.world in
      child_stopped node_id public redactor a r
        (note_stop_error redactor r (with_world services w s))

  unfoldable pub roll_back_tun :
      Option Text → RuntimeError → Redactor → State services → Answer services
  roll_back_tun node_id e redactor s =
      tun_end node_id (public_runtime_error e (redact redactor)) redactor s.active
        (rolling_back node_id e redactor s)
