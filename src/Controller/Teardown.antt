-- ===== src/Controller/Teardown.antt =====
-- application.rs: how a session is torn down, the retry of a recovery, the exit and the gates of an
-- update and of a cleanup. Each function is what runs under the lock of the operation; `stop` and
-- `shutdown` take the lock of the state more than once, and their sections are separate.
use route_deck.Prelude.{Bool, true, false, not, ◌||◌, Option, none, some, if◌then◌else◌}
use route_deck.Text.{Text}
use route_deck.Action.{Result, ok, err}
use route_deck.Domain.Tls.{is_some}
use route_deck.SystemProxy.Snapshot.{SystemProxyError}
use route_deck.SystemProxy.Manager.{
  SystemProxyRestoreOutcome, restored, foreign_preserved, no_journal,
}
use route_deck.Controller.Status.{
  RuntimePhase, ProofKind, ProofState, PublicErrorCode, PublicErrorStage, PublicError,
  RuntimeStatus, RuntimeError, fixed, public_runtime_error,
}
use route_deck.Controller.Services.{Services}
use route_deck.Controller.Children
use route_deck.Controller.Session.{
  State, ActiveSession, ReconnectIntent, update_status, clear_active_metadata, reset_disconnected,
  set_proof, sync_reconnect_status, is_disconnected,
}

unfoldable pub restore_error : PublicError
unfolding fixed
restore_error =
    fixed PublicErrorCode.recovery_required PublicErrorStage.system_proxy_restore
      "Windows System Proxy ownership could not be restored safely"

unfoldable pub foreign_error : PublicError
unfolding fixed
foreign_error =
    fixed PublicErrorCode.runtime_failure PublicErrorStage.system_proxy_ownership
      "Windows System Proxy was changed by another application and was preserved"

unfoldable pub review_error : PublicError
unfolding fixed
review_error =
    fixed PublicErrorCode.recovery_required PublicErrorStage.session_recovery
      "Session data remains and requires review"

unfoldable pub attention_error : PublicError
unfolding fixed
attention_error =
    fixed PublicErrorCode.recovery_required PublicErrorStage.system_proxy_restore
      "Windows System Proxy recovery still requires attention"

module _ (services : Services) where
  open services use {
    World, redact, default_redactor, restore_if_owned, reconcile_stale_sessions, recover_sessions,
    reconcile_stale_journal,
  }

  abbrev pub Answer : Type 0
  Answer = Result PublicError RuntimeStatus × State services

  -- Ends with the status of the state.
  abbrev pub answer : State services → Answer
  answer s = (ok s.status, s)

  -- Ends in the recovery phase, with the error.
  unfoldable pub needs_recovery : Option Text → PublicError → State services → Answer
  needs_recovery node_id public s = (
    err public,
    update_status services RuntimePhase.recovery_required node_id (some public)
        (record s { recovery_required = true }),
  )

  unfoldable pub with_world : World → State services → State services
  with_world w s = record s { world = w }

  -- The session with the flag that its System Proxy has to be restored.
  unfoldable pub set_restore : Bool → ActiveSession services → ActiveSession services
  set_restore b a = record a { system_proxy_requires_restore = b }

  unfoldable pub with_active : Option (ActiveSession services) → State services → State services
  with_active a s = record s { active = a }

  -- `active.take()` and its drop.
  unfoldable pub drop_active : ActiveSession services → State services → State services
  unfolding clear_active_metadata with_active with_world
  drop_active a s =
      let s' = clear_active_metadata services (with_active none s) in
      with_world (Children.drop services a.child s'.world) s'

  unfoldable pub pause : Option ReconnectIntent → Option ReconnectIntent
  pause none = none
  pause (some i) = some (record i { paused = true })

  unfoldable pub pause_reconnect : State services → State services
  unfolding pause
  pause_reconnect s = record s { reconnect = pause s.reconnect }

  -- After the cleanup: what is published.
  unfoldable pub conclude : Option Text → Bool → Option PublicError → State services → Answer
  unfolding pause_reconnect
  conclude node_id true terminal_failure s =
      let s' = pause_reconnect s in
      (
        err foreign_error,
        update_status services RuntimePhase.disconnected_with_error node_id (some foreign_error)
            (record s' { status = record s'.status { session_id = none } }),
      )
  conclude node_id false (some error) s =
      answer (update_status services RuntimePhase.disconnected_with_error node_id (some error) s)
  conclude node_id false none s = answer (reset_disconnected services s)

  -- The stale sessions are removed; `r` is whether that succeeded.
  unfoldable pub reconciled :
      Option Text
      → Bool
      → Option PublicError
      → Result RuntimeError (Unit {0})
      → State services
      → Answer
  reconciled node_id conflict terminal_failure (ok u) s =
      conclude node_id conflict terminal_failure (record s { recovery_required = false })
  reconciled node_id conflict terminal_failure (err e) s = needs_recovery node_id review_error s

  -- The child was asked to stop.
  unfoldable pub stopped :
      Option Text
      → Bool
      → Option PublicError
      → ActiveSession services
      → Result RuntimeError (Unit {0})
      → State services
      → Answer
  unfolding drop_active with_world
  stopped node_id conflict terminal_failure a (err e) s =
      needs_recovery node_id (public_runtime_error e (redact a.redactor)) s
  stopped node_id conflict terminal_failure a (ok u) s =
      let s' = drop_active a s in
      let (r, w) = reconcile_stale_sessions s'.world in
      reconciled node_id conflict terminal_failure r (with_world w s')

  unfoldable pub stop_child :
      Option Text → Bool → Option PublicError → ActiveSession services → State services → Answer
  unfolding with_world
  stop_child node_id conflict terminal_failure a s =
      let s' = update_status services RuntimePhase.stopping_core node_id none s in
      let (r, w) = Children.stop services a.child s'.world in
      stopped node_id conflict terminal_failure a r (with_world w s')

  -- The System Proxy was asked to be restored.
  unfoldable pub proxy_restored :
      Option Text
      → Option PublicError
      → ActiveSession services
      → Result SystemProxyError SystemProxyRestoreOutcome
      → State services
      → Answer
  unfolding set_proof set_restore with_active
  proxy_restored node_id terminal_failure a (ok restored) s =
      let a' = set_restore false a in
      stop_child node_id false terminal_failure a' (
        set_proof services ProofKind.system_proxy_ownership ProofState.passed none
          (with_active (some a') s))
  proxy_restored node_id terminal_failure a (ok foreign_preserved) s =
      let a' = set_restore false a in
      stop_child node_id true terminal_failure a' (
        set_proof services ProofKind.system_proxy_ownership ProofState.failed none
          (with_active (some a') s))
  proxy_restored node_id terminal_failure a (ok no_journal) s =
      needs_recovery node_id restore_error s
  proxy_restored node_id terminal_failure a (err e) s = needs_recovery node_id restore_error s

  unfoldable pub restore_proxy :
      Option Text → Option PublicError → ActiveSession services → State services → Answer
  unfolding with_world
  restore_proxy node_id terminal_failure a s =
      let s' = update_status services RuntimePhase.restoring_system_proxy node_id none s in
      let (r, w) = restore_if_owned s'.world in
      proxy_restored node_id terminal_failure a r (with_world w s')

  unfoldable pub teardown :
      Option (ActiveSession services) → Option PublicError → State services → Answer
  teardown none terminal_failure s =
      if s.recovery_required then answer s else answer (reset_disconnected services s)
  teardown (some a) terminal_failure s =
      if a.system_proxy_requires_restore
      then restore_proxy s.status.node_id terminal_failure a s
      else stop_child s.status.node_id false terminal_failure a s

  unfoldable pub stop_active_locked : Option PublicError → State services → Answer
  stop_active_locked terminal_failure s = teardown s.active terminal_failure s

  -- The first section of `stop`: the user's wish to be connected ends before the lock is waited for.
  unfoldable pub stop_request : State services → State services
  unfolding sync_reconnect_status
  stop_request s = sync_reconnect_status services (record s { reconnect = none })

  -- Both sections of `stop`, with none of another thread between them.
  unfoldable pub stop : State services → Answer
  stop s = stop_active_locked none (stop_request s)

  unfoldable pub journal_reconciled : Result SystemProxyError (Unit {0}) → State services → Answer
  journal_reconciled (ok u) s =
      answer (reset_disconnected services (record s { recovery_required = false }))
  journal_reconciled (err e) s = needs_recovery none attention_error s

  unfoldable pub sessions_recovered : Result RuntimeError (Unit {0}) → State services → Answer
  unfolding with_world
  sessions_recovered (ok u) s =
      let (r, w) = reconcile_stale_journal s.world in journal_reconciled r (with_world w s)
  sessions_recovered (err e) s =
      needs_recovery none (public_runtime_error e (redact default_redactor)) s

  unfoldable pub retry_session_recovery : State services → Answer
  unfolding with_world
  retry_session_recovery s =
      if not s.recovery_required
      then answer s
      else if is_some s.active
      then stop_active_locked none s
      else (let (r, w) = recover_sessions s.world in sessions_recovered r (with_world w s))

  -- The second section of `shutdown`, whether it is safe to exit.
  unfoldable pub shutdown_verdict : State services → Bool × State services
  shutdown_verdict s =
      if is_some s.active
      then (false, record s { shutting_down = false })
      else (true, record s { event_sink = none })

  unfoldable pub shutdown : State services → Bool × State services
  shutdown s =
      if s.shutting_down
      then (not (is_some s.active), s)
      else shutdown_verdict (stop (record s { shutting_down = true })).1

  unfoldable pub may_update : State services → Bool
  unfolding is_disconnected
  may_update s = not (
      s.shutting_down
      || is_some s.active
      || is_some s.reconnect
      || s.recovery_required
      || not (is_disconnected s.status.phase))

  -- The guard holds the lock of the operation as long as it lives.
  unfoldable pub begin_portable_update :
      State services → Result PublicError (Unit {0}) × State services
  begin_portable_update s = if may_update s then (ok tt, record s { shutting_down = true }) else (
    err (
        fixed PublicErrorCode.active_session_conflict PublicErrorStage.start
          "Disconnect and resolve session recovery before updating"),
    s,
  )

  -- PortableUpdateGuard::commit and the drop of the guard.
  unfoldable pub drop_update_guard : Bool → State services → State services
  drop_update_guard committed s = if committed then s else record s { shutting_down = false }
