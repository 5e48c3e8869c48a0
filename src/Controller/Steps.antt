-- ===== src/Controller/Steps.antt =====
-- The threads of the application as steps of one state: a step is what runs under the lock of the
-- state at once, or several such sections with none of another thread between them. A connection is
-- the steps asks, starts and finishes, and a renewed proof of an active session concludes between the
-- last two; a reconnection is stops or restarts_core, starts and finishes. Between the steps the
-- world may change by itself.
use route_deck.Prelude.{not, ◌&&◌, leb, some, ℕ, ◌≡◌, Bool, true, false, Option, none}
use route_deck.Text.{Text}
use route_deck.SystemProxy.Snapshot.{SystemProxyError}
use route_deck.Action.{Result}
use route_deck.Controller.Status.{RuntimeError, RuntimeMode}
use route_deck.Controller.Services.{Services, TunCaptureSnapshot}
use route_deck.Controller.Session.{
  ActiveSession, State, SystemProxyRouting, ConnectionRequest, finish_connection_attempt,
}
use route_deck.Controller.Teardown.{
  sessions_recovered, journal_reconciled, stop_request, stop_active_locked, retry_session_recovery,
  shutdown_verdict, begin_portable_update, drop_update_guard, with_world,
}
use route_deck.Controller.Requests.{Request}
use route_deck.Controller.Connect.{start_system_proxy_locked, finish_proxy_proof, set_intent}
use route_deck.Controller.ConnectTun.{TunRouting, start_tun_locked, finish_tun_proof}
use route_deck.Controller.Reconnect.{reconnect_tick, restart_tun, restarts, mode_is}
use route_deck.Controller.Monitor.{ProbeSnapshot, observe}
use route_deck.Controller.MonitorProof.{conclude_probe, conclude_latency}
use route_deck.Controller.Coherence.Concluding.{Matches}
use route_deck.Controller.Coherence.Reconnecting.{Rested}

module _ (services : Services) where
  -- The later sections of a recovery run with no session, since the lock of the operation keeps the
  -- starts away. The monitor's later sections start with any snapshot, whose session still has its
  -- mode if it is the one that is active.
  pub data Step : State services → State services → Type 0 where
    world_moves : (w : services.World) (s : State services) → Step s (with_world services w s)
    asks : (q : ConnectionRequest) (s : State services) → Step s (set_intent services q s)
    starts_proxy :
        (node_id : Text) (routing : SystemProxyRouting) (s : State services)
        → Step s (start_system_proxy_locked services node_id routing s).1
    starts_tun :
        (node_id : Text) (routing : TunRouting services) (s : State services)
        → Step s (start_tun_locked services node_id routing s).1
    concludes_proxy :
        (q : Request services) (proof : Option ℕ) (s : State services)
        → q.mode ≡ RuntimeMode.system_proxy
        → Step s (finish_proxy_proof services q proof s).1
    concludes_tun :
        (q : Request services) (options : services.TunOptions)
        (proof : Option (ℕ × TunCaptureSnapshot)) (s : State services)
        → q.mode ≡ RuntimeMode.tun
        → Step s (finish_tun_proof services q options proof s).1
    finishes :
        (succeeded : Bool) (s : State services)
        → Step s (finish_connection_attempt services succeeded s)
    requests_stop : (s : State services) → Step s (stop_request services s)
    stops : (s : State services) → Step s (stop_active_locked services none s).1
    recovers_sessions :
        (r : Result RuntimeError (Unit {0})) (s : State services)
        → s.active ≡ none
        → Step s (sessions_recovered services r s).1
    reconciles_journal :
        (r : Result SystemProxyError (Unit {0})) (s : State services)
        → s.active ≡ none
        → Step s (journal_reconciled services r s).1
    retries : (s : State services) → Step s (retry_session_recovery services s).1
    begins_exit : (s : State services) → Step s (record s { shutting_down = true })
    exits : (s : State services) → Step s (shutdown_verdict services s).1
    begins_update : (s : State services) → Step s (begin_portable_update services s).1
    ends_update : (b : Bool) (s : State services) → Step s (drop_update_guard services b s)
    reconnects : (s : State services) → Step s (reconnect_tick services s)
    restarts_core :
        (a : ActiveSession services) (s : State services)
        → s.active ≡ some a
        → s.recovery_required ≡ false
        → mode_is a.mode RuntimeMode.tun ≡ true
        → (not (leb 6 a.consecutive_probe_failures) && not (restarts s.status.error)) ≡ false
        → Step s (restart_tun services a s).1
    observes : (s : State services) → Step s (observe services s).1
    concludes :
        (x : ProbeSnapshot services) (proof : Result RuntimeError ℕ) (s : State services)
        → Matches services x s
        → Step s (conclude_probe services x proof s)
    measures :
        (x : ProbeSnapshot services) (latency : Option ℕ) (s : State services)
        → Step s (conclude_latency services x latency s)

  pub data Reach (s : State services) : State services → Type 0 where
    here : Reach s s
    next : {t u : State services} → Reach s t → Step t u → Reach s u

  -- What a step of the reconnection needs: a session that is shown as ready is not one that counts
  -- six failed probes; and what the end of a renewed proof needs: no recovery was required meanwhile.
  abbrev pub RestedStep : {s t : State services} → Step s t → Type 0
  RestedStep (reconnects s) = Rested services s
  RestedStep (restarts_core a s e r m t) = Rested services s
  RestedStep (concludes_proxy q proof s m) = s.recovery_required ≡ false
  RestedStep (concludes_tun q options proof s m) = s.recovery_required ≡ false
  RestedStep _ = Unit {0}

  -- Every step on the way was such.
  abbrev pub RestedAlong : {s t : State services} → Reach s t → Type 0
  RestedAlong here = Unit {0}
  RestedAlong (next r st) = RestedAlong r × RestedStep st
