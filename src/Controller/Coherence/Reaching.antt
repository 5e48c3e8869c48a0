-- ===== src/Controller/Coherence/Reaching.antt =====
-- The states that the steps of the threads reach are coherent.
use route_deck.Prelude.{◌≡◌, refl, Bool, true, false, not, Option, none, some}
use route_deck.Action.{Result, ok, err}
use route_deck.Domain.Tls.{is_some}
use route_deck.SystemProxy.Snapshot.{SystemProxyError}
use route_deck.Controller.Status.{RuntimeError, default_status}
use route_deck.Controller.Services.{Services}
use route_deck.Controller.Session.{State, ActiveSession, is_ready}
use route_deck.Controller.Teardown.{
  Answer, stop_request, retry_session_recovery, sessions_recovered, journal_reconciled,
  shutdown_verdict, begin_portable_update, drop_update_guard, with_world, may_update,
}
use route_deck.Controller.Steps.{Step, Reach, RestedStep, RestedAlong}
use route_deck.Controller.Monitor.{is_recovery}
use route_deck.Controller.Rows.{kinds-default_proofs}
use route_deck.Controller.Coherence.{IsCoherent, IsHonest, IsCoherent-with_world, if_elim}
use route_deck.Controller.Coherence.Stopping.{
  stop_active_locked-IsCoherent, needs_recovery-IsCoherent, reset_disconnected-IsCoherent,
}
use route_deck.Controller.Coherence.Watching.{observe-IsCoherent}
use route_deck.Controller.Coherence.Probing.{conclude_probe-IsCoherent, conclude_latency-IsCoherent}
use route_deck.Controller.Coherence.Connecting.{
  start_system_proxy_locked-IsCoherent, sync_reconnect_status-IsCoherent, set_intent-IsCoherent,
  conclude_proxy-IsCoherent, finish_connection_attempt-IsCoherent,
}
use route_deck.Controller.Connect.{finish_proxy_proof}
use route_deck.Controller.ConnectTun.{finish_tun_proof}
use route_deck.Controller.Coherence.Tunnelling.{
  start_tun_locked-IsCoherent, conclude_tun-IsCoherent,
}
use route_deck.Controller.Coherence.Reconnecting.{reconnect_tick-IsCoherent, restart_tun-failed}

module _ (services : Services) where
  -- Fields that coherence does not read.
  same :
      (s t : State services)
      → t.status ≡ s.status
      → t.published_status ≡ s.published_status
      → t.recovery_required ≡ s.recovery_required
      → t.active ≡ s.active
      → IsCoherent services s
      → IsCoherent services t
  same s t p q r a c = record {
    honest = rw p c.honest;
    published_honest = rw q c.published_honest;
    rows = rw p c.rows;
    review = rw (p, r) c.review;
    live = rw (p, a) c.live;
    started = rw (p, r, a) c.started;
  }

  stop_request-IsCoherent :
      (s : State services) → IsCoherent services s → IsCoherent services (stop_request services s)
  unfolding stop_request
  stop_request-IsCoherent s c =
      sync_reconnect_status-IsCoherent services _ (same s _ refl refl refl refl c)

  journal_reconciled-IsCoherent :
      (r : Result SystemProxyError (Unit {0})) (s : State services)
      → s.active ≡ none
      → IsCoherent services s
      → IsCoherent services (journal_reconciled services r s).1
  unfolding journal_reconciled
  journal_reconciled-IsCoherent (ok u) s a c =
      reset_disconnected-IsCoherent services (record s { recovery_required = false }) refl a
  journal_reconciled-IsCoherent (err e) s a c = needs_recovery-IsCoherent services none _ s c.rows

  sessions_recovered-IsCoherent :
      (r : Result RuntimeError (Unit {0})) (s : State services)
      → s.active ≡ none
      → IsCoherent services s
      → IsCoherent services (sessions_recovered services r s).1
  unfolding sessions_recovered with_world
  sessions_recovered-IsCoherent (ok u) s a c =
      journal_reconciled-IsCoherent _ _ a (IsCoherent-with_world services _ s c)
  sessions_recovered-IsCoherent (err e) s a c = needs_recovery-IsCoherent services none _ s c.rows

  none_of : (o : Option (ActiveSession services)) → is_some o ≡ false → o ≡ none
  none_of none h = refl
  none_of (some a) h = cc

  retry_session_recovery-IsCoherent :
      (s : State services)
      → IsCoherent services s
      → IsCoherent services (retry_session_recovery services s).1
  unfolding retry_session_recovery with_world
  retry_session_recovery-IsCoherent s c =
      if_elim (λ (x : Answer services). IsCoherent services x.1) (not s.recovery_required) _ _
        (λ t. c)
        (λ t.
          if_elim (λ (x : Answer services). IsCoherent services x.1) (is_some s.active) _ _
            (λ u. stop_active_locked-IsCoherent services none s c)
            (λ u.
              sessions_recovered-IsCoherent _ _ (none_of s.active u)
                (IsCoherent-with_world services _ s c)))

  shutdown_verdict-IsCoherent :
      (s : State services)
      → IsCoherent services s
      → IsCoherent services (shutdown_verdict services s).1
  unfolding shutdown_verdict
  shutdown_verdict-IsCoherent s c =
      if_elim (λ (x : Bool × State services). IsCoherent services x.1) (is_some s.active) _ _
        (λ t. same s _ refl refl refl refl c) (λ t. same s _ refl refl refl refl c)

  Step-IsCoherent :
      {s t : State services}
      → (st : Step services s t) → RestedStep services st
      → IsCoherent services s
      → IsCoherent services t
  unfolding begin_portable_update drop_update_guard finish_proxy_proof finish_tun_proof
  Step-IsCoherent (Step.world_moves w s) q c = IsCoherent-with_world services w s c
  Step-IsCoherent (Step.asks r s) q c = set_intent-IsCoherent services r s c
  Step-IsCoherent (Step.starts_proxy node_id routing s) q c =
      start_system_proxy_locked-IsCoherent services node_id routing s c
  Step-IsCoherent (Step.starts_tun node_id routing s) q c =
      start_tun_locked-IsCoherent services node_id routing s c
  Step-IsCoherent (Step.concludes_proxy r proof s m) q c =
      conclude_proxy-IsCoherent services r proof s.active s refl c q m
  Step-IsCoherent (Step.concludes_tun r options proof s m) q c =
      conclude_tun-IsCoherent services r options proof s.active s refl c q m
  Step-IsCoherent (Step.finishes b s) q c = finish_connection_attempt-IsCoherent services b s c
  Step-IsCoherent (Step.requests_stop s) q c = stop_request-IsCoherent s c
  Step-IsCoherent (Step.stops s) q c = stop_active_locked-IsCoherent services none s c
  Step-IsCoherent (Step.recovers_sessions r s a) q c = sessions_recovered-IsCoherent r s a c
  Step-IsCoherent (Step.reconciles_journal r s a) q c = journal_reconciled-IsCoherent r s a c
  Step-IsCoherent (Step.retries s) q c = retry_session_recovery-IsCoherent s c
  Step-IsCoherent (Step.begins_exit s) q c = same s _ refl refl refl refl c
  Step-IsCoherent (Step.exits s) q c = shutdown_verdict-IsCoherent s c
  Step-IsCoherent (Step.begins_update s) q c =
      if_elim (λ (x : _ × State services). IsCoherent services x.1) (may_update services s) _ _
        (λ t. same s _ refl refl refl refl c) (λ t. c)
  Step-IsCoherent (Step.ends_update true s) q c = c
  Step-IsCoherent (Step.ends_update false s) q c = same s _ refl refl refl refl c
  Step-IsCoherent (Step.reconnects s) q c = reconnect_tick-IsCoherent services s c q
  Step-IsCoherent (Step.restarts_core a s e r m t) q c = restart_tun-failed services a s c e r m t q
  Step-IsCoherent (Step.observes s) q c = (observe-IsCoherent services s c).at
  Step-IsCoherent (Step.concludes x proof s m) q c =
      conclude_probe-IsCoherent services x proof s c m
  Step-IsCoherent (Step.measures x latency s) q c =
      conclude_latency-IsCoherent services x latency s c

  -- The state in which the application starts, with nothing to recover.
  pub record IsFresh (s : State services) : Type 0 where
    pub status : s.status ≡ default_status
    pub published : s.published_status ≡ default_status
    pub calm : s.recovery_required ≡ false
    pub idle : s.active ≡ none

  IsFresh-IsCoherent : (s : State services) → IsFresh s → IsCoherent services s
  unfolding default_status is_ready is_recovery
  IsFresh-IsCoherent s h = record {
    honest = rw h.status honest;
    published_honest = rw h.published honest;
    rows = rw h.status kinds-default_proofs;
    review = rw (h.status, h.calm) refl;
    live = rw (h.status, h.idle) refl;
    started = rw (h.status, h.idle) refl;
  }
    where
      honest : IsHonest default_status
      honest = record { steady = λ p. cc; checked = λ p. cc; clean = λ p. refl; proved = refl }

  -- From a fresh start, after any steps of the threads in any order, the state is coherent: the
  -- status and the published one are honest (a latency is shown only of a session that is ready, a
  -- ready session shows no error, and every proof that its phase stands on has passed), there is a
  -- row for each proof, the phase asks for a recovery exactly if one is required, a System Proxy
  -- session that needs none keeps the proofs of its start, and without an active session the phase
  -- is an idle one. On the way no reconnection met a session that was shown as ready after six
  -- failed probes, and no renewed proof of an active session ended in a state in which a recovery
  -- had become required.
  pub Reach-IsCoherent :
      {s t : State services}
      → IsFresh s
      → (r : Reach services s t) → RestedAlong services r
      → IsCoherent services t
  Reach-IsCoherent {s} f Reach.here q = IsFresh-IsCoherent s f
  Reach-IsCoherent f (Reach.next r st) q = Step-IsCoherent st q.1 (Reach-IsCoherent f r q.0)
