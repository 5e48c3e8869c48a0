-- ===== src/Controller/Coherence/Connecting.antt =====
-- Connecting keeps the state coherent, whatever the user asks for and whatever fails.
use route_deck.Prelude.{
  ℕ, ◌≡◌, refl, sym, ap, ◌∙◌, Bool, true, false, not, ◌&&◌, Option, none, some, arith,
  if◌then◌else◌, holds_iff,
}
use route_deck.Text.{Text}
use route_deck.Action.{Result, ok, err}
use route_deck.Domain.Tls.{is_some}
use route_deck.Controller.Status.{RuntimePhase, RuntimeMode, RuntimeError, PublicError}
use route_deck.Controller.Services.{Services, StoredNode}
use route_deck.Controller.Session.{
  State, ActiveSession, ReconnectIntent, ConnectionRequest, SystemProxyRouting, update_status,
  set_proof, finish_connection_attempt, schedule, sync_reconnect_status, is_ready,
}
use route_deck.Controller.Teardown.{Answer, with_world}
use route_deck.Controller.Starting.{Start, ready_phase}
use route_deck.Controller.Rollback.{begin_diagnostic_attempt}
use route_deck.Controller.Connect.{
  proxy_verdict, conclude_proxy, finish_proxy_proof, started_proxy, connect_proxy, unless_closed,
  start_system_proxy_locked, set_intent, finished,
}
use route_deck.Controller.Requests.{
  Request, RuntimeMode-discrete, is_session, same_config, into_policy,
}
use route_deck.Controller.Monitor.{is_recovery}
use route_deck.Controller.MonitorProof.{renew}
use route_deck.Controller.Coherence.{IsCoherent, IsCoherent-with_world, if_elim, []}
use route_deck.Controller.Coherence.Losing.{degraded-IsCoherent}
use route_deck.Controller.Coherence.Watching.{Watches, Watches-with_world}
use route_deck.Controller.Coherence.Concluding.{
  renew-MayShow, ready-IsCoherent, republish-IsCoherent,
}
use route_deck.Controller.Coherence.Undoing.{roll_back_system_proxy-IsCoherent}
use route_deck.Controller.Coherence.Staging.{Stage, Outcome}
use route_deck.Controller.Coherence.Announcing.{start_locked-Goes}

module _ (services : Services) where
  -- A proof that failed, of a session that stays.
  unproved :
      (owned : Bool) (node_id : Option Text) (e : PublicError) (a : ActiveSession services)
      (s : State services)
      → Watches services a s
      → IsCoherent services (
          update_status services
            (if owned then RuntimePhase.degraded else RuntimePhase.blocked_by_conflict)
            node_id
            (some e)
            s)
  unfolding is_ready is_recovery
  unproved true node_id e a s h =
      degraded-IsCoherent services RuntimePhase.degraded node_id (some e) s refl refl
        (ap is_some h.active) h.coherent.rows h.calm h.coherent.started
  unproved false node_id e a s h =
      degraded-IsCoherent services RuntimePhase.blocked_by_conflict node_id (some e) s refl refl
        (ap is_some h.active) h.coherent.rows h.calm h.coherent.started

  proxy_verdict-IsCoherent :
      (node_id : Text) (proof : Option ℕ) (listener owned : Bool) (a : ActiveSession services)
      (s : State services)
      → Watches services a s
      → RuntimeMode.system_proxy ≡ a.mode
      → IsCoherent services (proxy_verdict services node_id proof listener owned s).1
  unfolding proxy_verdict ready_phase set_proof renew
  proxy_verdict-IsCoherent node_id (some latency) true true a s h m =
      ready-IsCoherent services RuntimeMode.system_proxy (some node_id) _
        (renew-MayShow services RuntimeMode.system_proxy latency a s h.active m h.coherent h.calm)
  proxy_verdict-IsCoherent node_id (some latency) true false a s h m = unproved false _ _ a s h
  proxy_verdict-IsCoherent node_id (some latency) false owned a s h m = unproved owned _ _ a s h
  proxy_verdict-IsCoherent node_id none listener owned a s h m = unproved owned _ _ a s h

  pub mode-is_session :
      (q : Request services) (a : ActiveSession services)
      → is_session services q a ≡ true
      → q.mode ≡ a.mode
  unfolding is_session
  mode-is_session q a h = sym (holds_iff (RuntimeMode-discrete a.mode q.mode) (ground arith))

  pub conclude_proxy-IsCoherent :
      (q : Request services) (proof : Option ℕ) (o : Option (ActiveSession services))
      (s : State services)
      → s.active ≡ o
      → IsCoherent services s
      → s.recovery_required ≡ false
      → q.mode ≡ RuntimeMode.system_proxy
      → IsCoherent services (conclude_proxy services q proof o s).1
  unfolding conclude_proxy
  conclude_proxy-IsCoherent q proof none s e c r m = c
  conclude_proxy-IsCoherent q proof (some a) s e c r m =
      if_elim (λ (x : Answer services). IsCoherent services x.1) (is_session services q a) _ _
        (λ t.
          proxy_verdict-IsCoherent q.node_id proof _ _ a _
            (Watches-with_world services _ a s (record { coherent = c; active = e; calm = r }))
            (sym m ∙ mode-is_session q a t))
        (λ t. c)

  started_proxy-IsCoherent :
      (r : Start services) (rs : Result RuntimeError (Unit {0}) × State services)
      → Outcome services (λ u. IsCoherent services) rs.0 rs.1
      → IsCoherent services (started_proxy services r rs).1
  unfolding started_proxy Outcome
  started_proxy-IsCoherent r (ok u, s) h = h
  started_proxy-IsCoherent r (err e, s) h =
      roll_back_system_proxy-IsCoherent services _ e r.redactor s h.rows h.calm

  -- A coherent state that needs no recovery is where a start may begin.
  pub Stage-begin :
      (s : State services)
      → IsCoherent services s
      → s.recovery_required ≡ false
      → Stage services [] (begin_diagnostic_attempt services s)
  unfolding begin_diagnostic_attempt
  Stage-begin s c r = record { rows = c.rows; calm = r; passed = refl }

  connect_proxy-IsCoherent :
      (q : Request services) (stored : Option StoredNode) (o : Option (ActiveSession services))
      (s : State services)
      → s.active ≡ o
      → IsCoherent services s
      → s.recovery_required ≡ false
      → q.mode ≡ RuntimeMode.system_proxy
      → IsCoherent services (connect_proxy services q stored o s).1
  unfolding connect_proxy finish_proxy_proof with_world
  connect_proxy-IsCoherent q stored (some a) s e c r m =
      if_elim (λ (x : Answer services). IsCoherent services x.1)
        (is_session services q a && same_config services a stored) _ _
        (λ t.
          conclude_proxy-IsCoherent q _ s.active _ refl (IsCoherent-with_world services _ s c) r m)
        (λ t. c)
  connect_proxy-IsCoherent q none none s e c r m = c
  connect_proxy-IsCoherent q (some n) none s e c r m =
      started_proxy-IsCoherent _ _ ((start_locked-Goes services _).triple.at _ (Stage-begin s c r))

  pub unless_closed-IsCoherent :
      (s : State services) (go : Answer services)
      → IsCoherent services s
      → (s.recovery_required ≡ false → IsCoherent services go.1)
      → IsCoherent services (unless_closed services s go).1
  unfolding unless_closed
  unless_closed-IsCoherent s go c h =
      if_elim (λ (x : Answer services). IsCoherent services x.1) s.shutting_down _ _ (λ t. c)
        (λ t.
          if_elim (λ (x : Answer services). IsCoherent services x.1) s.recovery_required _ _
            (λ u. c) h)

  pub start_system_proxy_locked-IsCoherent :
      (node_id : Text) (routing : SystemProxyRouting) (s : State services)
      → IsCoherent services s
      → IsCoherent services (start_system_proxy_locked services node_id routing s).1
  unfolding start_system_proxy_locked
  start_system_proxy_locked-IsCoherent node_id routing s c =
      if_elim (λ (x : Answer services). IsCoherent services x.1)
        (not (services.valid_policy (into_policy routing.default_route routing.apps))) _ _ (λ t. c)
        (λ t.
          unless_closed-IsCoherent s _ c
            (λ r. connect_proxy-IsCoherent _ _ s.active s refl c r refl))

  schedule-IsCoherent :
      (b : Bool) (o : Option ReconnectIntent) (s : State services)
      → IsCoherent services s
      → IsCoherent services (schedule services b o s)
  unfolding schedule
  schedule-IsCoherent b none s c = c
  schedule-IsCoherent b (some i) s c = record {
    honest = c.honest;
    published_honest = c.published_honest;
    rows = c.rows;
    review = c.review;
    live = c.live;
    started = c.started;
  }

  pub sync_reconnect_status-IsCoherent :
      (s : State services)
      → IsCoherent services s
      → IsCoherent services (sync_reconnect_status services s)
  unfolding sync_reconnect_status
  sync_reconnect_status-IsCoherent s c = record {
    honest = record {
      steady = c.honest.steady;
      checked = c.honest.checked;
      clean = c.honest.clean;
      proved = c.honest.proved;
    };
    published_honest = c.published_honest;
    rows = c.rows;
    review = c.review;
    live = c.live;
    started = c.started;
  }

  pub finish_connection_attempt-IsCoherent :
      (b : Bool) (s : State services)
      → IsCoherent services s
      → IsCoherent services (finish_connection_attempt services b s)
  unfolding finish_connection_attempt
  finish_connection_attempt-IsCoherent b s c =
      republish-IsCoherent services _
        (sync_reconnect_status-IsCoherent _ (schedule-IsCoherent b s.reconnect s c))

  pub finished-IsCoherent :
      (x : Answer services) → IsCoherent services x.1 → IsCoherent services (finished services x).1
  unfolding finished
  finished-IsCoherent (ok t, s) c = finish_connection_attempt-IsCoherent true s c
  finished-IsCoherent (err e, s) c = finish_connection_attempt-IsCoherent false s c

  pub set_intent-IsCoherent :
      (request : ConnectionRequest) (s : State services)
      → IsCoherent services s
      → IsCoherent services (set_intent services request s)
  unfolding set_intent
  set_intent-IsCoherent request s c = record {
    honest = c.honest;
    published_honest = c.published_honest;
    rows = c.rows;
    review = c.review;
    live = c.live;
    started = c.started;
  }
