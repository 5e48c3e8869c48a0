-- ===== src/Controller/Readiness.antt =====
-- Application controller (src-tauri/src/application.rs): what the renewed proof of a session leaves.
use route_deck.Prelude.{ℕ, ◌≡◌, refl, Bool, true, false, not, ◌&&◌, none, some, Option}
use route_deck.Text.{Text}
use route_deck.Action.{ok}
use route_deck.Controller.Status.{RuntimeStatus, RuntimePhase}
use route_deck.Controller.Services.{Services, StoredNode}
use route_deck.Controller.Session.{
  State, ActiveSession, SystemProxyRouting, sync_reconnect_status, emit_status, update_status,
  set_proof,
}
use route_deck.Controller.Teardown.{Answer, with_world}
use route_deck.Controller.Proving.{set_check}
use route_deck.Controller.Requests.{Request, is_session, same_config, into_policy}
use route_deck.Controller.Connect.{
  proxy_verdict, conclude_proxy, finish_proxy_proof, connect_proxy, unless_closed,
  start_system_proxy_locked,
}
use route_deck.Controller.Coherence.{if_elim}

module _ (services : Services) where
  -- A success that leaves the session, the intent and the flags, and shows the ready phase.
  pub record IsReady (s : State services) (x : Answer services) : Type 0 where
    pub active : x.1.active ≡ s.active
    pub reconnect : x.1.reconnect ≡ s.reconnect
    pub shutting_down : x.1.shutting_down ≡ s.shutting_down
    pub recovery_required : x.1.recovery_required ≡ s.recovery_required
    pub phase : x.1.status.phase ≡ RuntimePhase.system_proxy_ready
    pub error : x.1.status.error ≡ none

  -- What is ready if it is a success.
  abbrev pub ReadyIfOk : State services → Answer services → Type 0
  ReadyIfOk s x = (t : RuntimeStatus) → x.0 ≡ ok t → IsReady s x

  proxy_verdict-ReadyIfOk :
      (node_id : Text) (proof : Option ℕ) (listener owned : Bool) (s : State services)
      → ReadyIfOk s (proxy_verdict services node_id proof listener owned s)
  unfolding proxy_verdict set_check update_status set_proof sync_reconnect_status emit_status
  proxy_verdict-ReadyIfOk node_id (some latency) true true s t h = record {
    active = refl;
    reconnect = refl;
    shutting_down = refl;
    recovery_required = refl;
    phase = refl;
    error = refl;
  }
  proxy_verdict-ReadyIfOk node_id (some latency) true false s t h = cc
  proxy_verdict-ReadyIfOk node_id (some latency) false owned s t h = cc
  proxy_verdict-ReadyIfOk node_id none listener owned s t h = cc

  with_world-ReadyIfOk :
      (w : services.World) (s : State services) (x : Answer services)
      → ReadyIfOk (with_world services w s) x
      → ReadyIfOk s x
  unfolding with_world
  with_world-ReadyIfOk w s x f t h =
      let r = f t h in
      record {
        active = r.active;
        reconnect = r.reconnect;
        shutting_down = r.shutting_down;
        recovery_required = r.recovery_required;
        phase = r.phase;
        error = r.error;
      }

  conclude_proxy-ReadyIfOk :
      (q : Request services) (proof : Option ℕ) (o : Option (ActiveSession services))
      (s : State services)
      → ReadyIfOk s (conclude_proxy services q proof o s)
  unfolding conclude_proxy
  conclude_proxy-ReadyIfOk q proof none s = λ t h. cc
  conclude_proxy-ReadyIfOk q proof (some a) s =
      if_elim (ReadyIfOk s) (is_session services q a) _ _
        (λ b.
          with_world-ReadyIfOk _ s _
            (proxy_verdict-ReadyIfOk q.node_id proof _ _ (with_world services _ s)))
        (λ b t h. cc)

  connect_proxy-ReadyIfOk :
      (q : Request services) (stored : Option StoredNode) (o : Option (ActiveSession services))
      (a : ActiveSession services) (s : State services)
      → o ≡ some a
      → ReadyIfOk s (connect_proxy services q stored o s)
  unfolding connect_proxy finish_proxy_proof
  connect_proxy-ReadyIfOk q stored none a s e = cc
  connect_proxy-ReadyIfOk q stored (some b) a s e =
      if_elim (ReadyIfOk s) (is_session services q b && same_config services b stored) _ _
        (λ u. with_world-ReadyIfOk _ s _ (conclude_proxy-ReadyIfOk q _ _ (with_world services _ s)))
        (λ u t h. cc)

  pub start_system_proxy_locked-ReadyIfOk :
      (node_id : Text) (routing : SystemProxyRouting) (a : ActiveSession services)
      (s : State services)
      → s.active ≡ some a
      → ReadyIfOk s (start_system_proxy_locked services node_id routing s)
  unfolding start_system_proxy_locked unless_closed
  start_system_proxy_locked-ReadyIfOk node_id routing a s e =
      if_elim (ReadyIfOk s)
        (not (services.valid_policy (into_policy routing.default_route routing.apps))) _ _
        (λ u t h. cc)
        (λ u.
          if_elim (ReadyIfOk s) s.shutting_down _ _ (λ v t h. cc)
            (λ v.
              if_elim (ReadyIfOk s) s.recovery_required _ _ (λ v t h. cc)
                (λ v. connect_proxy-ReadyIfOk _ _ s.active a s e)))
