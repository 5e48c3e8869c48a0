-- ===== src/Controller/Refusing.antt =====
-- Application controller (src-tauri/src/application.rs): a request that another session refuses.
use route_deck.Controller.Resuming.{schedule-active, finish_connection_attempt-reconnect}
use route_deck.Domain.Routes.{RoutePolicy-discrete}
use route_deck.Controller.Coherence.{if_elim}
use mathlib.Core.Option.{some-injective}
use route_deck.Domain.Tls.{is_some}
use route_deck.Text.{Text, Text-discrete}
use route_deck.Action.{err}
use route_deck.Controller.Teardown.{Answer, with_world}
use route_deck.Controller.Status.{PublicError, RuntimeMode}
use route_deck.Controller.Connect.{
  set_intent, start_system_proxy_locked, may_request, start_system_proxy, connect_proxy, finished,
  unless_closed,
}
use route_deck.Controller.Requests.{
  is_session, conflict_error, Request, RuntimeMode-discrete, into_policy, find_node, same_config,
}
use route_deck.Prelude.{
  ◌≡◌, refl, sym, ap, ◌∙◌, subst, true, false, not, ◌&&◌, none, some, Option, arith, holds, ◌+◌,
  ◌*◌, if◌then◌else◌,
}
use route_deck.Controller.Services.{Services, StoredNode}
use route_deck.Controller.Session.{
  State, ActiveSession, SystemProxyRouting, ConnectionRequest, ReconnectIntent,
  finish_connection_attempt, schedule, reconnect_delay, sync_reconnect_status, republish, second,
  emit_status, after_attempt, pausing_error,
}

module _ (services : Services) where
  abbrev pub conflict : PublicError
  conflict = conflict_error "Stop the active connection before changing System Proxy routing"

  other_session :
      (q : Request services) (a : ActiveSession services)
      → q.mode ≡ RuntimeMode.system_proxy
      → a.mode ≡ RuntimeMode.tun
      → is_session services q a ≡ false
  unfolding is_session RuntimeMode-discrete
  other_session q a h k =
      subst
        (λ m.
          (holds (RuntimeMode-discrete m q.mode)
            && holds (Text-discrete a.node_id q.node_id)
            && holds (RoutePolicy-discrete a.routing q.policy)
            && (if a.naive_udp_over_tcp then q.naive_udp_over_tcp else not q.naive_udp_over_tcp))
          ≡ false)
        (sym k)
        (subst
          (λ m.
            (holds (RuntimeMode-discrete RuntimeMode.tun m)
              && holds (Text-discrete a.node_id q.node_id)
              && holds (RoutePolicy-discrete a.routing q.policy)
              && (if a.naive_udp_over_tcp then q.naive_udp_over_tcp else not q.naive_udp_over_tcp))
            ≡ false)
          (sym h) refl)

  connect_proxy-conflict :
      (q : Request services) (stored : Option StoredNode) (o : Option (ActiveSession services))
      (a : ActiveSession services) (s : State services)
      → q.mode ≡ RuntimeMode.system_proxy
      → o ≡ some a
      → a.mode ≡ RuntimeMode.tun
      → connect_proxy services q stored o s ≡ (err conflict, s)
  unfolding connect_proxy
  connect_proxy-conflict q stored none a s h e k = cc
  connect_proxy-conflict q stored (some b) a s h e k =
      if_elim (λ x. x ≡ (err conflict, s))
        (is_session services q b && same_config services b stored) _ _
        (λ t. absurd (ground (arith, other_session q b h (tun_mode e)))) (λ t. refl)
    where
      tun_mode :
          ◌≡◌ {A = Option (ActiveSession services)} (some b) (some a) → b.mode ≡ RuntimeMode.tun
      tun_mode e = ap (λ (x : ActiveSession services). x.mode) (some-injective b a e) ∙ k

  -- What lets a request through: no exit, no recovery, and valid rules.
  start_system_proxy_locked-conflict :
      (node_id : Text) (routing : SystemProxyRouting) (a : ActiveSession services)
      (s : State services)
      → services.valid_policy (into_policy routing.default_route routing.apps) ≡ true
      → may_request services s ≡ true
      → s.active ≡ some a
      → a.mode ≡ RuntimeMode.tun
      → start_system_proxy_locked services node_id routing s ≡ (err conflict, s)
  unfolding start_system_proxy_locked unless_closed may_request
  start_system_proxy_locked-conflict node_id routing a s v m h k =
      if_elim (λ x. x ≡ (err conflict, s))
        (not (services.valid_policy (into_policy routing.default_route routing.apps))) _ _
        (λ t. absurd (ground arith))
        (λ t.
          if_elim (λ x. x ≡ (err conflict, s)) s.shutting_down _ _ (λ t. absurd (ground arith))
            (λ t.
              if_elim (λ x. x ≡ (err conflict, s)) s.recovery_required _ _
                (λ t. absurd (ground arith))
                (λ t. connect_proxy-conflict _ _ s.active a s refl h k)))

  -- The request is refused, and is the intent.
  pub record IsRemembered (q : ConnectionRequest) (a : ActiveSession services) (x : Answer services)
      : Type 0 where
    pub is_refused : x.0 ≡ err conflict
    pub still_active : x.1.active ≡ some a
    pub intent : ReconnectIntent
    pub is_intent : x.1.reconnect ≡ some intent
    pub is_request : intent.request ≡ q

  finished-IsRemembered :
      (q : ConnectionRequest) (a : ActiveSession services) (i : ReconnectIntent)
      (s : State services)
      → s.active ≡ some a
      → s.reconnect ≡ some i
      → i.request ≡ q
      → IsRemembered q a (finished services (err conflict, s))
  unfolding finished finish_connection_attempt schedule sync_reconnect_status republish emit_status
  finished-IsRemembered q a i s h e r = record {
    is_refused = refl;
    still_active = schedule-active services false s.reconnect s ∙ h;
    intent =
        after_attempt services false (pausing_error services s.status.error)
          (not (is_some s.active)) (services.now s.world).0 i;
    is_intent = finish_connection_attempt-reconnect services false i s e;
    is_request = request_kept;
  }
    where
      request_kept :
          (after_attempt services false
            (pausing_error services s.status.error)
            (not (is_some s.active))
            (services.now s.world).0
            i).request
          ≡ q
      request_kept = r

  pub may_request-set_intent :
      (q : ConnectionRequest) (s : State services)
      → may_request services s ≡ true
      → may_request services (set_intent services q s) ≡ true
  unfolding may_request set_intent with_world
  may_request-set_intent q s h = h

  pub active-set_intent :
      (q : ConnectionRequest) (s : State services) → (set_intent services q s).active ≡ s.active
  unfolding set_intent with_world
  active-set_intent q s = refl

  abbrev pub intent_of : ConnectionRequest → State services → ReconnectIntent
  intent_of q s = record {
    request = q;
    failures = 0;
    next_attempt = (services.now s.world).0 + reconnect_delay 0 * second;
    paused = false;
  }

  pub reconnect-set_intent :
      (q : ConnectionRequest) (s : State services)
      → (set_intent services q s).reconnect ≡ some (intent_of q s)
  unfolding set_intent with_world
  reconnect-set_intent q s = refl

  -- If the System Proxy is asked for with a policy that is valid and a node that is stored, no exit
  -- and no recovery stands in the way, and a TUN session is active, then the request is refused as a
  -- conflict and the session stays active; and yet the intent of reconnection is now that of the
  -- refused request, whatever it was before.
  pub start_system_proxy-IsRemembered :
      (node_id : Text) (routing : SystemProxyRouting) (a : ActiveSession services)
      (s : State services)
      → services.valid_policy (into_policy routing.default_route routing.apps) ≡ true
      → is_some (find_node node_id s.nodes) ≡ true
      → may_request services s ≡ true
      → s.active ≡ some a
      → a.mode ≡ RuntimeMode.tun
      → IsRemembered
          (ConnectionRequest.proxy node_id routing)
          a
          (start_system_proxy services node_id routing s)
  unfolding start_system_proxy
  start_system_proxy-IsRemembered node_id routing a s v n m h k =
      let q = ConnectionRequest.proxy node_id routing in
      let s' = set_intent services q s in
      if_elim (IsRemembered q a)
        (not (services.valid_policy (into_policy routing.default_route routing.apps))) _ _
        (λ t. absurd (ground arith))
        (λ t.
          if_elim (IsRemembered q a) (not (is_some (find_node node_id s.nodes))) _ _
            (λ t. absurd (ground arith))
            (λ t.
              if_elim (IsRemembered q a) (not (may_request services s)) _ _
                (λ t. absurd (ground arith))
                (λ t.
                  subst (λ x. IsRemembered q a (finished services x))
                    (sym (
                      start_system_proxy_locked-conflict node_id routing a s' v
                        (may_request-set_intent q s m) (active-set_intent q s ∙ h) k))
                    (finished-IsRemembered q a (intent_of q s) s' (active-set_intent q s ∙ h)
                      (reconnect-set_intent q s) refl))))
