-- ===== src/Controller/Reproving.antt =====
-- Application controller (src-tauri/src/application.rs): a request that the active session answers.
use route_deck.Prelude.{
  ◌≡◌, ◌≤◌, refl, sym, ap, ◌∙◌, subst, true, false, not, ◌||◌, none, some, Option, arith, ltb, leb,
}
use mathlib.Core.Option.{some-injective}
use route_deck.Text.{Text}
use route_deck.Action.{ok, err}
use route_deck.Domain.Tls.{is_some}
use route_deck.Controller.Status.{RuntimeStatus, RuntimeMode}
use route_deck.Controller.Services.{Services}
use route_deck.Controller.Session.{
  State, ActiveSession, SystemProxyRouting, ConnectionRequest, ReconnectIntent, is_blocked,
  finish_connection_attempt, schedule, sync_reconnect_status, republish, emit_status, after_attempt,
  pausing_error, is_tun,
}
use route_deck.Controller.Teardown.{Answer, with_world, stop_active_locked}
use route_deck.Controller.Monitor.{observe, Observed}
use route_deck.Controller.Requests.{find_node, into_policy, RuntimeMode-discrete}
use route_deck.Controller.Connect.{may_request, set_intent, finished, start_system_proxy}
use route_deck.Controller.Coherence.{if_elim}
use route_deck.Controller.Refusing.{
  intent_of, may_request-set_intent, active-set_intent, reconnect-set_intent,
}
use route_deck.Controller.Resuming.{
  IsOpen, later, time, schedule-active, schedule-IsOpen, finish_connection_attempt-reconnect,
  after_attempt-paused,
}
use route_deck.Controller.Reconnect.{reconnect_tick, when_due, reconnect, stopped_first, mode_is}
use route_deck.Controller.Readiness.{IsReady, ReadyIfOk, start_system_proxy_locked-ReadyIfOk}

module _ (services : Services) where
  IsReady-IsOpen :
      (s : State services) (x : Answer services)
      → may_request services s ≡ true
      → IsReady services s x
      → IsOpen services x.1
  unfolding may_request is_blocked
  IsReady-IsOpen s x m r = rw r.shutting_down (rw r.recovery_required (rw r.phase (ground arith)))

  -- A tick that is due, over a session whose proofs failed for long.
  reconnect_tick-stops :
      (i : ReconnectIntent) (q : ConnectionRequest) (a : ActiveSession services)
      (s : State services)
      → IsOpen services s
      → s.reconnect ≡ some i
      → i.request ≡ q
      → i.paused ≡ false
      → s.active ≡ some a
      → a.mode ≡ RuntimeMode.system_proxy
      → 6 ≤ a.consecutive_probe_failures
      → i.next_attempt ≤ time services s.world
      → reconnect_tick services s
        ≡ stopped_first services q
            (stop_active_locked services none (with_world services (later services s.world) s))
  unfolding reconnect_tick reconnect when_due mode_is RuntimeMode-discrete
  reconnect_tick-stops i q a s o h e p k m f t =
      if_elim (λ x. x ≡ stopping q)
        (s.shutting_down || s.recovery_required || is_blocked s.status.phase) _ _
        (λ b. absurd (ground arith))
        (λ b. subst (λ x. when_due services x s ≡ stopping q) (sym h) due)
    where
      stopping : ConnectionRequest → State services
      stopping r =
          stopped_first services r
            (stop_active_locked services none (with_world services (later services s.world) s))

      again :
          (r : ConnectionRequest) (c : Option (ActiveSession services))
          → r ≡ q
          → c ≡ some a
          → reconnect services r c (with_world services (later services s.world) s) ≡ stopping q
      again r none g u = cc
      again r (some b) g u =
          let same = some-injective b a u in
          if_elim (λ x. x ≡ stopping q) (mode_is b.mode RuntimeMode.system_proxy) _ _
            (λ v.
              if_elim (λ x. x ≡ stopping q) (leb 6 b.consecutive_probe_failures) _ _
                (λ v. ap stopping g)
                (λ v. absurd (
                  ground (
                    arith,
                    ap (λ (x : ActiveSession services). x.consecutive_probe_failures) same,
                  ))))
            (λ v. absurd (
              ground (
                arith,
                subst (λ n. mode_is n RuntimeMode.system_proxy ≡ true)
                    (sym (ap (λ (x : ActiveSession services). x.mode) same ∙ m)) refl,
              )))

      due : when_due services (some i) s ≡ stopping q
      due =
          if_elim (λ x. x ≡ stopping q) i.paused _ _ (λ b. absurd (ground arith))
            (λ b.
              if_elim (λ x. x ≡ stopping q) (ltb (time services s.world) i.next_attempt) _ _
                (λ u. absurd (ground arith)) (λ u. again i.request s.active e k))

  -- After an answer that is a success, every tick that is due tears the session down first.
  abbrev TornDown : Text → SystemProxyRouting → Answer services → Type 0
  TornDown node_id routing x =
      (t : RuntimeStatus) (i : ReconnectIntent) (w : services.World)
      → x.0 ≡ ok t
      → x.1.reconnect ≡ some i
      → i.next_attempt ≤ time services w
      → reconnect_tick services (with_world services w x.1)
        ≡ stopped_first services (ConnectionRequest.proxy node_id routing)
            (stop_active_locked services none (with_world services (later services w) x.1))

  reproved-TornDown :
      (node_id : Text) (routing : SystemProxyRouting) (a : ActiveSession services)
      (j : ReconnectIntent) (u : RuntimeStatus) (s s' : State services)
      → IsReady services s' (ok u, s)
      → may_request services s' ≡ true
      → s'.active ≡ some a
      → s'.reconnect ≡ some j
      → j.request ≡ ConnectionRequest.proxy node_id routing
      → j.paused ≡ false
      → a.mode ≡ RuntimeMode.system_proxy
      → 6 ≤ a.consecutive_probe_failures
      → TornDown node_id routing (finished services (ok u, s))
  unfolding finished finish_connection_attempt schedule sync_reconnect_status republish emit_status
      with_world pausing_error is_tun
  reproved-TornDown node_id routing a j u s s' r m e h q p k f t i w g v d =
      let n =
        after_attempt services true (pausing_error services s.status.error) (not (is_some s.active))
          (time services s.world) j in
      let c =
        some-injective i n
          (sym v ∙ finish_connection_attempt-reconnect services true j s (r.reconnect ∙ h)) in
      reconnect_tick-stops i (ConnectionRequest.proxy node_id routing) a
        (with_world services w (finish_connection_attempt services true s))
        (schedule-IsOpen services true s.reconnect s (IsReady-IsOpen s' (ok u, s) m r)) v
        (ap (λ (x : ReconnectIntent). x.request) c ∙ q)
        (ap (λ (x : ReconnectIntent). x.paused) c
          ∙ after_attempt-paused services true (pausing_error services s.status.error)
              (not (is_some s.active)) (time services s.world) j p
              (subst (λ o. pausing_error services o ≡ false) (sym r.error) refl)
              (subst (λ x. is_tun x ≡ false) (sym q) refl))
        (schedule-active services true s.reconnect s ∙ (r.active ∙ e)) k f d

  finished-TornDown :
      (node_id : Text) (routing : SystemProxyRouting) (a : ActiveSession services)
      (j : ReconnectIntent) (s' : State services) (x : Answer services)
      → ReadyIfOk services s' x
      → may_request services s' ≡ true
      → s'.active ≡ some a
      → s'.reconnect ≡ some j
      → j.request ≡ ConnectionRequest.proxy node_id routing
      → j.paused ≡ false
      → a.mode ≡ RuntimeMode.system_proxy
      → 6 ≤ a.consecutive_probe_failures
      → TornDown node_id routing (finished services x)
  unfolding finished
  finished-TornDown node_id routing a j s' (ok u, s) r m e h q p k f =
      reproved-TornDown node_id routing a j u s s' (r u refl) m e h q p k f
  finished-TornDown node_id routing a j s' (err y, s) r m e h q p k f = λ t i w g v d. cc

  start_system_proxy-TornDown :
      (node_id : Text) (routing : SystemProxyRouting) (a : ActiveSession services)
      (s : State services)
      → s.active ≡ some a
      → a.mode ≡ RuntimeMode.system_proxy
      → 6 ≤ a.consecutive_probe_failures
      → TornDown node_id routing (start_system_proxy services node_id routing s)
  unfolding start_system_proxy
  start_system_proxy-TornDown node_id routing a s e k f =
      let q = ConnectionRequest.proxy node_id routing in
      let s' = set_intent services q s in
      if_elim (TornDown node_id routing)
        (not (services.valid_policy (into_policy routing.default_route routing.apps))) _ _
        (λ u t i w h. cc)
        (λ u.
          if_elim (TornDown node_id routing) (not (is_some (find_node node_id s.nodes))) _ _
            (λ u t i w h. cc)
            (λ u.
              if_elim (TornDown node_id routing) (not (may_request services s)) _ _
                (λ u t i w h. cc)
                (λ m.
                  finished-TornDown node_id routing a (intent_of services q s) s' _
                    (start_system_proxy_locked-ReadyIfOk services node_id routing a s'
                      (active-set_intent services q s ∙ e))
                    (may_request-set_intent services q s (ground (arith, m)))
                    (active-set_intent services q s ∙ e) (reconnect-set_intent services q s) refl
                    refl k f)))

  -- If the System Proxy is asked for while a System Proxy session is active that counts six or more
  -- failed proofs in a row, then a success, which takes a proof of the session's traffic, does not
  -- save the session: if nothing changes the state but for the world until the monitor observes it,
  -- that observation finds no probe to be due and changes nothing either, and the intent is due, then
  -- the reconnect_tick after it stops the session before anything else.
  pub reconnect_tick-start_system_proxy :
      (node_id : Text) (routing : SystemProxyRouting) (a : ActiveSession services)
      (s : State services) (t : RuntimeStatus) (i : ReconnectIntent) (w w' : services.World)
      → s.active ≡ some a
      → a.mode ≡ RuntimeMode.system_proxy
      → 6 ≤ a.consecutive_probe_failures
      → (start_system_proxy services node_id routing s).0 ≡ ok t
      → (start_system_proxy services node_id routing s).1.reconnect ≡ some i
      → observe services (with_world services w (start_system_proxy services node_id routing s).1)
        ≡ (none, with_world services w' (start_system_proxy services node_id routing s).1)
      → i.next_attempt ≤ time services w'
      → reconnect_tick services
          (observe services
            (with_world services w (start_system_proxy services node_id routing s).1)).1
        ≡ stopped_first services (ConnectionRequest.proxy node_id routing) (
            stop_active_locked services none (
              with_world services
                (later services w')
                (start_system_proxy services node_id routing s).1))
  reconnect_tick-start_system_proxy node_id routing a s t i w w' e k f h v o d =
      ap (λ (x : Observed services). reconnect_tick services x.1) o
      ∙ start_system_proxy-TornDown node_id routing a s e k f t i w' h v d
