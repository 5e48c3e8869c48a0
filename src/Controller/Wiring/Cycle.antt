-- ===== src/Controller/Wiring/Cycle.antt =====
-- Connect and disconnect over the System Proxy, from the user's settings back to them.
use route_deck.Domain.Tls.{is_some}
use route_deck.Controller.Cleanup.{IsFailed}
use route_deck.Controller.Wiring.Readying.{Ready, start_locked-Takes}
use route_deck.Controller.Coherence.{if_elim}
use route_deck.Controller.Wiring.Ending.{Calm-sync_reconnect_status, Calm, Calm-emit_status}
use route_deck.Text.{Text}
use route_deck.Controller.Wiring.Undoing.{
  reviewed, RolledBack, undone, roll_back_system_proxy-RolledBack,
}
use route_deck.Controller.Wiring.Leasing.{Leased, Reaches, holds_proxy}
use route_deck.Controller.Rollback.{begin_diagnostic_attempt}
use route_deck.Controller.Starting.{Start}
use route_deck.Controller.Status.{PublicError, RuntimeMode, RuntimeError, RuntimeStatus}
use route_deck.Controller.Connect.{
  started_proxy, connect_proxy, start_system_proxy_locked, unless_closed, start_system_proxy,
  finished, set_intent, may_request,
}
use route_deck.Controller.Requests.{Request, node_missing, into_policy, find_node}
use route_deck.Prelude.{
  ◌≡◌, refl, sym, ◌∙◌, Bool, true, false, inl, inr, Option, some, none, subst, not, ap,
}
use route_deck.Action.{Result, ok, err}
use route_deck.Controller.Teardown.{Answer, with_world}
use route_deck.SystemProxy.Platform.{Platform, PlatformLaws}
use route_deck.Controller.Services.{Services, StoredNode}
use route_deck.Controller.Session.{
  State, ActiveSession, finish_connection_attempt, schedule, republish, ReconnectIntent,
  sync_reconnect_status, SystemProxyRouting, emit_status, saturating_suc, u64_max,
  ConnectionRequest,
}
use route_deck.Controller.Wiring.{Wiring, SparesSink}
use route_deck.SystemProxy.Manager.Steps.{Same, Same-refl, Same-trans}

abbrev Succeeded : {A : Type 0} → Result PublicError A → Type 0
Succeeded (ok a) = Unit {0}
Succeeded (err e) = ⊥

module _ (p : Platform) (l : PlatformLaws p) (services : Services)
    (wiring : Wiring p l services) where
  open wiring use {view}
  open l use {settings, file}

  -- The outcomes of a connection from the settings `v`.
  pub data Connects (v : p.World) : Answer services → Type 0 where
    connected :
        {x : Answer services} → Succeeded x.0 → Leased p l services wiring v x.1 → Connects v x
    rolled_back : {x : Answer services} → RolledBack p l services wiring v x → Connects v x

  refused_at_once :
      (v : p.World) (e : PublicError) (s : State services)
      → Calm p l services wiring v s
      → Connects v (err e, s)
  refused_at_once v e s c = rolled_back (undone tt c.sink (inl c.same.settings_same))

  started_proxy-Connects :
      (v : p.World) (r : Start services)
      → r.mode ≡ RuntimeMode.system_proxy
      → (x : Result RuntimeError (Unit {0}) × State services)
      → Reaches p l services wiring v (λ u. Ready p l services wiring r.mode v) x.0 x.1
      → Connects v (started_proxy services r x)
  unfolding started_proxy
  started_proxy-Connects v r m (ok u, s) h =
      connected tt (subst (λ k. Ready p l services wiring k v s) m h)
  started_proxy-Connects v r m (err e, s) h =
      rolled_back
        (roll_back_system_proxy-RolledBack p l services wiring v (some r.node_id) e r.redactor s h)

  connect_proxy-Connects :
      (v : p.World) (q : Request services) (stored : Option StoredNode)
      (o : Option (ActiveSession services)) (s : State services)
      → Calm p l services wiring v s
      → s.active ≡ none
      → o ≡ none
      → Connects v (connect_proxy services q stored o s)
  unfolding connect_proxy begin_diagnostic_attempt
  connect_proxy-Connects v q none none s c a e = refused_at_once v node_missing s c
  connect_proxy-Connects v q (some n) none s c a e = started_proxy-Connects v _ refl _ (
      (start_locked-Takes p l services wiring v _).triple.at (begin_diagnostic_attempt services s)
        (record {
          calm = record { same = c.same; sink = c.sink };
          unheld = ap (holds_proxy services) a;
        }))
  connect_proxy-Connects v q stored (some b) s c a e = cc

  start_system_proxy_locked-Connects :
      (v : p.World) (node_id : Text) (routing : SystemProxyRouting) (s : State services)
      → Calm p l services wiring v s
      → s.active ≡ none
      → Connects v (start_system_proxy_locked services node_id routing s)
  unfolding start_system_proxy_locked unless_closed
  start_system_proxy_locked-Connects v node_id routing s c a =
      if_elim (Connects v)
        (not (services.valid_policy (into_policy routing.default_route routing.apps))) _ _
        (λ t. refused_at_once v _ s c)
        (λ t.
          if_elim (Connects v) s.shutting_down _ _ (λ t. refused_at_once v _ s c)
            (λ t.
              if_elim (Connects v) s.recovery_required _ _ (λ t. refused_at_once v _ s c)
                (λ t. connect_proxy-Connects v _ _ s.active s c a a)))

  -- What the end of an attempt leaves.
  record Kept (s t : State services) : Type 0 where
    same : Same p l (view s.world) (view t.world)
    same_sink : t.event_sink ≡ s.event_sink
    same_active : t.active ≡ s.active
    same_review : t.recovery_required ≡ s.recovery_required

  schedule-Kept :
      (b : Bool) (o : Option ReconnectIntent) (s : State services)
      → Kept s (schedule services b o s)
  unfolding schedule
  schedule-Kept b none s = record {
    same = Same-refl p l _;
    same_sink = refl;
    same_active = refl;
    same_review = refl;
  }
  schedule-Kept b (some i) s = record {
    same = wiring.now_Leaves s.world;
    same_sink = refl;
    same_active = refl;
    same_review = refl;
  }

  finish-Kept :
      (b : Bool) (s : State services)
      → SparesSink p l services view s.event_sink
      → Kept s (finish_connection_attempt services b s)
  unfolding finish_connection_attempt republish sync_reconnect_status emit_status
  finish-Kept b s k =
      let scheduled = schedule-Kept b s.reconnect s in
      let s1 = schedule services b s.reconnect s in
      let synced = Calm-sync_reconnect_status p l services wiring (view s.world) s1 (record {
        same = scheduled.same;
        sink = subst (SparesSink p l services view) (sym scheduled.same_sink) k;
      }) in
      let s2 = sync_reconnect_status services s1 in
      let told =
        Calm-emit_status p l services wiring (view s.world)
          (record s2 {
            status = record s2.status { revision = saturating_suc u64_max s2.status.revision };
          })
          (record { same = synced.same; sink = synced.sink }) in
      record {
        same = told.same;
        same_sink = scheduled.same_sink;
        same_active = scheduled.same_active;
        same_review = scheduled.same_review;
      }

  Kept-Connects :
      (v : p.World) (x : Answer services) (r : Result PublicError RuntimeStatus)
      (t : State services)
      → Kept x.1 t
      → (Succeeded x.0 → Succeeded r)
      → (IsFailed x.0 → IsFailed r)
      → Connects v x
      → SparesSink p l services view t.event_sink
      → Connects v (r, t)
  Kept-Connects v x r t k f g (connected h d) sink = connected (f h) (record {
    world = d.world;
    calm = record { same = Same-trans p l d.calm.same k.same; sink = sink };
    journal = d.journal;
    on_disk = d.on_disk;
    in_force = d.in_force;
    held = ap (holds_proxy services) k.same_active ∙ d.held;
  })
  Kept-Connects v x r t k f g (rolled_back (undone h n (inl e))) sink =
      rolled_back (undone (g h) sink (inl (k.same.settings_same ∙ e)))
  Kept-Connects v x r t k f g (rolled_back (undone h n (inr (j, valid, a, b)))) sink =
      rolled_back (undone (g h) sink (inr (j, valid, a, k.same.settings_same ∙ b)))
  Kept-Connects v x r t k f g (rolled_back (reviewed h n e)) sink =
      rolled_back (reviewed (g h) sink (k.same_review ∙ e))

  sink_after :
      (v : p.World) (x : Answer services)
      → Connects v x
      → SparesSink p l services view x.1.event_sink
  sink_after v x (connected h d) = d.calm.sink
  sink_after v x (rolled_back (undone h k e)) = k
  sink_after v x (rolled_back (reviewed h k e)) = k

  finished-Connects :
      (v : p.World) (x : Answer services) → Connects v x → Connects v (finished services x)
  unfolding finished
  finished-Connects v (ok t, s) c =
      let k = finish-Kept true s (sink_after v _ c) in
      Kept-Connects v _ _ _ k (λ h. h) (λ h. h) c
        (subst (SparesSink p l services view) (sym k.same_sink) (sink_after v _ c))
  finished-Connects v (err e, s) c =
      let k = finish-Kept false s (sink_after v _ c) in
      Kept-Connects v _ _ _ k (λ h. h) (λ h. h) c
        (subst (SparesSink p l services view) (sym k.same_sink) (sink_after v _ c))

  set_intent-Calm :
      (v : p.World) (q : ConnectionRequest) (s : State services)
      → Calm p l services wiring v s
      → Calm p l services wiring v (set_intent services q s)
  unfolding set_intent with_world
  set_intent-Calm v q s c = record {
    same = Same-trans p l c.same (wiring.now_Leaves s.world);
    sink = c.sink;
  }

  active-set_intent :
      (q : ConnectionRequest) (s : State services) → (set_intent services q s).active ≡ s.active
  unfolding set_intent with_world
  active-set_intent q s = refl

  -- Every outcome of the user's connection over the System Proxy without an active session. It
  -- succeeds with a session that holds the settings, over a journal on disk that leads back to those
  -- of before. Or it fails: then the settings are those of before, or those that an older journal
  -- led back to from them; or a recovery is required.
  pub start_system_proxy-Connects :
      (node_id : Text) (routing : SystemProxyRouting) (s : State services)
      → s.active ≡ none
      → SparesSink p l services view s.event_sink
      → Connects (view s.world) (start_system_proxy services node_id routing s)
  unfolding start_system_proxy
  start_system_proxy-Connects node_id routing s a k =
      let v = view s.world in
      let c : Calm p l services wiring v s = record { same = Same-refl p l _; sink = k } in
      let q = ConnectionRequest.proxy node_id routing in
      if_elim (Connects v)
        (not (services.valid_policy (into_policy routing.default_route routing.apps))) _ _
        (λ t. refused_at_once v _ s c)
        (λ t.
          if_elim (Connects v) (not (is_some (find_node node_id s.nodes))) _ _
            (λ t. refused_at_once v _ s c)
            (λ t.
              if_elim (Connects v) (not (may_request services s)) _ _ (λ t. refused_at_once v _ s c)
                (λ t. finished-Connects v _ (
                  start_system_proxy_locked-Connects v node_id routing (set_intent services q s)
                    (set_intent-Calm v q s c) (active-set_intent q s ∙ a)))))
