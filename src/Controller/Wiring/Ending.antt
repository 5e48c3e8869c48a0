-- ===== src/Controller/Wiring/Ending.antt =====
-- What a teardown does to the System Proxy, with the manager behind the services.
use route_deck.Controller.Children.{Child}
use route_deck.SystemProxy.Manager.{
  SystemProxyRestoreOutcome, restored, foreign_preserved, no_journal,
}
use route_deck.SystemProxy.Snapshot.{SystemProxyError}
use route_deck.Action.{Result, ok, err}
use route_deck.Controller.Coherence.{if_elim}
use route_deck.Text.{Text}
use route_deck.Controller.Teardown.{
  with_world, proxy_restored, stop_child, needs_recovery, reconciled, conclude, drop_active,
  stopped, pause_reconnect, with_active, foreign_error, restore_error, review_error,
}
use route_deck.Controller.Status.{RuntimePhase, PublicError, ProofKind, RuntimeError, ProofState}
use route_deck.Prelude.{ℕ, Bool, some, not, ◌&&◌, none, true, false}
use route_deck.SystemProxy.Platform.{Platform, PlatformLaws}
use route_deck.Controller.Children
use route_deck.Controller.Services.{Services, single, pair}
use route_deck.Controller.Wiring.{Wiring, SparesSink, Option, RuntimeStatus, Spares, Leaves}
use route_deck.Controller.Session.{
  State, ActiveSession, ReconnectIntent, update_status, retry_delay, emit_status,
  sync_reconnect_status, set_phase, set_proof, reset_disconnected, relabel, clear_active_metadata,
  without_session,
}
use route_deck.SystemProxy.Manager.Steps.{Same, Same-refl, Same-trans}

module _ (p : Platform) (l : PlatformLaws p) (services : Services)
    (wiring : Wiring p l services) where
  open wiring use {view}

  -- The settings and files are those of `v`, and telling the window leaves them.
  pub record Calm (v : p.World) (s : State services) : Type 0 where
    pub same : Same p l v (view s.world)
    pub sink : SparesSink p l services view s.event_sink

  pub Calm-with_world :
      (v : p.World) (w : services.World) (s : State services)
      → Calm v s
      → Same p l (view s.world) (view w)
      → Calm v (with_world services w s)
  unfolding with_world
  Calm-with_world v w s c h = record { same = Same-trans p l c.same h; sink = c.sink }

  seconds_waited :
      (o : Option ReconnectIntent) (b : Bool) (w : services.World)
      → Same p l (view w) (view (retry_delay services o b w).1)
  unfolding retry_delay
  seconds_waited none b w = Same-refl p l _
  seconds_waited (some i) b w =
      if_elim (λ (x : Option ℕ × services.World). Same p l (view w) (view x.1)) (not i.paused && b)
        _ _ (λ t. wiring.now_Leaves w) (λ t. Same-refl p l _)

  pub Calm-sync_reconnect_status :
      (v : p.World) (s : State services) → Calm v s → Calm v (sync_reconnect_status services s)
  unfolding sync_reconnect_status
  Calm-sync_reconnect_status v s c = record {
    same = Same-trans p l c.same (seconds_waited s.reconnect _ s.world);
    sink = c.sink;
  }

  emitted :
      (o : Option (RuntimeStatus → services.World → services.World)) (s : State services)
      → SparesSink p l services view o
      → Same p l (view s.world) (view (emit_status services (record s { event_sink = o })).world)
  unfolding emit_status
  emitted none s h = Same-refl p l _
  emitted (some sink) s h = h s.status s.world

  pub Calm-emit_status :
      (v : p.World) (s : State services) → Calm v s → Calm v (emit_status services s)
  unfolding emit_status
  Calm-emit_status v s c = record {
    same = Same-trans p l c.same (emitted s.event_sink s c.sink);
    sink = c.sink;
  }

  pub Calm-update_status :
      (v : p.World) (phase : RuntimePhase) (node_id : Option Text) (error : Option PublicError)
      (s : State services)
      → Calm v s
      → Calm v (update_status services phase node_id error s)
  unfolding update_status set_phase
  Calm-update_status v phase node_id error s c =
      let phased : Calm v (set_phase services phase s) = record { same = c.same; sink = c.sink } in
      let synced = Calm-sync_reconnect_status v _ phased in
      let s' = sync_reconnect_status services (set_phase services phase s) in
      Calm-emit_status v (record s' { status = relabel services node_id error s'.status })
        (record { same = synced.same; sink = synced.sink })

  pub Calm-set_proof :
      (v : p.World) (k : ProofKind) (x : ProofState) (n : Option ℕ) (s : State services)
      → Calm v s
      → Calm v (set_proof services k x n s)
  unfolding set_proof
  Calm-set_proof v k x n s c = record { same = c.same; sink = c.sink }

  Calm-reset_disconnected :
      (v : p.World) (s : State services) → Calm v s → Calm v (reset_disconnected services s)
  unfolding reset_disconnected without_session clear_active_metadata
  Calm-reset_disconnected v s c =
      Calm-update_status v RuntimePhase.disconnected none none (without_session services s)
        (record { same = c.same; sink = c.sink })

  Calm-needs_recovery :
      (v : p.World) (node_id : Option Text) (e : PublicError) (s : State services)
      → Calm v s
      → Calm v (needs_recovery services node_id e s).1
  unfolding needs_recovery
  Calm-needs_recovery v node_id e s c =
      Calm-update_status v RuntimePhase.recovery_required node_id (some e)
        (record s { recovery_required = true }) (record { same = c.same; sink = c.sink })

  Calm-conclude :
      (v : p.World) (node_id : Option Text) (conflict : Bool) (terminal : Option PublicError)
      (s : State services)
      → Calm v s
      → Calm v (conclude services node_id conflict terminal s).1
  unfolding conclude pause_reconnect
  Calm-conclude v node_id true terminal s c =
      Calm-update_status v RuntimePhase.disconnected_with_error node_id (some foreign_error)
        (let s' = pause_reconnect services s in
          record s' { status = record s'.status { session_id = none } })
        (record { same = c.same; sink = c.sink })
  Calm-conclude v node_id false (some e) s c =
      Calm-update_status v RuntimePhase.disconnected_with_error node_id (some e) s c
  Calm-conclude v node_id false none s c = Calm-reset_disconnected v s c

  Calm-reconciled :
      (v : p.World) (node_id : Option Text) (conflict : Bool) (terminal : Option PublicError)
      (r : Result RuntimeError (Unit {0})) (s : State services)
      → Calm v s
      → Calm v (reconciled services node_id conflict terminal r s).1
  unfolding reconciled
  Calm-reconciled v node_id conflict terminal (ok u) s c =
      Calm-conclude v node_id conflict terminal (record s { recovery_required = false })
        (record { same = c.same; sink = c.sink })
  Calm-reconciled v node_id conflict terminal (err e) s c =
      Calm-needs_recovery v node_id review_error s c

  pub stop_Leaves : (c : Child services) → Leaves p l services view (Children.stop services c)
  unfolding Children.stop
  stop_Leaves (single x) w = wiring.stop_Leaves x w
  stop_Leaves (pair x y ports recovery) w =
      Same-trans p l (wiring.stop_Leaves x w) (wiring.stop_Leaves y _)

  drop_Spares : (c : Child services) → Spares p l services view (Children.drop services c)
  unfolding Children.drop
  drop_Spares (single x) w = wiring.drop_Spares x w
  drop_Spares (pair x y ports recovery) w =
      Same-trans p l (stop_Leaves (pair x y ports recovery) w)
        (Same-trans p l (wiring.drop_Spares x _) (wiring.drop_Spares y _))

  pub Calm-drop_active :
      (v : p.World) (a : ActiveSession services) (s : State services)
      → Calm v s
      → Calm v (drop_active services a s)
  unfolding drop_active clear_active_metadata with_active with_world
  Calm-drop_active v a s c = record {
    same = Same-trans p l c.same (drop_Spares a.child s.world);
    sink = c.sink;
  }

  Calm-stopped :
      (v : p.World) (node_id : Option Text) (conflict : Bool) (terminal : Option PublicError)
      (a : ActiveSession services) (r : Result RuntimeError (Unit {0})) (s : State services)
      → Calm v s
      → Calm v (stopped services node_id conflict terminal a r s).1
  unfolding stopped
  Calm-stopped v node_id conflict terminal a (err e) s c = Calm-needs_recovery v node_id _ s c
  Calm-stopped v node_id conflict terminal a (ok u) s c =
      Calm-reconciled v node_id conflict terminal _ _
        (Calm-with_world v _ _ (Calm-drop_active v a s c) (wiring.sessions_Leaves _))

  Calm-stop_child :
      (v : p.World) (node_id : Option Text) (conflict : Bool) (terminal : Option PublicError)
      (a : ActiveSession services) (s : State services)
      → Calm v s
      → Calm v (stop_child services node_id conflict terminal a s).1
  unfolding stop_child
  Calm-stop_child v node_id conflict terminal a s c =
      Calm-stopped v node_id conflict terminal a _ _ (
        Calm-with_world v _ _ (Calm-update_status v RuntimePhase.stopping_core node_id none s c)
          (stop_Leaves a.child _))

  pub Calm-proxy_restored :
      (v : p.World) (node_id : Option Text) (terminal : Option PublicError)
      (a : ActiveSession services) (r : Result SystemProxyError SystemProxyRestoreOutcome)
      (s : State services)
      → Calm v s
      → Calm v (proxy_restored services node_id terminal a r s).1
  unfolding proxy_restored with_active
  Calm-proxy_restored v node_id terminal a (ok restored) s c =
      Calm-stop_child v node_id false terminal _ _ (
        Calm-set_proof v ProofKind.system_proxy_ownership ProofState.passed none _
          (record { same = c.same; sink = c.sink }))
  Calm-proxy_restored v node_id terminal a (ok foreign_preserved) s c =
      Calm-stop_child v node_id true terminal _ _ (
        Calm-set_proof v ProofKind.system_proxy_ownership ProofState.failed none _
          (record { same = c.same; sink = c.sink }))
  Calm-proxy_restored v node_id terminal a (ok no_journal) s c =
      Calm-needs_recovery v node_id restore_error s c
  Calm-proxy_restored v node_id terminal a (err e) s c =
      Calm-needs_recovery v node_id restore_error s c
