-- ===== src/Controller/Wiring/Roundtrip.antt =====
-- The user connects and disconnects: the settings are what they were.
use route_deck.Controller.Cleanup.{IsFailed}
use route_deck.Controller.Wiring.Undoing.{undone, reviewed}
use route_deck.Controller.Wiring.Settling.{leased-Undone}
use route_deck.SystemProxy.Manager.Restore.{Restores}
use route_deck.Controller.Connect.{start_system_proxy}
use route_deck.SystemProxy.Manager.{SystemProxyRestoreOutcome, restored}
use route_deck.Controller.Wiring.Ending.{Calm-sync_reconnect_status}
use route_deck.Controller.Wiring.Restoring.{stop_active_locked-Restores, Allows, Restores-Same}
use route_deck.Controller.Wiring.Leasing.{holds_proxy, Leased}
use route_deck.Controller.Wiring.Cycle.{
  Connects, start_system_proxy-Connects, connected, rolled_back,
}
use route_deck.SystemProxy.Snapshot.{SystemProxyError}
use route_deck.Text.{Text}
use route_deck.Controller.Status.{RuntimeStatus}
use route_deck.Prelude.{◌≡◌, refl, true, Option, none, some, subst}
use route_deck.Action.{Result, ok}
use route_deck.Controller.Teardown.{stop, stop_request, stop_active_locked, Answer}
use route_deck.SystemProxy.Platform.{Platform, PlatformLaws, active_journal}
use route_deck.Controller.Services.{Services}
use route_deck.Controller.Session.{State, ActiveSession, sync_reconnect_status, SystemProxyRouting}
use route_deck.Controller.Wiring.{Wiring, SparesSink}
use route_deck.SystemProxy.Manager.Steps.{Same-refl}

module _ (p : Platform) (l : PlatformLaws p) (services : Services)
    (wiring : Wiring p l services) where
  open wiring use {view}
  open l use {settings, file}

  Connects-Leased :
      (v : p.World) (x : Answer services) (t : RuntimeStatus)
      → x.0 ≡ ok t
      → Connects p l services wiring v x
      → Leased p l services wiring v x.1
  Connects-Leased v x t e (connected h d) = d
  Connects-Leased v x t e (rolled_back (undone h k u)) = absurd (subst IsFailed e h)
  Connects-Leased v x t e (rolled_back (reviewed h k u)) = absurd (subst IsFailed e h)

  stop_request-Leased :
      (v : p.World) (s : State services)
      → Leased p l services wiring v s
      → Leased p l services wiring v (stop_request services s)
  unfolding stop_request sync_reconnect_status
  stop_request-Leased v s d = record {
    world = d.world;
    calm =
        Calm-sync_reconnect_status p l services wiring d.world (record s { reconnect = none })
          (record { same = d.calm.same; sink = d.calm.sink });
    journal = d.journal;
    on_disk = d.on_disk;
    in_force = d.in_force;
    held = d.held;
  }

  abbrev pub GivesBack : p.World → Answer services → Type 0
  GivesBack v x =
      (settings (view x.1.world) ≡ settings v) × (file active_journal (view x.1.world) ≡ none)

  given_back :
      (v : p.World) (s : State services) (x : Answer services) (t : RuntimeStatus)
      (r : Result SystemProxyError SystemProxyRestoreOutcome)
      → Leased p l services wiring v s
      → x.0 ≡ ok t
      → Restores p l (view s.world) r (view x.1.world)
      → Allows x.0 r
      → GivesBack v x
  given_back v s x t r d e h a =
      let done : r ≡ ok restored = subst (λ y. Allows y r) e a in
      let back = subst (λ y. Restores p l (view s.world) y (view x.1.world)) done h in
      (
        leased-Undone p l v d.world (view x.1.world) d.journal (ok restored) d.on_disk d.in_force
            (Restores-Same p l d.world _ (ok restored) (view s.world) _ d.calm.same back
              (Same-refl p l _))
            tt,
        back.4,
      )

  -- The session that holds the System Proxy.
  holder :
      (o : Option (ActiveSession services))
      → holds_proxy services o ≡ true
      → (a : ActiveSession services) × (o ≡ some a) × (a.system_proxy_requires_restore ≡ true)
  holder none h = cc
  holder (some a) h = (a, refl, h)

  stop_active_locked-GivesBack :
      (v : p.World) (s : State services) (t : RuntimeStatus)
      → Leased p l services wiring v s
      → (stop_active_locked services none s).0 ≡ ok t
      → GivesBack v (stop_active_locked services none s)
  stop_active_locked-GivesBack v s t d e =
      let (a, active, held) = holder s.active d.held in
      let (r, h, allowed) =
        stop_active_locked-Restores p l services wiring none a s active held d.calm.sink in
      given_back v s (stop_active_locked services none s) t r d e h allowed

  -- If no session is active, the sink of events leaves the settings and files alone, and the user
  -- connects over the System Proxy, and that succeeds, and then disconnects, and that succeeds, then
  -- the settings are those of before the connection, and no journal is left on disk.
  pub start_system_proxy-stop :
      (node_id : Text) (routing : SystemProxyRouting) (s : State services) (t u : RuntimeStatus)
      → s.active ≡ none
      → SparesSink p l services view s.event_sink
      → (start_system_proxy services node_id routing s).0 ≡ ok t
      → (stop services (start_system_proxy services node_id routing s).1).0 ≡ ok u
      → let x = stop services (start_system_proxy services node_id routing s).1 in
        (settings (view x.1.world) ≡ settings (view s.world))
        × (file active_journal (view x.1.world) ≡ none)
  unfolding stop
  start_system_proxy-stop node_id routing s t u a k e f =
      stop_active_locked-GivesBack (view s.world) _ u
        (stop_request-Leased (view s.world) _ (
          Connects-Leased (view s.world) _ t e
            (start_system_proxy-Connects p l services wiring node_id routing s a k)))
        f
