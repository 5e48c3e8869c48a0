-- ===== src/Controller/Wiring.antt =====
-- The controller over the manager of the System Proxy: application.rs gives `RuntimeServices` a
-- SystemProxyManager, and nothing else that it calls touches the settings or the journal.

pub mod Ending
pub mod Restoring
pub mod Launching
pub mod Leasing
pub mod Beginning
pub mod Publishing
pub mod Readying
pub mod Settling
pub mod Undoing
pub mod Cycle
pub mod Roundtrip
mod Examples
use route_deck.Prelude.{ℕ, ◌≡◌, Option, none, some, ◌<◌}
use route_deck.Text.{Text}
use route_deck.Action.{Result, ok}
use route_deck.SystemProxy.Snapshot.{SystemProxyError}
use route_deck.SystemProxy.Platform.{Platform, PlatformLaws}
use route_deck.SystemProxy.Manager
use route_deck.SystemProxy.Manager.Steps.{Same}
use route_deck.Controller.Status.{RuntimeStatus, PublicPorts}
use route_deck.Controller.Services.{Services}

module _ (p : Platform) (l : PlatformLaws p) (services : Services) where
  open services use {World}

  -- Two calls with one answer, the second on the part of the world that is the platform's.
  pub record Agrees {A : Type 0} (view : World → p.World) (m : World → A × World)
      (n : p.World → A × p.World) : Type 0 where
    pub answers : (w : World) → (m w).0 ≡ (n (view w)).0
    pub moves : (w : World) → view (m w).1 ≡ (n (view w)).1

  -- A call that leaves the settings and the files of the manager.
  abbrev pub Leaves : {A : Type 0} → (World → p.World) → (World → A × World) → Type 0
  Leaves view m = (w : World) → Same p l (view w) (view (m w).1)

  abbrev pub Spares : (World → p.World) → (World → World) → Type 0
  Spares view f = (w : World) → Same p l (view w) (view (f w))

  -- What a start over the System Proxy and a teardown call.
  pub record Wiring : Type 0 where
    pub view : World → p.World
    pub restore_lem : Agrees view services.restore_if_owned (Manager.restore_if_owned p)
    pub publish_lem :
        (port : ℕ) → Agrees view (services.publish_loopback port) (Manager.publish_loopback p port)
    pub owned_lem : Agrees view services.is_owned (Manager.is_owned p)
    pub now_Leaves : Leaves view services.now
    pub random_Leaves : (n : ℕ) → Leaves view (services.random_hex n)
    pub alive_Leaves : (c : services.Process) → Leaves view (services.is_alive c)
    pub stop_Leaves : (c : services.Process) → Leaves view (services.stop c)
    pub drop_Spares : (c : services.Process) → Spares view (services.drop c)
    pub check_Leaves : (c : services.Launch) → Leaves view (services.check c)
    pub start_Leaves : (c : services.Launch) → Leaves view (services.start c)
    pub owned_now_Leaves : (a : _) (c : _) → Leaves view (services.verify_owned_now a c)
    pub ready_Leaves : (a : _) (c : _) → Leaves view (services.wait_until_ready a c)
    pub sidecar_owned_Leaves :
        (port : ℕ) (c : services.Process) → Leaves view (services.verify_sidecar_owned_now port c)
    pub sidecar_ready_Leaves :
        (port : ℕ) (c : services.Process) → Leaves view (services.wait_until_sidecar_ready port c)
    pub prove_Leaves : (h : _) → Leaves view (services.prove h)
    pub ordinary_Leaves : (port : ℕ) → Leaves view (services.prove_ordinary port)
    pub tun_Leaves : Leaves view services.prove_tun_capture
    pub capture_Leaves : (c : services.Process) → Leaves view (services.tun_capture_snapshot c)
    pub upstream_Leaves : Leaves view services.select_tun_upstream
    pub sessions_Leaves : Leaves view services.reconcile_stale_sessions
    pub ports_Leaves : Leaves view services.reserve_ports
    -- The ports are 16-bit integers.
    pub ports_fit :
        (w : World) (ports : PublicPorts)
        → (services.reserve_ports w).0 ≡ ok ports
        → ports.http < 65536
    pub prepare_Leaves :
        (nodes : _) (node_id : Text) (stored : _) (policy : _) (mode : _) (ports : _)
        (password : Text) (upstream : _) (udp : _) (redactor : _)
        → Leaves view
            (services.prepare nodes node_id stored policy mode ports password upstream udp redactor)
    pub create_Leaves : (u : _) (f : services.Files) → Leaves view (services.create u f)
    pub create_sidecar_Leaves : (f : services.Files) → Leaves view (services.create_sidecar f)

  -- The window that is told of a status does not touch them either.
  abbrev pub SparesSink : (World → p.World) → Option (RuntimeStatus → World → World) → Type 0
  SparesSink view none = Unit {0}
  SparesSink view (some sink) = (t : RuntimeStatus) → Spares view (sink t)
