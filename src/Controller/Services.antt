-- ===== src/Controller/Services.antt =====
-- application.rs, `RuntimeServices` and the handles of a session: what the controller calls and does
-- not decide by itself. The world holds the clock, the processes, the settings and the files.
use route_deck.Prelude.{ℕ, Bool, Option, List}
use route_deck.Text.{Text}
use route_deck.Action.{Action}
use route_deck.SystemProxy.Snapshot.{SystemProxyError}
use route_deck.SystemProxy.Manager.{SystemProxyRestoreOutcome}
use route_deck.Domain.Nodes.{NodeProtocol}
use route_deck.Domain.Routes.{RoutePolicy}
use route_deck.Controller.Status.{PublicPorts, RuntimeError, RuntimeMode}

-- server_switch_application.rs `TunSwitchSession`, without its connections
pub record Switching : Type 0 where
  pub current : ℕ
  pub uncertain : Bool

-- What the controller keeps of a confirmed node; it reads its protocol and its server.
pub record StoredNode : Type 0 where
  pub protocol : NodeProtocol
  pub server : Text
  pub config_identity : Text

-- health.rs `HealthRoute`: the port and the password of the private listener.
pub record HealthRoute : Type 0 where
  pub port : ℕ
  pub password : Text

-- engine_runtime.rs `TunCaptureSnapshot`
pub record TunCaptureSnapshot : Type 0 where
  pub interface_luid : ℕ
  pub in_octets : ℕ
  pub out_octets : ℕ

-- The processes of a session: sing-box alone, or a `RealityProcessPair` with its front, its Xray
-- sidecar, the ports of the sidecar and what restarts it.
pub data Child (Process Launch : Type 0) : Type 0 where
  single : Process → Child Process Launch
  pair : Process → Process → List ℕ → Option Launch → Child Process Launch

-- What a start prepares before anything runs: the files of the engines (`front` and `sidecar` start
-- them), the ports of the bridge and, for TUN, the servers to switch between.
pub record Prepared (Files Redactor : Type 0) : Type 0 where
  pub front : Files
  pub sidecar : Option Files
  pub bridges : List ℕ
  pub switching : Option Switching
  pub redactor : Redactor

pub record Services : Type 1 where
  pub World : Type 0
  -- ManagedChild of engine_runtime.rs and tun_helper.rs, the handle of a process that is owned
  pub Process : Type 0
  -- EngineLauncher, with the configuration that it starts
  pub Launch : Type 0
  -- Instant::now(), in nanoseconds
  pub now : World → ℕ × World
  pub random_hex : ℕ → Action World RuntimeError Text
  -- ManagedChild, and the release of a handle that is no longer kept
  pub is_alive : Process → Action World RuntimeError Bool
  pub stop : Process → Action World RuntimeError (Unit {0})
  pub can_restart_owned_core : Process → World → Bool
  pub restart_owned_core : Process → ℕ → Action World RuntimeError (Unit {0})
  pub tun_capture_snapshot : Process → Action World RuntimeError TunCaptureSnapshot
  pub drop : Process → World → World
  -- EngineLauncher: `check` answers with the version
  pub check : Launch → Action World RuntimeError Text
  pub start : Launch → Action World RuntimeError Process
  -- ListenerVerifier
  pub verify_owned_now : PublicPorts → Child Process Launch → Action World RuntimeError (Unit {0})
  pub wait_until_ready : PublicPorts → Child Process Launch → Action World RuntimeError (Unit {0})
  pub verify_sidecar_owned_now : ℕ → Process → Action World RuntimeError (Unit {0})
  pub wait_until_sidecar_ready : ℕ → Process → Action World RuntimeError (Unit {0})
  -- TrafficProber; a proof is its latency in milliseconds
  pub prove : HealthRoute → Action World RuntimeError ℕ
  pub prove_ordinary : ℕ → Action World RuntimeError ℕ
  pub prove_tun_capture : Action World RuntimeError ℕ
  pub warm_latency : HealthRoute → World → Option ℕ × World
  -- SystemProxyControl
  pub restore_if_owned : Action World SystemProxyError SystemProxyRestoreOutcome
  pub is_owned : Action World SystemProxyError Bool
  pub publish_loopback : ℕ → Action World SystemProxyError (Unit {0})
  pub reconcile_stale_journal : Action World SystemProxyError (Unit {0})
  pub clear_stale : Text → Action World SystemProxyError (Unit {0})
  -- session_recovery.rs
  pub reconcile_stale_sessions : Action World RuntimeError (Unit {0})
  pub recover_sessions : Action World RuntimeError (Unit {0})
  -- The redactor of a session.
  pub Redactor : Type 0
  pub redact : Redactor → Text → Text
  pub default_redactor : Redactor
  pub from_nodes : Text → StoredNode → Redactor
  -- The preparation of a start: ports, the physical upstream of TUN, configurations and files.
  pub Upstream : Type 0
  pub has_ipv4_dns : Upstream → Bool
  pub Files : Type 0
  pub reserve_ports : Action World RuntimeError PublicPorts
  pub select_tun_upstream : Action World RuntimeError Upstream
  pub prepare :
      List (Text × StoredNode)
      → Text
      → StoredNode
      → RoutePolicy
      → RuntimeMode
      → PublicPorts
      → Text
      → Option Upstream
      → Bool
      → Redactor
      → Action World RuntimeError (Prepared Files Redactor)
  -- EngineProvider: `create_tun` for TUN, `create` of sing-box or Xray
  pub create : Option Upstream → Files → Action World RuntimeError Launch
  pub create_sidecar : Files → Action World RuntimeError Launch
  -- RoutePolicy::validate and validate_tun_traffic_rules
  pub TunOptions : Type 0
  pub same_options : TunOptions → TunOptions → Bool
  pub valid_policy : RoutePolicy → Bool
  pub valid_options : TunOptions → Bool
  pub is_elevated : Action World RuntimeError Bool
