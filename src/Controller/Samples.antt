-- ===== src/Controller/Samples.antt =====
-- A machine behind the services on which every call works, for the examples.
use route_deck.Controller.Children.{Child}
use route_deck.Domain.Tls.{disabled_tls}
use route_deck.Text.{codes}
use route_deck.SystemProxy.Manager.{SystemProxyRestoreOutcome}
use route_deck.SystemProxy.Snapshot.{SystemProxyError}
use route_deck.Domain.Nodes.{naive}
use route_deck.Controller.Status.{PublicPorts, default_status, RuntimeMode}
use route_deck.Action.{Action, ok}
use route_deck.Controller.Session.{SystemProxyRouting, State, ActiveSession}
use route_deck.Controller.Services.{Services, StoredNode}
use route_deck.Domain.Routes.{DefaultRoute, RoutePolicy, LanPolicy, Ipv6Policy, DnsPolicy}
use route_deck.Prelude.{ℕ, none, Bool, false, ◌∷◌, [], true, some}

abbrev pub sample_ports : PublicPorts
sample_ports = record { http = 1080; socks = 1081; health = 1082 }

-- Every call works and moves nothing but the System Proxy, over a clock and its three calls.
abbrev pub quiet :
    (W : Type 0)
    → (W → ℕ)
    → Action W SystemProxyError SystemProxyRestoreOutcome
    → Action W SystemProxyError Bool
    → (ℕ → Action W SystemProxyError (Unit {0}))
    → Services
quiet W clock restore owned publish = record {
  World = W;
  Process = ℕ;
  Launch = Unit {0};
  now = λ w. (clock w, w);
  random_hex = λ n w. (ok (codes "0badcafe"), w);
  is_alive = λ p w. (ok true, w);
  stop = λ p w. (ok tt, w);
  can_restart_owned_core = λ p w. false;
  restart_owned_core = λ p n w. (ok tt, w);
  tun_capture_snapshot =
      λ p w. (ok (record { interface_luid = 7; in_octets = 1; out_octets = 1 }), w);
  drop = λ p w. w;
  check = λ l w. (ok (codes "1.12.0"), w);
  start = λ l w. (ok 1, w);
  verify_owned_now = λ ports c w. (ok tt, w);
  wait_until_ready = λ ports c w. (ok tt, w);
  verify_sidecar_owned_now = λ port p w. (ok tt, w);
  wait_until_sidecar_ready = λ port p w. (ok tt, w);
  prove = λ h w. (ok 20, w);
  prove_ordinary = λ port w. (ok 21, w);
  prove_tun_capture = λ w. (ok 22, w);
  warm_latency = λ h w. (some 12, w);
  restore_if_owned = restore;
  is_owned = owned;
  publish_loopback = publish;
  reconcile_stale_journal = λ w. (ok tt, w);
  clear_stale = λ token w. (ok tt, w);
  reconcile_stale_sessions = λ w. (ok tt, w);
  recover_sessions = λ w. (ok tt, w);
  Redactor = Unit {0};
  redact = λ r t. t;
  default_redactor = tt;
  from_nodes = λ node_id stored. tt;
  Upstream = Unit {0};
  has_ipv4_dns = λ u. true;
  Files = Unit {0};
  reserve_ports = λ w. (ok sample_ports, w);
  select_tun_upstream = λ w. (ok tt, w);
  prepare = λ nodes node_id stored policy mode ports secret upstream udp redactor w. (
    ok (record { front = tt; sidecar = none; bridges = []; switching = none; redactor = tt }),
    w,
  );
  create = λ u f w. (ok tt, w);
  create_sidecar = λ f w. (ok tt, w);
  TunOptions = Unit {0};
  same_options = λ a b. true;
  valid_policy = λ p. true;
  valid_options = λ o. true;
  is_elevated = λ w. (ok true, w);
}

abbrev pub node : StoredNode
node = record {
  protocol = naive (record {
    server_port = 443;
    username = none;
    password = none;
    quic = false;
    extra_headers = [];
    tls = disabled_tls;
  });
  server = codes "vpn.example";
  config_identity = codes "identity";
}

-- The state in which the application starts, with one node.
abbrev pub idle : (services : Services) → services.World → State services
idle services w = record {
  nodes = (codes "n1", node) ∷ [];
  active = none;
  status = default_status;
  recovery_required = false;
  shutting_down = false;
  reconnect = none;
  diagnostics = record { lines = []; bytes = 0 };
  published_status = default_status;
  event_sink = none;
  world = w;
}

abbrev pub routing : SystemProxyRouting
routing = record { default_route = DefaultRoute.vpn; naive_udp_over_tcp = false; apps = [] }

abbrev pub policy : RoutePolicy
policy = record {
  default = DefaultRoute.vpn;
  apps = [];
  lan = LanPolicy.direct;
  ipv6 = Ipv6Policy.enabled;
  dns = DnsPolicy.vpn;
}

-- It has to restore the System Proxy.
abbrev pub session :
    (services : Services) → Child services → services.Redactor → ActiveSession services
session services child redactor = record {
  switching = none;
  child = child;
  node_id = codes "n1";
  config_identity = codes "identity";
  session_id = codes "s1";
  mode = RuntimeMode.system_proxy;
  routing = policy;
  tun_options = none;
  naive_udp_over_tcp = false;
  system_proxy_requires_restore = true;
  ports = sample_ports;
  health_route = record { port = 1082; password = codes "secret" };
  engine_version = codes "1.12.0";
  redactor = redactor;
  last_probe = 1000;
  consecutive_probe_failures = 0;
  generation = codes "g1";
}
