-- ===== src/Controller/Starting.antt =====
-- application.rs, `start_locked`: a session is prepared, started, proved and published, step by step.
-- What was done before a step failed stays done; the callers roll back.
use route_deck.Prelude.{
  ℕ, String, Bool, true, false, ◌&&◌, ◌||◌, Option, none, some, List, [], ◌∷◌, ◌++◌, ltb, ◌==◌,
  if◌then◌else◌,
}
use route_deck.Text.{Text, codes}
use route_deck.Action.{Result, ok, err, Action, pure, require, ◌>>=◌, ◌>>◌}
use route_deck.Domain.Nodes.{NodeProtocol, naive}
use route_deck.Domain.Routes.{RoutePolicy}
use route_deck.Diagnostics.{push}
use route_deck.SystemProxy.Snapshot.{SystemProxyError, unchanged, recovery_required}
use route_deck.Controller.Status.{
  RuntimePhase, RuntimeMode, RuntimeScope, ProofKind, ProofState, PublicPorts, RuntimeError,
  default_proofs,
}
use route_deck.Controller.Services.{
  Services, TunCaptureSnapshot, StoredNode, Switching, single, pair,
}
use route_deck.Controller.Children
use route_deck.Controller.Children.{Child, front}
use route_deck.Controller.Session.{State, update_status, set_proof}
use route_deck.Controller.Teardown.{with_world}

-- RuntimeError::new
unfoldable pub failure : String → String → RuntimeError
failure stage message = record { stage = codes stage; message = codes message }

-- Display of SystemProxyError
unfoldable pub proxy_failure : String → SystemProxyError → RuntimeError
unfolding failure
proxy_failure stage (unchanged m) = failure stage m
proxy_failure stage (recovery_required m) = failure stage m

unfoldable pub proves_traffic_since : TunCaptureSnapshot → TunCaptureSnapshot → Bool
proves_traffic_since after before =
    after.interface_luid == before.interface_luid
    && (ltb before.in_octets after.in_octets || ltb before.out_octets after.out_octets)

unfoldable pub is_naive : NodeProtocol → Bool
is_naive (naive n) = true
is_naive _ = false

unfoldable pub scope_of : RuntimeMode → RuntimeScope
scope_of RuntimeMode.local_only = RuntimeScope.local_only
scope_of RuntimeMode.system_proxy = RuntimeScope.system_proxy
scope_of RuntimeMode.tun = RuntimeScope.tun

unfoldable pub ready_phase : RuntimeMode → RuntimePhase
ready_phase RuntimeMode.local_only = RuntimePhase.local_proxy_ready
ready_phase RuntimeMode.system_proxy = RuntimePhase.system_proxy_ready
ready_phase RuntimeMode.tun = RuntimePhase.tun_ready

module _ (services : Services) where
  open services use {
    World, Process, Launch, Files, Redactor, Upstream, TunOptions, now, random_hex, check, start,
    wait_until_sidecar_ready, wait_until_ready, verify_owned_now, prove, prove_ordinary, is_owned,
    publish_loopback, reserve_ports, select_tun_upstream, has_ipv4_dns, prepare, create,
    create_sidecar,
  }

  abbrev pub Io : Type 0 → Type 0
  Io A = Action World RuntimeError A

  abbrev pub Act : Type 0 → Type 0
  Act A = Action (State services) RuntimeError A

  unfoldable pub perform : {A : Type 0} → Io A → Act A
  unfolding with_world
  perform m s = let (r, w) = m s.world in (r, with_world services w s)

  -- A call that reads the state.
  unfoldable pub perform_with : {A : Type 0} → (State services → Io A) → Act A
  unfolding perform
  perform_with m s = perform (m s) s

  unfoldable pub modify : (State services → State services) → Act (Unit {0})
  modify f s = (ok tt, f s)

  -- prove_tun_capture
  unfoldable pub prove_capture : Child services → Io ℕ
  unfolding proves_traffic_since failure
  prove_capture c = do
    before ← Children.tun_capture_snapshot services c
    proof ← services.prove_tun_capture
    after ← Children.tun_capture_snapshot services c
    require (proves_traffic_since after before) (
        failure "tun_capture"
          "the unproxied proof did not traverse the owned RouteDeck TUN adapter")
    pure proof

  -- What the caller asks for.
  pub record Start : Type 0 where
    pub node_id : Text
    pub stored : StoredNode
    pub policy : RoutePolicy
    pub mode : RuntimeMode
    pub tun_options : Option TunOptions
    pub naive_udp_over_tcp : Bool
    pub redactor : Redactor

  unfoldable pub set_proofs : List ProofKind → ProofState → State services → State services
  set_proofs [] p s = s
  set_proofs (k ∷ ks) p s = set_proofs ks p (set_proof services k p none s)

  abbrev pub listeners : List ProofKind
  listeners = ProofKind.http_listener ∷ ProofKind.socks_listener ∷ ProofKind.health_listener ∷ []

  unfoldable pub enter : RuntimePhase → Start → Act (Unit {0})
  enter phase r = modify (update_status services phase (some r.node_id) none)

  -- The status of a new session.
  unfoldable pub label : Start → Text → State services → State services
  unfolding scope_of default_proofs
  label r session_id s = record s {
    status = record s.status {
      scope = scope_of r.mode;
      mode = r.mode;
      session_id = some session_id;
      proofs = default_proofs;
    };
  }

  unfoldable pub choose_upstream : RuntimeMode → Act (Option Upstream)
  unfolding perform
  choose_upstream RuntimeMode.tun = do
    upstream ← perform select_tun_upstream
    modify (λ s. record s {
      diagnostics =
          push
            (codes (
              if has_ipv4_dns upstream
              then "tun_dns=physical_ipv4_tcp"
              else "tun_dns=local_fallback_no_ipv4"))
            s.diagnostics;
    })
    pure (some upstream)
  choose_upstream RuntimeMode.local_only = pure none
  choose_upstream RuntimeMode.system_proxy = pure none

  unfoldable pub check_sidecar : Option Files → Io (Option (Launch × Text))
  check_sidecar none = pure none
  check_sidecar (some files) = do
    launch ← create_sidecar files
    version ← check launch
    pure (some (launch, version))

  unfoldable pub engine_version_text : Text → Option (Launch × Text) → Text
  engine_version_text version none = version
  engine_version_text version (some (launch, sidecar)) =
      codes "sing-box " ++ (version ++ (codes " + Xray " ++ sidecar))

  -- The drop of a ProvisionalChild, which stops the process, if `r` is an error.
  unfoldable pub guarded :
      {A : Type 0} → Process → Result RuntimeError A × World → Result RuntimeError A × World
  guarded p (ok a, w) = (ok a, w)
  guarded p (err e, w) = let (r, w') = services.stop p w in (err e, services.drop p w')

  unfoldable pub wait_bridges : List ℕ → Process → Io (Unit {0})
  wait_bridges [] p = pure tt
  wait_bridges (port ∷ ports) p = do wait_until_sidecar_ready port p; wait_bridges ports p

  unfoldable pub start_sidecar : List ℕ → Option (Launch × Text) → Io (Option (Process × Launch))
  start_sidecar bridges none = pure none
  start_sidecar bridges (some (launch, version)) = do
    p ← start launch
    λ w. guarded p (wait_bridges bridges p w)
    pure (some (p, launch))

  unfoldable pub start_child : List ℕ → Launch → Option (Process × Launch) → Io (Child services)
  start_child bridges launch none = do p ← start launch; pure (single p)
  start_child bridges launch (some (sidecar, recovery)) = do
    p ← λ w. guarded sidecar (start launch w)
    pure (pair p sidecar bridges (some recovery))

  -- What is known when the processes run.
  pub record Running : Type 0 where
    pub session_id : Text
    pub ports : PublicPorts
    pub password : Text
    pub engine_version : Text
    pub generation : Text
    pub switching : Option Switching
    pub redactor : Redactor
    pub child : Child services

  -- From the first status to the processes.
  unfoldable pub launch_session : Start → Act Running
  launch_session r = do
    session_id ← perform (random_hex 16)
    modify (label r session_id)
    enter RuntimePhase.preparing r
    ports ← perform reserve_ports
    password ← perform (random_hex 24)
    upstream ← choose_upstream r.mode
    prepared ← perform_with (λ s.
        prepare s.nodes r.node_id r.stored r.policy r.mode ports password upstream
          r.naive_udp_over_tcp r.redactor)
    modify (set_proof services ProofKind.engine_config ProofState.pending none)
    enter RuntimePhase.validating_config r
    launch ← perform (create upstream prepared.front)
    version ← perform (check launch)
    sidecar_launch ← perform (check_sidecar prepared.sidecar)
    generation ← perform (random_hex 16)
    modify (set_proof services ProofKind.engine_config ProofState.passed none)
    enter RuntimePhase.starting_core r
    sidecar ← perform (start_sidecar prepared.bridges sidecar_launch)
    child ← perform (start_child prepared.bridges launch sidecar)
    pure (record {
      session_id = session_id;
      ports = ports;
      password = password;
      engine_version = engine_version_text version sidecar_launch;
      generation = generation;
      switching = prepared.switching;
      redactor = prepared.redactor;
      child = child;
    })
