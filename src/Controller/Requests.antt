-- ===== src/Controller/Requests.antt =====
-- application.rs: a request for a connection, and whether the active session already answers it.
use route_deck.Prelude.{
  String, Bool, true, false, not, ◌&&◌, Option, none, some, List, [], ◌∷◌, if◌then◌else◌, holds,
}
use route_deck.Text.{Text, Text-discrete}
use route_deck.Action.{Result, ok, err, Action}
use route_deck.Domain.Routes.{
  RoutePolicy, RoutePolicy-discrete, LanPolicy, Ipv6Policy, DnsPolicy, AppRoute, DefaultRoute,
}
use route_deck.Controller.Status.{
  RuntimeMode, PublicErrorCode, PublicErrorStage, PublicError, RuntimeError, fixed,
}
use route_deck.Controller.Services.{Services, StoredNode}
use route_deck.Controller.Children
use route_deck.Controller.Session.{ActiveSession}

unfoldable pub RuntimeMode-discrete : Discrete RuntimeMode
RuntimeMode-discrete = hlevel

unfoldable pub find_node : Text → List (Text × StoredNode) → Option StoredNode
find_node id [] = none
find_node id ((key, n) ∷ nodes) =
    if holds (Text-discrete key id) then some n else find_node id nodes

-- SystemProxyRouting::into_policy; TunRouting's is the same.
unfoldable pub into_policy : DefaultRoute → List AppRoute → RoutePolicy
into_policy default apps = record {
  default = default;
  apps = apps;
  lan = LanPolicy.direct;
  ipv6 = Ipv6Policy.enabled;
  dns = DnsPolicy.current_network;
}

abbrev pub start_error : String → PublicError
start_error = fixed PublicErrorCode.runtime_failure PublicErrorStage.start

abbrev pub conflict_error : String → PublicError
conflict_error = fixed PublicErrorCode.active_session_conflict PublicErrorStage.start

unfoldable pub node_missing : PublicError
unfolding fixed
node_missing =
    fixed PublicErrorCode.node_not_found PublicErrorStage.start
      "Selected node does not exist in the confirmed import"

unfoldable pub unresolved : PublicError
unfolding fixed
unresolved =
    fixed PublicErrorCode.recovery_required PublicErrorStage.session_recovery
      "Resolve ownership recovery before connecting"

unfoldable pub changed_error : String → PublicError
unfolding fixed
changed_error m = fixed PublicErrorCode.session_changed PublicErrorStage.start m

-- unwrap_or(false), is_ok()
abbrev pub or_false : {E : Type 0} → Result E Bool → Bool
or_false (ok b) = b
or_false (err e) = false

abbrev pub is_ok : {E A : Type 0} → Result E A → Bool
is_ok (ok a) = true
is_ok (err e) = false

module _ (services : Services) where
  open services use {World, TunOptions, verify_owned_now, same_options}

  unfoldable pub same_tun_options : Option TunOptions → Option TunOptions → Bool
  same_tun_options none none = true
  same_tun_options (some o) (some p) = same_options o p
  same_tun_options none (some p) = false
  same_tun_options (some o) none = false

  -- What the user asks for; a flag that the node's protocol does not know is off.
  pub record Request : Type 0 where
    pub node_id : Text
    pub policy : RoutePolicy
    pub mode : RuntimeMode
    pub naive_udp_over_tcp : Bool

  -- The session is the one that is asked for; the identity of the configuration apart.
  unfoldable pub is_session : Request → ActiveSession services → Bool
  unfolding RuntimeMode-discrete
  is_session q a =
      holds (RuntimeMode-discrete a.mode q.mode)
      && holds (Text-discrete a.node_id q.node_id)
      && holds (RoutePolicy-discrete a.routing q.policy)
      && (if a.naive_udp_over_tcp then q.naive_udp_over_tcp else not q.naive_udp_over_tcp)

  unfoldable pub same_config : ActiveSession services → Option StoredNode → Bool
  same_config a none = false
  same_config a (some n) = holds (Text-discrete a.config_identity n.config_identity)

  -- `.ok()` of a call.
  abbrev pub attempt : {A : Type 0} → Action World RuntimeError A → World → Option A × World
  attempt m w = kept (m w)
    where
      kept : {A : Type 0} → Result RuntimeError A × World → Option A × World
      kept (ok a, w) = (some a, w)
      kept (err e, w) = (none, w)

  unfoldable pub child_alive : ActiveSession services → World → Bool × World
  child_alive a w = let (r, w') = Children.is_alive services a.child w in (or_false r, w')

  unfoldable pub listener_owned : ActiveSession services → World → Bool × World
  listener_owned a w =
      let (alive, w') = child_alive a w in
      if alive
      then (let (r, w'') = verify_owned_now a.ports a.child w' in (is_ok r, w''))
      else (false, w')
