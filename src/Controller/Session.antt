-- ===== src/Controller/Session.antt =====
-- application.rs: the state of the controller, the publication of its status and the automatic
-- reconnection. State and the fields of ApplicationController that an operation changes are one
-- record; the world stands for everything behind the services.
use route_deck.Prelude.{
  ℕ, ◌+◌, ◌-◌, ◌*◌, ◌/◌, ◌^◌, Bool, true, false, not, ◌&&◌, ◌||◌, Option, none, some, List, leb,
  if◌then◌else◌,
}
use route_deck.Text.{Text}
use route_deck.Domain.Tls.{is_some}
use route_deck.Domain.Routes.{DefaultRoute, AppRoute, RoutePolicy}
use route_deck.Controller.Status.{
  RuntimePhase, RuntimeMode, RuntimeScope, ProofKind, ProofState, PublicPorts, PublicErrorStage,
  PublicError, RuntimeStatus, default_proofs, set_row,
}
use route_deck.Diagnostics.{DiagnosticBuffer}
use route_deck.Controller.Services.{Services, HealthRoute, Switching, StoredNode}
use route_deck.Controller.Children.{Child}

pub record SystemProxyRouting : Type 0 where
  pub default_route : DefaultRoute
  pub naive_udp_over_tcp : Bool
  pub apps : List AppRoute

pub data ConnectionRequest : Type 0 where
  proxy : Text → SystemProxyRouting → ConnectionRequest
  tun : ConnectionRequest

-- Times are in nanoseconds.
pub record ReconnectIntent : Type 0 where
  pub request : ConnectionRequest
  pub failures : ℕ
  pub next_attempt : ℕ
  pub paused : Bool

abbrev pub second : ℕ
second = 1000000000

abbrev pub min : ℕ → ℕ → ℕ
min a b = if leb a b then a else b

-- u32::saturating_add(1), u64 and u8 alike
abbrev pub saturating_suc : ℕ → ℕ → ℕ
saturating_suc max n = min (n + 1) max

abbrev pub u8_max : ℕ
u8_max = 255

abbrev pub u32_max : ℕ
u32_max = 4294967295

abbrev pub u64_max : ℕ
u64_max = 18446744073709551615

-- In seconds.
unfoldable pub reconnect_delay : ℕ → ℕ
reconnect_delay failures = min (2 * 2 ^ min failures 5) 60

unfoldable pub is_ready : RuntimePhase → Bool
is_ready RuntimePhase.system_proxy_ready = true
is_ready RuntimePhase.tun_ready = true
is_ready _ = false

-- The phases that keep the time of the last proof.
unfoldable pub is_verified : RuntimePhase → Bool
is_verified RuntimePhase.outbound_verified = true
is_verified RuntimePhase.local_proxy_ready = true
is_verified RuntimePhase.system_proxy_ready = true
is_verified RuntimePhase.tun_ready = true
is_verified RuntimePhase.degraded = true
is_verified _ = false

unfoldable pub is_blocked : RuntimePhase → Bool
is_blocked RuntimePhase.blocked_by_conflict = true
is_blocked _ = false

unfoldable pub is_disconnected : RuntimePhase → Bool
is_disconnected RuntimePhase.disconnected = true
is_disconnected _ = false

unfoldable pub is_tun : ConnectionRequest → Bool
is_tun ConnectionRequest.tun = true
is_tun (ConnectionRequest.proxy n r) = false

unfoldable pub pauses : PublicErrorStage → Bool
pauses PublicErrorStage.engine_layout = true
pauses PublicErrorStage.engine_integrity = true
pauses PublicErrorStage.config_check = true
pauses PublicErrorStage.generate_config = true
pauses PublicErrorStage.system_proxy_ownership = true
pauses _ = false

unfoldable pub is_paused : Option ReconnectIntent → Bool
is_paused none = false
is_paused (some i) = i.paused

module _ (services : Services) where
  open services use {World, now, Redactor, TunOptions}

  pub record ActiveSession : Type 0 where
    pub switching : Option Switching
    pub child : Child services
    pub node_id : Text
    pub config_identity : Text
    pub session_id : Text
    pub mode : RuntimeMode
    pub routing : RoutePolicy
    pub tun_options : Option TunOptions
    pub naive_udp_over_tcp : Bool
    pub system_proxy_requires_restore : Bool
    pub ports : PublicPorts
    pub health_route : HealthRoute
    pub engine_version : Text
    pub redactor : Redactor
    pub last_probe : ℕ
    pub consecutive_probe_failures : ℕ
    pub generation : Text

  pub record State : Type 0 where
    pub nodes : List (Text × StoredNode)
    pub active : Option ActiveSession
    pub status : RuntimeStatus
    pub recovery_required : Bool
    pub shutting_down : Bool
    pub reconnect : Option ReconnectIntent
    pub diagnostics : DiagnosticBuffer
    pub published_status : RuntimeStatus
    pub event_sink : Option (RuntimeStatus → World → World)
    pub world : World

  abbrev notify : Option (RuntimeStatus → World → World) → RuntimeStatus → World → World
  notify none status w = w
  notify (some sink) status w = sink status w

  -- emit_status(state.status.clone())
  unfoldable pub emit_status : State → State
  emit_status s = record s {
    published_status = s.status;
    world = notify s.event_sink s.status s.world;
  }

  seconds_left : ReconnectIntent → World → Option ℕ × World
  seconds_left i w = let (t, w') = now w in (some ((i.next_attempt - t) / second), w')

  -- retry_delay_seconds, which asks for the time only if an attempt is scheduled.
  unfoldable pub retry_delay : Option ReconnectIntent → Bool → World → Option ℕ × World
  unfolding seconds_left
  retry_delay none waits w = (none, w)
  retry_delay (some i) waits w = if not i.paused && waits then seconds_left i w else (none, w)

  unfoldable pub sync_reconnect_status : State → State
  unfolding retry_delay is_paused is_blocked
  sync_reconnect_status s =
      let (delay, w) =
        retry_delay s.reconnect (not (is_some s.active) && not s.recovery_required) s.world in
      record s {
        status = record s.status {
          connection_requested = is_some s.reconnect;
          reconnect_paused =
              is_paused s.reconnect
              || (is_some s.reconnect && (s.recovery_required || is_blocked s.status.phase));
          retry_delay_seconds = delay;
        };
        world = w;
      }

  unfoldable pub set_phase : RuntimePhase → State → State
  set_phase phase s = record s { status = record s.status { phase = phase } }

  -- The fields that follow the phase and the error.
  unfoldable pub relabel : Option Text → Option PublicError → RuntimeStatus → RuntimeStatus
  unfolding is_ready is_verified
  relabel node_id error t = record t {
    node_id = node_id;
    error = error;
    steady_latency_ms =
        if is_some error || not (is_ready t.phase) then none else t.steady_latency_ms;
    route_check_ms = if not (is_verified t.phase) then none else t.route_check_ms;
    revision = saturating_suc u64_max t.revision;
  }

  unfoldable pub update_status : RuntimePhase → Option Text → Option PublicError → State → State
  unfolding set_phase sync_reconnect_status relabel emit_status
  update_status phase node_id error s =
      let s' = sync_reconnect_status (set_phase phase s) in
      emit_status (record s' { status = relabel node_id error s'.status })

  unfoldable pub clear_active_metadata : State → State
  clear_active_metadata s = record s {
    status = record s.status {
      ports = none;
      route_check_ms = none;
      steady_latency_ms = none;
      engine_version = none;
    };
  }

  -- No session, and no proof of one.
  unfoldable pub without_session : State → State
  unfolding clear_active_metadata default_proofs
  without_session s =
      let s' = clear_active_metadata s in
      record s' {
        status = record s'.status {
          scope = RuntimeScope.local_only;
          mode = RuntimeMode.local_only;
          session_id = none;
          proofs = default_proofs;
        };
      }

  unfoldable pub reset_disconnected : State → State
  unfolding without_session update_status
  reset_disconnected s = update_status RuntimePhase.disconnected none none (without_session s)

  unfoldable pub set_proof : ProofKind → ProofState → Option ℕ → State → State
  unfolding set_row
  set_proof k p l s = record s {
    status = record s.status { proofs = set_row k p l s.status.proofs };
  }

  -- The verdict on an attempt, for the intent that is still there.
  unfoldable pub after_attempt : Bool → Bool → Bool → ℕ → ReconnectIntent → ReconnectIntent
  unfolding reconnect_delay is_tun
  after_attempt succeeded pause no_active t i =
      let failures = if succeeded then 0 else saturating_suc u32_max i.failures in
      record i {
        failures = failures;
        next_attempt = t + reconnect_delay failures * second;
        paused = i.paused || (pause || (no_active && is_tun i.request));
      }

  unfoldable pub pausing_error : Option PublicError → Bool
  unfolding pauses
  pausing_error none = false
  pausing_error (some e) = pauses e.stage

  unfoldable pub schedule : Bool → Option ReconnectIntent → State → State
  unfolding after_attempt pausing_error
  schedule succeeded none s = s
  schedule succeeded (some i) s =
      let (t, w) = now s.world in
      record s {
        reconnect =
            some
              (after_attempt succeeded (pausing_error s.status.error) (not (is_some s.active)) t i);
        world = w;
      }

  -- The revision grows by one and the status is published.
  unfoldable pub republish : State → State
  unfolding emit_status
  republish s = emit_status (record s {
    status = record s.status { revision = saturating_suc u64_max s.status.revision };
  })

  unfoldable pub finish_connection_attempt : Bool → State → State
  unfolding schedule sync_reconnect_status republish
  finish_connection_attempt succeeded s =
      republish (sync_reconnect_status (schedule succeeded s.reconnect s))
