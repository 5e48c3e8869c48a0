-- ===== src/Controller/Examples.antt =====
-- A small machine behind the services, a node and a session on it: the theorems at concrete inputs.
use route_deck.Controller.ConnectTun.{is_uncertain}
use route_deck.Controller.Session.{
  set_proof, update_status, State, ConnectionRequest, reconnect_delay, is_blocked, pausing_error,
  finish_connection_attempt, ActiveSession,
}
use route_deck.Controller.Requests.{
  listener_owned, child_alive, same_config, is_session, find_node, into_policy,
}
use route_deck.Action.{◌>>=◌, ok}
use route_deck.Controller.Children.{is_alive}
use route_deck.Controller.Connect.{
  reprove_proxy, proxy_verdict, conclude_proxy, finish_proxy_proof, connect_proxy, set_intent,
  unless_closed, start_system_proxy_locked, finished, start_system_proxy, may_request,
}
use route_deck.Domain.Routes.{RoutePolicy-discrete}
use route_deck.Controller.Reproving.{reconnect_tick-start_system_proxy}
use route_deck.Controller.Refusing.{IsRemembered, start_system_proxy-IsRemembered}
use route_deck.Controller.Samples.{quiet, node, idle, routing, policy, session}
use route_deck.Prelude.{ℕ, ◌≡◌, refl, arith, true, false, none, some, [], ℕ_discrete}
use route_deck.Text.{codes, Text-discrete}
use route_deck.SystemProxy.Manager.{foreign_preserved}
use route_deck.Controller.Status.{RuntimeMode, default_status}
use route_deck.Controller.Services.{Services, single}
use route_deck.Controller.Teardown.{stop_active_locked, with_world, Answer}
use route_deck.Controller.Starting.{Start}
use route_deck.Controller.Proving.{start_locked}
use route_deck.Controller.Reconnect.{reconnect_tick, connect_again, stopped_first, mode_is}
use route_deck.Controller.Monitor.{
  observe, needs_review, observe_active, liveness_seen, ownership_seen, schedule_probe,
  take_snapshot, due,
}
use route_deck.Controller.Rows.{kinds-default_proofs}
use route_deck.Controller.Coherence.{IsCoherent}
use route_deck.Controller.Coherence.Staging.{Stage, Goes}
use route_deck.Controller.Coherence.Announcing.{start_locked-Goes}
use route_deck.Controller.Coherence.Reaching.{IsFresh, Reach-IsCoherent}
use route_deck.Controller.Steps.{Step, Reach}
use route_deck.Controller.Cleanup.{Ended, HandedBack, stop_active_locked-Ended}
use route_deck.Controller.Resuming.{reconnect_tick-finish_connection_attempt}
use route_deck.Controller.Retrying.{delay_table, reconnect_delay-table}

-- The System Proxy is in foreign hands; the world is the time.
abbrev sample : Services
sample =
    quiet ℕ (λ w. w) (λ w. (ok foreign_preserved, w)) (λ w. (ok true, w)) (λ port w. (ok tt, w))

abbrev fresh : State sample
fresh = idle sample 1000

fresh-IsFresh : IsFresh sample fresh
fresh-IsFresh = record { status = refl; published = refl; calm = refl; idle = refl }

-- A tick, a connection, an observation and a stop.
abbrev run :
    Reach sample fresh
      (stop_active_locked sample none
        (observe sample (
          finish_connection_attempt sample true
            (start_system_proxy_locked sample (codes "n1") routing (
              set_intent sample
                (ConnectionRequest.proxy (codes "n1") routing)
                (reconnect_tick sample fresh))).1)).1).1
run =
    Reach.next
      (Reach.next
        (Reach.next
          (Reach.next
            (Reach.next (Reach.next Reach.here (Step.reconnects fresh))
              (Step.asks (ConnectionRequest.proxy (codes "n1") routing) _))
            (Step.starts_proxy (codes "n1") routing _))
          (Step.finishes true _))
        (Step.observes _))
      (Step.stops _)

Reach-IsCoherent_example :
    IsCoherent sample
      (stop_active_locked sample none
        (observe sample (
          finish_connection_attempt sample true
            (start_system_proxy_locked sample (codes "n1") routing (
              set_intent sample
                (ConnectionRequest.proxy (codes "n1") routing)
                (reconnect_tick sample fresh))).1)).1).1
Reach-IsCoherent_example =
    Reach-IsCoherent sample fresh-IsFresh run ((((((tt, λ a e. cc), tt), tt), tt), tt), tt)

abbrev start : Start sample
start = record {
  node_id = codes "n1";
  stored = node;
  policy = policy;
  mode = RuntimeMode.system_proxy;
  tun_options = none;
  naive_udp_over_tcp = false;
  redactor = tt;
}

fresh-Stage : Stage sample [] fresh
unfolding default_status
fresh-Stage = record { rows = kinds-default_proofs; calm = refl; passed = refl }

start_locked-Goes_example :
    Goes sample (Stage sample []) (start_locked sample start) (λ u. IsCoherent sample)
start_locked-Goes_example = start_locked-Goes sample start

-- A session that published the System Proxy, and may connect again.
abbrev connected : State sample
connected = record fresh {
  active = some (session sample (single 1) tt);
  reconnect = some (record {
    request = ConnectionRequest.proxy (codes "n1") routing;
    failures = 0;
    next_attempt = 0;
    paused = false;
  });
}

stop_active_locked-Ended_example :
    Ended sample
      (HandedBack sample (session sample (single 1) tt) connected)
      (stop_active_locked sample none connected)
stop_active_locked-Ended_example =
    stop_active_locked-Ended sample (session sample (single 1) tt) none connected refl

reconnect_delay-table_example : reconnect_delay 3 ≡ 16
unfolding delay_table
reconnect_delay-table_example = reconnect_delay-table 3

-- A connection attempt failed and left its intent.
abbrev waiting : State sample
waiting = record fresh { reconnect = connected.reconnect }

reconnect_tick-finish_connection_attempt_example :
    reconnect_tick sample
      (with_world sample 60000001000 (finish_connection_attempt sample false waiting))
    ≡ connect_again sample
        (ConnectionRequest.proxy (codes "n1") routing)
        (with_world sample 60000001000 (finish_connection_attempt sample false waiting))
unfolding default_status is_blocked pausing_error
reconnect_tick-finish_connection_attempt_example =
    reconnect_tick-finish_connection_attempt sample false (codes "n1") routing
      (record {
        request = ConnectionRequest.proxy (codes "n1") routing;
        failures = 0;
        next_attempt = 0;
        paused = false;
      })
      waiting 60000001000 refl refl refl refl refl refl (omega arith)

-- A TUN session, and a request for the System Proxy.
abbrev tun_session : ActiveSession sample
tun_session = record (session sample (single 1) tt) { mode = RuntimeMode.tun }

abbrev over_tun : State sample
over_tun = record fresh { active = some tun_session }

start_system_proxy-IsRemembered_example :
    IsRemembered sample
      (ConnectionRequest.proxy (codes "n1") routing)
      tun_session
      (start_system_proxy sample (codes "n1") routing over_tun)
unfolding may_request find_node Text-discrete ℕ_discrete default_status
start_system_proxy-IsRemembered_example =
    start_system_proxy-IsRemembered sample (codes "n1") routing tun_session over_tun refl refl refl
      refl refl

-- A System Proxy session whose proofs failed six times, and works again.
abbrev wedged_session : ActiveSession sample
wedged_session = record (session sample (single 1) tt) {
  routing = into_policy routing.default_route routing.apps;
  consecutive_probe_failures = 6;
}

abbrev wedged : State sample
wedged = record fresh { active = some wedged_session }

abbrev verified : Answer sample
verified = start_system_proxy sample (codes "n1") routing wedged

reconnect_tick-start_system_proxy_example :
    reconnect_tick sample (observe sample (with_world sample 3000001000 verified.1)).1
    ≡ stopped_first sample
        (ConnectionRequest.proxy (codes "n1") routing)
        (stop_active_locked sample none (with_world sample 3000001000 verified.1))
unfolding start_system_proxy find_node Text-discrete ℕ_discrete may_request default_status finished
    start_system_proxy_locked unless_closed set_intent connect_proxy is_session RoutePolicy-discrete
    same_config finish_proxy_proof conclude_proxy proxy_verdict reprove_proxy child_alive is_alive
    ◌>>=◌ listener_owned finish_connection_attempt update_status set_proof observe needs_review
    observe_active liveness_seen mode_is ownership_seen schedule_probe is_uncertain take_snapshot
    due
reconnect_tick-start_system_proxy_example =
    reconnect_tick-start_system_proxy sample (codes "n1") routing wedged_session wedged
      verified.1.published_status
      (record {
        request = ConnectionRequest.proxy (codes "n1") routing;
        failures = 0;
        next_attempt = 2000001000;
        paused = false;
      })
      3000001000 3000001000 refl refl (omega arith) refl refl refl (omega arith)
