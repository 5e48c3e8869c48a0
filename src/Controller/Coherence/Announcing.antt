-- ===== src/Controller/Coherence/Announcing.antt =====
-- A session that is announced as ready has every proof behind it, or the start fails.
use route_deck.Prelude.{ℕ, ◌≡◌, refl, true, false, none, some, List, [], ◌∷◌, arith, any, and-true}
use route_deck.Action.{Result, ok, err}
use route_deck.SystemProxy.Snapshot.{SystemProxyError}
use route_deck.Controller.Status.{
  RuntimePhase, RuntimeMode, ProofKind, ProofState, ProofRow, proof_kinds,
}
use route_deck.Controller.Services.{Services}
use route_deck.Controller.Session.{State, ActiveSession}
use route_deck.Controller.Teardown.{with_world, with_active}
use route_deck.Controller.Starting.{Start, Running, enter, set_proofs, listeners, ready_phase}
use route_deck.Controller.Proving.{published, publish, announce, prove_session, start_locked}
use route_deck.Controller.Rows.{is_kind}
use route_deck.Controller.Coherence.{IsCoherent, all_passed, traffic_kinds}
use route_deck.Controller.Coherence.Concluding.{MayShow, ready-IsCoherent}
use route_deck.Controller.Coherence.Staging.{
  Stage, Live, Goes, Outcome, Goes-bind, Goes-modify, Goes-require, Goes-enter-Live, Steady-Live,
  passed_all,
}
use route_deck.Controller.Coherence.Launching.{launch_session-Goes}
use route_deck.Controller.Coherence.Readying.{
  Live-pass, Live-other, Live-describe_only, Live-set_check, Live-with_active, call,
  ready_listeners, verified, store_session-Goes, prove_ingress-Goes, verified-MayShow,
}

named : (k : ProofKind) → any (is_kind k) (ProofKind.system_proxy_ownership ∷ verified) ≡ true
unfolding is_kind
named ProofKind.engine_config = refl
named ProofKind.engine_process = refl
named ProofKind.http_listener = refl
named ProofKind.socks_listener = refl
named ProofKind.health_listener = refl
named ProofKind.selected_outbound_https = refl
named ProofKind.local_scope_ownership = refl
named ProofKind.system_proxy_ownership = refl

-- What has passed when the listeners are not yet proved.
abbrev processes : List ProofKind
processes = ProofKind.engine_process ∷ ProofKind.engine_config ∷ []

module _ (services : Services) where
  enter-IsCoherent :
      (m : RuntimeMode) (ks : List ProofKind) (r : Start services)
      → ((s : State services) → Live services ks s → MayShow services m s)
      → Goes services
          (Live services ks)
          (enter services (ready_phase m) r)
          (λ u. IsCoherent services)
  unfolding enter
  enter-IsCoherent m ks r h =
      Goes-modify services _ (λ s p. ready-IsCoherent services m _ s (h s p))

  publish-Goes :
      (ks : List ProofKind) (a : ActiveSession services) (n : Running services)
      → Goes services (Live services ks) (publish services a n) (λ u. Live services ks)
  unfolding publish published Outcome with_active
  publish-Goes ks a n = record { triple = record { at = λ s h. go _ _ (moved s h) } }
    where
      moved :
          (s : State services)
          → Live services ks s
          → Live services ks
              (with_world services (services.publish_loopback n.ports.http s.world).1 s)
      moved s h = (Steady-Live services ks).moves _ s h

      go :
          (r : Result SystemProxyError (Unit {0})) (s : State services)
          → Live services ks s
          → Outcome services
              (λ u. Live services ks)
              (published services a r s).0
              (published services a r s).1
      go (ok u) s h = h
      go (err e) s h = record { rows = h.stage.rows; calm = h.stage.calm; passed = refl }

  local-MayShow :
      (s : State services) → Live services verified s → MayShow services RuntimeMode.local_only s
  unfolding ready_phase
  local-MayShow s h = verified-MayShow services RuntimeMode.local_only s refl h

  tun-MayShow : (s : State services) → Live services verified s → MayShow services RuntimeMode.tun s
  unfolding ready_phase
  tun-MayShow s h = verified-MayShow services RuntimeMode.tun s (traffic h.stage.passed) h
    where
      traffic :
          all_passed verified s.status.proofs ≡ true
          → all_passed traffic_kinds s.status.proofs ≡ true
      traffic p = ground arith

  proxy-MayShow :
      (s : State services)
      → Live services (ProofKind.system_proxy_ownership ∷ verified) s
      → MayShow services RuntimeMode.system_proxy s
  unfolding ready_phase
  proxy-MayShow s h =
      verified-MayShow services RuntimeMode.system_proxy s
        (passed_all (ProofKind.system_proxy_ownership ∷ verified) proof_kinds s.status.proofs named
          h.stage.passed)
        (record {
          stage = record {
            rows = h.stage.rows;
            calm = h.stage.calm;
            passed = others s.status.proofs h.stage.passed;
          };
          alive = h.alive;
        })
    where
      others :
          (rows : List ProofRow)
          → all_passed (ProofKind.system_proxy_ownership ∷ verified) rows ≡ true
          → all_passed verified rows ≡ true
      others rows p = (and-true _ (all_passed verified rows) p).1

  announce-Goes :
      (m : RuntimeMode) (r : Start services) (a : ActiveSession services) (n : Running services)
      (latency : ℕ)
      → Goes services
          (Live services verified)
          (announce services m r a n latency)
          (λ u. IsCoherent services)
  unfolding announce is_kind ready_phase
  announce-Goes RuntimeMode.local_only r a n latency =
      enter-IsCoherent RuntimeMode.local_only verified r local-MayShow
  announce-Goes RuntimeMode.tun r a n latency =
      enter-IsCoherent RuntimeMode.tun verified r tun-MayShow
  announce-Goes RuntimeMode.system_proxy r a n latency =
      Goes-bind services
        (Goes-modify services _ (λ s h.
          Live-other services ProofKind.system_proxy_ownership ProofState.pending none _ s refl h))
        (λ u.
          Goes-bind services
            (Goes-enter-Live services verified RuntimePhase.applying_system_proxy r)
            (λ u.
              Goes-bind services
                (Goes-modify services _ (λ s h. Live-with_active services verified _ s h.stage))
                (λ u. Goes-bind services (publish-Goes verified a n) (λ u.
                  Goes-bind services (call services verified _) (λ owned.
                    Goes-bind services
                      (Goes-require services owned _ (Steady-Live services verified))
                      (λ u.
                        Goes-bind services
                          (Goes-modify services _
                            (Live-pass services ProofKind.system_proxy_ownership none verified))
                          (λ u.
                            Goes-bind services
                              (Goes-modify services _ (Live-set_check services _ latency))
                              (λ u.
                                enter-IsCoherent RuntimeMode.system_proxy _ r proxy-MayShow))))))))

  -- The listeners are reset, and answer later.
  reset :
      (s : State services)
      → Live services processes s
      → Live services processes (set_proofs services (listeners services) ProofState.pending s)
  unfolding set_proofs is_kind
  reset s h =
      let other =
        λ (k : ProofKind) (t : State services) (n : any (is_kind k) processes ≡ false)
            (g : Live services processes t).
          Live-other services k ProofState.pending none processes t n g in
      other ProofKind.health_listener _ refl
        (other ProofKind.socks_listener _ refl (other ProofKind.http_listener _ refl h))

  answered :
      (s : State services)
      → Live services processes s
      → Live services ready_listeners (set_proofs services (listeners services) ProofState.passed s)
  unfolding set_proofs
  answered s h = Live-pass services ProofKind.health_listener none _ _ (
      Live-pass services ProofKind.socks_listener none _ _
        (Live-pass services ProofKind.http_listener none _ _ h))

  -- From the stored session on.
  prove_session-Goes :
      (r : Start services) (a : ActiveSession services) (n : Running services)
      → Goes services
          (Live services (ProofKind.engine_config ∷ []))
          (prove_session services r a n)
          (λ u. IsCoherent services)
  unfolding prove_session is_kind
  prove_session-Goes r a n =
      Goes-bind services
        (Goes-modify services _ (Live-pass services ProofKind.engine_process none _))
        (λ u. Goes-bind services (Goes-modify services _ reset) (λ u.
          Goes-bind services (Goes-enter-Live services processes RuntimePhase.verifying_listener r)
            (λ u. Goes-bind services (call services processes _) (λ u.
              Goes-bind services (Goes-modify services _ answered) (λ u.
                Goes-bind services
                  (Goes-modify services _ (λ s h.
                    Live-other services ProofKind.selected_outbound_https ProofState.pending none
                      ready_listeners s refl h))
                  (λ u.
                    Goes-bind services
                      (Goes-enter-Live services ready_listeners RuntimePhase.proving_traffic r)
                      (λ u. Goes-bind services (call services ready_listeners _) (λ latency.
                        Goes-bind services (prove_ingress-Goes services n latency r.mode) (λ u.
                          Goes-bind services
                            (Goes-modify services _ (
                              Live-pass services ProofKind.selected_outbound_https (some latency)
                                _))
                            (λ u. Goes-bind services (call services _ _) (λ alive.
                              Goes-bind services
                                (Goes-require services alive _ (Steady-Live services _))
                                (λ u. Goes-bind services (call services _ _) (λ u.
                                  Goes-bind services
                                    (Goes-modify services _
                                      (Live-pass services ProofKind.local_scope_ownership none _))
                                    (λ u.
                                      Goes-bind services
                                        (Goes-modify services _ (Live-describe_only services _ n))
                                        (λ u.
                                          Goes-bind services
                                            (Goes-modify services _
                                              (Live-set_check services _ latency))
                                            (λ u.
                                              Goes-bind services
                                                (Goes-enter-Live services verified
                                                  RuntimePhase.outbound_verified r)
                                                (λ u.
                                                  announce-Goes r.mode r a n
                                                    latency)))))))))))))))))

  pub start_locked-Goes :
      (r : Start services)
      → Goes services (Stage services []) (start_locked services r) (λ u. IsCoherent services)
  unfolding start_locked
  start_locked-Goes r =
      Goes-bind services (launch_session-Goes services r) (λ n.
        Goes-bind services (store_session-Goes services _ r n) (λ a. prove_session-Goes r a n))
