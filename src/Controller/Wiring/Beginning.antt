-- ===== src/Controller/Wiring/Beginning.antt =====
-- A start, with the manager of the System Proxy behind the services: whose the settings are then.
use route_deck.Controller.Teardown.{with_world}
use route_deck.Text.{Text}
use route_deck.Controller.Status.{
  RuntimeMode, RuntimePhase, ProofState, ProofKind, RuntimeError, PublicPorts,
}
use route_deck.Controller.Wiring.Launching.{
  Apart, Apart-check_sidecar, Apart-start_sidecar, Apart-start_child,
}
use route_deck.Controller.Wiring.Leasing.{
  Free, Firm, Firm-Free, Takes, Takes-bind, Takes-modify, Takes-perform, Takes-pure, Takes-enter,
  Takes-set_proof, Takes-perform_with, Takes-bind_fact, Reaches,
}
use route_deck.Controller.Starting.{
  label, Io, choose_upstream, launch_session, Start, perform, modify, Act, enter,
}
use route_deck.Prelude.{◌≡◌, ◌<◌, refl, some, none}
use route_deck.Action.{Result, ok, err, ◌>>=◌}
use route_deck.SystemProxy.Platform.{Platform, PlatformLaws}
use route_deck.Controller.Services.{Services}
use route_deck.Controller.Session.{State, set_proof}
use route_deck.Controller.Wiring.{Wiring}
use route_deck.SystemProxy.Manager.Steps.{Same}

module _ (p : Platform) (l : PlatformLaws p) (services : Services)
    (wiring : Wiring p l services) where
  open wiring use {view}
  open l use {settings}

  module _ (v : p.World) where
    abbrev Unheld : State services → Type 0
    Unheld = Free p l services wiring v

    unheld : Firm p l services wiring v Unheld
    unheld = Firm-Free p l services wiring v

    free_call :
        {A : Type 0} {m : Io services A}
        → Apart p l services wiring m
        → Takes p l services wiring v Unheld (perform services m) (λ a. Unheld)
    free_call a = Takes-perform p l services wiring unheld a

    choose_upstream-Takes :
        (m : RuntimeMode)
        → Takes p l services wiring v Unheld (choose_upstream services m) (λ u. Unheld)
    unfolding choose_upstream
    choose_upstream-Takes RuntimeMode.tun =
        Takes-bind p l services wiring (free_call (record { leaves = wiring.upstream_Leaves }))
          (λ u.
            Takes-bind p l services wiring
              (Takes-modify p l services wiring _ (λ s h. unheld.ignores s _ refl refl refl h))
              (λ x. Takes-pure p l services wiring (some u) (λ s h. h)))
    choose_upstream-Takes RuntimeMode.local_only = Takes-pure p l services wiring none (λ s h. h)
    choose_upstream-Takes RuntimeMode.system_proxy = Takes-pure p l services wiring none (λ s h. h)

    label-Takes :
        (r : Start services) (session_id : Text)
        → Takes p l services wiring v Unheld
            (modify services (label services r session_id))
            (λ u. Unheld)
    unfolding label
    label-Takes r session_id =
        Takes-modify p l services wiring _ (λ s h. unheld.ignores s _ refl refl refl h)

    ports-Takes :
        Takes p l services wiring v Unheld
          (perform services services.reserve_ports)
          (λ ports s. Unheld s × (ports.http < 65536))
    unfolding perform
    ports-Takes = record {
      triple = record {
        at = λ s h.
            go s h (services.reserve_ports s.world) (wiring.ports_Leaves s.world)
              (wiring.ports_fit s.world);
      };
    }
      where
        go :
            (s : State services)
            → Unheld s
            → (x : Result RuntimeError PublicPorts × services.World)
            → Same p l (view s.world) (view x.1)
            → ((ports : PublicPorts) → x.0 ≡ ok ports → ports.http < 65536)
            → Reaches p l services wiring v
                (λ ports t. Unheld t × (ports.http < 65536))
                x.0
                (with_world services x.1 s)
        go s h (ok ports, w) e f = (unheld.moves w s h e, f ports refl)
        go s h (err x, w) e f = unheld.fails _ (unheld.moves w s h e)

    pub launch_session-Takes :
        (r : Start services)
        → Takes p l services wiring v Unheld
            (launch_session services r)
            (λ n s. Unheld s × (n.ports.http < 65536))
    unfolding launch_session
    launch_session-Takes r =
        bind (free_call (record { leaves = wiring.random_Leaves 16 })) (λ session_id.
          bind (label-Takes r session_id) (λ u. bind (enter_free RuntimePhase.preparing) (λ u.
            Takes-bind_fact p l services wiring ports-Takes (λ ports fits.
              bind (free_call (record { leaves = wiring.random_Leaves 24 })) (λ password.
                bind (choose_upstream-Takes r.mode) (λ upstream.
                  bind
                    (Takes-perform_with p l services wiring unheld
                      (λ s. record { leaves = wiring.prepare_Leaves _ _ _ _ _ _ _ _ _ _ }))
                    (λ prepared. bind (proof ProofState.pending) (λ u.
                      bind (enter_free RuntimePhase.validating_config) (λ u.
                        bind (free_call (record { leaves = wiring.create_Leaves _ _ })) (λ launch.
                          bind (free_call (record { leaves = wiring.check_Leaves _ })) (λ version.
                            bind
                              (free_call (Apart-check_sidecar p l services wiring prepared.sidecar))
                              (λ sidecar_launch.
                                bind (free_call (record { leaves = wiring.random_Leaves 16 }))
                                  (λ generation. bind (proof ProofState.passed) (λ u.
                                    bind (enter_free RuntimePhase.starting_core) (λ u.
                                      bind (free_call (Apart-start_sidecar p l services wiring _ _))
                                        (λ sidecar.
                                          bind
                                            (free_call
                                              (Apart-start_child p l services wiring _ _ _))
                                            (λ child.
                                              Takes-pure p l services wiring _
                                                (λ s h. (h, fits)))))))))))))))))))
      where
        bind :
            {A C : Type 0} {m : Act services A} {f : A → Act services C}
            {G : C → State services → Type 0}
            → Takes p l services wiring v Unheld m (λ a. Unheld)
            → ((a : A) → Takes p l services wiring v Unheld (f a) G)
            → Takes p l services wiring v Unheld (m >>= f) G
        bind t k = Takes-bind p l services wiring t k

        enter_free :
            (phase : RuntimePhase)
            → Takes p l services wiring v Unheld (enter services phase r) (λ u. Unheld)
        enter_free phase = Takes-enter p l services wiring unheld phase r

        proof :
            (x : ProofState)
            → Takes p l services wiring v Unheld
                (modify services (set_proof services ProofKind.engine_config x none))
                (λ u. Unheld)
        proof x = Takes-set_proof p l services wiring unheld ProofKind.engine_config x none
