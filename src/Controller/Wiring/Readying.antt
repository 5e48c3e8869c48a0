-- ===== src/Controller/Wiring/Readying.antt =====
-- `start_locked` as a whole: it ends ready with the System Proxy leased, if that is its mode, and
-- with the settings untouched otherwise; or it fails with one of the three states of a failed start.
use route_deck.Controller.Wiring.Beginning.{launch_session-Takes}
use route_deck.Controller.Wiring.Launching.{Apart, Apart-prove_capture, Apart-is_alive}
use route_deck.Controller.Wiring.Publishing.{Claimed, publish-Takes, owned-Apart}
use route_deck.Controller.Wiring.Leasing.{
  Free, Firm, Leased, Firm-Free, Firm-Leased, Takes, Takes-enter, Takes-bind, Takes-perform,
  Takes-set_proof, Reaches, Takes-pure, Takes-modify, Takes-require, free, Takes-bind_fact,
}
use route_deck.Controller.Starting.{
  Io, set_proofs, Running, perform, Start, modify, Act, enter, listeners,
}
use route_deck.Controller.Teardown.{with_active, with_world, set_restore}
use route_deck.Controller.Proving.{
  store_session, failing, announce, prove_ingress, mark_error, session_of, set_check, prove_session,
  start_locked, describe,
}
use route_deck.Controller.Status.{ProofKind, RuntimeMode, ProofState, RuntimeError, RuntimePhase}
use route_deck.Prelude.{ℕ, ◌<◌, refl, true, some, List, Option, ◌∷◌, none, []}
use route_deck.Action.{Result, ok, err, ◌>>=◌}
use route_deck.SystemProxy.Platform.{Platform, PlatformLaws}
use route_deck.Controller.Services.{Services}
use route_deck.Controller.Session.{State, ActiveSession, set_proof}
use route_deck.Controller.Wiring.{Wiring}
use route_deck.SystemProxy.Manager.Steps.{Same, Same-trans}

module _ (p : Platform) (l : PlatformLaws p) (services : Services)
    (wiring : Wiring p l services) where
  open wiring use {view}

  -- A ready session of each mode.
  abbrev pub Ready : RuntimeMode → p.World → State services → Type 0
  Ready RuntimeMode.system_proxy v s = Leased p l services wiring v s
  Ready RuntimeMode.local_only v s = Free p l services wiring v s
  Ready RuntimeMode.tun v s = Free p l services wiring v s

  module _ (v : p.World) where
    abbrev Unheld : State services → Type 0
    Unheld = Free p l services wiring v

    unheld : Firm p l services wiring v Unheld
    unheld = Firm-Free p l services wiring v

    firm-Leased : Firm p l services wiring v (Leased p l services wiring v)
    firm-Leased = Firm-Leased p l services wiring v

    free_call :
        {A : Type 0} {m : Io services A}
        → Apart p l services wiring m
        → Takes p l services wiring v Unheld (perform services m) (λ a. Unheld)
    free_call a = Takes-perform p l services wiring unheld a

    free_proof :
        (k : ProofKind) (x : ProofState) (n : Option ℕ)
        → Takes p l services wiring v Unheld
            (modify services (set_proof services k x n))
            (λ u. Unheld)
    free_proof k x n = Takes-set_proof p l services wiring unheld k x n

    set_proofs-Free :
        (ks : List ProofKind) (x : ProofState) (s : State services)
        → Unheld s
        → Unheld (set_proofs services ks x s)
    unfolding set_proofs set_proof
    set_proofs-Free [] x s h = h
    set_proofs-Free (k ∷ ks) x s h =
        set_proofs-Free ks x (set_proof services k x none s) (unheld.ignores s _ refl refl refl h)

    store_session-Takes :
        (r : Start services) (n : Running services)
        → Takes p l services wiring v Unheld (store_session services r n) (λ a. Unheld)
    unfolding store_session session_of with_active with_world
    store_session-Takes r n = record {
      triple = record {
        at = λ s h. record {
          calm = record {
            same = Same-trans p l h.calm.same (wiring.now_Leaves s.world);
            sink = h.calm.sink;
          };
          unheld = refl;
        };
      };
    }

    failing-Takes :
        {A : Type 0} (k : ProofKind) (m : Io services A)
        → Apart p l services wiring m
        → Takes p l services wiring v Unheld (failing services k (perform services m)) (λ a. Unheld)
    unfolding failing mark_error perform set_proof
    failing-Takes {A} k m a = record {
      triple = record { at = λ s h. go s h (m s.world) (a.leaves s.world) };
    }
      where
        go :
            (s : State services)
            → Unheld s
            → (x : Result RuntimeError A × services.World) → Same p l (view s.world) (view x.1)
            → let y = mark_error services k (x.0, with_world services x.1 s) in
              Reaches p l services wiring v (λ (a : A). Unheld) y.0 y.1
        go s h (ok a, w) e = unheld.moves w s h e
        go s h (err x, w) e =
            free (unheld.ignores (with_world services w s) _ refl refl refl (unheld.moves w s h e))

    prove_ingress-Takes :
        (n : Running services) (latency : ℕ) (m : RuntimeMode)
        → Takes p l services wiring v Unheld (prove_ingress services n latency m) (λ u. Unheld)
    unfolding prove_ingress
    prove_ingress-Takes n latency RuntimeMode.local_only =
        Takes-bind p l services wiring (free_call (record { leaves = wiring.ordinary_Leaves _ }))
          (λ u. Takes-pure p l services wiring tt (λ s h. h))
    prove_ingress-Takes n latency RuntimeMode.system_proxy =
        Takes-bind p l services wiring (free_call (record { leaves = wiring.ordinary_Leaves _ }))
          (λ u. Takes-pure p l services wiring tt (λ s h. h))
    prove_ingress-Takes n latency RuntimeMode.tun =
        Takes-bind p l services wiring (free_proof _ _ _) (λ u.
          Takes-bind p l services wiring (free_proof _ _ _) (λ u.
            Takes-bind p l services wiring
              (failing-Takes _ _ (Apart-prove_capture p l services wiring n.child))
              (λ u. Takes-pure p l services wiring tt (λ s h. h))))

    claim :
        (a : ActiveSession services) (s : State services)
        → Unheld s
        → Claimed p l services wiring v a
            (with_active services (some (set_restore services true a)) s)
    unfolding with_active
    claim a s h = record {
      calm = record { same = h.calm.same; sink = h.calm.sink };
      claimed = refl;
    }

    announce-Takes :
        (m : RuntimeMode) (r : Start services) (a : ActiveSession services) (n : Running services)
        (latency : ℕ)
        → n.ports.http < 65536
        → Takes p l services wiring v Unheld (announce services m r a n latency) (λ u. Ready m v)
    unfolding announce set_check
    announce-Takes RuntimeMode.local_only r a n latency fits =
        Takes-enter p l services wiring unheld RuntimePhase.local_proxy_ready r
    announce-Takes RuntimeMode.tun r a n latency fits =
        Takes-enter p l services wiring unheld RuntimePhase.tun_ready r
    announce-Takes RuntimeMode.system_proxy r a n latency fits =
        Takes-bind p l services wiring (free_proof _ _ _) (λ u.
          Takes-bind p l services wiring
            (Takes-enter p l services wiring unheld RuntimePhase.applying_system_proxy r)
            (λ u.
              Takes-bind p l services wiring (Takes-modify p l services wiring _ (claim a)) (λ u.
                Takes-bind p l services wiring (publish-Takes p l services wiring v a n fits) (λ u.
                  Takes-bind p l services wiring
                    (Takes-perform p l services wiring firm-Leased
                      (owned-Apart p l services wiring))
                    (λ owned.
                      Takes-bind p l services wiring
                        (Takes-require p l services wiring firm-Leased owned _)
                        (λ u.
                          Takes-bind p l services wiring
                            (Takes-set_proof p l services wiring firm-Leased _ _ _)
                            (λ u.
                              Takes-bind p l services wiring
                                (Takes-modify p l services wiring _
                                  (λ s h. firm-Leased.ignores s _ refl refl refl h))
                                (λ u.
                                  Takes-enter p l services wiring firm-Leased
                                    RuntimePhase.system_proxy_ready r))))))))

    prove_session-Takes :
        (r : Start services) (a : ActiveSession services) (n : Running services)
        → n.ports.http < 65536
        → Takes p l services wiring v Unheld (prove_session services r a n) (λ u. Ready r.mode v)
    unfolding prove_session describe set_check
    prove_session-Takes r a n fits = bind (free_proof _ _ _) (λ u.
        bind (proofs (listeners services) ProofState.pending) (λ u.
          bind (enter_free RuntimePhase.verifying_listener) (λ u.
            bind (free_call (record { leaves = wiring.ready_Leaves _ _ })) (λ u.
              bind (proofs (listeners services) ProofState.passed) (λ u.
                bind (free_proof _ _ _) (λ u. bind (enter_free RuntimePhase.proving_traffic) (λ u.
                  bind (free_call (record { leaves = wiring.prove_Leaves _ })) (λ latency.
                    bind (prove_ingress-Takes n latency r.mode) (λ u. bind (free_proof _ _ _) (λ u.
                      bind (free_call (Apart-is_alive p l services wiring n.child)) (λ alive.
                        bind (Takes-require p l services wiring unheld alive _) (λ u.
                          bind (free_call (record { leaves = wiring.owned_now_Leaves _ _ })) (λ u.
                            bind (free_proof _ _ _) (λ u.
                              bind
                                (Takes-modify p l services wiring _
                                  (λ s h. unheld.ignores s _ refl refl refl h))
                                (λ u.
                                  bind
                                    (Takes-modify p l services wiring _
                                      (λ s h. unheld.ignores s _ refl refl refl h))
                                    (λ u. bind (enter_free RuntimePhase.outbound_verified) (λ u.
                                      announce-Takes r.mode r a n latency fits)))))))))))))))))
      where
        bind :
            {A C : Type 0} {m : Act services A} {f : A → Act services C}
            {G : C → State services → Type 0}
            → Takes p l services wiring v Unheld m (λ a. Unheld)
            → ((a : A) → Takes p l services wiring v Unheld (f a) G)
            → Takes p l services wiring v Unheld (m >>= f) G
        bind t k = Takes-bind p l services wiring t k

        enter_free :
            (phase : RuntimePhase)
            → Takes p l services wiring v Unheld (enter services phase r) (λ u. Unheld)
        enter_free phase = Takes-enter p l services wiring unheld phase r

        proofs :
            (ks : List ProofKind) (x : ProofState)
            → Takes p l services wiring v Unheld
                (modify services (set_proofs services ks x))
                (λ u. Unheld)
        proofs ks x = Takes-modify p l services wiring _ (set_proofs-Free ks x)

    -- Every outcome of a start from settings `v` that no session holds: it ends with its session
    -- holding the settings, over a journal that leads back to `v`, if that is its mode, and with the
    -- settings untouched and unheld in the other modes; or it fails, and then the settings are
    -- untouched and unheld, or the session is the one that has to restore them.
    pub start_locked-Takes :
        (r : Start services)
        → Takes p l services wiring v
            (Free p l services wiring v)
            (start_locked services r)
            (λ u. Ready r.mode v)
    unfolding start_locked
    start_locked-Takes r =
        Takes-bind_fact p l services wiring (launch_session-Takes p l services wiring v r)
          (λ n fits.
            Takes-bind p l services wiring (store_session-Takes r n)
              (λ a. prove_session-Takes r a n fits))
