-- ===== src/Controller/Coherence/Launching.antt =====
-- The first half of a start: when the processes run, the configuration has been proved.
use route_deck.Prelude.{refl, ◌∙◌, none, some, [], ◌∷◌}
use route_deck.Controller.Status.{RuntimePhase, RuntimeMode, ProofKind, ProofState}
use route_deck.Controller.Services.{Services}
use route_deck.Controller.Session.{State, set_proof}
use route_deck.Controller.Starting.{
  Start, label, choose_upstream, launch_session, perform, Io, perform_with,
}
use route_deck.Controller.Rows.{kinds-set_row, kinds-default_proofs}
use route_deck.Controller.Coherence.Staging.{
  Stage, Goes, Goes-bind, Goes-modify, Goes-pure, Goes-perform, Goes-enter-Stage, Steady-Stage,
  is_passed_self,
}

module _ (services : Services) where
  abbrev OpenStage : State services → Type 0
  OpenStage = Stage services []

  call :
      {A : Type 0} (m : _) → Goes services OpenStage (perform services {A = A} m) (λ a. OpenStage)
  call m = Goes-perform services m (Steady-Stage services [])

  choose_upstream-Goes :
      (m : RuntimeMode) → Goes services OpenStage (choose_upstream services m) (λ u. OpenStage)
  unfolding choose_upstream
  choose_upstream-Goes RuntimeMode.tun = Goes-bind services (call _) (λ u.
      Goes-bind services
        (Goes-modify services _ (λ s h. record { rows = h.rows; calm = h.calm; passed = refl }))
        (λ v. Goes-pure services (some u) (λ s h. h)))
  choose_upstream-Goes RuntimeMode.local_only = Goes-pure services none (λ s h. h)
  choose_upstream-Goes RuntimeMode.system_proxy = Goes-pure services none (λ s h. h)

  -- A call that reads the state first.
  call_with :
      {A : Type 0} (m : State services → Io services A)
      → Goes services OpenStage (perform_with services m) (λ a. OpenStage)
  unfolding perform_with
  call_with m = record { triple = record { at = λ s h. (call (m s)).triple.at s h } }

  check_config :
      (s : State services)
      → OpenStage s
      → Stage services
          (ProofKind.engine_config ∷ [])
          (set_proof services ProofKind.engine_config ProofState.passed none s)
  unfolding set_proof
  check_config s h = record {
    rows = kinds-set_row ProofKind.engine_config ProofState.passed none _ ∙ h.rows;
    calm = h.calm;
    passed = rw (is_passed_self ProofKind.engine_config none s.status.proofs h.rows) refl;
  }

  configured :
      {A : Type 0} (m : Io services A)
      → Goes services
          (Stage services (ProofKind.engine_config ∷ []))
          (perform services m)
          (λ a. Stage services (ProofKind.engine_config ∷ []))
  configured m = Goes-perform services m (Steady-Stage services (ProofKind.engine_config ∷ []))

  pub launch_session-Goes :
      (r : Start services)
      → Goes services
          (Stage services [])
          (launch_session services r)
          (λ n. Stage services (ProofKind.engine_config ∷ []))
  unfolding launch_session label set_proof
  launch_session-Goes r = Goes-bind services (call _) (λ session_id.
      Goes-bind services
        (Goes-modify services _
          (λ s h. record { rows = kinds-default_proofs; calm = h.calm; passed = refl }))
        (λ u. Goes-bind services (Goes-enter-Stage services [] RuntimePhase.preparing r) (λ u.
          Goes-bind services (call _) (λ ports. Goes-bind services (call _) (λ password.
            Goes-bind services (choose_upstream-Goes r.mode) (λ upstream.
              Goes-bind services (call_with _) (λ prepared.
                Goes-bind services
                  (Goes-modify services _ (λ s h. record {
                    rows = kinds-set_row ProofKind.engine_config ProofState.pending none _ ∙ h.rows;
                    calm = h.calm;
                    passed = refl;
                  }))
                  (λ u.
                    Goes-bind services
                      (Goes-enter-Stage services [] RuntimePhase.validating_config r)
                      (λ u. Goes-bind services (call _) (λ launch.
                        Goes-bind services (call _) (λ version.
                          Goes-bind services (call _) (λ sidecar_launch.
                            Goes-bind services (call _) (λ generation.
                              Goes-bind services (Goes-modify services _ check_config) (λ u.
                                Goes-bind services
                                  (Goes-enter-Stage services _ RuntimePhase.starting_core r)
                                  (λ u. Goes-bind services (configured _) (λ sidecar.
                                    Goes-bind services (configured _)
                                      (λ child. Goes-pure services _ (λ s h. h))))))))))))))))))
