-- ===== src/Controller/Coherence/Readying.antt =====
-- The second half of a start: what each step adds to the proofs that have passed.
use route_deck.Prelude.{
  ℕ, ◌≡◌, refl, ◌∙◌, Bool, true, false, any, Option, none, some, List, [], ◌∷◌, arith,
}
use route_deck.Action.{Result, ok, err}
use route_deck.Controller.Status.{RuntimeMode, RuntimeError, ProofKind, ProofState, ProofRow}
use route_deck.Controller.Services.{Services}
use route_deck.Controller.Session.{State, ActiveSession, set_proof}
use route_deck.Controller.Teardown.{with_world, with_active}
use route_deck.Controller.Starting.{Act, Io, Start, Running, perform, ready_phase}
use route_deck.Controller.Proving.{
  store_session, mark_error, failing, prove_ingress, set_check, describe,
}
use route_deck.Controller.Rows.{kinds-set_row, is_kind}
use route_deck.Controller.Coherence.{all_passed, keeps_start, claims}
use route_deck.Controller.Coherence.Concluding.{MayShow}
use route_deck.Controller.Coherence.Staging.{
  Stage, Live, Goes, Outcome, Goes-bind, Goes-modify, Goes-pure, Goes-perform, Steady-Live,
  is_passed_self, passed-set_row, others-set_row,
}

-- What has passed when the listeners answer, and when the outbound is verified.
abbrev pub ready_listeners : List ProofKind
ready_listeners =
    ProofKind.health_listener ∷ ProofKind.socks_listener ∷ ProofKind.http_listener
    ∷ ProofKind.engine_process ∷ ProofKind.engine_config ∷ []

abbrev pub verified : List ProofKind
verified = ProofKind.local_scope_ownership ∷ ProofKind.selected_outbound_https ∷ ready_listeners

module _ (services : Services) where
  -- A proof that passes is added to those that have.
  pub Live-pass :
      (k : ProofKind) (l : Option ℕ) (ks : List ProofKind) (s : State services)
      → Live services ks s
      → Live services (k ∷ ks) (set_proof services k ProofState.passed l s)
  unfolding set_proof
  Live-pass k l ks s h = record {
    stage = record {
      rows = kinds-set_row k ProofState.passed l _ ∙ h.stage.rows;
      calm = h.stage.calm;
      passed = ground (
        arith,
        is_passed_self k l s.status.proofs h.stage.rows,
        passed-set_row ks k l s.status.proofs h.stage.rows h.stage.passed,
      );
    };
    alive = h.alive;
  }

  -- A write to another proof.
  pub Live-other :
      (k : ProofKind) (p : ProofState) (l : Option ℕ) (ks : List ProofKind) (s : State services)
      → any (is_kind k) ks ≡ false
      → Live services ks s
      → Live services ks (set_proof services k p l s)
  unfolding set_proof
  Live-other k p l ks s n h = record {
    stage = record {
      rows = kinds-set_row k p l _ ∙ h.stage.rows;
      calm = h.stage.calm;
      passed = others-set_row ks k p l s.status.proofs h.stage.rows n h.stage.passed;
    };
    alive = h.alive;
  }

  -- Other fields of the status are written.
  pub Live-describe_only :
      (ks : List ProofKind) (n : Running services) (s : State services)
      → Live services ks s
      → Live services ks (describe services n s)
  unfolding describe
  Live-describe_only ks n s h = record {
    stage = record { rows = h.stage.rows; calm = h.stage.calm; passed = h.stage.passed };
    alive = h.alive;
  }

  pub Live-set_check :
      (ks : List ProofKind) (latency : ℕ) (s : State services)
      → Live services ks s
      → Live services ks (set_check services latency s)
  unfolding set_check
  Live-set_check ks latency s h = record {
    stage = record { rows = h.stage.rows; calm = h.stage.calm; passed = h.stage.passed };
    alive = h.alive;
  }

  pub Live-with_active :
      (ks : List ProofKind) (a : ActiveSession services) (s : State services)
      → Stage services ks s
      → Live services ks (with_active services (some a) s)
  unfolding with_active
  Live-with_active ks a s h = record {
    stage = record { rows = h.rows; calm = h.calm; passed = h.passed };
    alive = refl;
  }

  pub call :
      {A : Type 0} (ks : List ProofKind) (m : Io services A)
      → Goes services (Live services ks) (perform services m) (λ a. Live services ks)
  call ks m = Goes-perform services m (Steady-Live services ks)

  pub store_session-Goes :
      (ks : List ProofKind) (r : Start services) (n : Running services)
      → Goes services (Stage services ks) (store_session services r n) (λ a. Live services ks)
  unfolding store_session Outcome with_world
  store_session-Goes ks r n = record {
    triple = record { at = λ s h. Live-with_active ks _ _ (moved s h) };
  }
    where
      moved :
          (s : State services)
          → Stage services ks s
          → Stage services ks (with_world services (services.now s.world).1 s)
      moved s h = record { rows = h.rows; calm = h.calm; passed = h.passed }

  Stage-other :
      (k : ProofKind) (s : State services)
      → Stage services [] s
      → Stage services [] (set_proof services k ProofState.failed none s)
  unfolding set_proof
  Stage-other k s h = record {
    rows = kinds-set_row k ProofState.failed none _ ∙ h.rows;
    calm = h.calm;
    passed = refl;
  }

  -- A proof that is reset and written again by the mode's own part, with the others kept.
  failing-Goes :
      {A : Type 0} (k : ProofKind) (ks : List ProofKind) (m : Act services A)
      → Goes services (Live services ks) m (λ a. Live services ks)
      → Goes services (Live services ks) (failing services k m) (λ a. Live services ks)
  unfolding failing mark_error Outcome
  failing-Goes {A} k ks m t = record { triple = record { at = λ s h. go (m s) (t.triple.at s h) } }
    where
      go :
          (rs : Result RuntimeError A × State services)
          → Outcome services (λ a. Live services ks) rs.0 rs.1
          → Outcome services
              (λ a. Live services ks)
              (mark_error services k rs).0
              (mark_error services k rs).1
      go (ok a, s) h = h
      go (err e, s) h = Stage-other k s h

  pub prove_ingress-Goes :
      (n : Running services) (latency : ℕ) (m : RuntimeMode)
      → Goes services
          (Live services ready_listeners)
          (prove_ingress services n latency m)
          (λ u. Live services ready_listeners)
  unfolding prove_ingress is_kind
  prove_ingress-Goes n latency RuntimeMode.local_only =
      Goes-bind services (call _ _) (λ x. Goes-pure services tt (λ s h. h))
  prove_ingress-Goes n latency RuntimeMode.system_proxy =
      Goes-bind services (call _ _) (λ x. Goes-pure services tt (λ s h. h))
  prove_ingress-Goes n latency RuntimeMode.tun =
      Goes-bind services
        (Goes-modify services _
          (λ s h. Live-other ProofKind.selected_outbound_https _ _ _ s refl h))
        (λ u.
          Goes-bind services
            (Goes-modify services _
              (λ s h. Live-other ProofKind.local_scope_ownership _ _ _ s refl h))
            (λ u.
              Goes-bind services (failing-Goes ProofKind.local_scope_ownership _ _ (call _ _))
                (λ x. Goes-pure services tt (λ s h. h))))

  -- Every proof of the start has passed, so the ready phase can be shown.
  pub verified-MayShow :
      (m : RuntimeMode) (s : State services)
      → claims (ready_phase m) s.status.proofs ≡ true
      → Live services verified s
      → MayShow services m s
  verified-MayShow m s c h = record {
    rows = h.stage.rows;
    calm = h.stage.calm;
    alive = h.alive;
    started = started s.active s.recovery_required s.status.proofs h.stage.passed;
    claimed = c;
  }
    where
      started :
          (o : Option (ActiveSession services)) (r : Bool) (rows : List ProofRow)
          → all_passed verified rows ≡ true
          → keeps_start services r o rows ≡ true
      started none r rows p = refl
      started (some a) r rows p = ground arith
