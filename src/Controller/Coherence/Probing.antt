-- ===== src/Controller/Coherence/Probing.antt =====
-- The monitor keeps the state coherent: its sections after the proof, in whatever state they start.
use route_deck.Prelude.{ℕ, ◌≡◌, refl, Bool, true, false, not, ◌||◌, Option, none, some, arith}
use route_deck.Action.{Result, ok, err}
use route_deck.Domain.Tls.{is_some}
use route_deck.Controller.Status.{PublicError, ProofKind, RuntimeError}
use route_deck.Controller.Services.{Services}
use route_deck.Controller.Session.{State, ActiveSession, is_ready, saturating_suc, u8_max}
use route_deck.Controller.Teardown.{with_world, with_active}
use route_deck.Controller.Monitor.{ProbeSnapshot, needs_review}
use route_deck.Controller.MonitorProof.{
  same_generation, ownership_lost, proof_passed, proof_failed, judge, owned_or_lost,
  conclude_active, conclude_probe, set_latency, latency_alive, latency_active, conclude_latency,
  clear_latency,
}
use route_deck.Controller.Coherence.{IsCoherent, IsCoherent-with_active, if_elim}
use route_deck.Controller.Coherence.Losing.{lost-IsCoherent, handle_tun_capture_loss-IsCoherent}
use route_deck.Controller.Coherence.Watching.{Watches, Watches-with_world, calm_of_reviewed}
use route_deck.Controller.Coherence.Concluding.{
  Matches, renew-MayShow, show_ready-IsCoherent, clear_latency-IsCoherent, count_probe-IsCoherent,
  republish-IsCoherent,
}

module _ (services : Services) where
  pub Watches-with_active :
      (a b : ActiveSession services) (s : State services)
      → b.mode ≡ a.mode
      → Watches services a s
      → Watches services b (with_active services (some b) s)
  unfolding with_active
  Watches-with_active a b s m h = record {
    coherent = IsCoherent-with_active services a b s h.active m h.coherent;
    active = refl;
    calm = h.calm;
  }

  judge-IsCoherent :
      (x : ProbeSnapshot services) (a : ActiveSession services) (r : Result RuntimeError ℕ)
      (s : State services)
      → Watches services a s
      → x.mode ≡ a.mode
      → IsCoherent services (judge services x a r s)
  unfolding judge proof_passed proof_failed clear_latency
  judge-IsCoherent x a (ok latency) s h m =
      let h' = Watches-with_active a (record a { consecutive_probe_failures = 0 }) s refl h in
      show_ready-IsCoherent services (is_ready s.status.phase) x _
        (renew-MayShow services x.mode latency _ _ h'.active m h'.coherent h'.calm)
  judge-IsCoherent x a (err e) s h m =
      let h' =
        Watches-with_active a
          (record a {
            consecutive_probe_failures = saturating_suc u8_max a.consecutive_probe_failures;
          })
          s refl h in
      count_probe-IsCoherent services _ _ x e _ _ (record {
        coherent = clear_latency-IsCoherent services _ h'.coherent;
        active = h'.active;
        calm = h'.calm;
      })

  ownership_lost-IsCoherent :
      (b : Bool) (e : PublicError) (a : ActiveSession services) (s : State services)
      → Watches services a s
      → IsCoherent services (ownership_lost services b e s)
  unfolding ownership_lost
  ownership_lost-IsCoherent true e a s h =
      handle_tun_capture_loss-IsCoherent services a e true s h.active h.coherent.rows h.calm
  ownership_lost-IsCoherent false e a s h =
      lost-IsCoherent services ProofKind.local_scope_ownership a e s h.active h.coherent.rows h.calm

  owned_or_lost-IsCoherent :
      (x : ProbeSnapshot services) (a : ActiveSession services) (proof : Result RuntimeError ℕ)
      (r : Result RuntimeError (Unit {0})) (s : State services)
      → Watches services a s
      → x.mode ≡ a.mode
      → IsCoherent services (owned_or_lost services x a proof r s)
  unfolding owned_or_lost
  owned_or_lost-IsCoherent x a proof (ok u) s h m = judge-IsCoherent x a proof s h m
  owned_or_lost-IsCoherent x a proof (err e) s h m = ownership_lost-IsCoherent _ _ a s h

  conclude_active-IsCoherent :
      (x : ProbeSnapshot services) (proof : Result RuntimeError ℕ)
      (o : Option (ActiveSession services)) (s : State services)
      → s.active ≡ o
      → IsCoherent services s
      → s.recovery_required ≡ false
      → Matches services x s
      → IsCoherent services (conclude_active services x proof o s)
  unfolding conclude_active
  conclude_active-IsCoherent x proof none s e c r m = c
  conclude_active-IsCoherent x proof (some a) s e c r m =
      if_elim (IsCoherent services) (same_generation services x a) _ _
        (λ g.
          owned_or_lost-IsCoherent x a proof _ _
            (Watches-with_world services _ a s (record { coherent = c; active = e; calm = r }))
            (m a e g))
        (λ g. c)

  pub conclude_probe-IsCoherent :
      (x : ProbeSnapshot services) (proof : Result RuntimeError ℕ) (s : State services)
      → IsCoherent services s
      → Matches services x s
      → IsCoherent services (conclude_probe services x proof s)
  unfolding conclude_probe
  conclude_probe-IsCoherent x proof s c m =
      if_elim (IsCoherent services) (needs_review services s) _ _ (λ n. c)
        (λ n.
          conclude_active-IsCoherent x proof s.active s refl c (calm_of_reviewed services s n) m)

  set_latency-IsCoherent :
      (latency : Option ℕ) (s : State services)
      → is_ready s.status.phase ≡ true
      → IsCoherent services s
      → IsCoherent services (set_latency services latency s)
  unfolding set_latency
  set_latency-IsCoherent latency s p c =
      republish-IsCoherent services
        (record s { status = record s.status { steady_latency_ms = latency } })
        (record {
          honest = record {
            steady = λ q. p;
            checked = c.honest.checked;
            clean = c.honest.clean;
            proved = c.honest.proved;
          };
          published_honest = c.published_honest;
          rows = c.rows;
          review = c.review;
          live = c.live;
          started = c.started;
        })

  latency_alive-IsCoherent :
      (x : ProbeSnapshot services) (latency : Option ℕ) (r : Result RuntimeError Bool)
      (a : ActiveSession services) (s : State services)
      → is_ready s.status.phase ≡ true
      → Watches services a s
      → IsCoherent services (latency_alive services x latency r s)
  unfolding latency_alive
  latency_alive-IsCoherent x latency (ok true) a s p h =
      set_latency-IsCoherent latency s p h.coherent
  latency_alive-IsCoherent x latency (ok false) a s p h =
      lost-IsCoherent services ProofKind.engine_process a _ s h.active h.coherent.rows h.calm
  latency_alive-IsCoherent x latency (err e) a s p h =
      lost-IsCoherent services ProofKind.engine_process a _ s h.active h.coherent.rows h.calm

  latency_active-IsCoherent :
      (x : ProbeSnapshot services) (latency : Option ℕ) (o : Option (ActiveSession services))
      (s : State services)
      → s.active ≡ o
      → is_ready s.status.phase ≡ true
      → IsCoherent services s
      → s.recovery_required ≡ false
      → IsCoherent services (latency_active services x latency o s)
  unfolding latency_active with_world
  latency_active-IsCoherent x latency none s e p c r = c
  latency_active-IsCoherent x latency (some a) s e p c r =
      if_elim (IsCoherent services) (same_generation services x a) _ _
        (λ g.
          latency_alive-IsCoherent x latency _ a _ p
            (Watches-with_world services _ a s (record { coherent = c; active = e; calm = r })))
        (λ g. c)

  pub conclude_latency-IsCoherent :
      (x : ProbeSnapshot services) (latency : Option ℕ) (s : State services)
      → IsCoherent services s
      → IsCoherent services (conclude_latency services x latency s)
  unfolding conclude_latency is_ready
  conclude_latency-IsCoherent x latency s c =
      if_elim (IsCoherent services)
        (s.recovery_required || is_some s.status.error || not (is_ready s.status.phase)) _ _
        (λ n. c)
        (λ n. latency_active-IsCoherent x latency s.active s refl (ground arith) c (ground arith))
