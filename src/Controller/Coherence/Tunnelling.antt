-- ===== src/Controller/Coherence/Tunnelling.antt =====
-- Connecting through TUN keeps the state coherent, whatever the user asks for and whatever fails.
use route_deck.Prelude.{
  ℕ, ◌≡◌, refl, sym, ◌∙◌, Bool, true, false, not, ◌&&◌, Option, none, some, and-true,
}
use route_deck.Text.{Text}
use route_deck.Action.{Result, ok, err}
use route_deck.Controller.Status.{RuntimePhase, RuntimeMode, RuntimeError, PublicError}
use route_deck.Controller.Services.{Services, StoredNode, TunCaptureSnapshot}
use route_deck.Controller.Session.{State, ActiveSession, update_status, set_proof}
use route_deck.Controller.Teardown.{Answer, with_world}
use route_deck.Controller.Starting.{Start, ready_phase}
use route_deck.Controller.Rollback.{end_session}
use route_deck.Controller.Requests.{Request, is_session, same_config, same_tun_options, into_policy}
use route_deck.Controller.ConnectTun.{
  TunRouting, is_tun_session, tun_verdict, conclude_tun, finish_tun_proof, started_tun, connect_tun,
  elevated, start_tun_locked, is_uncertain, switching_of,
}
use route_deck.Controller.MonitorProof.{renew}
use route_deck.Controller.Coherence.{IsCoherent, IsCoherent-with_world, if_elim}
use route_deck.Controller.Coherence.Watching.{Watches, Watches-with_world}
use route_deck.Controller.Coherence.Concluding.{renew-MayShow, ready-IsCoherent}
use route_deck.Controller.Coherence.Undoing.{end_session-IsCoherent, roll_back_tun-IsCoherent}
use route_deck.Controller.Coherence.Staging.{Outcome}
use route_deck.Controller.Coherence.Announcing.{start_locked-Goes}
use route_deck.Controller.Coherence.Connecting.{
  mode-is_session, Stage-begin, unless_closed-IsCoherent,
}

module _ (services : Services) where
  -- A TUN session that could not be proved again is given up.
  given_up :
      (node_id : Option Text) (e : PublicError) (a : ActiveSession services) (s : State services)
      → Watches services a s
      → IsCoherent services
          (end_session services node_id e a.redactor
            (some a)
            (update_status services RuntimePhase.rolling_back node_id none s)).1
  unfolding update_status
  given_up node_id e a s h =
      end_session-IsCoherent services node_id e a.redactor (some a) _
        (record { rows = h.coherent.rows; calm = h.calm; active = h.active })

  tun_verdict-IsCoherent :
      (node_id : Text) (proof : Option (ℕ × TunCaptureSnapshot)) (owned : Bool)
      (a : ActiveSession services) (s : State services)
      → Watches services a s
      → RuntimeMode.tun ≡ a.mode
      → IsCoherent services (tun_verdict services node_id proof owned a s).1
  unfolding tun_verdict ready_phase set_proof renew
  tun_verdict-IsCoherent node_id (some (latency, before)) true a s h m =
      ready-IsCoherent services RuntimeMode.tun (some node_id) _
        (renew-MayShow services RuntimeMode.tun latency a s h.active m h.coherent h.calm)
  tun_verdict-IsCoherent node_id (some (latency, before)) false a s h m = given_up _ _ a s h
  tun_verdict-IsCoherent node_id none owned a s h m = given_up _ _ a s h

  pub conclude_tun-IsCoherent :
      (q : Request services) (options : services.TunOptions)
      (proof : Option (ℕ × TunCaptureSnapshot)) (o : Option (ActiveSession services))
      (s : State services)
      → s.active ≡ o
      → IsCoherent services s
      → s.recovery_required ≡ false
      → q.mode ≡ RuntimeMode.tun
      → IsCoherent services (conclude_tun services q options proof o s).1
  unfolding conclude_tun is_tun_session
  conclude_tun-IsCoherent q options proof none s e c r m = c
  conclude_tun-IsCoherent q options proof (some a) s e c r m =
      if_elim (λ (x : Answer services). IsCoherent services x.1)
        (is_session services q a && same_tun_options services a.tun_options (some options)) _ _
        (λ t.
          tun_verdict-IsCoherent q.node_id proof _ a _
            (Watches-with_world services _ a s (record { coherent = c; active = e; calm = r }))
            (sym m ∙ mode-is_session services q a (and-true _ _ t).0))
        (λ t. c)

  started_tun-IsCoherent :
      (r : Start services) (rs : Result RuntimeError (Unit {0}) × State services)
      → Outcome services (λ u. IsCoherent services) rs.0 rs.1
      → IsCoherent services (started_tun services r rs).1
  unfolding started_tun Outcome
  started_tun-IsCoherent r (ok u, s) h = h
  started_tun-IsCoherent r (err e, s) h =
      roll_back_tun-IsCoherent services _ e r.redactor s h.rows h.calm

  connect_tun-IsCoherent :
      (q : Request services) (options : services.TunOptions) (requested : Bool)
      (stored : Option StoredNode) (o : Option (ActiveSession services)) (s : State services)
      → s.active ≡ o
      → IsCoherent services s
      → s.recovery_required ≡ false
      → q.mode ≡ RuntimeMode.tun
      → IsCoherent services (connect_tun services q options requested stored o s).1
  unfolding connect_tun finish_tun_proof with_world
  connect_tun-IsCoherent q options requested stored (some a) s e c r m =
      if_elim (λ (x : Answer services). IsCoherent services x.1)
        (is_tun_session services q options a && same_config services a stored) _ _
        (λ t.
          conclude_tun-IsCoherent q options _ s.active _ refl (IsCoherent-with_world services _ s c)
            r m)
        (λ t. c)
  connect_tun-IsCoherent q options requested none none s e c r m = c
  connect_tun-IsCoherent q options requested (some n) none s e c r m =
      started_tun-IsCoherent _ _
        ((start_locked-Goes services _).triple.at _ (Stage-begin services s c r))

  elevated-IsCoherent :
      (node_id : Text) (routing : TunRouting services) (r : Result RuntimeError Bool)
      (s : State services)
      → IsCoherent services s
      → IsCoherent services (elevated services node_id routing r s).1
  unfolding elevated
  elevated-IsCoherent node_id routing (err e) s c = c
  elevated-IsCoherent node_id routing (ok false) s c = c
  elevated-IsCoherent node_id routing (ok true) s c = unless_closed-IsCoherent services s _ c (λ r.
      if_elim (λ (x : Answer services). IsCoherent services x.1)
        (is_uncertain (switching_of services s.active)) _ _ (λ t. c)
        (λ t. connect_tun-IsCoherent _ _ _ _ s.active s refl c r refl))

  pub start_tun_locked-IsCoherent :
      (node_id : Text) (routing : TunRouting services) (s : State services)
      → IsCoherent services s
      → IsCoherent services (start_tun_locked services node_id routing s).1
  unfolding start_tun_locked
  start_tun_locked-IsCoherent node_id routing s c =
      if_elim (λ (x : Answer services). IsCoherent services x.1)
        (not (services.valid_options routing.options)) _ _ (λ t. c)
        (λ t.
          if_elim (λ (x : Answer services). IsCoherent services x.1)
            (not (services.valid_policy (into_policy routing.default_route routing.apps))) _ _
            (λ u. c)
            (λ u. elevated-IsCoherent node_id routing _ _ (IsCoherent-with_world services _ s c)))
