-- ===== src/Controller/Coherence/Concluding.antt =====
-- What the monitor publishes after a proof, and what it counts, is coherent.
use route_deck.Prelude.{
  ℕ, ◌≡◌, refl, sym, ap, subst, ◌∙◌, Bool, true, false, not, ◌||◌, Option, none, some, arith,
}
use route_deck.Text.{Text}
use route_deck.Domain.Tls.{is_some}
use route_deck.Controller.Status.{RuntimePhase, RuntimeMode, ProofKind, ProofState, RuntimeError}
use route_deck.Controller.Services.{Services}
use route_deck.Controller.Session.{
  State, ActiveSession, update_status, set_proof, is_ready, republish, emit_status,
}
use route_deck.Controller.Starting.{ready_phase}
use route_deck.Controller.Proving.{set_check}
use route_deck.Controller.Monitor.{ProbeSnapshot, is_recovery}
use route_deck.Controller.MonitorProof.{
  same_generation, renew, show_ready, clear_latency, count_probe,
}
use route_deck.Controller.Reconnect.{mode_is, clear_check}
use route_deck.Controller.Rows.{kinds-set_row, is_kind}
use route_deck.Controller.Coherence.{
  IsCoherent, IsHonest, update_status-IsCoherent, keeps_start, claims,
}
use route_deck.Controller.Coherence.Stopping.{Listed}
use route_deck.Controller.Coherence.Losing.{degraded-IsCoherent}
use route_deck.Controller.Coherence.Watching.{Watches, static-set_row}
use route_deck.Controller.Coherence.Renewing.{
  renewed, kinds-renewed, traffic-renewed, static-renewed, all-owned,
}

ready_phase-ne_recovery : (m : RuntimeMode) → is_recovery (ready_phase m) ≡ false
unfolding is_recovery ready_phase
ready_phase-ne_recovery RuntimeMode.local_only = refl
ready_phase-ne_recovery RuntimeMode.system_proxy = refl
ready_phase-ne_recovery RuntimeMode.tun = refl

module _ (services : Services) where
  -- The session that a snapshot was taken of still has its mode.
  abbrev pub Matches : ProbeSnapshot services → State services → Type 0
  Matches x s =
      (a : ActiveSession services)
      → s.active ≡ some a
      → same_generation services x a ≡ true
      → x.mode ≡ a.mode

  -- A state that a ready phase can be shown of.
  pub record MayShow (m : RuntimeMode) (s : State services) : Type 0 where
    pub rows : Listed services s
    pub calm : s.recovery_required ≡ false
    pub alive : is_some s.active ≡ true
    pub started : keeps_start services s.recovery_required s.active s.status.proofs ≡ true
    pub claimed : claims (ready_phase m) s.status.proofs ≡ true

  pub ready-IsCoherent :
      (m : RuntimeMode) (node_id : Option Text) (s : State services)
      → MayShow m s
      → IsCoherent services (update_status services (ready_phase m) node_id none s)
  ready-IsCoherent m node_id s h =
      update_status-IsCoherent services (ready_phase m) node_id none s (λ p. refl) h.claimed h.rows
        (h.calm ∙ sym (ready_phase-ne_recovery m)) (ground (arith, h.alive)) h.started

  pub show_ready-IsCoherent :
      (b : Bool) (x : ProbeSnapshot services) (s : State services)
      → MayShow x.mode s
      → IsCoherent services (show_ready services b x s)
  unfolding show_ready update_status
  show_ready-IsCoherent true x s h = ready-IsCoherent x.mode _ s h
  show_ready-IsCoherent false x s h =
      ready-IsCoherent x.mode _
        (update_status services RuntimePhase.outbound_verified (some x.node_id) none s)
        (record {
          rows = h.rows;
          calm = h.calm;
          alive = h.alive;
          started = h.started;
          claimed = h.claimed;
        })

  -- In a System Proxy session the proofs of the start are there.
  static_of_started :
      (m : RuntimeMode) (r b : Bool)
      → RuntimeMode.system_proxy ≡ m
      → r ≡ false
      → (not (mode_is m RuntimeMode.system_proxy) || (r || b)) ≡ true
      → b ≡ true
  unfolding mode_is
  static_of_started RuntimeMode.local_only r b h q k = cc
  static_of_started RuntimeMode.tun r b h q k = cc
  static_of_started RuntimeMode.system_proxy r b h q k = ground arith

  renewed-started :
      (l : Option ℕ) (s : State services)
      → IsCoherent services s
      → keeps_start services s.recovery_required s.active (renewed l s.status.proofs) ≡ true
  unfolding is_kind
  renewed-started l s c =
      static-set_row services ProofKind.local_scope_ownership ProofState.passed none _ s.active _
        refl (kinds-set_row ProofKind.selected_outbound_https ProofState.passed l _ ∙ c.rows)
        (static-set_row services ProofKind.selected_outbound_https ProofState.passed l _ s.active _
          refl c.rows c.started)

  pub renew-MayShow :
      (m : RuntimeMode) (latency : ℕ) (a : ActiveSession services) (s : State services)
      → s.active ≡ some a
      → m ≡ a.mode
      → IsCoherent services s
      → s.recovery_required ≡ false
      → MayShow m (renew services m latency s)
  unfolding renew set_proof set_check ready_phase is_kind
  renew-MayShow RuntimeMode.local_only latency a s h e c q = record {
    rows = kinds-renewed (some latency) _ c.rows;
    calm = q;
    alive = ap is_some h;
    started = renewed-started (some latency) s c;
    claimed = refl;
  }
  renew-MayShow RuntimeMode.tun latency a s h e c q = record {
    rows = kinds-renewed (some latency) _ c.rows;
    calm = q;
    alive = ap is_some h;
    started = renewed-started (some latency) s c;
    claimed = traffic-renewed (some latency) _ c.rows;
  }
  renew-MayShow RuntimeMode.system_proxy latency a s h e c q =
      let listed = kinds-renewed (some latency) s.status.proofs c.rows in
      record {
        rows = kinds-set_row ProofKind.system_proxy_ownership ProofState.passed none _ ∙ listed;
        calm = q;
        alive = ap is_some h;
        started =
            static-set_row services ProofKind.system_proxy_ownership ProofState.passed none _
              s.active _ refl listed (renewed-started (some latency) s c);
        claimed =
            all-owned _ listed
              (static-renewed (some latency) _ c.rows (
                static_of_started a.mode s.recovery_required _ e q (
                  subst (λ o. keeps_start services s.recovery_required o s.status.proofs ≡ true) h
                    c.started)))
              (traffic-renewed (some latency) _ c.rows);
      }

  pub clear_latency-IsCoherent :
      (s : State services) → IsCoherent services s → IsCoherent services (clear_latency services s)
  unfolding clear_latency
  clear_latency-IsCoherent s c = record {
    honest = record {
      steady = λ p. cc;
      checked = c.honest.checked;
      clean = c.honest.clean;
      proved = c.honest.proved;
    };
    published_honest = c.published_honest;
    rows = c.rows;
    review = c.review;
    live = c.live;
    started = c.started;
  }

  pub republish-IsCoherent :
      (s : State services) → IsCoherent services s → IsCoherent services (republish services s)
  unfolding republish emit_status
  republish-IsCoherent s c =
      let honest : IsHonest (republish services s).status = record {
        steady = c.honest.steady;
        checked = c.honest.checked;
        clean = c.honest.clean;
        proved = c.honest.proved;
      } in
      record {
        honest = honest;
        published_honest = honest;
        rows = c.rows;
        review = c.review;
        live = c.live;
        started = c.started;
      }

  pub count_probe-IsCoherent :
      (reached had : Bool) (x : ProbeSnapshot services) (e : RuntimeError)
      (a : ActiveSession services) (s : State services)
      → Watches services a s
      → IsCoherent services (count_probe services reached had x e s)
  unfolding count_probe set_proof clear_check is_kind is_ready is_recovery
  count_probe-IsCoherent true had x e a s h =
      degraded-IsCoherent services RuntimePhase.degraded _ _ _ refl refl (ap is_some h.active)
        (kinds-set_row ProofKind.selected_outbound_https ProofState.failed none _ ∙ h.coherent.rows)
        h.calm
        (static-set_row services ProofKind.selected_outbound_https ProofState.failed none _ s.active
          _ refl h.coherent.rows h.coherent.started)
  count_probe-IsCoherent false true x e a s h = republish-IsCoherent s h.coherent
  count_probe-IsCoherent false false x e a s h = h.coherent
