-- ===== src/Controller/Coherence.antt =====
-- What the controller's state and every published status agree on between two operations.
pub mod Stopping
pub mod Losing
pub mod Watching
pub mod Renewing
pub mod Concluding
pub mod Probing
pub mod Undoing
pub mod Staging
pub mod Launching
pub mod Readying
pub mod Announcing
pub mod Connecting
pub mod Tunnelling
pub mod Reconnecting
pub mod Reaching
use route_deck.Prelude.{
  ℕ, ◌≡◌, refl, subst, Bool, true, false, not, ◌&&◌, ◌||◌, Option, none, some, List, [], ◌∷◌,
  if◌then◌else◌, all, arith,
}
use route_deck.Text.{Text}
use route_deck.Domain.Tls.{is_some}
use route_deck.Controller.Status.{
  RuntimePhase, RuntimeMode, ProofKind, ProofState, ProofRow, PublicError, RuntimeStatus,
  proof_kinds, proof_state,
}
use route_deck.Controller.Services.{Services}
use route_deck.Controller.Session.{
  State, ActiveSession, update_status, is_ready, is_verified, relabel,
}
use route_deck.Controller.Teardown.{with_world, with_active}
use route_deck.Controller.Monitor.{is_recovery}
use route_deck.Controller.Reconnect.{mode_is}
use route_deck.Controller.Rows.{kinds}

-- The phases in which no session is active.
abbrev pub is_idle : RuntimePhase → Bool
is_idle RuntimePhase.disconnected = true
is_idle RuntimePhase.disconnected_with_error = true
is_idle RuntimePhase.recovery_required = true
is_idle _ = false

abbrev pub is_passed : ProofKind → List ProofRow → Bool
is_passed k rows = elim (proof_state k rows) [ ProofState.passed ↦ true | _ ↦ false ]

abbrev pub all_passed : List ProofKind → List ProofRow → Bool
all_passed ks rows = all (λ k. is_passed k rows) ks

-- What a start proves once, and no later proof renews.
abbrev pub static_kinds : List ProofKind
static_kinds =
    ProofKind.engine_config ∷ ProofKind.engine_process ∷ ProofKind.http_listener
    ∷ ProofKind.socks_listener ∷ ProofKind.health_listener ∷ []

abbrev pub traffic_kinds : List ProofKind
traffic_kinds = ProofKind.selected_outbound_https ∷ ProofKind.local_scope_ownership ∷ []

-- The proofs that a phase claims.
abbrev pub claims : RuntimePhase → List ProofRow → Bool
claims RuntimePhase.tun_ready rows = all_passed traffic_kinds rows
claims RuntimePhase.system_proxy_ready rows = all_passed proof_kinds rows
claims _ rows = true

-- A status shows no more than was proved.
pub record IsHonest (t : RuntimeStatus) : Type 0 where
  pub steady : is_some t.steady_latency_ms ≡ true → is_ready t.phase ≡ true
  pub checked : is_some t.route_check_ms ≡ true → is_verified t.phase ≡ true
  pub clean : is_ready t.phase ≡ true → t.error ≡ none
  pub proved : claims t.phase t.proofs ≡ true

-- A test between two values, each with what is known of the test.
pub if_elim :
    {X : Type 0} (P : X → Type 0) (b : Bool) (x y : X)
    → (b ≡ true → P x)
    → (b ≡ false → P y)
    → P (if b then x else y)
if_elim P true x y h k = h refl
if_elim P false x y h k = k refl

module _ (services : Services) where
  -- A System Proxy session that needs no recovery keeps the proofs of its start.
  abbrev pub keeps_start : Bool → Option (ActiveSession services) → List ProofRow → Bool
  keeps_start recovery none rows = true
  keeps_start recovery (some a) rows =
      not (mode_is a.mode RuntimeMode.system_proxy) || (recovery || all_passed static_kinds rows)

  pub record IsCoherent (s : State services) : Type 0 where
    pub honest : IsHonest s.status
    pub published_honest : IsHonest s.published_status
    pub rows : kinds s.status.proofs ≡ proof_kinds
    pub review : s.recovery_required ≡ is_recovery s.status.phase
    pub live : (is_some s.active || is_idle s.status.phase) ≡ true
    pub started : keeps_start s.recovery_required s.active s.status.proofs ≡ true

  -- An update publishes an honest status, if a phase that is ready comes without error and with its
  -- proofs.
  pub update_status-IsHonest :
      (phase : RuntimePhase) (node_id : Option Text) (error : Option PublicError)
      (s : State services)
      → (is_ready phase ≡ true → error ≡ none)
      → claims phase s.status.proofs ≡ true
      → IsHonest (update_status services phase node_id error s).status
  unfolding update_status relabel is_ready is_verified
  update_status-IsHonest phase node_id error s h k = record {
    steady = ground arith;
    checked = ground arith;
    clean = h;
    proved = k;
  }

  -- The state after an update.
  pub update_status-IsCoherent :
      (phase : RuntimePhase) (node_id : Option Text) (error : Option PublicError)
      (s : State services)
      → (is_ready phase ≡ true → error ≡ none)
      → claims phase s.status.proofs ≡ true
      → kinds s.status.proofs ≡ proof_kinds
      → s.recovery_required ≡ is_recovery phase
      → (is_some s.active || is_idle phase) ≡ true
      → keeps_start s.recovery_required s.active s.status.proofs ≡ true
      → IsCoherent (update_status services phase node_id error s)
  unfolding update_status
  update_status-IsCoherent phase node_id error s h k rows review live started =
      let honest = update_status-IsHonest phase node_id error s h k in
      record {
        honest = honest;
        published_honest = honest;
        rows = rows;
        review = review;
        live = live;
        started = started;
      }

  pub IsCoherent-with_world :
      (w : services.World) (s : State services)
      → IsCoherent s
      → IsCoherent (with_world services w s)
  unfolding with_world
  IsCoherent-with_world w s c = record {
    honest = c.honest;
    published_honest = c.published_honest;
    rows = c.rows;
    review = c.review;
    live = c.live;
    started = c.started;
  }

  -- A session of the same mode in the place of another.
  pub IsCoherent-with_active :
      (a b : ActiveSession services) (s : State services)
      → s.active ≡ some a
      → b.mode ≡ a.mode
      → IsCoherent s
      → IsCoherent (with_active services (some b) s)
  unfolding with_active
  IsCoherent-with_active a b s h m c = record {
    honest = c.honest;
    published_honest = c.published_honest;
    rows = c.rows;
    review = c.review;
    live = refl;
    started =
        rw m (subst (λ o. keeps_start s.recovery_required o s.status.proofs ≡ true) h c.started);
  }
