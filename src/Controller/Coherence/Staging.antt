-- ===== src/Controller/Coherence/Staging.antt =====
-- The stages of a start: which proofs have passed so far, and the rules by which its steps are read.
use route_deck.Prelude.{
  ℕ, ◌≡◌, refl, sym, Bool, true, false, Option, List, [], ◌∷◌, arith, any, holds_of, Bool-cases,
  inl, inr, subst, and-true,
}
use route_deck.Action.{Result, ok, err, pure, require, ◌>>=◌}
use route_deck.Action.Triple.{Triple, Triple-bind, Triple-pure}
use route_deck.Domain.Tls.{is_some}
use route_deck.Controller.Status.{
  RuntimePhase, RuntimeError, ProofKind, ProofState, ProofRow, proof_kinds, set_row,
  ProofKind-discrete,
}
use route_deck.Controller.Services.{Services}
use route_deck.Controller.Session.{State, update_status}
use route_deck.Controller.Teardown.{with_world}
use route_deck.Controller.Starting.{Act, Io, Start, perform, modify, enter}
use route_deck.Controller.Rows.{kinds, is_kind, is_kind-eq, proof_state-set_row}
use route_deck.Controller.Coherence.{is_passed, all_passed}
use route_deck.Controller.Coherence.Stopping.{Listed}

is_passed-set_row :
    (k j : ProofKind) (l : Option ℕ) (rows : List ProofRow)
    → kinds rows ≡ proof_kinds
    → is_passed j rows ≡ true
    → is_passed j (set_row k ProofState.passed l rows) ≡ true
is_passed-set_row k j l rows h p =
    ground (arith, proof_state-set_row k j ProofState.passed l rows h)

-- A proof that passes leaves what has passed.
pub passed-set_row :
    (ks : List ProofKind) (k : ProofKind) (l : Option ℕ) (rows : List ProofRow)
    → kinds rows ≡ proof_kinds
    → all_passed ks rows ≡ true
    → all_passed ks (set_row k ProofState.passed l rows) ≡ true
passed-set_row [] k l rows h p = refl
passed-set_row (j ∷ ks) k l rows h p =
    ground (arith, is_passed-set_row k j l rows h, passed-set_row ks k l rows h)

is_kind_refl : (k : ProofKind) → is_kind k k ≡ true
unfolding is_kind
is_kind_refl k = holds_of (ProofKind-discrete k k) refl

pub is_passed_self :
    (k : ProofKind) (l : Option ℕ) (rows : List ProofRow)
    → kinds rows ≡ proof_kinds
    → is_passed k (set_row k ProofState.passed l rows) ≡ true
is_passed_self k l rows h =
    ground (arith, proof_state-set_row k k ProofState.passed l rows h, is_kind_refl k)

-- A proof that is reset leaves the others.
pub others-set_row :
    (ks : List ProofKind) (k : ProofKind) (p : ProofState) (l : Option ℕ) (rows : List ProofRow)
    → kinds rows ≡ proof_kinds
    → any (is_kind k) ks ≡ false
    → all_passed ks rows ≡ true
    → all_passed ks (set_row k p l rows) ≡ true
others-set_row [] k p l rows h n a = refl
others-set_row (j ∷ ks) k p l rows h n a =
    ground (arith, proof_state-set_row k j p l rows h, others-set_row ks k p l rows h)

passed_each :
    (ks : List ProofKind) (k : ProofKind) (rows : List ProofRow)
    → all_passed ks rows ≡ true
    → any (is_kind k) ks ≡ true
    → is_passed k rows ≡ true
passed_each [] k rows p m = cc
passed_each (j ∷ ks) k rows p m = elim (Bool-cases (is_kind k j)) [
  | inl e ↦
      subst (λ i. is_passed i rows ≡ true) (sym (is_kind-eq k j e))
        (and-true (is_passed j rows) (all_passed ks rows) p).0
  | inr e ↦
      passed_each ks k rows (and-true (is_passed j rows) (all_passed ks rows) p).1 (ground arith)
]

passed_of_each :
    (ks : List ProofKind) (rows : List ProofRow)
    → ((k : ProofKind) → is_passed k rows ≡ true)
    → all_passed ks rows ≡ true
passed_of_each [] rows h = refl
passed_of_each (k ∷ ks) rows h = ground (arith, h k, passed_of_each ks rows h)

-- What holds of every kind of a list that names them all.
pub passed_all :
    (ks js : List ProofKind) (rows : List ProofRow)
    → ((k : ProofKind) → any (is_kind k) ks ≡ true)
    → all_passed ks rows ≡ true
    → all_passed js rows ≡ true
passed_all ks js rows m p = passed_of_each js rows (λ k. passed_each ks k rows p (m k))

module _ (services : Services) where
  -- The listed proofs have passed, and nothing needs a recovery.
  pub record Stage (ks : List ProofKind) (s : State services) : Type 0 where
    pub rows : Listed services s
    pub calm : s.recovery_required ≡ false
    pub passed : all_passed ks s.status.proofs ≡ true

  -- The same of a session that is stored.
  pub record Live (ks : List ProofKind) (s : State services) : Type 0 where
    pub stage : Stage ks s
    pub alive : is_some s.active ≡ true

  pub Stage-any : (ks : List ProofKind) (s : State services) → Stage ks s → Stage [] s
  Stage-any ks s h = record { rows = h.rows; calm = h.calm; passed = refl }

  -- After an error the stage is open; after a success `G` holds.
  unfoldable pub Outcome :
      {A : Type 0} → (A → State services → Type 0) → Result RuntimeError A → State services → Type 0
  Outcome G (ok a) s = G a s
  Outcome G (err e) s = Stage [] s

  pub record Goes {A : Type 0} (P : State services → Type 0) (m : Act services A)
      (G : A → State services → Type 0) : Type 0 where
    pub triple : Triple P m (Outcome G)

  pub Goes-bind :
      {A C : Type 0} {P P' : State services → Type 0} {G : C → State services → Type 0}
      {m : Act services A} {f : A → Act services C}
      → Goes P m (λ a. P')
      → ((a : A) → Goes P' (f a) G)
      → Goes P (m >>= f) G
  unfolding Outcome
  Goes-bind {P'} {m} {f} t k = record {
    triple = Triple-bind m f (Outcome (λ a. P')) t.triple (λ a. (k a).triple) (λ e s h. h);
  }

  pub Goes-modify :
      {P P' : State services → Type 0} (f : State services → State services)
      → ((s : State services) → P s → P' (f s))
      → Goes P (modify services f) (λ u. P')
  unfolding Outcome modify
  Goes-modify f h = record { triple = record { at = h } }

  pub Goes-pure :
      {A : Type 0} {P : State services → Type 0} {G : A → State services → Type 0} (a : A)
      → ((s : State services) → P s → G a s)
      → Goes P (pure a) G
  unfolding Outcome
  Goes-pure a h = record { triple = Triple-pure a h }

  -- A stage that the world does not matter for.
  pub record Steady (P : State services → Type 0) : Type 0 where
    pub moves : (w : services.World) (s : State services) → P s → P (with_world services w s)
    pub open_stage : (s : State services) → P s → Stage [] s

  Stage-with_world :
      (ks : List ProofKind) (w : services.World) (s : State services)
      → Stage ks s
      → Stage ks (with_world services w s)
  unfolding with_world
  Stage-with_world ks w s h = record { rows = h.rows; calm = h.calm; passed = h.passed }

  pub Steady-Stage : (ks : List ProofKind) → Steady (Stage ks)
  Steady-Stage ks = record { moves = Stage-with_world ks; open_stage = Stage-any ks }

  Live-with_world :
      (ks : List ProofKind) (w : services.World) (s : State services)
      → Live ks s
      → Live ks (with_world services w s)
  unfolding with_world
  Live-with_world ks w s h = record { stage = Stage-with_world ks w s h.stage; alive = h.alive }

  pub Steady-Live : (ks : List ProofKind) → Steady (Live ks)
  Steady-Live ks = record { moves = Live-with_world ks; open_stage = λ s h. Stage-any ks s h.stage }

  -- A call on the world.
  pub Goes-perform :
      {A : Type 0} {P : State services → Type 0} (m : Io services A)
      → Steady P
      → Goes P (perform services m) (λ a. P)
  unfolding Outcome perform
  Goes-perform {A} {P} m t = record { triple = record { at = λ s p. go s p (m s.world) } }
    where
      go :
          (s : State services)
          → P s
          → (rw : Result RuntimeError A × services.World)
          → Outcome (λ a. P) rw.0 (with_world services rw.1 s)
      go s p (ok a, w) = t.moves w s p
      go s p (err e, w) = t.open_stage _ (t.moves w s p)

  pub Goes-require :
      {P : State services → Type 0} (b : Bool) (e : RuntimeError)
      → Steady P
      → Goes P (require b e) (λ u. P)
  unfolding Outcome require
  Goes-require true e t = record { triple = record { at = λ s p. p } }
  Goes-require false e t = record { triple = record { at = t.open_stage } }

  -- A change of the phase.
  pub Goes-enter-Stage :
      (ks : List ProofKind) (phase : RuntimePhase) (r : Start services)
      → Goes (Stage ks) (enter services phase r) (λ u. Stage ks)
  unfolding enter update_status
  Goes-enter-Stage ks phase r =
      Goes-modify _ (λ s h. record { rows = h.rows; calm = h.calm; passed = h.passed })

  pub Goes-enter-Live :
      (ks : List ProofKind) (phase : RuntimePhase) (r : Start services)
      → Goes (Live ks) (enter services phase r) (λ u. Live ks)
  unfolding enter update_status
  Goes-enter-Live ks phase r = Goes-modify _ (λ s h. record {
    stage = record { rows = h.stage.rows; calm = h.stage.calm; passed = h.stage.passed };
    alive = h.alive;
  })
