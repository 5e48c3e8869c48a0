-- ===== src/Controller/Wiring/Leasing.antt =====
-- Who has the System Proxy while a session starts: nobody, this session, or, after a publication that
-- failed, perhaps this session. And how the steps of a start keep that.
use route_deck.Controller.Wiring.Launching.{Apart}
use route_deck.Text.{Text}
use route_deck.SystemProxy.Manager.Publish.{Journaled}
use route_deck.SystemProxy.Journal.{SystemProxyJournal}
use route_deck.Controller.Teardown.{with_world}
use route_deck.Controller.Wiring.Ending.{Calm, Calm-with_world, Calm-update_status}
use route_deck.Controller.Status.{RuntimeError, ProofKind, RuntimePhase, ProofState, PublicError}
use route_deck.Controller.Starting.{perform, modify, perform_with, enter, Act, Io, Start}
use route_deck.Prelude.{ℕ, ◌≡◌, refl, sym, ◌∙◌, Bool, true, false, Option, some, subst, none, ap}
use route_deck.Action.{Result, ok, err, pure, require, ◌>>=◌}
use route_deck.Action.Triple.{Triple, Triple-bind}
use route_deck.SystemProxy.Platform.{Platform, PlatformLaws}
use route_deck.Controller.Services.{Services}
use route_deck.Controller.Session.{State, ActiveSession, set_proof, update_status}
use route_deck.Controller.Wiring.{Wiring, SparesSink}
use route_deck.SystemProxy.Manager.Steps.{Same}

module _ (services : Services) where
  -- Whether the session would restore the System Proxy.
  abbrev pub holds_proxy : Option (ActiveSession services) → Bool
  holds_proxy none = false
  holds_proxy (some a) = a.system_proxy_requires_restore

module _ (p : Platform) (l : PlatformLaws p) (services : Services)
    (wiring : Wiring p l services) where
  open wiring use {view}
  open l use {settings}

  -- The settings are still those of `v`, and no session holds them.
  pub record Free (v : p.World) (s : State services) : Type 0 where
    pub calm : Calm p l services wiring v s
    pub unheld : holds_proxy services s.active ≡ false

  -- The session holds the settings, over a journal that leads back to those of `v`.
  pub record Leased (v : p.World) (s : State services) : Type 0 where
    pub world : p.World
    pub calm : Calm p l services wiring world s
    pub journal : SystemProxyJournal
    pub on_disk : Journaled p l v world journal
    pub in_force : settings world ≡ journal.applied
    pub held : holds_proxy services s.active ≡ true

  -- The session may hold them, but they are those of `v`.
  pub record Doubtful (v : p.World) (s : State services) : Type 0 where
    pub world : p.World
    pub calm : Calm p l services wiring world s
    pub same_settings : settings world ≡ settings v
    pub held : holds_proxy services s.active ≡ true

  -- After a step that failed.
  pub data Failed (v : p.World) (s : State services) : Type 0 where
    free : Free v s → Failed v s
    doubtful : Doubtful v s → Failed v s
    leased : Leased v s → Failed v s

  abbrev pub Reaches :
      {A : Type 0}
      → p.World
      → (A → State services → Type 0)
      → Result RuntimeError A
      → State services
      → Type 0
  Reaches v G (ok a) s = G a s
  Reaches v G (err e) s = Failed v s

  -- From `P` the action ends with `G`, of its value, or it fails.
  pub record Takes {A : Type 0} (v : p.World) (P : State services → Type 0) (m : Act services A)
      (G : A → State services → Type 0) : Type 0 where
    pub triple : Triple P m (Reaches v G)

  pub Takes-bind :
      {A C : Type 0} {v : p.World} {P Q : State services → Type 0} {G : C → State services → Type 0}
      {m : Act services A} {f : A → Act services C}
      → Takes v P m (λ a. Q)
      → ((a : A) → Takes v Q (f a) G)
      → Takes v P (m >>= f) G
  Takes-bind {v} {Q} {G} {m} {f} t k = record {
    triple = Triple-bind m f (Reaches v (λ a. Q)) t.triple (λ a. (k a).triple) (λ e s h. h);
  }

  -- The rest may use a fact about the value.
  pub Takes-bind_fact :
      {A C : Type 0} {v : p.World} {P Q : State services → Type 0} {F : A → Type 0}
      {G : C → State services → Type 0} {m : Act services A} {f : A → Act services C}
      → Takes v P m (λ a s. Q s × F a)
      → ((a : A) → F a → Takes v Q (f a) G)
      → Takes v P (m >>= f) G
  Takes-bind_fact {v} {Q} {F} {G} {m} {f} t k = record {
    triple =
        Triple-bind m f (Reaches v (λ a s. Q s × F a)) t.triple
          (λ a. record { at = λ s h. (k a h.1).triple.at s h.0 }) (λ e s h. h);
  }

  pub Takes-pure :
      {A : Type 0} {v : p.World} {P : State services → Type 0} {G : A → State services → Type 0}
      (a : A)
      → ((s : State services) → P s → G a s)
      → Takes v P (pure a) G
  unfolding pure
  Takes-pure a h = record { triple = record { at = h } }

  pub Takes-modify :
      {v : p.World} {P Q : State services → Type 0} (f : State services → State services)
      → ((s : State services) → P s → Q (f s))
      → Takes v P (modify services f) (λ u. Q)
  unfolding modify
  Takes-modify f h = record { triple = record { at = h } }

  -- What depends on nothing but the world, the window and the session.
  pub record Firm (v : p.World) (P : State services → Type 0) : Type 0 where
    pub moves :
        (w : services.World) (s : State services)
        → P s
        → Same p l (view s.world) (view w)
        → P (with_world services w s)
    pub told :
        (phase : RuntimePhase) (node_id : Option Text) (error : Option PublicError)
        (s : State services)
        → P s
        → P (update_status services phase node_id error s)
    pub ignores :
        (s t : State services)
        → t.world ≡ s.world
        → t.event_sink ≡ s.event_sink
        → t.active ≡ s.active
        → P s
        → P t
    pub fails : (s : State services) → P s → Failed v s

  Calm-ignores :
      (v : p.World) (s t : State services)
      → t.world ≡ s.world
      → t.event_sink ≡ s.event_sink
      → Calm p l services wiring v s
      → Calm p l services wiring v t
  Calm-ignores v s t e k c = record {
    same = subst (λ w. Same p l v (view w)) (sym e) c.same;
    sink = subst (SparesSink p l services view) (sym k) c.sink;
  }

  active-update_status :
      (phase : RuntimePhase) (node_id : Option Text) (error : Option PublicError)
      (s : State services)
      → (update_status services phase node_id error s).active ≡ s.active
  unfolding update_status
  active-update_status phase node_id error s = refl

  pub Firm-Free : (v : p.World) → Firm v (Free v)
  unfolding with_world
  Firm-Free v = record {
    moves = λ w s h e. record {
      calm = Calm-with_world p l services wiring v w s h.calm e;
      unheld = h.unheld;
    };
    told = λ phase node_id error s h. record {
      calm = Calm-update_status p l services wiring v phase node_id error s h.calm;
      unheld = ap (holds_proxy services) (active-update_status phase node_id error s) ∙ h.unheld;
    };
    ignores = λ s t e k a h. record {
      calm = Calm-ignores v s t e k h.calm;
      unheld = ap (holds_proxy services) a ∙ h.unheld;
    };
    fails = λ s h. free h;
  }

  pub Firm-Leased : (v : p.World) → Firm v (Leased v)
  unfolding with_world
  Firm-Leased v = record {
    moves = λ w s h e. record {
      world = h.world;
      calm = Calm-with_world p l services wiring h.world w s h.calm e;
      journal = h.journal;
      on_disk = h.on_disk;
      in_force = h.in_force;
      held = h.held;
    };
    told = λ phase node_id error s h. record {
      world = h.world;
      calm = Calm-update_status p l services wiring h.world phase node_id error s h.calm;
      journal = h.journal;
      on_disk = h.on_disk;
      in_force = h.in_force;
      held = ap (holds_proxy services) (active-update_status phase node_id error s) ∙ h.held;
    };
    ignores = λ s t e k a h. record {
      world = h.world;
      calm = Calm-ignores h.world s t e k h.calm;
      journal = h.journal;
      on_disk = h.on_disk;
      in_force = h.in_force;
      held = ap (holds_proxy services) a ∙ h.held;
    };
    fails = λ s h. leased h;
  }

  module _ {v : p.World} {P : State services → Type 0} (firm : Firm v P) where
    pub Takes-perform :
        {A : Type 0} {m : Io services A}
        → Apart p l services wiring m
        → Takes v P (perform services m) (λ a. P)
    unfolding perform
    Takes-perform {A} {m} a = record {
      triple = record { at = λ s h. go s h (m s.world) (a.leaves s.world) };
    }
      where
        go :
            (s : State services)
            → P s
            → (x : Result RuntimeError A × services.World) → Same p l (view s.world) (view x.1)
            → Reaches v (λ (a : A). P) x.0 (with_world services x.1 s)
        go s h (ok a, w) e = firm.moves w s h e
        go s h (err x, w) e = firm.fails _ (firm.moves w s h e)

    pub Takes-perform_with :
        {A : Type 0} {m : State services → Io services A}
        → ((s : State services) → Apart p l services wiring (m s))
        → Takes v P (perform_with services m) (λ a. P)
    unfolding perform_with
    Takes-perform_with a = record {
      triple = record { at = λ s h. (Takes-perform (a s)).triple.at s h };
    }

    pub Takes-require : (b : Bool) (e : RuntimeError) → Takes v P (require b e) (λ u. P)
    unfolding require
    Takes-require true e = record { triple = record { at = λ s h. h } }
    Takes-require false e = record { triple = record { at = λ s h. firm.fails s h } }

    pub Takes-enter :
        (phase : RuntimePhase) (r : Start services) → Takes v P (enter services phase r) (λ u. P)
    unfolding enter
    Takes-enter phase r = Takes-modify _ (firm.told phase (some r.node_id) none)

    pub Takes-set_proof :
        (k : ProofKind) (x : ProofState) (n : Option ℕ)
        → Takes v P (modify services (set_proof services k x n)) (λ u. P)
    unfolding set_proof
    Takes-set_proof k x n = Takes-modify _ (λ s h. firm.ignores s _ refl refl refl h)
