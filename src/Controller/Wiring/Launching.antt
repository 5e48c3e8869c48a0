-- ===== src/Controller/Wiring/Launching.antt =====
-- What starts the processes of a session and proves it leaves the System Proxy alone.
use route_deck.Text.{Text}
use route_deck.Controller.Status.{RuntimeError}
use route_deck.Controller.Starting.{
  guarded, wait_bridges, check_sidecar, start_sidecar, prove_capture, start_child,
}
use route_deck.Controller.Children.{Child, verify_ports}
use route_deck.Prelude.{if◌then◌else◌, ℕ, Bool, List, true, Option, some, false, ◌∷◌, [], none}
use route_deck.Action.{Result, ok, err, Action, pure, require, ◌>>=◌, continue}
use route_deck.Controller.Children
use route_deck.SystemProxy.Platform.{Platform, PlatformLaws}
use route_deck.Controller.Services.{Services, single, pair}
use route_deck.Controller.Wiring.{Wiring, Leaves}
use route_deck.SystemProxy.Manager.Steps.{Same, Same-refl, Same-trans}

module _ (p : Platform) (l : PlatformLaws p) (services : Services)
    (wiring : Wiring p l services) where
  open wiring use {view}

  -- The call leaves the settings and the files.
  pub record Apart {E A : Type 0} (m : Action services.World E A) : Type 0 where
    pub leaves : Leaves p l services view m

  Apart-pure : {E A : Type 0} (a : A) → Apart (pure {E = E} a)
  unfolding pure
  Apart-pure a = record { leaves = λ w. Same-refl p l _ }

  Apart-require : {E : Type 0} (b : Bool) (e : E) → Apart (require b e)
  unfolding require
  Apart-require true e = record { leaves = λ w. Same-refl p l _ }
  Apart-require false e = record { leaves = λ w. Same-refl p l _ }

  pub Apart-bind :
      {E A B : Type 0} {m : Action services.World E A} {f : A → Action services.World E B}
      → Apart m
      → ((a : A) → Apart (f a))
      → Apart (m >>= f)
  unfolding ◌>>=◌
  Apart-bind {E} {A} {B} {m} {f} a b = record {
    leaves = λ w. Same-trans p l (a.leaves w) (go (m w));
  }
    where
      go : (x : Result E A × services.World) → Same p l (view x.1) (view (continue x f).1)
      go (ok a, w) = (b a).leaves w
      go (err e, w) = Same-refl p l _

  Apart-verify_ports :
      (ports : List ℕ) (c : services.Process) → Apart (verify_ports services ports c)
  unfolding verify_ports
  Apart-verify_ports [] c = Apart-pure true
  Apart-verify_ports (port ∷ ports) c =
      Apart-bind (record { leaves = wiring.sidecar_owned_Leaves port c })
        (λ u. Apart-verify_ports ports c)

  Apart-if :
      {E A : Type 0} (b : Bool) {m n : Action services.World E A}
      → Apart m
      → Apart n
      → Apart (if b then m else n)
  Apart-if true h k = h
  Apart-if false h k = k

  pub Apart-is_alive : (c : Child services) → Apart (Children.is_alive services c)
  unfolding Children.is_alive
  Apart-is_alive (single x) = record { leaves = wiring.alive_Leaves x }
  Apart-is_alive (pair x y ports recovery) =
      Apart-bind (record { leaves = wiring.alive_Leaves x })
        (λ alive.
          Apart-bind (Apart-if alive (record { leaves = wiring.alive_Leaves y }) (Apart-pure false))
            (λ both. Apart-if both (Apart-verify_ports ports y) (Apart-pure false)))

  pub Apart-prove_capture : (c : Child services) → Apart (prove_capture services c)
  unfolding prove_capture Children.tun_capture_snapshot
  Apart-prove_capture c =
      Apart-bind (record { leaves = wiring.capture_Leaves _ })
        (λ before.
          Apart-bind (record { leaves = wiring.tun_Leaves })
            (λ proof.
              Apart-bind (record { leaves = wiring.capture_Leaves _ })
                (λ after. Apart-bind (Apart-require _ _) (λ u. Apart-pure proof))))

  pub Apart-check_sidecar : (f : Option services.Files) → Apart (check_sidecar services f)
  unfolding check_sidecar
  Apart-check_sidecar none = Apart-pure none
  Apart-check_sidecar (some f) =
      Apart-bind (record { leaves = wiring.create_sidecar_Leaves f })
        (λ launch.
          Apart-bind (record { leaves = wiring.check_Leaves launch }) (λ version. Apart-pure _))

  Apart-guarded :
      {A : Type 0} (c : services.Process) (m : Action services.World RuntimeError A)
      → Apart m
      → Apart (λ w. guarded services c (m w))
  unfolding guarded
  Apart-guarded {A} c m h = record { leaves = λ w. Same-trans p l (h.leaves w) (go (m w)) }
    where
      go :
          (x : Result RuntimeError A × services.World)
          → Same p l (view x.1) (view (guarded services c x).1)
      go (ok a, w) = Same-refl p l _
      go (err e, w) = Same-trans p l (wiring.stop_Leaves c w) (wiring.drop_Spares c _)

  Apart-wait_bridges :
      (ports : List ℕ) (c : services.Process) → Apart (wait_bridges services ports c)
  unfolding wait_bridges
  Apart-wait_bridges [] c = Apart-pure tt
  Apart-wait_bridges (port ∷ ports) c =
      Apart-bind (record { leaves = wiring.sidecar_ready_Leaves port c })
        (λ u. Apart-wait_bridges ports c)

  pub Apart-start_sidecar :
      (ports : List ℕ) (o : Option (services.Launch × Text))
      → Apart (start_sidecar services ports o)
  unfolding start_sidecar
  Apart-start_sidecar ports none = Apart-pure none
  Apart-start_sidecar ports (some (launch, version)) =
      Apart-bind (record { leaves = wiring.start_Leaves launch })
        (λ c.
          Apart-bind (Apart-guarded c (wait_bridges services ports c) (Apart-wait_bridges ports c))
            (λ u. Apart-pure _))

  pub Apart-start_child :
      (ports : List ℕ) (launch : services.Launch) (o : Option (services.Process × services.Launch))
      → Apart (start_child services ports launch o)
  unfolding start_child
  Apart-start_child ports launch none =
      Apart-bind (record { leaves = wiring.start_Leaves launch }) (λ c. Apart-pure _)
  Apart-start_child ports launch (some (sidecar, recovery)) =
      Apart-bind
        (Apart-guarded sidecar (services.start launch)
          (record { leaves = wiring.start_Leaves launch }))
        (λ c. Apart-pure _)
