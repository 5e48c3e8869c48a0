-- ===== src/Controller/Children.antt =====
-- application.rs, `RealityProcessPair`: the processes of a session, sing-box alone or in front of an
-- Xray sidecar that is restarted with it.
use route_deck.Prelude.{ℕ, Bool, true, false, Option, none, some, List, [], ◌∷◌, if◌then◌else◌}
use route_deck.Text.{codes}
use route_deck.Action.{Result, ok, err, Action, pure, raise, ◌>>=◌, ◌>>◌}
use route_deck.Controller.Status.{RuntimeError}
use route_deck.Controller.Services
use route_deck.Controller.Services.{Services, TunCaptureSnapshot, single, pair}

module _ (services : Services) where
  open services use {
    World, Process, Launch, verify_sidecar_owned_now, wait_until_sidecar_ready, check, start,
  }

  abbrev pub Child : Type 0
  Child = Services.Child Process Launch

  -- A pair answers for its front.
  abbrev pub front : Child → Process
  front (single p) = p
  front (pair p sidecar ports recovery) = p

  abbrev Io : Type 0 → Type 0
  Io A = Action World RuntimeError A

  unfoldable pub verify_ports : List ℕ → Process → Io Bool
  verify_ports [] p = pure true
  verify_ports (port ∷ ports) p = do verify_sidecar_owned_now port p; verify_ports ports p

  unfoldable pub is_alive : Child → Io Bool
  unfolding verify_ports
  is_alive (single p) = services.is_alive p
  is_alive (pair p sidecar ports recovery) = do
    alive ← services.is_alive p
    both ← if alive then services.is_alive sidecar else pure false
    if both then verify_ports ports sidecar else pure false

  -- front_result.and(sidecar_result)
  unfoldable pub and_also :
      Result RuntimeError (Unit {0})
      → Result RuntimeError (Unit {0})
      → Result RuntimeError (Unit {0})
  and_also (ok u) r = r
  and_also (err e) r = err e

  -- Both are asked to stop, whatever the first says.
  unfoldable pub stop : Child → Io (Unit {0})
  unfolding and_also
  stop (single p) w = services.stop p w
  stop (pair p sidecar ports recovery) w =
      let (r, w') = services.stop p w in
      let (r', w'') = services.stop sidecar w' in (and_also r r', w'')

  -- A pair is stopped when it is dropped.
  unfoldable pub drop : Child → World → World
  unfolding stop
  drop (single p) w = services.drop p w
  drop (pair p sidecar ports recovery) w =
      let (r, w') = stop (pair p sidecar ports recovery) w in
      services.drop sidecar (services.drop p w')

  unfoldable pub can_restart_owned_core : Child → World → Bool
  can_restart_owned_core c w = services.can_restart_owned_core (front c) w

  unfoldable pub tun_capture_snapshot : Child → Io TunCaptureSnapshot
  tun_capture_snapshot c = services.tun_capture_snapshot (front c)

  unavailable : RuntimeError
  unavailable = record {
    stage = codes "engine_process";
    message = codes "owned Xray sidecar is unavailable";
  }

  wait_ports : List ℕ → Process → Io (Unit {0})
  wait_ports [] p = pure tt
  wait_ports (port ∷ ports) p = do wait_until_sidecar_ready port p; wait_ports ports p

  abbrev Owned : Type 0 → Type 0
  Owned A = Action (Child × World) RuntimeError A

  -- A call on the world that leaves the child as it is.
  unfoldable pub on_world : {A : Type 0} → Io A → Owned A
  on_world m (c, w) = let (r, w') = m w in (r, (c, w'))

  -- self.sidecar = p, which drops the old one
  set_sidecar : Process → Owned (Unit {0})
  set_sidecar p (single q, w) = (ok tt, (single q, w))
  set_sidecar p (pair q old ports recovery, w) =
      (ok tt, (pair q p ports recovery, services.drop old w))

  restart_sidecar : Process → List ℕ → Option Launch → Owned (Unit {0})
  unfolding unavailable set_sidecar wait_ports on_world
  restart_sidecar old ports none = do on_world (services.stop old); raise unavailable
  restart_sidecar old ports (some launch) = do
    on_world (services.stop old)
    on_world (check launch)
    p ← on_world (start launch)
    set_sidecar p
    on_world (wait_ports ports p)

  -- A sidecar that died is replaced first; a new one is kept even if its port does not come up.
  unfoldable pub restart_owned_core : Child → ℕ → Owned (Unit {0})
  unfolding restart_sidecar on_world
  restart_owned_core (single p) target = on_world (services.restart_owned_core p target)
  restart_owned_core (pair p sidecar ports recovery) target = do
    alive ← on_world (services.is_alive sidecar)
    if alive then pure tt else restart_sidecar sidecar ports recovery
    on_world (services.restart_owned_core p target)
