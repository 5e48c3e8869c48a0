-- ===== src/Controller/Cleanup.antt =====
-- What a teardown guarantees: a session is let go only after its System Proxy was given back and its
-- processes were stopped; and a proxy that another program owns is not taken over again.
use route_deck.Prelude.{
  ◌≡◌, refl, sym, subst, ap, ◌∙◌, ◌⊎◌, inl, inr, Bool, true, false, Option, none, some,
  if◌then◌else◌,
}
use route_deck.Text.{Text}
use route_deck.Action.{Result, ok, err}
use route_deck.Domain.Tls.{is_some}
use route_deck.SystemProxy.Snapshot.{SystemProxyError}
use route_deck.SystemProxy.Manager.{
  SystemProxyRestoreOutcome, restored, foreign_preserved, no_journal,
}
use route_deck.Controller.Status.{RuntimePhase, ProofKind, ProofState, PublicError, RuntimeError}
use route_deck.Controller.Services.{Services}
use route_deck.Controller.Children
use route_deck.Controller.Session.{
  State, ActiveSession, update_status, set_proof, reset_disconnected, without_session,
  clear_active_metadata,
}
use route_deck.Controller.Teardown.{
  Answer, needs_recovery, conclude, reconciled, stopped, stop_child, proxy_restored, restore_proxy,
  teardown, stop_active_locked, drop_active, pause_reconnect, with_active, with_world, set_restore,
}

abbrev pub GaveBackBy : Result SystemProxyError SystemProxyRestoreOutcome → Type 0
GaveBackBy (ok restored) = Unit {0}
GaveBackBy (ok foreign_preserved) = Unit {0}
GaveBackBy (ok no_journal) = ⊥
GaveBackBy (err e) = ⊥

abbrev pub owner_row : Result SystemProxyError SystemProxyRestoreOutcome → ProofState
owner_row (ok foreign_preserved) = ProofState.failed
owner_row _ = ProofState.passed

abbrev pub IsFailed : {A : Type 0} → Result PublicError A → Type 0
IsFailed (ok a) = ⊥
IsFailed (err e) = Unit {0}

module _ (services : Services) where
  -- What the restoration of a teardown answers, and the world that it leaves.
  abbrev pub restoration :
      State services → Result SystemProxyError SystemProxyRestoreOutcome × services.World
  restoration s =
      services.restore_if_owned
        (update_status services RuntimePhase.restoring_system_proxy s.status.node_id none s).world

  -- In the state `t` the processes of the session stop without error, after the stop was announced.
  abbrev pub Stopped : ActiveSession services → Option Text → State services → Type 0
  Stopped a node_id t =
      (Children.stop services a.child
        (update_status services RuntimePhase.stopping_core node_id none t).world).0
      ≡ ok tt

  -- A session that need not restore the System Proxy any more, and whose row shows who owns it.
  abbrev pub rowed : ProofState → ActiveSession services → State services → State services
  rowed owner a s =
      set_proof services ProofKind.system_proxy_ownership owner none
        (with_active services (some (set_restore services false a)) s)

  -- The state once the restoration gave the System Proxy back.
  abbrev pub handed_back : ProofState → ActiveSession services → State services → State services
  handed_back owner a s = rowed owner a (
      with_world services (restoration s).1
        (update_status services RuntimePhase.restoring_system_proxy s.status.node_id none s))

  -- What comes before a session is let go: its System Proxy need not be restored, or is given back
  -- first; and in the state that this leaves its processes stop.
  abbrev pub HandedBack : ActiveSession services → State services → Type 0
  HandedBack a s =
      ((a.system_proxy_requires_restore ≡ false) × Stopped a s.status.node_id s)
      ⊎ ((a.system_proxy_requires_restore ≡ true)
          × GaveBackBy (restoration s).0
          × Stopped a s.status.node_id (handed_back (owner_row (restoration s).0) a s))

  -- The session is gone, after what has to come before that; or it is kept for a recovery that the
  -- answer asks for.
  pub data Ended (Before : Type 0) : Answer services → Type 0 where
    let_go : {x : Answer services} → x.1.active ≡ none → Before → Ended Before x
    retained :
        {x : Answer services}
        → is_some x.1.active ≡ true
        → x.1.recovery_required ≡ true
        → IsFailed x.0
        → Ended Before x

  active-update_status :
      (phase : RuntimePhase) (node_id : Option Text) (error : Option PublicError)
      (s : State services)
      → (update_status services phase node_id error s).active ≡ s.active
  unfolding update_status
  active-update_status phase node_id error s = refl

  conclude-active :
      (node_id : Option Text) (conflict : Bool) (terminal : Option PublicError) (s : State services)
      → s.active ≡ none
      → (conclude services node_id conflict terminal s).1.active ≡ none
  unfolding conclude update_status pause_reconnect reset_disconnected without_session
      clear_active_metadata
  conclude-active node_id true terminal s h = h
  conclude-active node_id false (some e) s h = h
  conclude-active node_id false none s h = h

  reconciled-active :
      (node_id : Option Text) (conflict : Bool) (terminal : Option PublicError)
      (r : Result RuntimeError (Unit {0})) (s : State services)
      → s.active ≡ none
      → (reconciled services node_id conflict terminal r s).1.active ≡ none
  unfolding reconciled needs_recovery update_status
  reconciled-active node_id conflict terminal (ok u) s h =
      conclude-active node_id conflict terminal _ h
  reconciled-active node_id conflict terminal (err e) s h = h

  stopped-Ended :
      {B : Type 0} (node_id : Option Text) (conflict : Bool) (terminal : Option PublicError)
      (a : ActiveSession services) (r : Result RuntimeError (Unit {0})) (s : State services)
      → (r ≡ ok tt → B)
      → is_some s.active ≡ true
      → Ended B (stopped services node_id conflict terminal a r s)
  unfolding stopped needs_recovery update_status drop_active with_active with_world
      clear_active_metadata
  stopped-Ended node_id conflict terminal a (ok tt) s k i =
      let_go (reconciled-active node_id conflict terminal _ _ refl) (k refl)
  stopped-Ended node_id conflict terminal a (err e) s k i = retained i refl tt

  stop_child-Ended :
      {B : Type 0} (node_id : Option Text) (conflict : Bool) (terminal : Option PublicError)
      (a : ActiveSession services) (s : State services)
      → (Stopped a node_id s → B)
      → is_some s.active ≡ true
      → Ended B (stop_child services node_id conflict terminal a s)
  unfolding stop_child with_world
  stop_child-Ended node_id conflict terminal a s k i =
      stopped-Ended node_id conflict terminal a _ _ k
        (ap is_some (active-update_status RuntimePhase.stopping_core node_id none s) ∙ i)

  proxy_restored-Ended :
      {B : Type 0} (node_id : Option Text) (terminal : Option PublicError)
      (a : ActiveSession services) (r : Result SystemProxyError SystemProxyRestoreOutcome)
      (s : State services)
      → (GaveBackBy r → Stopped a node_id (rowed (owner_row r) a s) → B)
      → is_some s.active ≡ true
      → Ended B (proxy_restored services node_id terminal a r s)
  unfolding proxy_restored needs_recovery update_status set_proof with_active set_restore
  proxy_restored-Ended node_id terminal a (ok restored) s k i =
      stop_child-Ended node_id false terminal (set_restore services false a)
        (rowed ProofState.passed a s) (k tt) refl
  proxy_restored-Ended node_id terminal a (ok foreign_preserved) s k i =
      stop_child-Ended node_id true terminal (set_restore services false a)
        (rowed ProofState.failed a s) (k tt) refl
  proxy_restored-Ended node_id terminal a (ok no_journal) s k i = retained i refl tt
  proxy_restored-Ended node_id terminal a (err e) s k i = retained i refl tt

  teardown-Ended :
      (b : Bool) (a : ActiveSession services) (terminal : Option PublicError) (s : State services)
      → a.system_proxy_requires_restore ≡ b
      → is_some s.active ≡ true
      → Ended (HandedBack a s) (
          if b
          then restore_proxy services s.status.node_id terminal a s
          else stop_child services s.status.node_id false terminal a s)
  unfolding restore_proxy
  teardown-Ended true a terminal s h i =
      proxy_restored-Ended s.status.node_id terminal a _ _ (λ g t. inr (h, g, t))
        (ap is_some
            (active-update_status RuntimePhase.restoring_system_proxy s.status.node_id none s)
          ∙ i)
  teardown-Ended false a terminal s h i =
      stop_child-Ended s.status.node_id false terminal a s (λ t. inl (h, t)) i

  -- Every outcome of a teardown of an active session: either the session is gone, and before that
  -- its System Proxy did not need to be restored, or it did and the restoration gave it back or left
  -- it to its new owner, and in the very state that this left the stop was announced and the
  -- processes stopped without error; or the session is kept, a recovery is required and the answer
  -- is an error.
  pub stop_active_locked-Ended :
      (a : ActiveSession services) (terminal : Option PublicError) (s : State services)
      → s.active ≡ some a
      → Ended (HandedBack a s) (stop_active_locked services terminal s)
  unfolding stop_active_locked teardown
  stop_active_locked-Ended a terminal s h =
      subst (λ o. Ended (HandedBack a s) (teardown services o terminal s)) (sym h)
        (teardown-Ended a.system_proxy_requires_restore a terminal s refl (rw h refl))
