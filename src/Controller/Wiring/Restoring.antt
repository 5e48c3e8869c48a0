-- ===== src/Controller/Wiring/Restoring.antt =====
-- A teardown of a session that published the System Proxy is a restoration by the manager.
use route_deck.Controller.Coherence.{if_elim}
use route_deck.Controller.Wiring.Ending.{Calm-update_status, Calm-proxy_restored}
use route_deck.Controller.Cleanup.{IsFailed}
use route_deck.SystemProxy.Manager.{
  SystemProxyRestoreOutcome, restored, foreign_preserved, no_journal,
}
use route_deck.Text.{Text}
use route_deck.Controller.Status.{PublicError, RuntimeError, RuntimePhase}
use route_deck.SystemProxy.Snapshot.{SystemProxyError}
use route_deck.Controller.Teardown.{
  stop_active_locked, proxy_restored, stop_child, needs_recovery, teardown, restore_proxy, Answer,
  reconciled, stopped, with_world, conclude,
}
use route_deck.Action.{Result, ok, err}
use route_deck.SystemProxy.Manager.Restore.{Restores, restore_if_owned-Restores, Stored-move}
use route_deck.Prelude.{
  arith, ◌≡◌, refl, sym, ◌∙◌, Option, subst, some, inl, true, inr, none, arith,
}
use route_deck.SystemProxy.Platform.{Platform, PlatformLaws, active_journal, conflict_evidence}
use route_deck.Controller.Services.{Services}
use route_deck.Controller.Wiring.{Wiring, SparesSink}
use route_deck.Controller.Session.{State, ActiveSession, update_status}
use route_deck.SystemProxy.Manager.Steps.{Same, Same-refl, Same-trans}
use route_deck.SystemProxy.Manager

-- A teardown succeeds only over a restoration that put the settings back.
abbrev pub Allows :
    {A : Type 0} → Result PublicError A → Result SystemProxyError SystemProxyRestoreOutcome → Type 0
Allows (ok t) r = r ≡ ok restored
Allows (err e) r = Unit {0}

allowed_restored : {A : Type 0} (x : Result PublicError A) → Allows x (ok restored)
allowed_restored (ok t) = refl
allowed_restored (err e) = tt

allowed_failure :
    {A : Type 0} (x : Result PublicError A) (r : Result SystemProxyError SystemProxyRestoreOutcome)
    → IsFailed x
    → Allows x r
allowed_failure (ok t) r h = absurd h
allowed_failure (err e) r h = tt

module _ (p : Platform) (l : PlatformLaws p) where
  open l use {file}

  pub Restores-Same :
      (u w : p.World) (r : Result SystemProxyError SystemProxyRestoreOutcome) (v x : p.World)
      → Same p l u v
      → Restores p l v r w
      → Same p l w x
      → Restores p l u r x
  Restores-Same u w (ok no_journal) v x a h b =
      (Same-trans p l a (Same-trans p l h.0 b), sym (a.files_same active_journal) ∙ h.1)
  Restores-Same u w (ok restored) v x a (j, stored, from, back, gone) b = (
    j,
    Stored-move p l active_journal active_journal v u j (sym (a.files_same active_journal)) stored,
    elim from [ inl e ↦ inl (sym a.settings_same ∙ e) | inr e ↦ inr (sym a.settings_same ∙ e) ],
    b.settings_same ∙ back,
    b.files_same active_journal ∙ gone,
  )
  Restores-Same u w (ok foreign_preserved) v x a (j, stored, n, m, kept, gone, evidence) b = (
    j,
    Stored-move p l active_journal active_journal v u j (sym (a.files_same active_journal)) stored,
    (λ e. n (a.settings_same ∙ e)),
    (λ e. m (a.settings_same ∙ e)),
    b.settings_same ∙ kept ∙ a.settings_same,
    b.files_same active_journal ∙ gone,
    Stored-move p l (conflict_evidence j.owner_id) (conflict_evidence j.owner_id) w x j
        (b.files_same _) evidence,
  )
  Restores-Same u w (err e) v x a (h, files, either) b = (
    h,
    b.files_same active_journal ∙ files ∙ a.files_same active_journal,
    elim either [
      | inl k ↦ inl (b.settings_same ∙ k ∙ a.settings_same)
      | inr (j, stored, ours, back) ↦ inr (
        j,
        Stored-move p l active_journal active_journal v u j (sym (a.files_same active_journal))
            stored,
        sym a.settings_same ∙ ours,
        b.settings_same ∙ back,
      )
    ],
  )

module _ (p : Platform) (l : PlatformLaws p) (services : Services)
    (wiring : Wiring p l services) where
  open wiring use {view}

  conflict_fails :
      (node_id : Option Text) (terminal : Option PublicError) (a : ActiveSession services)
      (s : State services)
      → IsFailed (stop_child services node_id true terminal a s).0
  unfolding stop_child reconciled conclude needs_recovery stopped
  conflict_fails node_id terminal a s = stopped_fails _ _
    where
      reconciled_fails :
          (r : Result RuntimeError (Unit {0})) (s : State services)
          → IsFailed (reconciled services node_id true terminal r s).0
      reconciled_fails (ok u) s = tt
      reconciled_fails (err e) s = tt

      stopped_fails :
          (r : Result RuntimeError (Unit {0})) (s : State services)
          → IsFailed (stopped services node_id true terminal a r s).0
      stopped_fails (ok u) s = reconciled_fails _ _
      stopped_fails (err e) s = tt

  proxy_restored-Allows :
      (node_id : Option Text) (terminal : Option PublicError) (a : ActiveSession services)
      (r : Result SystemProxyError SystemProxyRestoreOutcome) (s : State services)
      → Allows (proxy_restored services node_id terminal a r s).0 r
  unfolding proxy_restored needs_recovery
  proxy_restored-Allows node_id terminal a (ok restored) s = allowed_restored _
  proxy_restored-Allows node_id terminal a (ok foreign_preserved) s =
      allowed_failure _ _ (conflict_fails node_id terminal _ _)
  proxy_restored-Allows node_id terminal a (ok no_journal) s = tt
  proxy_restored-Allows node_id terminal a (err e) s = tt

  -- What the manager's restoration makes of a world, as the service's call of it.
  pub restore-Restores :
      (w : services.World)
      → Restores p l (view w) (services.restore_if_owned w).0 (view (services.restore_if_owned w).1)
  restore-Restores w =
      subst (λ r. Restores p l (view w) r (view (services.restore_if_owned w).1))
        (sym (wiring.restore_lem.answers w))
        (subst (λ v. Restores p l (view w) (Manager.restore_if_owned p (view w)).0 v)
          (sym (wiring.restore_lem.moves w)) (restore_if_owned-Restores p l (view w)))

  -- A teardown of a session that has to restore the System Proxy is, to the settings and the files,
  -- one restoration by the manager, in each of its outcomes and whatever else fails; and it succeeds
  -- only if that restoration put the settings back.
  pub stop_active_locked-Restores :
      (terminal : Option PublicError) (a : ActiveSession services) (s : State services)
      → s.active ≡ some a
      → a.system_proxy_requires_restore ≡ true
      → SparesSink p l services view s.event_sink
      → let x = stop_active_locked services terminal s in
        (r : Result SystemProxyError SystemProxyRestoreOutcome) × Restores p l
          (view s.world)
          r
          (view x.1.world)
        × Allows x.0 r
  unfolding stop_active_locked teardown restore_proxy
  stop_active_locked-Restores terminal a s h b k =
      subst (λ o. Refines (teardown services o terminal s)) (sym h)
        (if_elim Refines a.system_proxy_requires_restore _ _ (λ t. restored_first)
          (λ t. absurd (ground arith)))
    where
      Refines : Answer services → Type 0
      Refines x =
          (r : Result SystemProxyError SystemProxyRestoreOutcome) × Restores p l (view s.world) r
            (view x.1.world)
          × Allows x.0 r

      restored_first : Refines (restore_proxy services s.status.node_id terminal a s)
      restored_first =
          let s' =
            update_status services RuntimePhase.restoring_system_proxy s.status.node_id none s in
          let before =
            Calm-update_status p l services wiring (view s.world)
              RuntimePhase.restoring_system_proxy s.status.node_id none s
              (record { same = Same-refl p l _; sink = k }) in
          let w = (services.restore_if_owned s'.world).1 in
          let after =
            Calm-proxy_restored p l services wiring (view w) s.status.node_id terminal a
              (services.restore_if_owned s'.world).0 (with_world services w s')
              (record { same = Same-refl p l _; sink = before.sink }) in
          (
            (services.restore_if_owned s'.world).0,
            Restores-Same p l _ _ (services.restore_if_owned s'.world).0 _ _ before.same
                (restore-Restores s'.world) after.same,
            proxy_restored-Allows s.status.node_id terminal a _ _,
          )
