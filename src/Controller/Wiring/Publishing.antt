-- ===== src/Controller/Wiring/Publishing.antt =====
-- The second half of a start: the session is proved, and its System Proxy is published.
use route_deck.SystemProxy.Manager.Ownership.{Answers, is_owned-Answers}
use route_deck.Controller.Wiring.Leasing.{
  Takes, Leased, Reaches, holds_proxy, free, doubtful, leased,
}
use route_deck.SystemProxy.Snapshot.{
  SystemProxySnapshot, SystemProxyError, may_have_changed, unchanged, recovery_required,
}
use route_deck.Controller.Starting.{Running, proxy_failure}
use route_deck.Controller.Wiring.Launching.{Apart}
use route_deck.SystemProxy.Manager.Publish.{Journaled, Publishes, publish_loopback-Publishes}
use route_deck.Controller.Teardown.{with_world, set_restore, with_active}
use route_deck.Controller.Proving.{publish, published}
use route_deck.Controller.Wiring.Ending.{Calm}
use route_deck.SystemProxy.Journal.{SystemProxyJournal}
use route_deck.Prelude.{ℕ, ◌≡◌, ◌<◌, refl, sym, ◌∙◌, Bool, true, some, ap, subst, inl, inr}
use route_deck.Action.{Result, ok, err, map_err, with_err}
use route_deck.SystemProxy.Manager
use route_deck.SystemProxy.Platform.{Platform, PlatformLaws, active_journal}
use route_deck.Controller.Services.{Services}
use route_deck.Controller.Session.{State, ActiveSession}
use route_deck.Controller.Wiring.{Wiring, SparesSink}
use route_deck.SystemProxy.Manager.Steps.{Same, Same-refl, Same-trans}

module _ (p : Platform) (l : PlatformLaws p) (services : Services)
    (wiring : Wiring p l services) where
  open wiring use {view}
  open l use {settings, file}

  Journaled-from :
      (v w u : p.World) (j : SystemProxyJournal)
      → Same p l v w
      → Journaled p l w u j
      → Journaled p l v u j
  Journaled-from v w u j e h = record {
    bytes = h.bytes;
    encoded = h.encoded;
    at_path = h.at_path;
    previous_kept = h.previous_kept ∙ e.settings_same;
    is_valid = h.is_valid;
    was_direct = ap (λ (x : SystemProxySnapshot). x.flags) (sym e.settings_same) ∙ h.was_direct;
    was_absent = sym (e.files_same active_journal) ∙ h.was_absent;
  }

  pub owned-Apart :
      Apart p l services wiring (map_err (proxy_failure "system_proxy_ownership") services.is_owned)
  unfolding map_err
  owned-Apart = record {
    leaves = λ w.
        subst (λ x. Same p l (view w) (view x)) (sym (errs (services.is_owned w)))
          (subst (Same p l (view w)) (sym (wiring.owned_lem.moves w))
            (asked _ _ (is_owned-Answers p l (view w))));
  }
    where
      errs :
          (x : Result SystemProxyError Bool × services.World)
          → (with_err (proxy_failure "system_proxy_ownership") x).1 ≡ x.1
      errs (ok b, w) = refl
      errs (err e, w) = refl

      asked :
          {w : p.World} (r : Result SystemProxyError Bool) (x : p.World)
          → Answers p l w r x
          → Same p l w x
      asked (ok b) x h = h.0
      asked (err e) x h = h

  module _ (v : p.World) where
    -- The session is about to publish.
    pub record Claimed (a : ActiveSession services) (s : State services) : Type 0 where
      pub calm : Calm p l services wiring v s
      pub claimed : s.active ≡ some (set_restore services true a)

    published-Reaches :
        (a : ActiveSession services) (port : ℕ) (w : p.World)
        (r : Result SystemProxyError (Unit {0})) (s : State services)
        → Same p l v w
        → SparesSink p l services view s.event_sink
        → s.active ≡ some (set_restore services true a)
        → Publishes p l w port r (view s.world)
        → let x = published services a r s in
          Reaches p l services wiring v (λ u. Leased p l services wiring v) x.0 x.1
    unfolding published with_active set_restore may_have_changed
    published-Reaches a port w (ok u) s e k c (j, on_disk, owner, ours) = record {
      world = view s.world;
      calm = record { same = Same-refl p l _; sink = k };
      journal = j;
      on_disk = Journaled-from v w (view s.world) j e on_disk;
      in_force = ours;
      held = ap (holds_proxy services) c;
    }
    published-Reaches a port w (err (unchanged m)) s e k c h =
        free (record { calm = record { same = Same-trans p l e h; sink = k }; unheld = refl })
    published-Reaches a port w (err (recovery_required m)) s e k c (inl h) = doubtful (record {
      world = view s.world;
      calm = record { same = Same-refl p l _; sink = k };
      same_settings = h ∙ e.settings_same;
      held = refl;
    })
    published-Reaches a port w (err (recovery_required m)) s e k c (inr (j, on_disk, ours)) =
        leased (record {
          world = view s.world;
          calm = record { same = Same-refl p l _; sink = k };
          journal = j;
          on_disk = Journaled-from v w (view s.world) j e on_disk;
          in_force = ours;
          held = refl;
        })

    pub publish-Takes :
        (a : ActiveSession services) (n : Running services)
        → n.ports.http < 65536
        → Takes p l services wiring v
            (Claimed a)
            (publish services a n)
            (λ u. Leased p l services wiring v)
    unfolding publish with_world
    publish-Takes a n fits = record {
      triple = record {
        at = λ s h.
            published-Reaches a n.ports.http (view s.world) _ _ h.calm.same h.calm.sink h.claimed (
              subst
                (λ r.
                  Publishes p l (view s.world) n.ports.http r
                    (view (services.publish_loopback n.ports.http s.world).1))
                (sym ((wiring.publish_lem n.ports.http).answers s.world))
                (subst
                  (Publishes p l (view s.world) n.ports.http
                    (Manager.publish_loopback p n.ports.http (view s.world)).0)
                  (sym ((wiring.publish_lem n.ports.http).moves s.world))
                  (publish_loopback-Publishes p l n.ports.http fits (view s.world))));
      };
    }
