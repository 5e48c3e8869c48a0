-- ===== src/Controller/Resuming.antt =====
-- The automatic reconnection does happen: an attempt that failed is followed by another one.
use route_deck.Prelude.{
  ℕ, ◌+◌, ◌*◌, ◌^◌, ◌≤◌, ◌≡◌, refl, sym, subst, ◌∙◌, Bool, false, not, ◌||◌, Option, none, some,
  if◌then◌else◌, arith, ltb,
}
use route_deck.Text.{Text}
use route_deck.Domain.Tls.{is_some}
use route_deck.Controller.Services.{Services}
use route_deck.Controller.Session.{
  State, ReconnectIntent, ConnectionRequest, SystemProxyRouting, reconnect_delay, min, second,
  saturating_suc, u32_max, is_tun, is_blocked, after_attempt, pausing_error, schedule,
  sync_reconnect_status, republish, emit_status, finish_connection_attempt,
}
use route_deck.Controller.Teardown.{with_world}
use route_deck.Controller.Coherence.{if_elim}
use route_deck.Controller.Reconnect.{reconnect_tick, when_due, reconnect, connect_again}

min_le : (a b : ℕ) → min a b ≤ b
min_le a b = ground arith

reconnect_delay-le : (n : ℕ) → reconnect_delay n ≤ 60
unfolding reconnect_delay
reconnect_delay-le n = min_le (2 * 2 ^ min n 5) 60

module _ (services : Services) where
  -- The world after the time was asked for.
  abbrev pub later : services.World → services.World
  later w = (services.now w).1

  abbrev pub time : services.World → ℕ
  time w = (services.now w).0

  -- No exit, no recovery and no conflict.
  abbrev pub IsOpen : State services → Type 0
  IsOpen s = (s.shutting_down || (s.recovery_required || is_blocked s.status.phase)) ≡ false

  -- The intent after an attempt: due within a minute.
  pub after_attempt-due :
      (succeeded pausing no_active : Bool) (t : ℕ) (i : ReconnectIntent)
      → (after_attempt services succeeded pausing no_active t i).next_attempt ≤ t + 60 * second
  unfolding after_attempt
  after_attempt-due succeeded pausing no_active t i =
      let failures = if succeeded then 0 else saturating_suc u32_max i.failures in
      bounded (reconnect_delay failures) (reconnect_delay-le failures)
    where
      bounded : (d : ℕ) → d ≤ 60 → t + d * second ≤ t + 60 * second
      bounded d h = omega arith

  pub after_attempt-paused :
      (succeeded pausing no_active : Bool) (t : ℕ) (i : ReconnectIntent)
      → i.paused ≡ false
      → pausing ≡ false
      → is_tun i.request ≡ false
      → (after_attempt services succeeded pausing no_active t i).paused ≡ false
  unfolding after_attempt
  after_attempt-paused succeeded pausing no_active t i p q r = ground arith

  when_due-connects :
      (i : ReconnectIntent) (q : ConnectionRequest) (s : State services)
      → i.request ≡ q
      → i.paused ≡ false
      → s.active ≡ none
      → i.next_attempt ≤ time s.world
      → when_due services (some i) s
        ≡ connect_again services q (with_world services (later s.world) s)
  unfolding when_due reconnect
  when_due-connects i q s e p a t =
      if_elim (λ x. x ≡ connect_again services q (with_world services (later s.world) s)) i.paused _
        _ (λ b. absurd (ground arith))
        (λ b.
          if_elim (λ x. x ≡ connect_again services q (with_world services (later s.world) s))
            (ltb (time s.world) i.next_attempt) _ _ (λ u. absurd (ground arith))
            (λ u. resumed s.active a i.request e))
    where
      resumed :
          (o : Option _)
          → o ≡ none
          → (r : ConnectionRequest) → r ≡ q
          → reconnect services r o (with_world services (later s.world) s)
            ≡ connect_again services q (with_world services (later s.world) s)
      resumed none h r k =
          subst
            (λ r.
              connect_again services r (with_world services (later s.world) s)
              ≡ connect_again services q (with_world services (later s.world) s))
            (sym k) refl
      resumed (some x) h r k = cc

  reconnect_tick-connects :
      (i : ReconnectIntent) (q : ConnectionRequest) (s : State services)
      → IsOpen s
      → s.reconnect ≡ some i
      → i.request ≡ q
      → i.paused ≡ false
      → s.active ≡ none
      → i.next_attempt ≤ time s.world
      → reconnect_tick services s ≡ connect_again services q (with_world services (later s.world) s)
  unfolding reconnect_tick
  reconnect_tick-connects i q s o h e p a t =
      if_elim (λ x. x ≡ connect_again services q (with_world services (later s.world) s))
        (s.shutting_down || s.recovery_required || is_blocked s.status.phase) _ _
        (λ b. absurd (ground arith))
        (λ b.
          subst
            (λ x.
              when_due services x s
              ≡ connect_again services q (with_world services (later s.world) s))
            (sym h) (when_due-connects i q s e p a t))

  pub finish_connection_attempt-reconnect :
      (succeeded : Bool) (i : ReconnectIntent) (s : State services)
      → s.reconnect ≡ some i
      → (finish_connection_attempt services succeeded s).reconnect
        ≡ some (
            after_attempt services succeeded
              (pausing_error services s.status.error)
              (not (is_some s.active))
              (time s.world)
              i)
  unfolding finish_connection_attempt schedule sync_reconnect_status republish emit_status
  finish_connection_attempt-reconnect succeeded i s h =
      subst
        (λ o.
          (schedule services succeeded o s).reconnect
          ≡ some (
              after_attempt services succeeded (pausing_error services s.status.error)
                (not (is_some s.active)) (time s.world) i))
        (sym h) refl

  pub schedule-IsOpen :
      (succeeded : Bool) (o : Option ReconnectIntent) (s : State services)
      → IsOpen s
      → IsOpen (schedule services succeeded o s)
  unfolding schedule
  schedule-IsOpen succeeded none s h = h
  schedule-IsOpen succeeded (some i) s h = h

  pub schedule-active :
      (succeeded : Bool) (o : Option ReconnectIntent) (s : State services)
      → (schedule services succeeded o s).active ≡ s.active
  unfolding schedule
  schedule-active succeeded none s = refl
  schedule-active succeeded (some i) s = refl

  -- Whatever an attempt answered: if its intent is for the System Proxy and was not paused, nothing
  -- asks to pause it, no session is active and nothing forbids to connect, then the first tick that
  -- comes a minute later, or after that, connects again, whatever the world is then.
  pub reconnect_tick-finish_connection_attempt :
      (succeeded : Bool) (node_id : Text) (routing : SystemProxyRouting) (i : ReconnectIntent)
      (s : State services) (w : services.World)
      → s.reconnect ≡ some i
      → i.request ≡ ConnectionRequest.proxy node_id routing
      → i.paused ≡ false
      → pausing_error services s.status.error ≡ false
      → s.active ≡ none
      → IsOpen s
      → time s.world + 60 * second ≤ time w
      → reconnect_tick services
          (with_world services w (finish_connection_attempt services succeeded s))
        ≡ connect_again services
            (ConnectionRequest.proxy node_id routing)
            (with_world services (later w) (finish_connection_attempt services succeeded s))
  unfolding finish_connection_attempt schedule sync_reconnect_status republish emit_status is_tun
      with_world
  reconnect_tick-finish_connection_attempt succeeded node_id routing i s w h e p q a o t =
      reconnect_tick-connects _ (ConnectionRequest.proxy node_id routing)
        (with_world services w (finish_connection_attempt services succeeded s))
        (schedule-IsOpen succeeded s.reconnect s o)
        (finish_connection_attempt-reconnect succeeded i s h) e
        (after_attempt-paused succeeded (pausing_error services s.status.error)
          (not (is_some s.active)) (time s.world) i p q (not_tun i.request e))
        (schedule-active succeeded s.reconnect s ∙ a)
        (within (
          after_attempt-due succeeded (pausing_error services s.status.error)
            (not (is_some s.active)) (time s.world) i))
    where
      not_tun :
          (r : ConnectionRequest) → r ≡ ConnectionRequest.proxy node_id routing → is_tun r ≡ false
      not_tun r h = subst (λ x. is_tun x ≡ false) (sym h) refl

      within : {n : ℕ} → n ≤ time s.world + 60 * second → n ≤ time w
      within h = omega arith
