-- ===== src/Controller/Retrying.antt =====
-- When the controller connects again by itself, and when it leaves that to the user.
use route_deck.Prelude.{ℕ, zero, suc, ◌*◌, ◌^◌, ◌≡◌, refl, ap, ◌⊎◌, true, none, arith}
use route_deck.Text.{Text}
use route_deck.Controller.Services.{Services}
use route_deck.Controller.Session.{State, reconnect_delay, min, is_paused}

-- The waits, in seconds.
unfoldable pub delay_table : ℕ → ℕ
delay_table zero = 2
delay_table (suc zero) = 4
delay_table (suc (suc zero)) = 8
delay_table (suc (suc (suc zero))) = 16
delay_table (suc (suc (suc (suc zero)))) = 32
delay_table (suc (suc (suc (suc (suc n))))) = 60

-- The delay before an automatic attempt is two seconds, doubled by each failure, until the sixth
-- failure and all later ones wait a minute.
pub reconnect_delay-table : (n : ℕ) → reconnect_delay n ≡ delay_table n
unfolding reconnect_delay delay_table
reconnect_delay-table zero = refl
reconnect_delay-table (suc zero) = refl
reconnect_delay-table (suc (suc zero)) = refl
reconnect_delay-table (suc (suc (suc zero))) = refl
reconnect_delay-table (suc (suc (suc (suc zero)))) = refl
reconnect_delay-table (suc (suc (suc (suc (suc n))))) =
    ap (λ k. min (2 * 2 ^ k) 60) (at_most_five n)
  where
    at_most_five : (n : ℕ) → min (suc (suc (suc (suc (suc n))))) 5 ≡ 5
    at_most_five n = ground arith

module _ (services : Services) where
  -- The state in which no attempt is made: a recovery is due, or the intent is paused or gone.
  abbrev Quiet : State services → Type 0
  Quiet s = (s.recovery_required ≡ true) ⊎ ((s.reconnect ≡ none) ⊎ (is_paused s.reconnect ≡ true))
