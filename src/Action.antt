-- ===== src/Action.antt =====
-- Fallible code over a state that is not rolled back: what was done before an error stays done.
-- A Rust `Result<A, E>` returned by code with effects on `S` is an `Action S E A`.
pub mod Triple
use route_deck.Prelude.{Bool, true, false, Option, none, some, ◌≡◌}

pub data Result (E A : Type 0) : Type 0 where
  ok : A → Result E A
  err : E → Result E A

pub ok-injective : {E A : Type 0} (a b : A) → ◌≡◌ {A = Result E A} (ok a) (ok b) → a ≡ b
ok-injective a b h = cc

abbrev pub Action : Type 0 → Type 0 → Type 0 → Type 0
Action S E A = S → Result E A × S

module _ {S E A : Type 0} where
  unfoldable pub pure : A → Action S E A
  pure a s = (ok a, s)

  unfoldable pub raise : E → Action S E A
  raise e s = (err e, s)

  unfoldable pub lift : Result E A → Action S E A
  lift r s = (r, s)

module _ {S E F A : Type 0} where
  abbrev pub with_err : (E → F) → Result E A × S → Result F A × S
  with_err f (ok a, s) = (ok a, s)
  with_err f (err e, s) = (err (f e), s)

  -- Result::map_err
  unfoldable pub map_err : (E → F) → Action S E A → Action S F A
  map_err f m s = with_err f (m s)

module _ {S E : Type 0} where
  -- `if !b { return Err(e) }`
  unfoldable pub require : Bool → E → Action S E (Unit {0})
  require true e s = (ok tt, s)
  require false e s = (err e, s)

module _ {S E A B : Type 0} where
  abbrev pub continue : Result E A × S → (A → Action S E B) → Result E B × S
  continue (ok a, s) f = f a s
  continue (err e, s) f = (err e, s)

  infixl 10 ◌>>=◌ ◌>>◌
  unfoldable pub ◌>>=◌ : Action S E A → (A → Action S E B) → Action S E B
  unfolding pure raise lift require map_err
  ◌>>=◌ m f s = continue (m s) f

  abbrev pub ◌>>◌ : Action S E A → Action S E B → Action S E B
  m >> n = m >>= λ _. n
