-- ===== src/Prelude/Options.antt =====
-- `?` on options.
use mathlib.Core.Option.{Option, none, some}

infixl 10 ◌>>=◌
abbrev pub ◌>>=◌ {ℓ ℓ'} : {A : Type ℓ} {B : Type ℓ'} → Option A → (A → Option B) → Option B
none >>= f = none
some a >>= f = f a
