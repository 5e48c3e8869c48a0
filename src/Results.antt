-- ===== src/Results.antt =====
-- Fallible code without effects: `?` on a Rust `Result`.
use route_deck.Prelude.{◌≡◌, refl, Bool, true, false, Option, none, some}
use route_deck.Action.{Result, ok, err}

infixl 10 ◌>>=◌ ◌>>◌
abbrev pub ◌>>=◌ : {E A B : Type 0} → Result E A → (A → Result E B) → Result E B
ok a >>= f = f a
err e >>= f = err e

abbrev pub ◌>>◌ : {E A B : Type 0} → Result E A → Result E B → Result E B
m >> n = m >>= λ _. n

-- `if !b { return Err(e) }`
abbrev pub ensure : {E : Type 0} → Bool → E → Result E (Unit {0})
ensure true e = ok tt
ensure false e = err e

-- Option::ok_or
abbrev pub ok_or : {E A : Type 0} → Option A → E → Result E A
ok_or none e = err e
ok_or (some a) e = ok a

pub bind-ok :
    {E A B : Type 0} (m : Result E A) (f : A → Result E B) (b : B)
    → (m >>= f) ≡ ok b
    → (a : A) × (m ≡ ok a) × (f a ≡ ok b)
bind-ok (ok a) f b h = (a, refl, h)
bind-ok (err e) f b h = cc

pub ensure-ok : {E : Type 0} (b : Bool) (e : E) (u : Unit {0}) → ensure b e ≡ ok u → b ≡ true
ensure-ok true e u h = refl
ensure-ok false e u h = cc

pub ok_or-ok : {E A : Type 0} (o : Option A) (e : E) (a : A) → ok_or o e ≡ ok a → o ≡ some a
ok_or-ok none e a h = cc
ok_or-ok (some x) e a h = cc
