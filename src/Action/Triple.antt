-- ===== src/Action/Triple.antt =====
-- What an action guarantees: from a state with `P` it ends with `Q`, of its result and its state.
use route_deck.Prelude.{Bool, true, false, ◌≡◌, refl}
use route_deck.Action.{
  Result, ok, err, Action, pure, raise, lift, map_err, require, ◌>>=◌, continue, with_err,
}

pub record Triple {S E A : Type 0} (P : S → Type 0) (m : Action S E A) (Q : Result E A → S → Type 0)
    : Type 0 where
  pub at : (s : S) → P s → Q (m s).0 (m s).1

module _ {S E A : Type 0} {P : S → Type 0} {Q : Result E A → S → Type 0} where
  pub Triple-pure : (a : A) → ((s : S) → P s → Q (ok a) s) → Triple P (pure a) Q
  unfolding pure
  Triple-pure a h = record { at = h }

  pub Triple-raise : (e : E) → ((s : S) → P s → Q (err e) s) → Triple P (raise e) Q
  unfolding raise
  Triple-raise e h = record { at = h }

  pub Triple-lift : (r : Result E A) → ((s : S) → P s → Q r s) → Triple P (lift r) Q
  unfolding lift
  Triple-lift r h = record { at = h }

module _ {S E A : Type 0} {P : S → Type 0} where
  pub Triple-weaken :
      {Q R : Result E A → S → Type 0} {m : Action S E A}
      → Triple P m R
      → ((r : Result E A) (s : S) → R r s → Q r s)
      → Triple P m Q
  Triple-weaken {m} t h = record { at = λ s p. h (m s).0 (m s).1 (t.at s p) }

module _ {S E F A : Type 0} {P : S → Type 0} {Q : Result F A → S → Type 0} where
  pub Triple-map_err :
      (f : E → F) (m : Action S E A) (R : Result E A → S → Type 0)
      → Triple P m R
      → ((a : A) (s : S) → R (ok a) s → Q (ok a) s)
      → ((e : E) (s : S) → R (err e) s → Q (err (f e)) s)
      → Triple P (map_err f m) Q
  unfolding map_err
  Triple-map_err f m R t h k = record { at = λ s p. go (m s) (t.at s p) }
    where
      go : (rs : Result E A × S) → R rs.0 rs.1 → Q (with_err f rs).0 (with_err f rs).1
      go (ok a, s) r = h a s r
      go (err e, s) r = k e s r

module _ {S E A : Type 0} {P P' : S → Type 0} {Q : Result E A → S → Type 0} {m : Action S E A} where
  -- A fact of every state that the action starts from is assumed, and the rest of `P` kept.
  pub Triple-given : {F : Type 0} → ((s : S) → P s → P' s × F) → (F → Triple P' m Q) → Triple P m Q
  Triple-given f k = record { at = λ s p. (k (f s p).1).at s (f s p).0 }

module _ {S E A B : Type 0} {P : S → Type 0} {Q : Result E B → S → Type 0} where
  -- The rule of a sequence, with `R` in the middle.
  pub Triple-bind :
      (m : Action S E A) (f : A → Action S E B) (R : Result E A → S → Type 0)
      → Triple P m R
      → ((a : A) → Triple (R (ok a)) (f a) Q)
      → ((e : E) (s : S) → R (err e) s → Q (err e) s)
      → Triple P (m >>= f) Q
  unfolding ◌>>=◌
  Triple-bind m f R t k h = record { at = λ s p. go (m s) (t.at s p) }
    where
      go : (rs : Result E A × S) → R rs.0 rs.1 → Q (continue rs f).0 (continue rs f).1
      go (ok a, s) r = (k a).at s r
      go (err e, s) r = h e s r

module _ {S E B : Type 0} {P : S → Type 0} {Q : Result E B → S → Type 0} where
  -- A guard: what follows it may use the test.
  pub Triple-require :
      (b : Bool) (e : E) (m : Action S E B)
      → (b ≡ true → Triple P m Q)
      → ((s : S) → P s → b ≡ false → Q (err e) s)
      → Triple P (require b e >>= λ _. m) Q
  unfolding ◌>>=◌
  Triple-require true e m t h = t refl
  Triple-require false e m t h = record { at = λ s p. h s p refl }

module _ {S E : Type 0} {P : S → Type 0} {Q : Result E (Unit {0}) → S → Type 0} where
  -- A test that ends the block.
  pub Triple-test :
      (b : Bool) (e : E)
      → ((s : S) → P s → b ≡ true → Q (ok tt) s)
      → ((s : S) → P s → b ≡ false → Q (err e) s)
      → Triple P (require b e) Q
  unfolding require
  Triple-test true e h k = record { at = λ s p. h s p refl }
  Triple-test false e h k = record { at = λ s p. k s p refl }
