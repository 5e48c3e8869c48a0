-- ===== src/Prelude/Orders.antt =====
-- Comparisons as Rust's `Ord` has them, and what makes one a total order.
use Prim.Native.Nat.{compare, Ordering}
use mathlib.Core.Path.{◌≡◌, refl}
use native.Mathlib.Omega.{arith}

-- Ordering::then_with
abbrev pub then_with : Ordering → Ordering → Ordering
then_with Ordering.lt y = Ordering.lt
then_with Ordering.eq y = y
then_with Ordering.gt y = Ordering.gt

-- Ordering::reverse
abbrev pub reverse_order : Ordering → Ordering
reverse_order Ordering.lt = Ordering.gt
reverse_order Ordering.eq = Ordering.eq
reverse_order Ordering.gt = Ordering.lt

-- What the comparisons of `a` with `b`, of `b` with `c` and of `a` with `c` have to do with another.
pub record Triangle (ab bc ac : Ordering) : Type 0 where
  pub less : ab ≡ Ordering.lt → bc ≡ Ordering.lt → ac ≡ Ordering.lt
  pub same_left : ab ≡ Ordering.eq → ac ≡ bc
  pub same_right : bc ≡ Ordering.eq → ac ≡ ab

pub record IsTotalOrder {A : Type 0} (cmp : A → A → Ordering) : Type 0 where
  pub reflexive : (a : A) → cmp a a ≡ Ordering.eq
  pub separates : (a b : A) → cmp a b ≡ Ordering.eq → a ≡ b
  pub reverses : (a b : A) → cmp b a ≡ reverse_order (cmp a b)
  pub transitive : (a b c : A) → Triangle (cmp a b) (cmp b c) (cmp a c)

pub then_with-Triangle :
    (ab bc ac ab' bc' ac' : Ordering)
    → Triangle ab bc ac
    → Triangle ab' bc' ac'
    → Triangle (then_with ab ab') (then_with bc bc') (then_with ac ac')
then_with-Triangle ab bc ac ab' bc' ac' h k = record {
  less = ground (arith, h.less, h.same_left, h.same_right, k.less);
  same_left = ground (arith, h.less, h.same_left, h.same_right, k.same_left);
  same_right = ground (arith, h.less, h.same_left, h.same_right, k.same_right);
}

pub then_with-reverse :
    (x y : Ordering) {x' y' : Ordering}
    → x' ≡ reverse_order x
    → y' ≡ reverse_order y
    → then_with x' y' ≡ reverse_order (then_with x y)
then_with-reverse x y h k = ground (arith, h, k)

pub then_with_assoc : (x y z : Ordering) → then_with (then_with x y) z ≡ then_with x (then_with y z)
then_with_assoc Ordering.lt y z = refl
then_with_assoc Ordering.eq y z = refl
then_with_assoc Ordering.gt y z = refl

pub then_with-eq :
    (x y : Ordering) → then_with x y ≡ Ordering.eq → (x ≡ Ordering.eq) × (y ≡ Ordering.eq)
then_with-eq x y h = ground arith

pub compare-IsTotalOrder : IsTotalOrder compare
compare-IsTotalOrder = record {
  reflexive = λ a. ground arith;
  separates = λ a b h. ground arith;
  reverses = λ a b. ground arith;
  transitive = λ a b c. record {
    less = λ h k. ground arith;
    same_left = λ h. ground arith;
    same_right = λ h. ground arith;
  };
}
