-- ===== src/AppUpdates/Order.antt =====
-- app_updates.rs `impl Ord for Version`: the comparison is a total order.
use route_deck.Prelude.{
  ℕ, suc, ◌≡◌, refl, ap, ◌∙◌, Option, none, some, List, [], ◌∷◌, length, compare, Ordering, arith,
}
use route_deck.Prelude.Orders.{
  then_with, reverse_order, Triangle, IsTotalOrder, then_with-Triangle, then_with-reverse,
  then_with_assoc, then_with-eq, compare-IsTotalOrder,
}
use route_deck.Prelude.Lexicographic.{
  lexicographic, lexicographic-IsTotalOrder, IsTotalOrder-agrees,
}
use route_deck.Text.{Text}
use route_deck.AppUpdates.{
  PrePart, numeric, text, Version, cmp_text, cmp_part, first_difference, cmp_parts, cmp_pre, cmp,
}

cmp_text-lexicographic : (s t : Text) → cmp_text s t ≡ lexicographic compare s t
unfolding cmp_text
cmp_text-lexicographic [] [] = refl
cmp_text-lexicographic [] (d ∷ t) = refl
cmp_text-lexicographic (c ∷ s) [] = refl
cmp_text-lexicographic (c ∷ s) (d ∷ t) = rw (cmp_text-lexicographic s t) refl

cmp_text-IsTotalOrder : IsTotalOrder cmp_text
cmp_text-IsTotalOrder =
    IsTotalOrder-agrees cmp_text-lexicographic (lexicographic-IsTotalOrder compare-IsTotalOrder)

cmp_part-IsTotalOrder : IsTotalOrder cmp_part
unfolding cmp_part
cmp_part-IsTotalOrder = record {
  reflexive = reflexive;
  separates = separates;
  reverses = reverses;
  transitive = triangle;
}
  where
    reflexive : (p : PrePart) → cmp_part p p ≡ Ordering.eq
    reflexive (numeric n) = compare-IsTotalOrder.reflexive n
    reflexive (text s) = cmp_text-IsTotalOrder.reflexive s

    separates : (p q : PrePart) → cmp_part p q ≡ Ordering.eq → p ≡ q
    separates (numeric n) (numeric m) h = ap numeric (compare-IsTotalOrder.separates n m h)
    separates (numeric n) (text t) h = cc
    separates (text s) (numeric m) h = cc
    separates (text s) (text t) h = ap text (cmp_text-IsTotalOrder.separates s t h)

    reverses : (p q : PrePart) → cmp_part q p ≡ reverse_order (cmp_part p q)
    reverses (numeric n) (numeric m) = compare-IsTotalOrder.reverses n m
    reverses (numeric n) (text t) = refl
    reverses (text s) (numeric m) = refl
    reverses (text s) (text t) = cmp_text-IsTotalOrder.reverses s t

    triangle : (p q r : PrePart) → Triangle (cmp_part p q) (cmp_part q r) (cmp_part p r)
    triangle (numeric n) (numeric m) (numeric k) = compare-IsTotalOrder.transitive n m k
    triangle (numeric n) (numeric m) (text u) = record {
      less = λ h k. refl;
      same_left = λ h. refl;
      same_right = λ h. cc;
    }
    triangle (numeric n) (text t) (numeric k) = record {
      less = λ h k. cc;
      same_left = λ h. cc;
      same_right = λ h. cc;
    }
    triangle (numeric n) (text t) (text u) = record {
      less = λ h k. refl;
      same_left = λ h. cc;
      same_right = λ h. refl;
    }
    triangle (text s) (numeric m) (numeric k) = record {
      less = λ h k. cc;
      same_left = λ h. cc;
      same_right = λ h. refl;
    }
    triangle (text s) (numeric m) (text u) = record {
      less = λ h k. cc;
      same_left = λ h. cc;
      same_right = λ h. cc;
    }
    triangle (text s) (text t) (numeric k) = record {
      less = λ h k. cc;
      same_left = λ h. refl;
      same_right = λ h. cc;
    }
    triangle (text s) (text t) (text u) = cmp_text-IsTotalOrder.transitive s t u

compare-suc : (a b : ℕ) → compare (suc a) (suc b) ≡ compare a b
compare-suc a b = ground arith

-- The first difference and then the lengths are the lexicographic order.
cmp_parts-lexicographic : (xs ys : List PrePart) → cmp_parts xs ys ≡ lexicographic cmp_part xs ys
unfolding cmp_parts first_difference
cmp_parts-lexicographic [] [] = refl
cmp_parts-lexicographic [] (y ∷ ys) = ground arith
cmp_parts-lexicographic (x ∷ xs) [] = ground arith
cmp_parts-lexicographic (x ∷ xs) (y ∷ ys) =
    then_with_assoc (cmp_part x y) (first_difference xs ys)
      (compare (suc (length xs)) (suc (length ys)))
    ∙ ap (then_with (cmp_part x y)) (
        ap (then_with (first_difference xs ys)) (compare-suc (length xs) (length ys))
        ∙ cmp_parts-lexicographic xs ys)

cmp_parts-IsTotalOrder : IsTotalOrder cmp_parts
cmp_parts-IsTotalOrder =
    IsTotalOrder-agrees cmp_parts-lexicographic (lexicographic-IsTotalOrder cmp_part-IsTotalOrder)

cmp_pre-IsTotalOrder : IsTotalOrder cmp_pre
unfolding cmp_pre
cmp_pre-IsTotalOrder = record {
  reflexive = reflexive;
  separates = separates;
  reverses = reverses;
  transitive = triangle;
}
  where
    reflexive : (p : Option (List PrePart)) → cmp_pre p p ≡ Ordering.eq
    reflexive none = refl
    reflexive (some xs) = cmp_parts-IsTotalOrder.reflexive xs

    separates : (p q : Option (List PrePart)) → cmp_pre p q ≡ Ordering.eq → p ≡ q
    separates none none h = refl
    separates none (some ys) h = cc
    separates (some xs) none h = cc
    separates (some xs) (some ys) h = ap some (cmp_parts-IsTotalOrder.separates xs ys h)

    reverses : (p q : Option (List PrePart)) → cmp_pre q p ≡ reverse_order (cmp_pre p q)
    reverses none none = refl
    reverses none (some ys) = refl
    reverses (some xs) none = refl
    reverses (some xs) (some ys) = cmp_parts-IsTotalOrder.reverses xs ys

    triangle : (p q r : Option (List PrePart)) → Triangle (cmp_pre p q) (cmp_pre q r) (cmp_pre p r)
    triangle none none r = record { less = λ h k. cc; same_left = λ h. refl; same_right = λ h. h }
    triangle none (some ys) none = record {
      less = λ h k. cc;
      same_left = λ h. cc;
      same_right = λ h. cc;
    }
    triangle none (some ys) (some zs) = record {
      less = λ h k. cc;
      same_left = λ h. cc;
      same_right = λ h. refl;
    }
    triangle (some xs) none none = record {
      less = λ h k. refl;
      same_left = λ h. cc;
      same_right = λ h. refl;
    }
    triangle (some xs) none (some zs) = record {
      less = λ h k. cc;
      same_left = λ h. cc;
      same_right = λ h. cc;
    }
    triangle (some xs) (some ys) none = record {
      less = λ h k. refl;
      same_left = λ h. refl;
      same_right = λ h. cc;
    }
    triangle (some xs) (some ys) (some zs) = cmp_parts-IsTotalOrder.transitive xs ys zs

module _ (v w : Version) where
  cmp-separates : cmp v w ≡ Ordering.eq → v ≡ w
  unfolding cmp
  cmp-separates h =
      let (e, k) = then_with-eq _ _ h in
      let (f, l) = then_with-eq _ _ k in
      let (g, m) = then_with-eq _ _ l in
      let same_major = compare-IsTotalOrder.separates v.major w.major e in
      let same_minor = compare-IsTotalOrder.separates v.minor w.minor f in
      let same_patch = compare-IsTotalOrder.separates v.patch w.patch g in
      let same_pre = cmp_pre-IsTotalOrder.separates v.pre w.pre m in
      λ i. record {
        major = same_major i;
        minor = same_minor i;
        patch = same_patch i;
        pre = same_pre i;
      }

  cmp-reverses : cmp w v ≡ reverse_order (cmp v w)
  unfolding cmp
  cmp-reverses = then_with-reverse _ _ (compare-IsTotalOrder.reverses v.major w.major) (
      then_with-reverse _ _ (compare-IsTotalOrder.reverses v.minor w.minor) (
        then_with-reverse _ _ (compare-IsTotalOrder.reverses v.patch w.patch)
          (cmp_pre-IsTotalOrder.reverses v.pre w.pre)))

-- The comparison of versions is a total order that agrees with equality: it is reflexive, tells
-- different versions apart, turns round with its arguments and is transitive.
pub cmp-IsTotalOrder : IsTotalOrder cmp
unfolding cmp
cmp-IsTotalOrder = record {
  reflexive = λ v.
      rw
        (
          compare-IsTotalOrder.reflexive v.major,
          compare-IsTotalOrder.reflexive v.minor,
          compare-IsTotalOrder.reflexive v.patch,
        )
        (cmp_pre-IsTotalOrder.reflexive v.pre);
  separates = cmp-separates;
  reverses = cmp-reverses;
  transitive = λ u v w.
      then_with-Triangle _ _ _ _ _ _ (compare-IsTotalOrder.transitive u.major v.major w.major) (
        then_with-Triangle _ _ _ _ _ _ (compare-IsTotalOrder.transitive u.minor v.minor w.minor) (
          then_with-Triangle _ _ _ _ _ _ (compare-IsTotalOrder.transitive u.patch v.patch w.patch)
            (cmp_pre-IsTotalOrder.transitive u.pre v.pre w.pre)));
}
