-- ===== src/Prelude/Lexicographic.antt =====
-- The lexicographic order of lists.
use route_deck.Prelude.{◌≡◌, refl, sym, ◌∙◌, List, [], ◌∷◌, Ordering}
use route_deck.Prelude.Orders.{
  then_with, reverse_order, Triangle, IsTotalOrder, then_with-Triangle, then_with-reverse,
  then_with-eq,
}

-- The order of lists in which a prefix is the smaller.
module _ {A : Type 0} (cmp_item : A → A → Ordering) where
  abbrev pub lexicographic : List A → List A → Ordering
  lexicographic [] [] = Ordering.eq
  lexicographic [] (y ∷ ys) = Ordering.lt
  lexicographic (x ∷ xs) [] = Ordering.gt
  lexicographic (x ∷ xs) (y ∷ ys) = then_with (cmp_item x y) (lexicographic xs ys)

module _ {A : Type 0} {cmp_item : A → A → Ordering} (o : IsTotalOrder cmp_item) where
  lexicographic-reflexive : (xs : List A) → lexicographic cmp_item xs xs ≡ Ordering.eq
  lexicographic-reflexive [] = refl
  lexicographic-reflexive (x ∷ xs) = rw (o.reflexive x) (lexicographic-reflexive xs)

  lexicographic-separates : (xs ys : List A) → lexicographic cmp_item xs ys ≡ Ordering.eq → xs ≡ ys
  lexicographic-separates [] [] h = refl
  lexicographic-separates [] (y ∷ ys) h = cc
  lexicographic-separates (x ∷ xs) [] h = cc
  lexicographic-separates (x ∷ xs) (y ∷ ys) h =
      let (e, k) = then_with-eq _ _ h in
      let same : x ≡ y = o.separates x y e in
      let same_rest : xs ≡ ys = lexicographic-separates xs ys k in cc (same, same_rest)

  lexicographic-reverses :
      (xs ys : List A) → lexicographic cmp_item ys xs ≡ reverse_order (lexicographic cmp_item xs ys)
  lexicographic-reverses [] [] = refl
  lexicographic-reverses [] (y ∷ ys) = refl
  lexicographic-reverses (x ∷ xs) [] = refl
  lexicographic-reverses (x ∷ xs) (y ∷ ys) =
      then_with-reverse _ _ (o.reverses x y) (lexicographic-reverses xs ys)

  lexicographic-Triangle :
      (xs ys zs : List A)
      → Triangle
          (lexicographic cmp_item xs ys)
          (lexicographic cmp_item ys zs)
          (lexicographic cmp_item xs zs)
  lexicographic-Triangle (x ∷ xs) (y ∷ ys) (z ∷ zs) =
      then_with-Triangle _ _ _ _ _ _ (o.transitive x y z) (lexicographic-Triangle xs ys zs)
  lexicographic-Triangle [] [] zs = record {
    less = λ h k. cc;
    same_left = λ h. refl;
    same_right = λ h. h;
  }
  lexicographic-Triangle [] (y ∷ ys) [] = record {
    less = λ h k. cc;
    same_left = λ h. cc;
    same_right = λ h. cc;
  }
  lexicographic-Triangle [] (y ∷ ys) (z ∷ zs) = record {
    less = λ h k. refl;
    same_left = λ h. cc;
    same_right = λ h. refl;
  }
  lexicographic-Triangle (x ∷ xs) [] [] = record {
    less = λ h k. cc;
    same_left = λ h. cc;
    same_right = λ h. refl;
  }
  lexicographic-Triangle (x ∷ xs) [] (z ∷ zs) = record {
    less = λ h k. cc;
    same_left = λ h. cc;
    same_right = λ h. cc;
  }
  lexicographic-Triangle (x ∷ xs) (y ∷ ys) [] = record {
    less = λ h k. cc;
    same_left = λ h. refl;
    same_right = λ h. cc;
  }

  pub lexicographic-IsTotalOrder : IsTotalOrder (lexicographic cmp_item)
  lexicographic-IsTotalOrder = record {
    reflexive = lexicographic-reflexive;
    separates = lexicographic-separates;
    reverses = lexicographic-reverses;
    transitive = lexicographic-Triangle;
  }

-- A comparison that agrees with a total order is one.
pub IsTotalOrder-agrees :
    {A : Type 0} {f g : A → A → Ordering}
    → ((a b : A) → f a b ≡ g a b)
    → IsTotalOrder g
    → IsTotalOrder f
IsTotalOrder-agrees {f} {g} e o = record {
  reflexive = λ a. e a a ∙ o.reflexive a;
  separates = λ a b h. o.separates a b (sym (e a b) ∙ h);
  reverses = λ a b. rw (e a b, e b a) (o.reverses a b);
  transitive = λ a b c. rw (e a b, e b c, e a c) (o.transitive a b c);
}
