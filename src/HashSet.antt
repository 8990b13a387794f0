-- ===== src/HashSet.antt =====
-- std::collections::HashSet, as far as the program uses it: a list whose elements have a decidable
-- equality.
use quietquic.Prelude.{
  ◌≡◌, sym, ◌∙◌, length, ◌+◌, ◌≤◌, ite, if_pos, if_neg, Bool, true, false, not, ◌&&◌, List, [], ◌∷◌,
  arith, if◌then◌else◌, Bool-cases, length, ◌+◌, ◌≤◌, inl, inr,
}

module _ {ℓ} {A : Type ℓ} (dec : Discrete A) where
  unfoldable pub contains : A → List A → Bool
  contains a [] = false
  contains a (x ∷ xs) = ite (dec x a) true (contains a xs)

  -- The set after the call, and whether the element is new.
  unfoldable pub insert : A → List A → List A × Bool
  unfolding contains
  insert a xs = if contains a xs then (xs, false) else (a ∷ xs, true)

  unfoldable pub remove : A → List A → List A
  remove a [] = []
  remove a (x ∷ xs) = ite (dec x a) (remove a xs) (x ∷ remove a xs)

  unfoldable pub remove_all : List A → List A → List A
  remove_all [] xs = xs
  remove_all (a ∷ as') xs = remove_all as' (remove a xs)

  pub contains-remove :
      (a b : A) (xs : List A) → contains b (remove a xs) ≡ ite (dec a b) false (contains b xs)
  unfolding contains remove
  contains-remove a b [] = ground arith
  contains-remove a b (x ∷ xs) = elim (dec x a) [
    | yes p ↦ rw (if_pos (dec x a) p) (ground (arith, contains-remove a b xs))
    | no p ↦ rw (if_neg (dec x a) p) (ground (arith, contains-remove a b xs))
  ]

  pub contains-remove_all :
      (as' : List A) (b : A) (xs : List A)
      → contains b (remove_all as' xs) ≡ (contains b xs && not (contains b as'))
  unfolding contains remove_all
  contains-remove_all [] b xs = ground arith
  contains-remove_all (a ∷ as') b xs =
      ground (arith, contains-remove_all as' b (remove a xs), contains-remove a b xs)

  length-remove-le : (a : A) (xs : List A) → length (remove a xs) ≤ length xs
  unfolding remove
  length-remove-le a [] = omega arith
  length-remove-le a (x ∷ xs) = ground (arith, length-remove-le a xs)

  -- An element that is there is taken out.
  pub length-remove-lt :
      (a : A) (xs : List A) → contains a xs ≡ true → length (remove a xs) + 1 ≤ length xs
  unfolding contains remove
  length-remove-lt a [] c = ground arith
  length-remove-lt a (x ∷ xs) c = elim (dec x a) [
    | yes p ↦ rw (if_pos (dec x a) p) (omega (arith, length-remove-le a xs))
    | no p ↦
        rw (if_neg (dec x a) p)
          (omega (arith, length-remove-lt a xs (sym (if_neg (dec x a) p true _) ∙ c)))
  ]

  pub contains-insert :
      (a b : A) (xs : List A) → contains b (insert a xs).0 ≡ ite (dec a b) true (contains b xs)
  unfolding insert contains
  contains-insert a b xs = ground arith

  pub insert_new : (a : A) (xs : List A) → (insert a xs).1 ≡ not (contains a xs)
  unfolding insert
  insert_new a xs = ground arith

module _ {ℓ} {A : Type ℓ} where
  unfoldable pub retain : (A → Bool) → List A → List A
  retain keep [] = []
  retain keep (x ∷ xs) = if keep x then x ∷ retain keep xs else retain keep xs

module _ {ℓ} {A : Type ℓ} (dec : Discrete A) where
  pub contains-retain :
      (keep : A → Bool) (a : A) (xs : List A)
      → contains dec a (retain keep xs) ≡ (keep a && contains dec a xs)
  unfolding contains retain
  contains-retain keep a [] = ground arith
  contains-retain keep a (x ∷ xs) = elim (dec x a) [
    | yes p ↦ elim (Bool-cases (keep x)) [
      | inl k ↦ ground (arith, contains-retain keep a xs)
      | inr k ↦ ground (arith, contains-retain keep a xs)
    ]
    | no p ↦ ground (arith, contains-retain keep a xs)
  ]
