-- ===== src/RateLimit/Links.antt =====
-- A doubly linked list whose links are a function from keys, against the list of keys that it
-- strings together. `RateLimit.Lru` reads the links of the limiter's map this way.
use quietquic.HashSet.{contains, remove}
use quietquic.Prelude.{
  ◌≡◌, refl, ap, subst, ◌∙◌, ite, true, false, ◌||◌, Option, some, List, [], ◌∷◌, ◌++◌, arith,
}
use mathlib.Core.Option

-- The neighbours of each key that has an entry.
abbrev pub Links : Type 0 → Type 0
Links K = K → Option (Option K × Option K)

module _ {K : Type 0} where
  -- The key before the list that starts here is `next` where the list is empty.
  abbrev pub first : List K → Option K → Option K
  first [] next = next
  first (x ∷ xs) next = some x

  abbrev pub last_or : Option K → List K → Option K
  last_or prev [] = prev
  last_or prev (x ∷ xs) = last_or (some x) xs

  -- The keys are linked in this order, between `prev` and `next`.
  abbrev pub Seg : Links K → Option K → List K → Option K → Type 0
  Seg l prev [] next = Unit
  Seg l prev (x ∷ xs) next = (l x ≡ some (prev, first xs next)) × Seg l (some x) xs next

  pub Seg-split :
      (l : Links K) (prev : Option K) (ys zs : List K) (next : Option K)
      → Seg l prev (ys ++ zs) next
      → Seg l prev ys (first zs next) × Seg l (last_or prev ys) zs next
  Seg-split l prev [] zs next h = (tt, h)
  Seg-split l prev (y ∷ []) [] next h = (h, tt)
  Seg-split l prev (y ∷ []) (z ∷ zs) next h = ((h.0, tt), h.1)
  Seg-split l prev (y ∷ y' ∷ ys) zs next h =
      let (a, b) = Seg-split l (some y) (y' ∷ ys) zs next h.1 in ((h.0, a), b)

  pub Seg-join :
      (l : Links K) (prev : Option K) (ys zs : List K) (next : Option K)
      → Seg l prev ys (first zs next)
      → Seg l (last_or prev ys) zs next
      → Seg l prev (ys ++ zs) next
  Seg-join l prev [] zs next h k = k
  Seg-join l prev (y ∷ []) [] next h k = h
  Seg-join l prev (y ∷ []) (z ∷ zs) next h k = (h.0, k)
  Seg-join l prev (y ∷ y' ∷ ys) zs next h k = (h.0, Seg-join l (some y) (y' ∷ ys) zs next h.1 k)

  pub last_some : (x : K) (xs : List K) → (y : K) × (last_or (some x) xs ≡ some y)
  last_some x [] = (x, refl)
  last_some x (x' ∷ xs) = last_some x' xs

  pub last_or-append :
      (prev : Option K) (ys : List K) (z : K) (zs : List K)
      → last_or prev (ys ++ (z ∷ zs)) ≡ last_or (some z) zs
  last_or-append prev [] z zs = refl
  last_or-append prev (y ∷ ys) z zs = last_or-append (some y) ys z zs

module _ {K : Type 0} (dec : Discrete K) where
  -- No key stands twice.
  abbrev pub IsSimple : List K → Type 0
  IsSimple [] = Unit
  IsSimple (x ∷ xs) = (contains dec x xs ≡ false) × IsSimple xs

  -- Only the links of the keys on the list matter.
  pub Seg-frame :
      (l l' : Links K) (prev : Option K) (xs : List K) (next : Option K)
      → ((k : K) → contains dec k xs ≡ true → l' k ≡ l k)
      → Seg l prev xs next
      → Seg l' prev xs next
  unfolding contains
  Seg-frame l l' prev [] next same h = tt
  Seg-frame l l' prev (x ∷ xs) next same h = (
    same x (ground arith) ∙ h.0,
    Seg-frame l l' (some x) xs next (λ k c. same k (ground arith)) h.1,
  )

  -- Every key on the list has an entry.
  pub Seg-entry :
      (l : Links K) (prev : Option K) (xs : List K) (next : Option K) (k : K)
      → Seg l prev xs next
      → contains dec k xs ≡ true
      → (p : Option K × Option K) × (l k ≡ some p)
  unfolding contains
  Seg-entry l prev [] next k h c = ground arith
  Seg-entry l prev (x ∷ xs) next k h c = elim (dec x k) [
    | yes e ↦ ((prev, first xs next), subst (λ (t : K). l t ≡ some (prev, first xs next)) e h.0)
    | no n ↦ Seg-entry l (some x) xs next k h.1 (ground arith)
  ]

  pub last_or-contains :
      (x : K) (xs : List K) (y : K) → last_or (some x) xs ≡ some y → contains dec y (x ∷ xs) ≡ true
  unfolding contains
  last_or-contains x [] y e = ground arith
  last_or-contains x (x' ∷ xs) y e = ground (arith, last_or-contains x' xs y e)

  -- Writing the forward link of the last key moves the end of the list.
  pub Seg-last :
      (l l' : Links K) (prev : Option K) (xs : List K) (next next' : Option K) (y : K)
      → ((k : K)
          → l' k
            ≡ ite (dec y k) (Option.map (λ (p : Option K × Option K). (p.0, next')) (l k)) (l k))
      → IsSimple xs
      → last_or prev xs ≡ some y
      → contains dec y xs ≡ true
      → Seg l prev xs next
      → Seg l' prev xs next'
  unfolding contains
  Seg-last l l' prev [] next next' y write s e c h = tt
  Seg-last l l' prev (x ∷ []) next next' y write s e c h = (ground (arith, write x), tt)
  Seg-last l l' prev (x ∷ x' ∷ xs) next next' y write s e c h =
      let later = last_or-contains x' xs y e in
      (ground (arith, write x), Seg-last l l' (some x) (x' ∷ xs) next next' y write s.1 e later h.1)

  -- Writing the backward link of the first key moves the start.
  pub Seg-first :
      (l l' : Links K) (prev prev' : Option K) (x : K) (xs : List K) (next : Option K)
      → ((k : K)
          → l' k
            ≡ ite (dec x k) (Option.map (λ (p : Option K × Option K). (prev', p.1)) (l k)) (l k))
      → IsSimple (x ∷ xs)
      → Seg l prev (x ∷ xs) next
      → Seg l' prev' (x ∷ xs) next
  unfolding contains
  Seg-first l l' prev prev' x xs next write s h = (
    ground (arith, write x),
    Seg-frame l l' (some x) xs next (λ k c. ground (arith, write k)) h.1,
  )

  pub contains-append :
      (k : K) (xs ys : List K)
      → contains dec k (xs ++ ys) ≡ (contains dec k xs || contains dec k ys)
  unfolding contains
  contains-append k [] ys = refl
  contains-append k (x ∷ xs) ys = ground (arith, contains-append k xs ys)

  -- A simple list around one of its keys.
  pub record Around (x : K) (ys zs : List K) : Type 0 where
    pub before : IsSimple ys
    pub after : IsSimple zs
    pub not_before : contains dec x ys ≡ false
    pub not_after : contains dec x zs ≡ false
    pub apart : (k : K) → contains dec k ys ≡ true → contains dec k zs ≡ false

  pub IsSimple-Around : (x : K) (ys zs : List K) → IsSimple (ys ++ (x ∷ zs)) → Around x ys zs
  unfolding contains
  IsSimple-Around x [] zs s = record {
    before = tt;
    after = s.1;
    not_before = refl;
    not_after = s.0;
    apart = λ k e. ground arith;
  }
  IsSimple-Around x (y ∷ ys) zs s =
      let r = IsSimple-Around x ys zs s.1 in
      let fresh = contains-append y ys (x ∷ zs) in
      record {
        before = (ground arith, r.before);
        after = r.after;
        not_before = ground (arith, r.not_before);
        not_after = r.not_after;
        apart = λ k e. ground (arith, r.apart k);
      }

  Around-tail : (x y : K) (ys zs : List K) → Around x (y ∷ ys) zs → Around x ys zs
  unfolding contains
  Around-tail x y ys zs a = record {
    before = a.before.1;
    after = a.after;
    not_before = ground arith;
    not_after = a.not_after;
    apart = λ k e. a.apart k (ground arith);
  }

  pub Around-IsSimple : (x : K) (ys zs : List K) → Around x ys zs → IsSimple (ys ++ zs)
  unfolding contains
  Around-IsSimple x [] zs a = a.after
  Around-IsSimple x (y ∷ ys) zs a = (
    ground (arith, contains-append y ys zs, a.apart y),
    Around-IsSimple x ys zs (Around-tail x y ys zs a),
  )

  pub find_split :
      (x : K) (xs : List K)
      → contains dec x xs ≡ true
      → (ys : List K) × (zs : List K) × (xs ≡ ys ++ (x ∷ zs))
  unfolding contains
  find_split x [] c = ground arith
  find_split x (y ∷ xs) c = elim (dec y x) [
    | yes p ↦ ([], xs, ap (λ t. t ∷ xs) p)
    | no p ↦ let (ys, zs, e) = find_split x xs (ground arith) in (y ∷ ys, zs, ap (◌∷◌ y) e)
  ]

  remove_absent : (x : K) (xs : List K) → contains dec x xs ≡ false → remove dec x xs ≡ xs
  unfolding contains remove
  remove_absent x [] c = refl
  remove_absent x (y ∷ xs) c = ground (arith, remove_absent x xs)

  pub remove_split :
      (x : K) (ys zs : List K) → Around x ys zs → remove dec x (ys ++ (x ∷ zs)) ≡ ys ++ zs
  unfolding contains remove
  remove_split x [] zs a = ground (arith, remove_absent x zs a.not_after)
  remove_split x (y ∷ ys) zs a =
      ground (arith, a.not_before, remove_split x ys zs (Around-tail x y ys zs a))

  pub IsSimple-append :
      (xs : List K) (x : K) → IsSimple xs → contains dec x xs ≡ false → IsSimple (xs ++ (x ∷ []))
  unfolding contains
  IsSimple-append [] x s c = (refl, tt)
  IsSimple-append (y ∷ xs) x s c =
      (ground (arith, contains-append y xs (x ∷ []), s.0), IsSimple-append xs x s.1 (ground arith))
