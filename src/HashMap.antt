-- ===== src/HashMap.antt =====
-- std::collections::HashMap and HashSet, as far as the program uses them: association lists whose
-- keys have a decidable equality. The order of iteration is the list's.
use quietquic.Prelude.{
  ◌+◌, ◌≤◌, ◌≡◌, refl, ite, Option, none, some, List, [], ◌∷◌, arith, length, is_some, true,
}
use mathlib.Core.Option

module _ {ℓ} {K V : Type ℓ} where
  abbrev pub keys : List (K × V) → List K
  keys [] = []
  keys ((k, v) ∷ m) = k ∷ keys m

module _ {ℓ} {K V : Type ℓ} (dec : Discrete K) where
  unfoldable pub get : K → List (K × V) → Option V
  get k [] = none
  get k ((j, v) ∷ m) = ite (dec j k) (some v) (get k m)

  unfoldable pub remove : K → List (K × V) → List (K × V)
  remove k [] = []
  remove k ((j, v) ∷ m) = ite (dec j k) (remove k m) ((j, v) ∷ remove k m)

  unfoldable pub insert : K → V → List (K × V) → List (K × V)
  unfolding remove
  insert k v m = (k, v) ∷ remove k m

  -- A write through `get_mut`, on a key that may be missing.
  unfoldable pub modify : K → (V → V) → List (K × V) → List (K × V)
  modify k f [] = []
  modify k f ((j, v) ∷ m) = ite (dec j k) ((j, f v) ∷ modify k f m) ((j, v) ∷ modify k f m)

  pub get-remove : (k j : K) (m : List (K × V)) → get j (remove k m) ≡ ite (dec k j) none (get j m)
  unfolding get remove
  get-remove k j [] = ground arith
  get-remove k j ((i, v) ∷ m) = ground (arith, get-remove k j m)

  pub get-insert :
      (k j : K) (v : V) (m : List (K × V)) → get j (insert k v m) ≡ ite (dec k j) (some v) (get j m)
  unfolding get insert
  get-insert k j v m = ground (arith, get-remove k j m)

  pub get-modify :
      (k j : K) (f : V → V) (m : List (K × V))
      → get j (modify k f m) ≡ ite (dec k j) (Option.map f (get j m)) (get j m)
  unfolding get modify
  get-modify k j f [] = ground arith
  get-modify k j f ((i, v) ∷ m) = ground (arith, get-modify k j f m)

  pub is_some-get-modify :
      (k j : K) (f : V → V) (m : List (K × V)) → is_some (get j (modify k f m)) ≡ is_some (get j m)
  unfolding get modify
  is_some-get-modify k j f [] = refl
  is_some-get-modify k j f ((i, v) ∷ m) = ground (arith, is_some-get-modify k j f m)

  pub is_some-get-insert :
      (k j : K) (v : V) (m : List (K × V))
      → is_some (get j m) ≡ true
      → is_some (get j (insert k v m)) ≡ true
  is_some-get-insert k j v m h = ground (arith, get-insert k j v m, h)

  pub keys-modify : (k : K) (f : V → V) (m : List (K × V)) → keys (modify k f m) ≡ keys m
  unfolding modify
  keys-modify k f [] = refl
  keys-modify k f ((j, v) ∷ m) = ground (arith, keys-modify k f m)

  pub length-modify : (k : K) (f : V → V) (m : List (K × V)) → length (modify k f m) ≡ length m
  unfolding modify
  length-modify k f [] = refl
  length-modify k f ((j, v) ∷ m) = ground (arith, length-modify k f m)

  pub remove_absent : (k : K) (m : List (K × V)) → get k m ≡ none → remove k m ≡ m
  unfolding get remove
  remove_absent k [] h = refl
  remove_absent k ((j, v) ∷ m) h = ground (arith, remove_absent k m)

  pub length-remove-le : (k : K) (m : List (K × V)) → length (remove k m) ≤ length m
  unfolding remove
  length-remove-le k [] = omega arith
  length-remove-le k ((j, v) ∷ m) = ground (arith, length-remove-le k m)

  -- No key stands twice.
  abbrev pub Distinct : List (K × V) → Type ℓ
  Distinct [] = Unit
  Distinct ((k, v) ∷ m) = (get k m ≡ none) × Distinct m

  pub Distinct-remove : (k : K) (m : List (K × V)) → Distinct m → Distinct (remove k m)
  unfolding remove
  Distinct-remove k [] d = tt
  Distinct-remove k ((j, v) ∷ m) d = ground (arith, Distinct-remove k m d.1, get-remove k j m)

  pub Distinct-insert : (k : K) (v : V) (m : List (K × V)) → Distinct m → Distinct (insert k v m)
  unfolding insert
  Distinct-insert k v m d = (ground (arith, get-remove k k m), Distinct-remove k m d)

  pub Distinct-modify :
      (k : K) (f : V → V) (m : List (K × V)) → Distinct m → Distinct (modify k f m)
  unfolding modify
  Distinct-modify k f [] d = tt
  Distinct-modify k f ((j, v) ∷ m) d = ground (arith, Distinct-modify k f m d.1, get-modify k j f m)

  pub length-remove :
      (k : K) (m : List (K × V)) (v : V)
      → Distinct m
      → get k m ≡ some v
      → length (remove k m) + 1 ≡ length m
  unfolding get remove
  length-remove k [] v d h = ground arith
  length-remove k ((j, w) ∷ m) v d h = ground (arith, length-remove k m v d.1, remove_absent k m)

  pub length-insert_new :
      (k : K) (v : V) (m : List (K × V)) → get k m ≡ none → length (insert k v m) ≡ length m + 1
  unfolding insert
  length-insert_new k v m h = ground (arith, remove_absent k m)
