-- ===== src/Base/Sort.antt =====
-- `sort.Strings` and `sort.Slice` as insertion sort. They are used on keys that differ or on texts, where
-- any sort gives the same list.
use mathlib.Core.Path.{◌≡◌, refl}
use mathlib.Core.Bool.{Bool, true, false}
use mathlib.Core.List.{List, [], ◌∷◌, Permᴰ}
use mathlib.Core.List.Permᴰ
use mathlib.Core.Logic.{inl, inr}
use package.drone_os.Base.Tests.{if◌then◌else◌, Bool-cases}
use package.drone_os.Base.Lists.{All}

-- A test that behaves as `<` on a total order.
pub record IsOrder {ℓ} {A : Type ℓ} (less : A → A → Bool) : Type ℓ where
  pub asym : (a b : A) → less a b ≡ true → less b a ≡ false
  pub ge_trans : (a b c : A) → less a b ≡ false → less b c ≡ false → less a c ≡ false

module _ {ℓ} {A : Type ℓ} (less : A → A → Bool) where
  unfoldable pub insert_by : A → List A → List A
  insert_by x [] = x ∷ []
  insert_by x (y ∷ ys) = let behind = y ∷ insert_by x ys in if less y x then behind else x ∷ y ∷ ys

  unfoldable pub sort_by : List A → List A
  unfolding insert_by
  sort_by [] = []
  sort_by (x ∷ xs) = insert_by x (sort_by xs)

  -- No element is less than one in front of it.
  abbrev pub IsSorted : List A → Type ℓ
  IsSorted [] = Unit
  IsSorted (x ∷ xs) = All (λ y. less y x ≡ false) xs × IsSorted xs

  insert_by-perm : (x : A) (ys : List A) → Permᴰ (insert_by x ys) (x ∷ ys)
  unfolding insert_by
  insert_by-perm x [] = Permᴰ.refl (x ∷ [])
  insert_by-perm x (y ∷ ys) = elim (Bool-cases (less y x)) [
    | inl e ↦ rw e (Permᴰ.trans (Permᴰ.cons refl (insert_by-perm x ys)) (Permᴰ.swap refl refl))
    | inr e ↦ rw e (Permᴰ.refl (x ∷ y ∷ ys))
  ]

  pub sort_by-perm : (xs : List A) → Permᴰ (sort_by xs) xs
  unfolding sort_by
  sort_by-perm [] = Permᴰ.nil
  sort_by-perm (x ∷ xs) =
      Permᴰ.trans (insert_by-perm x (sort_by xs)) (Permᴰ.cons refl (sort_by-perm xs))

module _ {ℓ} {A : Type ℓ} (less : A → A → Bool) (o : IsOrder less) where
  All-ge :
      (x y : A) (zs : List A)
      → less y x ≡ false
      → All (λ z. less z y ≡ false) zs
      → All (λ z. less z x ≡ false) zs
  All-ge x y [] h a = tt
  All-ge x y (z ∷ zs) h (a, as_) = (o.ge_trans z y x a h, All-ge x y zs h as_)

  All-insert_by :
      (b x : A) (ys : List A)
      → less x b ≡ false
      → All (λ z. less z b ≡ false) ys
      → All (λ z. less z b ≡ false) (insert_by less x ys)
  unfolding insert_by
  All-insert_by b x [] h a = (h, tt)
  All-insert_by b x (y ∷ ys) h (a, rest) = elim (Bool-cases (less y x)) [
    | inl e ↦ rw e (a, All-insert_by b x ys h rest)
    | inr e ↦ rw e (h, (a, rest))
  ]

  insert_by-IsSorted :
      (x : A) (ys : List A) → IsSorted less ys → IsSorted less (insert_by less x ys)
  unfolding insert_by
  insert_by-IsSorted x [] s = (tt, tt)
  insert_by-IsSorted x (y ∷ ys) (a, s) = elim (Bool-cases (less y x)) [
    | inl e ↦ rw e (All-insert_by y x ys (o.asym y x e) a, insert_by-IsSorted x ys s)
    | inr e ↦ rw e ((e, All-ge x y ys e a), (a, s))
  ]

  pub sort_by-IsSorted : (xs : List A) → IsSorted less (sort_by less xs)
  unfolding sort_by
  sort_by-IsSorted [] = tt
  sort_by-IsSorted (x ∷ xs) = insert_by-IsSorted x (sort_by less xs) (sort_by-IsSorted xs)

module _ {A : Type 0} (R : A → A → Type 0) where
  -- Each element is before the next one.
  abbrev pub Chain : List A → Type 0
  Chain [] = Unit {0}
  Chain (a ∷ []) = Unit {0}
  Chain (a ∷ b ∷ l) = R a b × Chain (b ∷ l)

  pub IsSorted-Chain :
      (less : A → A → Bool)
      → ((a b : A) → less b a ≡ false → R a b)
      → (l : List A) → IsSorted less l
      → Chain l
  IsSorted-Chain less go [] s = tt
  IsSorted-Chain less go (a ∷ []) s = tt
  IsSorted-Chain less go (a ∷ b ∷ l) s = (go a b s.0.0, IsSorted-Chain less go (b ∷ l) s.1)
