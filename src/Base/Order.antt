-- ===== src/Base/Order.antt =====
-- The order of Go strings, byte by byte.
use mathlib.Core.Path.{◌≡◌, refl}
use mathlib.Core.Bool.{Bool, true, false, ◌&&◌, ◌||◌}
use mathlib.Core.List.{[], ◌∷◌}
use native.Mathlib.Omega.{arith}
use package.drone_os.Base.Tests.{ltb, ◌==◌}
use package.drone_os.Base.Text.{Bytes}

-- a < b on strings
unfoldable pub text_lt : Bytes → Bytes → Bool
text_lt a [] = false
text_lt [] (y ∷ b) = true
text_lt (x ∷ a) (y ∷ b) = ltb x y || (x == y && text_lt a b)

pub text_lt_irrefl : (a : Bytes) → text_lt a a ≡ false
unfolding text_lt
text_lt_irrefl [] = refl
text_lt_irrefl (x ∷ a) = ground (arith, text_lt_irrefl a)

pub text_lt_asym : (a b : Bytes) → text_lt a b ≡ true → text_lt b a ≡ false
unfolding text_lt
text_lt_asym [] [] h = refl
text_lt_asym [] (y ∷ b) h = refl
text_lt_asym (x ∷ a) [] h = cc
text_lt_asym (x ∷ a) (y ∷ b) h = ground (arith, text_lt_asym a b)

-- The order of texts is total, so `not less` is transitive.
pub text_ge_trans :
    (a b c : Bytes) → text_lt a b ≡ false → text_lt b c ≡ false → text_lt a c ≡ false
unfolding text_lt
text_ge_trans a b [] h k = lt_nil a
  where
    lt_nil : (a : Bytes) → text_lt a [] ≡ false
    lt_nil [] = refl
    lt_nil (x ∷ a) = refl
text_ge_trans a [] (z ∷ c) h k = cc
text_ge_trans [] (y ∷ b) (z ∷ c) h k = cc
text_ge_trans (x ∷ a) (y ∷ b) (z ∷ c) h k = ground (arith, text_ge_trans a b c)

-- Of two texts that differ, one is less.
pub text_ge_antisym : (a b : Bytes) → text_lt a b ≡ false → text_lt b a ≡ false → a ≡ b
unfolding text_lt
text_ge_antisym [] [] h k = refl
text_ge_antisym [] (y ∷ b) h k = absurd (cc h)
text_ge_antisym (x ∷ a) [] h k = absurd (cc k)
text_ge_antisym (x ∷ a) (y ∷ b) h k = ground (arith, text_ge_antisym a b)
