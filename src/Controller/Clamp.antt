-- ===== src/Controller/Clamp.antt =====
-- The range of an axis.
use drone_os.Base.{◌≡◌, arith, ℤ, pos, negsuc, ◌≤ℤ◌}
use drone_os.Controller.{max_int16, min_int16, int16, clamp_int32_to_int16}

-- An axis is in the range of int16, is the value itself wherever this fits, and keeps the order of values.
pub clamp_int32_to_int16-IsInt16 :
    (a b : ℤ)
    → a ≤ℤ b
    → (min_int16 ≤ℤ clamp_int32_to_int16 a)
      × (clamp_int32_to_int16 a ≤ℤ max_int16)
      × (min_int16 ≤ℤ a → a ≤ℤ max_int16 → clamp_int32_to_int16 a ≡ a)
      × (clamp_int32_to_int16 a ≤ℤ clamp_int32_to_int16 b)
unfolding clamp_int32_to_int16 int16
clamp_int32_to_int16-IsInt16 (pos a) (pos b) h =
    (ground arith, ground arith, ground arith, ground arith)
clamp_int32_to_int16-IsInt16 (negsuc a) (pos b) h =
    (ground arith, ground arith, ground arith, ground arith)
clamp_int32_to_int16-IsInt16 (pos a) (negsuc b) h = absurd (omega arith)
clamp_int32_to_int16-IsInt16 (negsuc a) (negsuc b) h =
    (ground arith, ground arith, ground arith, ground arith)
