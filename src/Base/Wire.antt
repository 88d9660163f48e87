-- ===== src/Base/Wire.antt =====
-- `binary.BigEndian` on 32 bits, and slices of a byte array.
use Prim.Native.Nat.{ℕ, ◌+◌, ◌-◌, ◌*◌, ◌/◌, ◌%◌, ◌^◌, ◌≤◌, ◌<◌}
use mathlib.Core.Path.{◌≡◌, sym, ap, ◌∙◌}
use mathlib.Core.List.{[], ◌∷◌, ◌++◌, append_assoc}
use native.Mathlib.Omega.{arith}
use package.drone_os.Base.Lists.{length, take, drop, length-take, length-drop, length-append}
use package.drone_os.Base.Slices.{drop-append, drop-take, take-append_length}
use package.drone_os.Base.Text.{Bytes}

-- A slice shorter than four bytes is a panic in Go; no caller passes one.
unfoldable pub be_uint32 : Bytes → ℕ
be_uint32 (a ∷ b ∷ c ∷ d ∷ _) = ((a * 256 + b) * 256 + c) * 256 + d
be_uint32 _ = 0

unfoldable pub put_uint32 : ℕ → Bytes
put_uint32 n = (n / 2 ^ 24 % 256) ∷ (n / 2 ^ 16 % 256) ∷ (n / 2 ^ 8 % 256) ∷ (n % 256) ∷ []

pub be_uint32-put_uint32 :
    (n : ℕ) (rest : Bytes) → n < 2 ^ 32 → be_uint32 (put_uint32 n ++ rest) ≡ n
unfolding be_uint32 put_uint32
be_uint32-put_uint32 n rest h = omega arith

-- b[lo:hi]
abbrev pub slice : Bytes → ℕ → ℕ → Bytes
slice b lo hi = take (hi - lo) (drop lo b)

-- copy(b[at:], src), for a source that fits
unfoldable pub copy_at : Bytes → ℕ → Bytes → Bytes
copy_at b at src = take at b ++ (src ++ drop (at + length src) b)

pub length-copy_at :
    (b : Bytes) (at : ℕ) (src : Bytes)
    → at + length src ≤ length b
    → length (copy_at b at src) ≡ length b
unfolding copy_at
length-copy_at b at src h =
    let tail = drop (at + length src) b in
    let e : length (take at b ++ (src ++ tail)) ≡ length b = omega (
      arith,
      length-append (take at b) (src ++ tail),
      length-append src tail,
      length-take at b,
      length-drop (at + length src) b,
    ) in
    e

-- What was written stands behind what was there before it.
pub slice-copy_at :
    (b : Bytes) (lo at : ℕ) (src : Bytes)
    → lo ≤ at
    → at + length src ≤ length b
    → slice (copy_at b at src) lo (at + length src) ≡ slice b lo at ++ src
unfolding copy_at
slice-copy_at b lo at src le fits =
    let tail = drop (at + length src) b in
    let inner : drop lo (take at b ++ (src ++ tail)) ≡ (slice b lo at ++ src) ++ tail =
      drop-append lo (take at b) (src ++ tail) (omega (arith, length-take at b))
      ∙ ap (λ z. z ++ (src ++ tail)) (drop-take lo at b)
      ∙ sym (append_assoc (slice b lo at) src tail) in
    ap (take (at + length src - lo)) inner
    ∙ take-append_length _ (slice b lo at ++ src) tail (
        omega (
          arith,
          length-append (slice b lo at) src,
          length-take (at - lo) (drop lo b),
          length-drop lo b,
        ))
