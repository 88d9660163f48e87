-- ===== src/Base/Utf8.antt =====
-- Well-formed UTF-8, as Table 3-7 of the Unicode standard has it.
use Prim.Native.Nat.{ℕ, ◌-◌}
use mathlib.Core.Path.{◌≡◌, refl}
use mathlib.Core.Bool.{Bool, true, false, ◌&&◌}
use mathlib.Core.List.{[], ◌∷◌}
use package.drone_os.Base.Tests.{leb, ltb, ◌==◌, if◌then◌else◌}
use package.drone_os.Base.Text.{Bytes}

-- The bytes that are still due of a character, and the range of the next one.
pub record Due : Type 0 where
  pub left : ℕ
  pub low : ℕ
  pub high : ℕ

abbrev pub due : ℕ → ℕ → ℕ → Due
due n l h = record { left = n; low = l; high = h }

-- Behind a first byte from 194 on; nothing fits where it is above 244.
unfoldable pub behind_first : ℕ → Due
behind_first c =
    if ltb c 224
    then due 1 128 191
    else if c == 224
    then due 2 160 191
    else if c == 237
    then due 2 128 159
    else if ltb c 240
    then due 2 128 191
    else if c == 240
    then due 3 144 191
    else if ltb c 244
    then due 3 128 191
    else if c == 244
    then due 3 128 143
    else due 1 1 0

unfoldable pub utf8_from : Due → Bytes → Bool
unfolding behind_first
utf8_from d [] = d.left == 0
utf8_from d (c ∷ s) =
    let first = utf8_from (due 0 0 0) s in
    let lead = utf8_from (behind_first c) s in
    let more = utf8_from (due (d.left - 1) 128 191) s in
    if d.left == 0
    then (if ltb c 128 then first else if ltb c 194 then false else lead)
    else (leb d.low c && leb c d.high) && more

-- utf8.ValidString
unfoldable pub is_utf8 : Bytes → Bool
unfolding utf8_from
is_utf8 s = utf8_from (due 0 0 0) s

-- A two-byte character, a lone byte of one, and a surrogate.
two_bytes : is_utf8 (195 ∷ 164 ∷ []) ≡ true
unfolding is_utf8 utf8_from behind_first
two_bytes = refl

lone : is_utf8 (195 ∷ 65 ∷ []) ≡ false
unfolding is_utf8 utf8_from behind_first
lone = refl

surrogate : is_utf8 (237 ∷ 160 ∷ 128 ∷ []) ≡ false
unfolding is_utf8 utf8_from behind_first
surrogate = refl
