-- ===== src/Base/Path.antt =====
-- Paths and decimal numbers as text: `filepath.Base`, `filepath.Join`, `%d` and `%02X`.
use Prim.Native.Nat.{ℕ, zero, suc, ◌+◌, ◌-◌, ◌*◌, ◌/◌, ◌%◌, ◌<◌}
use mathlib.Core.Path.{◌≡◌, ap, ◌∙◌}
use mathlib.Core.List.{[], ◌∷◌, ◌++◌, reverse}
use mathlib.Core.Logic.{inl, inr}
use native.Mathlib.Omega.{arith}
use package.drone_os.Base.Tests.{ltb, ◌==◌, if◌then◌else◌, Bool-cases}
use package.drone_os.Base.Int.{ℤ, pos, negsuc}
use package.drone_os.Base.Text.{Bytes, codes}
use package.drone_os.Base.Numbers.{digits_value}

abbrev pub slash : ℕ
slash = 47

-- filepath.Join(dir, name), for the name of a directory entry or of a file
abbrev pub join_path : Bytes → Bytes → Bytes
join_path dir name = dir ++ (slash ∷ name)

unfoldable pub drop_slashes : Bytes → Bytes
drop_slashes [] = []
drop_slashes (c ∷ s) = if c == slash then drop_slashes s else c ∷ s

unfoldable pub until_slash : Bytes → Bytes
until_slash [] = []
until_slash (c ∷ s) = if c == slash then [] else c ∷ until_slash s

-- filepath.Base
unfoldable pub file_base : Bytes → Bytes
unfolding drop_slashes until_slash
file_base [] = codes "."
file_base (c ∷ s) = elim (reverse (until_slash (drop_slashes (reverse (c ∷ s))))) [
  | [] ↦ codes "/"
  | x ∷ b ↦ x ∷ b
]

-- The decimal digits of a number, in front of `rest`; a number has at most as many as its value and one.
unfoldable pub digits : ℕ → ℕ → Bytes → Bytes
digits zero n rest = rest
digits (suc fuel) n rest =
    let more = digits fuel (n / 10) ((b'0' + n % 10) ∷ rest) in
    if ltb n 10 then (b'0' + n) ∷ rest else more

-- `%d`
unfoldable pub decimal : ℕ → Bytes
unfolding digits
decimal n = digits (suc n) n []

unfoldable pub decimal_ℤ : ℤ → Bytes
unfolding decimal
decimal_ℤ (pos n) = decimal n
decimal_ℤ (negsuc n) = b'-' ∷ decimal (suc n)

-- A digit of `%X`
abbrev hex_digit : ℕ → ℕ
hex_digit d = if ltb d 10 then b'0' + d else b'A' + (d - 10)

-- `%02X` on a byte
unfoldable pub hex_byte : ℕ → Bytes
hex_byte n = hex_digit (n / 16 % 16) ∷ hex_digit (n % 16) ∷ []

-- The digits of a number are read back to it.
pub digits_value-digits :
    (fuel n : ℕ) (rest : Bytes)
    → n < fuel
    → digits_value 0 (digits fuel n rest) ≡ digits_value n rest
unfolding digits digits_value
digits_value-digits zero n rest h = absurd (omega arith)
digits_value-digits (suc fuel) n rest h = elim (Bool-cases (ltb n 10)) [
  | inl small ↦
      let e : 0 * 10 + (b'0' + n - b'0') ≡ n = omega arith in
      rw small (ground (arith, ap (λ k. digits_value k rest) e))
  | inr big ↦
      let e : n / 10 * 10 + (b'0' + n % 10 - b'0') ≡ n = omega arith in
      rw big (
        digits_value-digits fuel (n / 10) ((b'0' + n % 10) ∷ rest) (ground arith)
        ∙ ground (arith, ap (λ k. digits_value k rest) e))
]
