-- ===== src/Base/Numbers.antt =====
-- `strconv.Atoi` and `strconv.ParseBool`.
use Prim.Native.Nat.{ℕ, ◌+◌, ◌-◌, ◌*◌, ◌^◌, ◌≤◌, ◌<◌}
use mathlib.Core.Path.{◌≡◌, refl}
use native.Mathlib.Omega.{arith}
use mathlib.Core.Bool.{Bool, true, false, ◌&&◌}
use mathlib.Core.List.{[], ◌∷◌}
use mathlib.Core.Option.{Option, none, some}
use package.drone_os.Base.Tests.{leb, ◌==◌, if◌then◌else◌}
use package.drone_os.Base.Int.{ℤ, pos, negsuc}
use package.drone_os.Base.Text.{Bytes, codes, one_of}

-- The value of decimal digits behind `n`; `none` at a byte that is no digit.
unfoldable pub digits_value : ℕ → Bytes → Option ℕ
digits_value n [] = some n
digits_value n (c ∷ s) =
    let rest = digits_value (n * 10 + (c - b'0')) s in
    if leb b'0' c && leb c b'9' then rest else none

abbrev max_int64 : ℕ
max_int64 = 2 ^ 63 - 1

-- `int` has 64 bits.
signed : Bool → Option ℕ → Option ℤ
signed minus none = none
signed true (some n) =
    if n == 0 then some (pos 0) else if leb n (max_int64 + 1) then some (negsuc (n - 1)) else none
signed false (some n) = if leb n max_int64 then some (pos n) else none

unsigned : Bool → Bytes → Option ℤ
unfolding signed digits_value
unsigned minus [] = none
unsigned minus (c ∷ s) = signed minus (digits_value 0 (c ∷ s))

unfoldable pub atoi : Bytes → Option ℤ
unfolding unsigned
atoi [] = none
atoi (c ∷ s) =
    if c == b'-'
    then unsigned true s
    else if c == b'+'
    then unsigned false s
    else unsigned false (c ∷ s)

-- Digits with no sign are read as the number.
pub atoi_digits :
    (c : ℕ) (s : Bytes) (n : ℕ)
    → b'0' ≤ c
    → c ≤ b'9'
    → digits_value 0 (c ∷ s) ≡ some n
    → n < 2 ^ 63
    → atoi (c ∷ s) ≡ some (pos n)
unfolding atoi unsigned signed
atoi_digits c s n lo hi v small =
    let minus : (c == b'-') ≡ false = ground arith in
    let plus : (c == b'+') ≡ false = ground arith in
    let fits : leb n (2 ^ 63 - 1) ≡ true = ground arith in rw (minus, plus, v, fits) refl

unfoldable pub parse_bool_text : Bytes → Option Bool
unfolding one_of
parse_bool_text s =
    if one_of s
      (codes "1" ∷ codes "t" ∷ codes "T" ∷ codes "true" ∷ codes "TRUE" ∷ codes "True" ∷ [])
    then some true
    else if one_of s
        (codes "0" ∷ codes "f" ∷ codes "F" ∷ codes "false" ∷ codes "FALSE" ∷ codes "False" ∷ [])
    then some false
    else none
