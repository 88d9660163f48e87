-- ===== src/Scan/Detect/Values.antt =====
-- internal/drone/device_detect.go: the values under `config:` of a device, read as a number or a text.
use drone_os.Base.{
  ℕ, ◌-◌, ◌^◌, ltb, Option, none, some, List, [], if◌then◌else◌, ℤ, pos, negsuc, Bytes, text_eq,
  trim_space,
}
use drone_os.Protocol.Handlers.{find_function}

-- A value of the type `any`, by its dynamic type; `F` are the floating-point numbers.
pub data Value (F : Type 0) : Type 0 where
  nil_value other_value : Value F
  int_value int64_value : ℤ → Value F
  uint64_value : ℕ → Value F
  float_value : F → Value F
  text_value : Bytes → Value F

-- `int(v)` on a float64, and `strconv.ParseInt(s, 0, 64)`.
pub record Numbers (F : Type 0) : Type 0 where
  pub float_to_int : F → ℤ
  pub parse_int : Bytes → Option ℤ

-- `int(v)` on a uint64
unfoldable pub int_of_uint64 : ℕ → ℤ
int_of_uint64 n = if ltb n (2 ^ 63) then pos n else negsuc (2 ^ 64 - n - 1)

module _ {F : Type 0} (num : Numbers F) where
  -- The `switch` of `configInt`, with the fallback for a text that is blank or no number.
  unfoldable pub value_int : Value F → ℤ → ℤ
  unfolding int_of_uint64
  value_int nil_value fallback = fallback
  value_int other_value fallback = fallback
  value_int (int_value v) fallback = v
  value_int (int64_value v) fallback = v
  value_int (uint64_value v) fallback = int_of_uint64 v
  value_int (float_value v) fallback = num.float_to_int v
  value_int (text_value v) fallback =
      if text_eq (trim_space v) []
      then fallback
      else elim (num.parse_int (trim_space v)) [ none ↦ fallback | some parsed ↦ parsed ]

  unfoldable pub value_int_or : Option (Value F) → ℤ → ℤ
  unfolding value_int
  value_int_or none fallback = fallback
  value_int_or (some v) fallback = value_int v fallback

  unfoldable pub config_int : Option (List (Bytes × Value F)) → Bytes → ℤ → ℤ
  unfolding value_int_or find_function
  config_int none key fallback = fallback
  config_int (some values) key fallback = value_int_or (find_function key values) fallback

module _ {F : Type 0} where
  value_string : Option (Value F) → Bytes → Bytes
  value_string (some (text_value v)) fallback = if text_eq (trim_space v) [] then fallback else v
  value_string _ fallback = fallback

  unfoldable pub config_string : Option (List (Bytes × Value F)) → Bytes → Bytes → Bytes
  unfolding value_string find_function
  config_string none key fallback = fallback
  config_string (some values) key fallback = value_string (find_function key values) fallback
