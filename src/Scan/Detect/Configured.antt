-- ===== src/Scan/Detect/Configured.antt =====
-- What a number under `config:` is, without the order in which `configInt` looks for it.
use drone_os.Base.{
  ℕ, ◌-◌, ◌^◌, ◌<◌, ◌≤◌, ◌≡◌, ◌≢◌, inl, inr, arith, ltb, Bool-cases, Option-cases, Option, none,
  some, List, [], ◌∷◌, ℤ, pos, negsuc, Bytes, text_eq, text_eq_iff, trim_space,
}
use drone_os.Protocol.Handlers.{find_function}
use drone_os.Scan.Detect.Values.{
  Value, nil_value, other_value, int_value, int64_value, uint64_value, float_value, text_value,
  Numbers, int_of_uint64, value_int, value_int_or, config_int,
}

module _ {F : Type 0} where
  -- The first value under a key, or that there is none.
  pub data Under (key : Bytes) : List (Bytes × Value F) → Option (Value F) → Type 0 where
    missing : Under key [] none
    found : {v : Value F} {l : List (Bytes × Value F)} → Under key ((key, v) ∷ l) (some v)
    behind :
        {k : Bytes} {u : Value F} {o : Option (Value F)} {l : List (Bytes × Value F)}
        → k ≢ key
        → Under key l o
        → Under key ((k, u) ∷ l) o

  find_function-Under :
      (key : Bytes) (l : List (Bytes × Value F)) → Under key l (find_function key l)
  unfolding find_function
  find_function-Under key [] = missing
  find_function-Under key ((k, u) ∷ l) = elim (Bool-cases (text_eq k key)) [
    | inl e ↦ let same : k ≡ key = (text_eq_iff k key).0 e in rw e (rw same found)
    | inr e ↦ rw e (
        behind (λ same. let h = (text_eq_iff k key).1 same in absurd (cc (h, e)))
          (find_function-Under key l))
  ]

module _ {F : Type 0} (num : Numbers F) (fallback : ℤ) where
  -- The number that a value stands for, the fallback where it stands for none. A number of 64 bits without
  -- a sign wraps around.
  pub data Means : Option (Value F) → ℤ → Type 0 where
    absent : Means none fallback
    no_number : Means (some nil_value) fallback
    no_type : Means (some other_value) fallback
    plain : (n : ℤ) → Means (some (int_value n)) n
    wide : (n : ℤ) → Means (some (int64_value n)) n
    small : (n : ℕ) → n < 2 ^ 63 → Means (some (uint64_value n)) (pos n)
    large : (n : ℕ) → 2 ^ 63 ≤ n → Means (some (uint64_value n)) (negsuc (2 ^ 64 - n - 1))
    rounded : (f : F) → Means (some (float_value f)) (num.float_to_int f)
    blank : (s : Bytes) → trim_space s ≡ [] → Means (some (text_value s)) fallback
    unread :
        (s : Bytes) → num.parse_int (trim_space s) ≡ none → Means (some (text_value s)) fallback
    read :
        (s : Bytes) (n : ℤ)
        → trim_space s ≢ []
        → num.parse_int (trim_space s) ≡ some n
        → Means (some (text_value s)) n

  value_int_or-Means : (o : Option (Value F)) → Means o (value_int_or num o fallback)
  unfolding value_int_or value_int int_of_uint64
  value_int_or-Means none = absent
  value_int_or-Means (some nil_value) = no_number
  value_int_or-Means (some other_value) = no_type
  value_int_or-Means (some (int_value n)) = plain n
  value_int_or-Means (some (int64_value n)) = wide n
  value_int_or-Means (some (uint64_value n)) = elim (Bool-cases (ltb n (2 ^ 63))) [
    | inl e ↦ rw e (small n (ground arith))
    | inr e ↦ rw e (large n (ground arith))
  ]
  value_int_or-Means (some (float_value f)) = rounded f
  value_int_or-Means (some (text_value s)) = elim (Bool-cases (text_eq (trim_space s) [])) [
    | inl e ↦ rw e (blank s ((text_eq_iff (trim_space s) []).0 e))
    | inr e ↦ elim (Option-cases (num.parse_int (trim_space s))) [
      | inl k ↦ rw e (rw k (unread s k))
      | inr (n, k) ↦ rw e (
          rw k
            (read s n (λ z. let h = (text_eq_iff (trim_space s) []).1 z in absurd (cc (h, e))) k))
    ]
  ]

-- What the settings of a device say under a key; with no settings the fallback.
pub data Configured {F : Type 0} (num : Numbers F) (key : Bytes) (fallback : ℤ)
    : Option (List (Bytes × Value F)) → ℤ → Type 0 where
  unset : Configured num key fallback none fallback
  from_value :
      {l : List (Bytes × Value F)} {o : Option (Value F)} {n : ℤ}
      → Under key l o
      → Means num fallback o n
      → Configured num key fallback (some l) n

pub config_int-Configured :
    {F : Type 0} (num : Numbers F) (key : Bytes) (fallback : ℤ)
    (config : Option (List (Bytes × Value F)))
    → Configured num key fallback config (config_int num config key fallback)
unfolding config_int
config_int-Configured num key fallback none = unset
config_int-Configured num key fallback (some l) =
    from_value (find_function-Under key l) (value_int_or-Means num fallback (find_function key l))
