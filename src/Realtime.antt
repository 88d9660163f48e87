-- ===== src/Realtime.antt =====
-- internal/realtime/realtime_linux.go: the configuration of real-time execution.
pub mod Runtime
pub mod Restore
pub mod Restored
pub mod Granted
pub mod Kernel
mod Tests
use drone_os.Base.{
  ℕ, ◌≡◌, refl, ℤ, pos, negsuc, ◌≤ℤ◌, ltb_ℤ, Bool, true, false, ◌||◌, ◌⊎◌, ◌↔◌, inl, inr, Option,
  none, some, List, [], ◌∷◌, arith, if◌then◌else◌, Bool-cases, Option-cases, Bytes, codes, text_eq,
  text_eq_iff, trim_space, to_lower, atoi, parse_bool_text, Result, ok, err, ◌>>=◌, bind-eq-ok,
}

pub record Config : Type 0 where
  pub enabled : Bool
  pub strict : Bool
  pub policy : Bytes
  pub priority : ℤ
  pub cpu : ℤ
  pub mlock : Bool

pub data ConfigError : Type 0 where
  not_a_bool : Bytes → ConfigError
  bad_policy : Bytes → ConfigError
  priority_not_an_int priority_out_of_range cpu_not_an_int cpu_negative : ConfigError

abbrev pub policy_fifo : Bytes
policy_fifo = codes "fifo"

abbrev pub policy_rr : Bytes
policy_rr = codes "rr"

-- `none` is nil: the configuration can be applied.
unfoldable pub validate : Config → Option ConfigError
validate c =
    if text_eq c.policy policy_fifo || text_eq c.policy policy_rr
    then (if ltb_ℤ c.priority (pos 1) || ltb_ℤ (pos 99) c.priority
        then some priority_out_of_range
        else if ltb_ℤ c.cpu (negsuc 0)
        then some cpu_negative
        else none)
    else some (bad_policy c.policy)

module _ (getenv : Bytes → Bytes) where
  pub parse_bool : Bytes → Bool → Result ConfigError Bool
  parse_bool name default =
      let value = trim_space (getenv name) in
      if text_eq value []
      then ok default
      else elim (parse_bool_text value) [ none ↦ err (not_a_bool name) | some b ↦ ok b ]

  parse_policy : Bytes → Bytes
  parse_policy default =
      let value = trim_space (getenv (codes "DRONEOS_RT_POLICY")) in
      if text_eq value [] then default else to_lower value

  parse_int : Bytes → ConfigError → ℤ → Result ConfigError ℤ
  parse_int name e default =
      let value = trim_space (getenv name) in
      if text_eq value [] then ok default else elim (atoi value) [ none ↦ err e | some n ↦ ok n ]

  validated : Config → Option ConfigError → Result ConfigError Config
  validated c none = ok c
  validated c (some e) = err e

  pub parse_config : Result ConfigError Config
  unfolding parse_bool parse_policy parse_int validated
  parse_config = do
    enabled ← parse_bool (codes "DRONEOS_RT_ENABLE") false
    strict ← parse_bool (codes "DRONEOS_RT_STRICT") false
    mlock ← parse_bool (codes "DRONEOS_RT_MLOCK") false
    priority ← parse_int (codes "DRONEOS_RT_PRIORITY") priority_not_an_int (pos 20)
    cpu ← parse_int (codes "DRONEOS_RT_CPU") cpu_not_an_int (negsuc 0)
    let c : Config = record {
      enabled = enabled;
      strict = strict;
      policy = parse_policy policy_fifo;
      priority = priority;
      cpu = cpu;
      mlock = mlock;
    }
    validated c (validate c)

-- What the Linux scheduling calls accept.
pub record IsValid (c : Config) : Type 0 where
  pub policy : (c.policy ≡ policy_fifo) ⊎ (c.policy ≡ policy_rr)
  pub priority_min : pos 1 ≤ℤ c.priority
  pub priority_max : c.priority ≤ℤ pos 99
  pub cpu_min : negsuc 0 ≤ℤ c.cpu

validate_sound : (c : Config) → validate c ≡ none → IsValid c
unfolding validate
validate_sound c h =
    ground (arith, text_eq_iff c.policy policy_fifo, text_eq_iff c.policy policy_rr)

validate_complete : (c : Config) → IsValid c → validate c ≡ none
unfolding validate
validate_complete c v =
    ground (arith, text_eq_iff c.policy policy_fifo, text_eq_iff c.policy policy_rr)

-- `Validate` accepts exactly the configurations with these bounds.
pub validate_iff : (c : Config) → (validate c ≡ none) ↔ IsValid c
validate_iff c = (validate_sound c, validate_complete c)

validated-IsValid :
    (getenv : Bytes → Bytes) (c : Config) {d : Config}
    → validated getenv c (validate c) ≡ ok d
    → IsValid d
unfolding validated
validated-IsValid getenv c {d} h = elim (Option-cases (validate c)) [
  | inl e ↦ let same : c ≡ d = cc in rw (← same) (validate_sound c e)
  | inr (x, e) ↦ cc
]

-- Whatever the environment holds, a configuration that is loaded has the policy FIFO or RR, a priority from
-- 1 to 99, and a CPU of at least -1.
pub parse_config-IsValid :
    (getenv : Bytes → Bytes) {c : Config} → parse_config getenv ≡ ok c → IsValid c
unfolding parse_config
parse_config-IsValid getenv h =
    let (a, _, h1) = bind-eq-ok (parse_bool getenv (codes "DRONEOS_RT_ENABLE") false) _ h in
    let (b, _, h2) = bind-eq-ok (parse_bool getenv (codes "DRONEOS_RT_STRICT") false) _ h1 in
    let (m, _, h3) = bind-eq-ok (parse_bool getenv (codes "DRONEOS_RT_MLOCK") false) _ h2 in
    let (p, _, h4) =
      bind-eq-ok (parse_int getenv (codes "DRONEOS_RT_PRIORITY") priority_not_an_int (pos 20)) _
        h3 in
    let (u, _, h5) =
      bind-eq-ok (parse_int getenv (codes "DRONEOS_RT_CPU") cpu_not_an_int (negsuc 0)) _ h4 in
    validated-IsValid getenv _ h5
