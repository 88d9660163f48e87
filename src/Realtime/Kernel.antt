-- ===== src/Realtime/Kernel.antt =====
-- Whether the kernel that runs is a real-time kernel: `detectKernelRealtime` and `kernelRelease`.
mod Tests
use drone_os.Base.{
  ℕ, ◌≡◌, ◌≢◌, refl, sym, ap, ◌∙◌, ◌⊎◌, inl, inr, ◌↔◌, Bool, true, false, ◌||◌, Option, none, some,
  List, [], ◌∷◌, ◌++◌, arith, ◌==◌, if◌then◌else◌, Bytes, codes, text_eq, text_eq_iff, one_of,
  trim_space, Result, ok, err, All, Bool-cases, Option-cases, Result-cases,
}

pub record KernelStatus : Type 0 where
  pub enabled : Bool
  pub source : Bytes

pub data KernelError (E : Type 0) : Type 0 where
  release_failed : E → KernelError E
  read_failed : Bytes → E → KernelError E

abbrev pub sysfs_path : Bytes
sysfs_path = codes "/sys/kernel/realtime"

-- `parseKernelRealtimeValue`; `none` is the error.
pub parse_kernel_realtime_value : Bytes → Option Bool
parse_kernel_realtime_value content =
    let value = trim_space content in
    if one_of value
      (codes "1" ∷ codes "y" ∷ codes "Y" ∷ codes "true" ∷ codes "TRUE" ∷ codes "True" ∷ [])
    then some true
    else if one_of value
        (codes "0" ∷ codes "n" ∷ codes "N" ∷ codes "false" ∷ codes "FALSE" ∷ codes "False" ∷ [])
    then some false
    else none

abbrev in_front : ℕ → List Bytes → List Bytes
in_front c [] = (c ∷ []) ∷ []
in_front c (l ∷ ls) = (c ∷ l) ∷ ls

-- strings.Split(s, "\n")
pub split_lines : Bytes → List Bytes
split_lines [] = [] ∷ []
split_lines (c ∷ s) = let rest = split_lines s in if c == 10 then [] ∷ rest else in_front c rest

abbrev pub preempt_rt : Bytes
preempt_rt = codes "CONFIG_PREEMPT_RT=y"

-- The loop over the lines.
pub has_preempt_rt : List Bytes → Bool
has_preempt_rt [] = false
has_preempt_rt (l ∷ ls) = text_eq (trim_space l) preempt_rt || has_preempt_rt ls

abbrev pub config_path : Bytes → Bytes
config_path release = codes "/boot/config-" ++ release

-- What sysfs says, if it can be read and understood.
pub sysfs_value : {E : Type 0} → Result E Bytes → Option Bool
unfolding parse_kernel_realtime_value
sysfs_value (err e) = none
sysfs_value (ok content) = parse_kernel_realtime_value content

module _ {E : Type 0} (read_file : Bytes → Result E Bytes) (release : Result E Bytes) where
  from_config : Bytes → Result E Bytes → Result (KernelError E) KernelStatus
  unfolding has_preempt_rt split_lines
  from_config path (err e) = err (read_failed path e)
  from_config path (ok content) =
      ok (record { enabled = has_preempt_rt (split_lines content); source = path })

  from_release : Result E Bytes → Result (KernelError E) KernelStatus
  unfolding from_config
  from_release (err e) = err (release_failed e)
  from_release (ok r) = from_config (config_path r) (read_file (config_path r))

  from_sysfs : Option Bool → Result (KernelError E) KernelStatus
  unfolding from_release
  from_sysfs (some b) = ok (record { enabled = b; source = sysfs_path })
  from_sysfs none = from_release release

  -- `detectKernelRealtime`
  pub detect_kernel_realtime : Result (KernelError E) KernelStatus
  unfolding from_sysfs sysfs_value
  detect_kernel_realtime = from_sysfs (sysfs_value (read_file sysfs_path))

pub data ReleaseError (E : Type 0) : Type 0 where
  uname_failed : E → ReleaseError E
  empty_release : ReleaseError E

-- The bytes of `name.Release` up to the first that is zero.
pub until_zero : Bytes → Bytes
until_zero [] = []
until_zero (c ∷ s) = if c == 0 then [] else c ∷ until_zero s

-- `kernelRelease`, for what `uname` answers.
pub kernel_release : {E : Type 0} → Result E Bytes → Result (ReleaseError E) Bytes
unfolding until_zero
kernel_release (err e) = err (uname_failed e)
kernel_release (ok field) =
    let r = until_zero field in if text_eq r [] then err empty_release else ok r

-- A byte string with no byte `n`.
abbrev pub Without : ℕ → Bytes → Type 0
Without n s = All (λ c. c ≢ n) s

until_zero-append : (a b : Bytes) → Without 0 a → until_zero (a ++ 0 ∷ b) ≡ a
unfolding until_zero
until_zero-append [] b h = refl
until_zero-append (c ∷ a) b (h, hs) = ground (arith, until_zero-append a b hs)

-- A release that is not empty and that `uname` stores as a C string is read back, whatever stands behind
-- its end.
pub kernel_release-c_string :
    {E : Type 0} (r rest : Bytes)
    → Without 0 r
    → r ≢ []
    → kernel_release {E = E} (ok (r ++ 0 ∷ rest)) ≡ ok r
unfolding kernel_release
kernel_release-c_string r rest h ne = ground (arith, until_zero-append r rest h, text_eq_iff r [])

-- The text of some lines, with a line feed between each two.
abbrev pub join_lines : Bytes → List Bytes → Bytes
join_lines l [] = l
join_lines l (m ∷ ms) = l ++ (10 ∷ join_lines m ms)

split_lines-one : (l : Bytes) → Without 10 l → split_lines l ≡ l ∷ []
unfolding split_lines
split_lines-one [] h = refl
split_lines-one (c ∷ l) (h, hs) =
    let e : (c == 10) ≡ false = ground arith in rw e (ap (in_front c) (split_lines-one l hs))

split_lines-append : (l s : Bytes) → Without 10 l → split_lines (l ++ (10 ∷ s)) ≡ l ∷ split_lines s
unfolding split_lines
split_lines-append [] s h = refl
split_lines-append (c ∷ l) s (h, hs) =
    let e : (c == 10) ≡ false = ground arith in rw e (ap (in_front c) (split_lines-append l s hs))

split_lines-join_lines :
    (l : Bytes) (ms : List Bytes)
    → All (Without 10) (l ∷ ms)
    → split_lines (join_lines l ms) ≡ l ∷ ms
split_lines-join_lines l [] (h, hs) = split_lines-one l h
split_lines-join_lines l (m ∷ ms) (h, hs) =
    split_lines-append l (join_lines m ms) h ∙ ap (◌∷◌ l) (split_lines-join_lines m ms hs)

-- Some line is `CONFIG_PREEMPT_RT=y`, up to blanks at its ends.
abbrev pub SomeSets : List Bytes → Type 0
SomeSets [] = ⊥
SomeSets (l ∷ ls) = (trim_space l ≡ preempt_rt) ⊎ SomeSets ls

has_preempt_rt_iff : (ls : List Bytes) → (has_preempt_rt ls ≡ true) ↔ SomeSets ls
unfolding has_preempt_rt
has_preempt_rt_iff [] = (λ e. cc, λ e. absurd e)
has_preempt_rt_iff (l ∷ ls) =
    ground (arith, text_eq_iff (trim_space l) preempt_rt, has_preempt_rt_iff ls)

-- Where sysfs does not say, and the release and its configuration file can be read, the kernel is a
-- real-time one exactly if a line of the file says so.
pub detect_kernel_realtime-SomeSets :
    {E : Type 0} (read_file : Bytes → Result E Bytes) (release : Result E Bytes) (r l : Bytes)
    (ms : List Bytes)
    → sysfs_value (read_file sysfs_path) ≡ none
    → release ≡ ok r
    → All (Without 10) (l ∷ ms)
    → read_file (config_path r) ≡ ok (join_lines l ms)
    → (s : KernelStatus) × (detect_kernel_realtime read_file release ≡ ok s)
      × ((s.enabled ≡ true) ↔ SomeSets (l ∷ ms))
      × (s.source ≡ config_path r)
unfolding detect_kernel_realtime
detect_kernel_realtime-SomeSets read_file release r l ms unknown rel lines content =
    let s : KernelStatus = record { enabled = has_preempt_rt (l ∷ ms); source = config_path r } in
    (s, ground (arith, split_lines-join_lines l ms lines), has_preempt_rt_iff (l ∷ ms), refl)
