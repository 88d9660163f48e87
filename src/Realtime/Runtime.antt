-- ===== src/Realtime/Runtime.antt =====
-- `Runtime`: preparation and the runs of callbacks. The operating system is a state `W` that the system
-- calls change; an error value is the list of the errors that it joins, and nil is the empty list.
use drone_os.Base.{
  ℕ, ◌-◌, ◌%◌, ◌^◌, ℤ, pos, negsuc, ltb_ℤ, Bool, true, false, not, ◌||◌, Option, none, some, List,
  [], ◌∷◌, ◌++◌, if◌then◌else◌, text_eq, Result, ok, err,
}
use drone_os.Realtime.{Config, policy_rr}

pub data RtError (E : Type 0) : Type 0 where
  mlock_failed read_scheduler read_affinity set_affinity set_scheduler : E → RtError E
  restore_scheduler_failed restore_affinity_failed : E → RtError E
  callback_failed : E → RtError E
  callback_is_nil : RtError E

-- The scheduling attributes `A` and CPU sets `C` of golang.org/x/sys/unix, and the calls that take them.
pub record SystemCalls (W E A C : Type 0) : Type 0 where
  pub attributes : ℕ → ℕ → A
  pub only_cpu : ℤ → C
  pub no_cpus : C
  pub mlockall : W → Option E × W
  pub sched_get_attr : W → Result E A × W
  pub sched_set_attr : A → W → Option E × W
  pub sched_getaffinity : W → Result E C × W
  pub sched_setaffinity : C → W → Option E × W

-- `prepared` is the state of `prepareOnce`; `reports` are the errors handed to the report callback,
-- if there is one.
pub record Runtime (E : Type 0) : Type 0 where
  pub config : Config
  pub has_report : Bool
  pub prepared : Bool
  pub prepare_err : List (RtError E)
  pub reports : List (List (RtError E))

pub record ThreadState (A C : Type 0) : Type 0 where
  pub scheduler : Option A
  pub affinity : C
  pub restore_scheduler : Bool
  pub restore_affinity : Bool

unfoldable pub report_error : {E : Type 0} → Runtime E → List (RtError E) → Runtime E
report_error r e = if r.has_report then record r { reports = r.reports ++ e ∷ [] } else r

-- Under the test that an error is not nil.
abbrev pub report_failure : {E : Type 0} → Runtime E → List (RtError E) → Runtime E
report_failure r [] = r
report_failure r (e ∷ es) = report_error r (e ∷ es)

-- SCHED_FIFO and SCHED_RR
unfoldable pub scheduler_policy : Config → ℕ
scheduler_policy c = if text_eq c.policy policy_rr then 2 else 1

-- The conversion `uint32(n)`.
unfoldable pub to_uint32 : ℤ → ℕ
to_uint32 (pos n) = n % 2 ^ 32
to_uint32 (negsuc n) = 2 ^ 32 - 1 - n % 2 ^ 32

module _ {W E A C : Type 0} (sys : SystemCalls W E A C) where
  unfoldable pub locked : Runtime E → Option E × W → List (RtError E) × Runtime E × W
  locked r (none, w) = ([], record r { prepared = true }, w)
  locked r (some e, w) =
      if r.config.strict
      then (mlock_failed e ∷ [], record r { prepared = true; prepare_err = mlock_failed e ∷ [] }, w)
      else (
        [],
        record (report_error r (mlock_failed e ∷ [])) { prepared = true; prepare_err = [] },
        w,
      )

  -- `Prepare`: the function under `prepareOnce` runs at most once.
  unfoldable pub prepare : Runtime E → W → List (RtError E) × Runtime E × W
  unfolding locked
  prepare r w =
      if not r.config.enabled || not r.config.mlock
      then ([], r, w)
      else if r.prepared
      then (r.prepare_err, r, w)
      else locked r (sys.mlockall w)

  abbrev Setup : Type 0
  Setup = ThreadState A C × Option (RtError E) × W

  unfoldable pub scheduled : ThreadState A C → Option E × W → Setup
  scheduled s (some e, w) = (s, some (set_scheduler e), w)
  scheduled s (none, w) = (record s { restore_scheduler = true }, none, w)

  unfoldable pub schedule : Config → ThreadState A C → W → Setup
  unfolding scheduled
  schedule c s w =
      scheduled s
        (sys.sched_set_attr (sys.attributes (scheduler_policy c) (to_uint32 c.priority)) w)

  unfoldable pub pinned : Config → ThreadState A C → Option E × W → Setup
  unfolding schedule
  pinned c s (some e, w) = (s, some (set_affinity e), w)
  pinned c s (none, w) = schedule c (record s { restore_affinity = true }) w

  unfoldable pub pin : Config → ThreadState A C → Result E C × W → Setup
  unfolding pinned
  pin c s (err e, w) = (s, some (read_affinity e), w)
  pin c s (ok a, w) =
      pinned c (record s { affinity = a }) (sys.sched_setaffinity (sys.only_cpu c.cpu) w)

  unfoldable pub begun : Config → Result E A × W → Setup
  unfolding pin schedule
  begun c (err e, w) = (
    record {
      scheduler = none;
      affinity = sys.no_cpus;
      restore_scheduler = false;
      restore_affinity = false;
    },
    some (read_scheduler e),
    w,
  )
  begun c (ok a, w) =
      let s : ThreadState A C = record {
        scheduler = some a;
        affinity = sys.no_cpus;
        restore_scheduler = false;
        restore_affinity = false;
      } in
      if ltb_ℤ c.cpu (pos 0) then schedule c s w else pin c s (sys.sched_getaffinity w)

  unfoldable pub setup_thread : Config → W → Setup
  unfolding begun
  setup_thread c w = begun c (sys.sched_get_attr w)

  abbrev pub failure : (E → RtError E) → Option E → List (RtError E)
  failure f none = []
  failure f (some e) = f e ∷ []

  -- `schedSetAttr` is given the pointer that was read; it is set wherever `restore_scheduler` is.
  unfoldable pub set_back : Option A → W → Option E × W
  set_back none w = (none, w)
  set_back (some a) w = sys.sched_set_attr a w

  unfoldable pub restore_sched : ThreadState A C → W → List (RtError E) × W
  unfolding set_back
  restore_sched s w =
      if s.restore_scheduler
      then (let (o, w') = set_back s.scheduler w in (failure restore_scheduler_failed o, w'))
      else ([], w)

  unfoldable pub restore_cpus : ThreadState A C → W → List (RtError E) × W
  restore_cpus s w =
      if s.restore_affinity
      then (let (o, w') = sys.sched_setaffinity s.affinity w in
          (failure restore_affinity_failed o, w'))
      else ([], w)

  unfoldable pub restore : ThreadState A C → W → List (RtError E) × W
  unfolding restore_sched restore_cpus
  restore s w = let (e, w') = restore_sched s w in let (f, w'') = restore_cpus s w' in (e ++ f, w'')

  abbrev Callback : Type 0
  Callback = W → List (RtError E) × W

  unfoldable pub after_failed_setup :
      Runtime E → RtError E → Callback → List (RtError E) × W → List (RtError E) × Runtime E × W
  after_failed_setup r e callback (restore_err, w) =
      if r.config.strict
      then (e ∷ restore_err, r, w)
      else (let (callback_err, w') = callback w in
          (callback_err ++ restore_err, report_failure (report_error r (e ∷ [])) restore_err, w'))

  unfoldable pub after_callback :
      Runtime E → List (RtError E) → List (RtError E) × W → List (RtError E) × Runtime E × W
  after_callback r callback_err (restore_err, w) = (
    callback_err ++ restore_err,
    (if r.config.strict then r else report_failure r restore_err),
    w,
  )

  unfoldable pub on_thread : Runtime E → Callback → Setup → List (RtError E) × Runtime E × W
  unfolding after_failed_setup after_callback
  on_thread r callback (s, some e, w) = after_failed_setup r e callback (restore s w)
  on_thread r callback (s, none, w) =
      let (callback_err, w') = callback w in after_callback r callback_err (restore s w')

  -- `Run`; a missing callback is nil.
  unfoldable pub run : Runtime E → Option Callback → W → List (RtError E) × Runtime E × W
  unfolding on_thread
  run r none w = (callback_is_nil ∷ [], r, w)
  run r (some callback) w =
      if not r.config.enabled
      then (let (e, w') = callback w in (e, r, w'))
      else on_thread r callback (setup_thread r.config w)
