-- ===== src/Realtime/Tests.antt =====
-- A kernel that keeps the scheduling attributes and the CPU set of one thread as two numbers, and cuts a CPU
-- set down to the number 15.
use drone_os.Base.{
  ℕ, ◌+◌, ◌*◌, min, arith, ◌≡◌, pos, negsuc, refl, true, false, none, some, List, [], ◌∷◌, Bytes,
  ok, text_eq, trim_space,
}
use drone_os.Realtime.{
  Config, policy_fifo, validate, parse_config, parse_bool, parse_policy, parse_int, validated,
  IsValid, parse_config-IsValid,
}
use drone_os.Realtime.Runtime.{
  RtError, callback_failed, SystemCalls, Runtime, setup_thread, begun, pin, pinned, schedule,
  scheduled, run, on_thread, after_callback, restore, restore_sched, restore_cpus, set_back,
}
use drone_os.Realtime.Restore.{IsKernel}
use drone_os.Realtime.Restored.{run_restores}

abbrev World : Type 0
World = ℕ × ℕ

abbrev sys : SystemCalls World ℕ ℕ ℕ
sys = record {
  attributes = λ policy priority. policy * 100 + priority;
  only_cpu = λ c. 2;
  no_cpus = 0;
  mlockall = λ w. (some 12, w);
  sched_get_attr = λ w. (ok w.0, w);
  sched_set_attr = λ a w. (none, (a, w.1));
  sched_getaffinity = λ w. (ok (min w.1 15), w);
  sched_setaffinity = λ c w. (none, (w.0, min c 15));
}

sys-IsKernel : IsKernel sys
sys-IsKernel = record {
  attr_of = λ w. w.0;
  cpus_of = λ w. min w.1 15;
  get_attr = λ w a h. cc;
  get_attr_attr = λ w. refl;
  get_attr_cpus = λ w. refl;
  get_cpus = λ w c h. cc;
  get_cpus_attr = λ w. refl;
  get_cpus_cpus = λ w. refl;
  set_attr = λ a w₀ w h k. refl;
  set_attr_failed = λ a w e h. absurd (cc h);
  set_attr_cpus = λ a w. refl;
  set_cpus = λ c w₀ w h k. let same : min w₀.1 15 ≡ c = cc in omega (arith, same);
  set_cpus_failed = λ c w e h. absurd (cc h);
  set_cpus_attr = λ c w. refl;
}

abbrev pinned_fifo : Config
pinned_fifo = record {
  enabled = true;
  strict = true;
  policy = policy_fifo;
  priority = pos 50;
  cpu = pos 1;
  mlock = true;
}

abbrev runtime : Runtime ℕ
runtime = record {
  config = pinned_fifo;
  has_report = true;
  prepared = false;
  prepare_err = [];
  reports = [];
}

-- A callback that fails.
abbrev callback : World → List (RtError ℕ) × World
callback w = (callback_failed 1 ∷ [], w)

run_restores_example :
    let o = run sys runtime (some callback) (7, 15) in (o.2.0 ≡ 7) × (min o.2.1 15 ≡ 15)
unfolding sys-IsKernel run
run_restores_example =
    run_restores sys sys-IsKernel runtime callback (7, 15) (λ w. (refl, refl))
      (unfold run on_thread setup_thread begun pin pinned schedule scheduled after_callback restore
          restore_sched restore_cpus set_back in
        (tt, tt))

abbrev no_environment : Bytes → Bytes
no_environment name = []

abbrev defaults : Config
defaults = record {
  enabled = false;
  strict = false;
  policy = policy_fifo;
  priority = pos 20;
  cpu = negsuc 0;
  mlock = false;
}

parse_config-IsValid_example : IsValid defaults
parse_config-IsValid_example = parse_config-IsValid no_environment (
    unfold parse_config parse_bool parse_policy parse_int validated validate trim_space text_eq in
    refl)
