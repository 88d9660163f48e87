-- ===== src/Startup/Gate/Tests.antt =====
-- A kernel that grants the scheduling that a strict configuration asks for.
use drone_os.Base.{refl, ℕ, ◌+◌, ◌*◌, pos, negsuc, true, none, codes, text_eq, Result, ok}
use drone_os.Realtime.{Config, policy_fifo, validate}
use drone_os.Realtime.Runtime.{
  SystemCalls, prepare, locked, run, on_thread, setup_thread, begun, schedule, scheduled,
  after_callback, restore, restore_sched, restore_cpus, set_back,
}
use drone_os.Realtime.Kernel.{KernelStatus, KernelError}
use drone_os.Startup.Gate.{
  new_runtime, kernel_gate, realtime_gate, after_validate, after_kernel, prepared_gate, preflighted,
  Passes, realtime_gate-Passes,
}

abbrev sys : SystemCalls ℕ ℕ ℕ ℕ
sys = record {
  attributes = λ policy priority. policy * 100 + priority;
  only_cpu = λ c. 2;
  no_cpus = 0;
  mlockall = λ w. (none, w);
  sched_get_attr = λ w. (ok w, w);
  sched_set_attr = λ a w. (none, a);
  sched_getaffinity = λ w. (ok 1, w);
  sched_setaffinity = λ c w. (none, w);
}

abbrev strict_fifo : Config
strict_fifo = record {
  enabled = true;
  strict = true;
  policy = policy_fifo;
  priority = pos 50;
  cpu = negsuc 0;
  mlock = true;
}

abbrev kernel : Result (KernelError ℕ) KernelStatus
kernel = ok (record { enabled = true; source = codes "/sys/kernel/realtime" })

realtime_gate-Passes_example : Passes sys strict_fifo kernel 7
realtime_gate-Passes_example =
    realtime_gate-Passes sys strict_fifo kernel 7 7
      (record (new_runtime strict_fifo) { prepared = true })
      (unfold realtime_gate after_validate after_kernel kernel_gate prepared_gate preflighted
          validate prepare locked run on_thread setup_thread begun schedule scheduled after_callback
          restore restore_sched restore_cpus set_back text_eq in
        refl)
