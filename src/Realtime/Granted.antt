-- ===== src/Realtime/Granted.antt =====
-- What the kernel has granted when the setup of the thread succeeds.
use drone_os.Base.{
  ◌≡◌, refl, subst, ap, inl, inr, arith, true, false, Bool-cases, none, some, Option-cases,
  if◌then◌else◌, ℕ, ℤ, pos, negsuc, ltb_ℤ, ◌≤ℤ◌, Option, Result, codes, text_eq, ok, err,
}
use drone_os.Realtime.{Config, IsValid}
use drone_os.Realtime.Runtime.{
  SystemCalls, ThreadState, setup_thread, begun, pin, pinned, schedule, scheduled, scheduler_policy,
  to_uint32,
}

small_priority : (p : ℤ) → pos 1 ≤ℤ p → p ≤ℤ pos 99 → (n : ℕ) × (p ≡ pos n) × (to_uint32 p ≡ n)
unfolding to_uint32
small_priority (pos n) low high = (n, refl, ground arith)
small_priority (negsuc n) low high = absurd (ground arith)

module _ {W E A C : Type 0} (sys : SystemCalls W E A C) where
  -- The attributes of the configuration were set in the state `w`; 1 is SCHED_FIFO and 2 is SCHED_RR.
  abbrev pub Sets : Config → W → Type 0
  Sets c w =
      (n : ℕ) × (c.priority ≡ pos n)
      × ((sys.sched_set_attr (sys.attributes (if text_eq c.policy (codes "rr") then 2 else 1) n)
            w).0
          ≡ none)

  -- With no CPU the attributes were set behind the reading of the old ones, else behind the setting of the CPU.
  pub data Granted (c : Config) (w : W) : Type 0 where
    anywhere : ltb_ℤ c.cpu (pos 0) ≡ true → Sets c (sys.sched_get_attr w).1 → Granted c w
    on_cpu :
        (w1 : W)
        → ltb_ℤ c.cpu (pos 0) ≡ false
        → w1 ≡ (sys.sched_getaffinity (sys.sched_get_attr w).1).1
        → (sys.sched_setaffinity (sys.only_cpu c.cpu) w1).0 ≡ none
        → Sets c (sys.sched_setaffinity (sys.only_cpu c.cpu) w1).1
        → Granted c w

  schedule-Sets :
      (c : Config) (s : ThreadState A C) (w : W)
      → IsValid c
      → (schedule sys c s w).1 ≡ none
      → Sets c w
  unfolding schedule scheduled scheduler_policy
  schedule-Sets c s w v h =
      let (n, same, low) = small_priority c.priority v.priority_min v.priority_max in
      let x =
        sys.attributes (if text_eq c.policy (codes "rr") then 2 else 1) (to_uint32 c.priority) in
      let granted : (sys.sched_set_attr x w).0 ≡ none =
        elim (Option-cases (sys.sched_set_attr x w).0) [
          | inl e ↦ e
          | inr (y, e) ↦ absurd (let k = rw (e, scheduled) at h in cc k)
        ] in
      (n, same, rw low at granted)

  pinned-Sets :
      (c : Config) (s : ThreadState A C) (o : Option E) (w : W)
      → IsValid c
      → (pinned sys c s (o, w)).1 ≡ none
      → (o ≡ none) × Sets c w
  unfolding pinned
  pinned-Sets c s (some e) w v h = absurd (cc h)
  pinned-Sets c s none w v h = (refl, schedule-Sets c _ w v h)

  pin-Granted :
      (c : Config) (s : ThreadState A C) (w : W) (r : Result E C × W)
      → IsValid c
      → ltb_ℤ c.cpu (pos 0) ≡ false
      → r.1 ≡ (sys.sched_getaffinity (sys.sched_get_attr w).1).1
      → (pin sys c s r).1 ≡ none
      → Granted c w
  unfolding pin
  pin-Granted c s w (err e, w1) v on_one same h = absurd (cc h)
  pin-Granted c s w (ok a, w1) v on_one same h =
      let o = sys.sched_setaffinity (sys.only_cpu c.cpu) w1 in
      let (set, sets) = pinned-Sets c (record s { affinity = a }) o.0 o.1 v h in
      on_cpu w1 on_one same set sets

  begun-Granted :
      (c : Config) (w : W) (r : Result E A × W)
      → IsValid c
      → r.1 ≡ (sys.sched_get_attr w).1
      → (begun sys c r).1 ≡ none
      → Granted c w
  unfolding begun
  begun-Granted c w (err e, w1) v same h = absurd (cc h)
  begun-Granted c w (ok a, w1) v same h = elim (Bool-cases (ltb_ℤ c.cpu (pos 0))) [
    | inl e ↦ anywhere e (subst (Sets c) same (schedule-Sets c _ w1 v (rw e at h)))
    | inr e ↦
        pin-Granted c _ w (sys.sched_getaffinity w1) v e
          (ap (λ w. (sys.sched_getaffinity w).1) same) (rw e at h)
  ]

  pub setup_thread-Granted :
      (c : Config) (w : W) → IsValid c → (setup_thread sys c w).1 ≡ none → Granted c w
  unfolding setup_thread
  setup_thread-Granted c w v h = begun-Granted c w (sys.sched_get_attr w) v refl h
