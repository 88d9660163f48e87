-- ===== src/Realtime/Restored.antt =====
-- What `Run` promises of the thread and of its callback.
use drone_os.Base.{
  ◌≡◌, refl, ◌∙◌, inl, inr, Bool, true, false, not, Option, none, some, List, [], ◌∷◌, ◌++◌, arith,
  if◌then◌else◌, Bool-cases, Option-cases, All,
}
use drone_os.Realtime.Runtime.{
  RtError, restore_scheduler_failed, restore_affinity_failed, SystemCalls, Runtime, ThreadState,
  setup_thread, restore, prepare, run, set_back, restore_sched, restore_cpus, on_thread,
  after_callback, after_failed_setup, report_error,
}
use drone_os.Realtime.Restore.{IsKernel, Remembers, CpusRead, setup_thread-Remembers}

-- An error other than one of restoring the thread.
abbrev pub IsOther : {E : Type 0} → RtError E → Type 0
IsOther (restore_scheduler_failed e) = ⊥
IsOther (restore_affinity_failed e) = ⊥
IsOther _ = Unit {0}

All-append_right : {E : Type 0} (xs ys : List (RtError E)) → All IsOther (xs ++ ys) → All IsOther ys
All-append_right [] ys h = h
All-append_right (x ∷ xs) ys h = All-append_right xs ys h.1

All-append_left : {E : Type 0} (xs ys : List (RtError E)) → All IsOther (xs ++ ys) → All IsOther xs
All-append_left [] ys h = tt
All-append_left (x ∷ xs) ys h = (h.0, All-append_left xs ys h.1)

module _ {W E A C : Type 0} (sys : SystemCalls W E A C) (k : IsKernel sys) where
  open k use {attr_of, cpus_of}

  module _ (a : A) (c : C) where
    restore_sched-attr :
        (s : ThreadState A C) (w : W)
        → Remembers sys k a c s w
        → All IsOther (restore_sched sys s w).0
        → (attr_of (restore_sched sys s w).1 ≡ a) × (cpus_of (restore_sched sys s w).1 ≡ cpus_of w)
    unfolding restore_sched set_back
    restore_sched-attr s w r clean = elim (Bool-cases s.restore_scheduler) [
      | inr off ↦ rw (off, restore_sched) (r.attr_unset off, refl)
      | inl on ↦
          let (has, (w₀, read)) = r.attr_kept on in
          elim (Option-cases (sys.sched_set_attr a w).0) [
            | inl e ↦
                rw (on, restore_sched)
                  (rw (has, set_back) (k.set_attr a w₀ w read e, k.set_attr_cpus a w))
            | inr (y, e) ↦ absurd (ground (arith, clean))
          ]
    ]

    restore_cpus-cpus :
        (s : ThreadState A C) (w : W)
        → (s.restore_affinity ≡ true → (s.affinity ≡ c) × CpusRead sys k c)
        → (s.restore_affinity ≡ false → cpus_of w ≡ c)
        → All IsOther (restore_cpus sys s w).0
        → (cpus_of (restore_cpus sys s w).1 ≡ c) × (attr_of (restore_cpus sys s w).1 ≡ attr_of w)
    unfolding restore_cpus
    restore_cpus-cpus s w kept unset clean = elim (Bool-cases s.restore_affinity) [
      | inr off ↦ rw (off, restore_cpus) (unset off, refl)
      | inl on ↦
          let (has, (w₀, read)) = kept on in
          elim (Option-cases (sys.sched_setaffinity c w).0) [
            | inl e ↦ rw (on, restore_cpus) (rw has (k.set_cpus c w₀ w read e, k.set_cpus_attr c w))
            | inr (y, e) ↦ absurd (ground (arith, clean))
          ]
    ]

    restore_lem :
        (s : ThreadState A C) (w : W)
        → Remembers sys k a c s w
        → All IsOther (restore sys s w).0
        → (attr_of (restore sys s w).1 ≡ a) × (cpus_of (restore sys s w).1 ≡ c)
    unfolding restore
    restore_lem s w r clean =
        let (es, w') = restore_sched sys s w in
        let (attr, same) = restore_sched-attr s w r (All-append_left es _ clean) in
        let (cpus, attr') =
          restore_cpus-cpus s w' r.cpus_kept (λ h. same ∙ r.cpus_unset h)
            (All-append_right es _ clean) in
        (attr' ∙ attr, cpus)

  -- A callback that leaves the thread's scheduling alone.
  abbrev pub Behaves : (W → List (RtError E) × W) → Type 0
  Behaves f = (w : W) → (attr_of (f w).1 ≡ attr_of w) × (cpus_of (f w).1 ≡ cpus_of w)

  Remembers-callback :
      (a : A) (c : C) (s : ThreadState A C) (f : W → List (RtError E) × W) (w : W)
      → Behaves f
      → Remembers sys k a c s w
      → Remembers sys k a c s (f w).1
  Remembers-callback a c s f w b r = record {
    attr_kept = r.attr_kept;
    attr_unset = λ h. (b w).0 ∙ r.attr_unset h;
    cpus_kept = r.cpus_kept;
    cpus_unset = λ h. (b w).1 ∙ r.cpus_unset h;
  }

  on_thread-restores :
      (r : Runtime E) (f : W → List (RtError E) × W) (s : ThreadState A C) (o : Option (RtError E))
      (w : W) (a : A) (c : C)
      → Behaves f
      → Remembers sys k a c s w
      → All IsOther (on_thread sys r f (s, o, w)).0
      → (attr_of (on_thread sys r f (s, o, w)).2 ≡ a)
        × (cpus_of (on_thread sys r f (s, o, w)).2 ≡ c)
  unfolding on_thread after_callback after_failed_setup
  on_thread-restores r f s none w a c b m clean =
      restore_lem a c s (f w).1 (Remembers-callback a c s f w b m)
        (All-append_right (f w).0 (restore sys s (f w).1).0 clean)
  on_thread-restores r f s (some e) w a c b m clean = elim (Bool-cases r.config.strict) [
    | inl strict ↦
        rw (strict, after_failed_setup)
          (restore_lem a c s w m ((rw (strict, after_failed_setup) at clean).1))
    | inr lax ↦
        let clean' : All IsOther ((f (restore sys s w).1).0 ++ (restore sys s w).0) =
          rw lax at clean in
        let (attr, cpus) =
          restore_lem a c s w m (All-append_right (f (restore sys s w).1).0 _ clean') in
        rw (lax, after_failed_setup) ((b _).0 ∙ attr, (b _).1 ∙ cpus)
  ]

  chosen-restores :
      (r : Runtime E) (f : W → List (RtError E) × W) (w : W) (enabled : Bool)
      → Behaves f
      → let (e, w') = f w in
        let o : List (RtError E) × Runtime E × W =
          if not enabled then (e, r, w') else on_thread sys r f (setup_thread sys r.config w) in
        All IsOther o.0 → (attr_of o.2 ≡ attr_of w) × (cpus_of o.2 ≡ cpus_of w)
  chosen-restores r f w false b clean = b w
  chosen-restores r f w true b clean =
      let (s, o, w') = setup_thread sys r.config w in
      on_thread-restores r f s o w' (attr_of w) (cpus_of w) b
        (setup_thread-Remembers sys k r.config w) clean

  -- With a kernel that does what its manual says, on a system whose CPUs and cpusets stay as they are, whether
  -- the setup succeeds or fails at any of its calls, in strict mode and not: if no error of `Run` is one of restoring the thread, and the callback leaves the thread's scheduling alone, the thread has
  -- the scheduling attributes and the CPU set that it had before.
  pub run_restores :
      (r : Runtime E) (f : W → List (RtError E) × W) (w : W)
      → Behaves f
      → All IsOther (run sys r (some f) w).0
      → (attr_of (run sys r (some f) w).2 ≡ attr_of w)
        × (cpus_of (run sys r (some f) w).2 ≡ cpus_of w)
  unfolding run
  run_restores r f w b clean = chosen-restores r f w r.config.enabled b clean

module _ {W E A C : Type 0} (sys : SystemCalls W E A C) where
  -- In strict mode a run whose setup fails is the same for every callback: none is called, and the error
  -- of the setup comes first.
  pub run_strict_failure :
      (r : Runtime E) (f g : W → List (RtError E) × W) (w : W) (e : RtError E)
      → r.config.enabled ≡ true
      → r.config.strict ≡ true
      → (setup_thread sys r.config w).1 ≡ some e
      → (run sys r (some f) w ≡ run sys r (some g) w)
        × ((errs : List (RtError E)) × ((run sys r (some f) w).0 ≡ e ∷ errs))
  unfolding run on_thread after_failed_setup
  run_strict_failure r f g w e on strict failed = (
    ground arith,
    ((restore sys (setup_thread sys r.config w).0 (setup_thread sys r.config w).2).0, ground arith),
  )

  -- Preparation is done once: on a runtime that has no error before it is prepared, a second call changes nothing and returns the error of the first.
  pub prepare_twice :
      (r : Runtime E) (w : W)
      → (r.prepared ≡ false → r.prepare_err ≡ [])
      → let (errs, r', w') = prepare sys r w in prepare sys r' w' ≡ (errs, r', w')
  unfolding prepare report_error
  prepare_twice r w fresh = ground arith

  -- Only strict mode fails to prepare, unless it had failed before.
  pub prepare_lax :
      (r : Runtime E) (w : W)
      → r.config.strict ≡ false
      → r.prepare_err ≡ []
      → (prepare sys r w).0 ≡ []
  unfolding prepare
  prepare_lax r w lax clean = ground arith
