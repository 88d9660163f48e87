-- ===== src/Realtime/Restore.antt =====
-- After `Run` the thread is as it was, and strict mode calls nothing on a thread that is not set up.
use drone_os.Base.{
  pos, ltb_ℤ, ◌≡◌, ◌≢◌, refl, sym, ap, ◌∙◌, inl, inr, Bool, true, false, none, some, if◌then◌else◌,
  Option-cases, Result-cases, ok,
}
use drone_os.Realtime.{Config}
use drone_os.Realtime.Runtime.{
  SystemCalls, ThreadState, setup_thread, scheduler_policy, to_uint32, schedule, pin, pinned, begun,
  scheduled,
}

-- What the manual pages say of the scheduling calls, for the scheduling attributes and the CPU set of
-- the calling thread: a call that reads returns them and changes neither, and a call that sets one
-- changes it only if it succeeds, and never the other. A call may set less than it was asked for, since
-- the kernel cuts a CPU set down to the CPUs that are present and in the cpuset; but what was read can be
-- set again as it is. `W` is the states of a system whose CPUs and cpusets stay as they are.
pub record IsKernel {W E A C : Type 0} (sys : SystemCalls W E A C) : Type 0 where
  pub attr_of : W → A
  pub cpus_of : W → C
  pub get_attr : (w : W) (a : A) → (sys.sched_get_attr w).0 ≡ ok a → a ≡ attr_of w
  pub get_attr_attr : (w : W) → attr_of (sys.sched_get_attr w).1 ≡ attr_of w
  pub get_attr_cpus : (w : W) → cpus_of (sys.sched_get_attr w).1 ≡ cpus_of w
  pub get_cpus : (w : W) (c : C) → (sys.sched_getaffinity w).0 ≡ ok c → c ≡ cpus_of w
  pub get_cpus_attr : (w : W) → attr_of (sys.sched_getaffinity w).1 ≡ attr_of w
  pub get_cpus_cpus : (w : W) → cpus_of (sys.sched_getaffinity w).1 ≡ cpus_of w
  pub set_attr :
      (a : A) (w₀ w : W)
      → (sys.sched_get_attr w₀).0 ≡ ok a
      → (sys.sched_set_attr a w).0 ≡ none
      → attr_of (sys.sched_set_attr a w).1 ≡ a
  pub set_attr_failed :
      (a : A) (w : W) (e : E)
      → (sys.sched_set_attr a w).0 ≡ some e
      → attr_of (sys.sched_set_attr a w).1 ≡ attr_of w
  pub set_attr_cpus : (a : A) (w : W) → cpus_of (sys.sched_set_attr a w).1 ≡ cpus_of w
  pub set_cpus :
      (c : C) (w₀ w : W)
      → (sys.sched_getaffinity w₀).0 ≡ ok c
      → (sys.sched_setaffinity c w).0 ≡ none
      → cpus_of (sys.sched_setaffinity c w).1 ≡ c
  pub set_cpus_failed :
      (c : C) (w : W) (e : E)
      → (sys.sched_setaffinity c w).0 ≡ some e
      → cpus_of (sys.sched_setaffinity c w).1 ≡ cpus_of w
  pub set_cpus_attr : (c : C) (w : W) → attr_of (sys.sched_setaffinity c w).1 ≡ attr_of w

true-ne-false : true ≢ false
true-ne-false e = cc

module _ {W E A C : Type 0} (sys : SystemCalls W E A C) (k : IsKernel sys) where
  open k use {attr_of, cpus_of}

  abbrev pub AttrRead : A → Type 0
  AttrRead a = (w : W) × ((sys.sched_get_attr w).0 ≡ ok a)

  abbrev pub CpusRead : C → Type 0
  CpusRead c = (w : W) × ((sys.sched_getaffinity w).0 ≡ ok c)

  -- What the thread state says of the thread, for the attributes `a` and the CPU set `c` it had.
  pub record Remembers (a : A) (c : C) (s : ThreadState A C) (w : W) : Type 0 where
    pub attr_kept : s.restore_scheduler ≡ true → (s.scheduler ≡ some a) × AttrRead a
    pub attr_unset : s.restore_scheduler ≡ false → attr_of w ≡ a
    pub cpus_kept : s.restore_affinity ≡ true → (s.affinity ≡ c) × CpusRead c
    pub cpus_unset : s.restore_affinity ≡ false → cpus_of w ≡ c

  module _ (a : A) (c : C) where
    -- The scheduler is set last, on a state that has its attributes.
    schedule-Remembers :
        (g : Config) (s : ThreadState A C) (w : W)
        → s.restore_scheduler ≡ false
        → s.scheduler ≡ some a
        → AttrRead a
        → Remembers a c s w
        → Remembers a c (schedule sys g s w).0 (schedule sys g s w).2
    unfolding schedule scheduled
    schedule-Remembers g s w unset has read r =
        let x = sys.attributes (scheduler_policy g) (to_uint32 g.priority) in
        elim (Option-cases (sys.sched_set_attr x w).0) [
          | inl e ↦ rw e (record {
            attr_kept = λ _. (has, read);
            attr_unset = λ h. cc;
            cpus_kept = r.cpus_kept;
            cpus_unset = λ h. k.set_attr_cpus x w ∙ r.cpus_unset h;
          })
          | inr (y, e) ↦ rw e (record {
            attr_kept = r.attr_kept;
            attr_unset = λ h. k.set_attr_failed x w y e ∙ r.attr_unset h;
            cpus_kept = r.cpus_kept;
            cpus_unset = λ h. k.set_attr_cpus x w ∙ r.cpus_unset h;
          })
        ]

    -- A state in which nothing was changed.
    record Untouched (s : ThreadState A C) (w : W) : Type 0 where
      has : s.scheduler ≡ some a
      read : AttrRead a
      attr_off : s.restore_scheduler ≡ false
      cpus_off : s.restore_affinity ≡ false
      attr : attr_of w ≡ a
      cpus : cpus_of w ≡ c

    Untouched-Remembers : (s : ThreadState A C) (w : W) → Untouched s w → Remembers a c s w
    Untouched-Remembers s w u = record {
      attr_kept = λ h. (u.has, u.read);
      attr_unset = λ h. u.attr;
      cpus_kept = λ h. absurd (true-ne-false (sym h ∙ u.cpus_off));
      cpus_unset = λ h. u.cpus;
    }

    pinned-Remembers :
        (g : Config) (s : ThreadState A C) (w : W)
        → CpusRead c
        → Untouched (record s { affinity = c }) w
        → Remembers a c
            (pinned sys g
              (record s { affinity = c })
              (sys.sched_setaffinity (sys.only_cpu g.cpu) w)).0
            (pinned sys g
              (record s { affinity = c })
              (sys.sched_setaffinity (sys.only_cpu g.cpu) w)).2
    unfolding pinned
    pinned-Remembers g s w read u =
        let x = sys.only_cpu g.cpu in
        elim (Option-cases (sys.sched_setaffinity x w).0) [
          | inr (y, e) ↦ rw e (
              Untouched-Remembers _ _ (record {
                has = u.has;
                read = u.read;
                attr_off = u.attr_off;
                cpus_off = u.cpus_off;
                attr = k.set_cpus_attr x w ∙ u.attr;
                cpus = k.set_cpus_failed x w y e ∙ u.cpus;
              }))
          | inl e ↦ rw e (
              schedule-Remembers g _ _ u.attr_off u.has u.read (record {
                attr_kept = λ h. (u.has, u.read);
                attr_unset = λ h. k.set_cpus_attr x w ∙ u.attr;
                cpus_kept = λ h. (refl, read);
                cpus_unset = λ h. cc;
              }))
        ]

    pin-Remembers :
        (g : Config) (s : ThreadState A C) (w : W)
        → Untouched s w
        → Remembers a c
            (pin sys g s (sys.sched_getaffinity w)).0
            (pin sys g s (sys.sched_getaffinity w)).2
    unfolding pin
    pin-Remembers g s w u =
        let w' = (sys.sched_getaffinity w).1 in
        let u' : Untouched s w' = record {
          has = u.has;
          read = u.read;
          attr_off = u.attr_off;
          cpus_off = u.cpus_off;
          attr = k.get_cpus_attr w ∙ u.attr;
          cpus = k.get_cpus_cpus w ∙ u.cpus;
        } in
        elim (Result-cases (sys.sched_getaffinity w).0) [
          | inr (y, e) ↦ rw e (Untouched-Remembers s w' u')
          | inl (d, e) ↦
              let same : d ≡ c = k.get_cpus w d e ∙ u.cpus in
              rw (e, same)
                (pinned-Remembers g s w' (w, e ∙ ap ok same)
                  (record {
                    has = u'.has;
                    read = u'.read;
                    attr_off = u'.attr_off;
                    cpus_off = u'.cpus_off;
                    attr = u'.attr;
                    cpus = u'.cpus;
                  }))
        ]

    -- Behind the first read of `setupThread`.
    chosen-Remembers :
        (g : Config) (s : ThreadState A C) (w : W) (b : Bool)
        → Untouched s w
        → let r = if b then schedule sys g s w else pin sys g s (sys.sched_getaffinity w) in
          Remembers a c r.0 r.2
    chosen-Remembers g s w true u =
        schedule-Remembers g s w u.attr_off u.has u.read (Untouched-Remembers s w u)
    chosen-Remembers g s w false u = pin-Remembers g s w u

  pub setup_thread-Remembers :
      (g : Config) (w : W)
      → Remembers (attr_of w) (cpus_of w) (setup_thread sys g w).0 (setup_thread sys g w).2
  unfolding setup_thread begun
  setup_thread-Remembers g w =
      let w' = (sys.sched_get_attr w).1 in
      elim (Result-cases (sys.sched_get_attr w).0) [
        | inr (y, e) ↦ rw e (record {
          attr_kept = λ h. absurd (true-ne-false (sym h));
          attr_unset = λ h. k.get_attr_attr w;
          cpus_kept = λ h. absurd (true-ne-false (sym h));
          cpus_unset = λ h. k.get_attr_cpus w;
        })
        | inl (x, e) ↦ rw e (
            chosen-Remembers (attr_of w) (cpus_of w) g _ w' (ltb_ℤ g.cpu (pos 0)) (record {
              has = ap some (k.get_attr w x e);
              read = (w, e ∙ ap ok (k.get_attr w x e));
              attr_off = refl;
              cpus_off = refl;
              attr = k.get_attr_attr w;
              cpus = k.get_attr_cpus w;
            }))
      ]
