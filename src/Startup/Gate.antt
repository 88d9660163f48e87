-- ===== src/Startup/Gate.antt =====
-- cmd/drone/main.go: the checks of the real-time settings that `main` makes before it starts anything. What
-- the environment holds and what the kernel says of itself are given.
mod Tests
use drone_os.Base.{
  ◌≡◌, refl, sym, subst, ap, ◌∙◌, arith, inl, inr, Bool, true, false, not, ◌&&◌, Bool-cases, Option,
  none, some, Option-cases, List, [], ◌∷◌, if◌then◌else◌, Bytes, Result, ok, err, Result-cases,
}
use drone_os.Realtime.{Config, ConfigError, validate, validate_iff, IsValid}
use drone_os.Realtime.Runtime.{
  RtError, SystemCalls, Runtime, prepare, locked, report_error, run, setup_thread, on_thread,
  after_failed_setup, restore,
}
use drone_os.Realtime.Restored.{run_strict_failure}
use drone_os.Realtime.Granted.{Granted, setup_thread-Granted}
use drone_os.Realtime.Kernel.{KernelStatus, KernelError}

pub data StartError (E X : Type 0) : Type 0 where
  invalid_configuration : ConfigError → StartError E X
  kernel_unverified : KernelError X → StartError E X
  kernel_not_realtime : Bytes → StartError E X
  preparation_failed preflight_failed : List (RtError E) → StartError E X

-- `realtime.New` with a report.
abbrev pub new_runtime : {E : Type 0} → Config → Runtime E
new_runtime c = record {
  config = c;
  has_report = true;
  prepared = false;
  prepare_err = [];
  reports = [];
}

-- The test of the kernel's status.
pub kernel_gate :
    {E X : Type 0} → Config → Result (KernelError X) KernelStatus → Option (StartError E X)
kernel_gate c (err e) = if c.enabled && c.strict then some (kernel_unverified e) else none
kernel_gate c (ok s) =
    if c.enabled && (c.strict && not s.enabled) then some (kernel_not_realtime s.source) else none

abbrev Gate : Type 0 → Type 0 → Type 0 → Type 0
Gate W E X = Result (StartError E X) (Runtime E) × W

-- The callback that does nothing.
abbrev pub no_callback : {W E : Type 0} → W → List (RtError E) × W
no_callback w = ([], w)

preflighted : {W E X : Type 0} → List (RtError E) × Runtime E × W → Gate W E X
preflighted ([], r, w) = (ok r, w)
preflighted (e ∷ es, r, w) = (err (preflight_failed (e ∷ es)), w)

module _ {W E A C X : Type 0} (sys : SystemCalls W E A C) where
  prepared_gate : List (RtError E) × Runtime E × W → Gate W E X
  unfolding preflighted
  prepared_gate (e ∷ es, r, w) = (err (preparation_failed (e ∷ es)), w)
  prepared_gate ([], r, w) = preflighted (run sys r (some no_callback) w)

  after_kernel : Config → Option (StartError E X) → W → Gate W E X
  unfolding prepared_gate
  after_kernel c (some e) w = (err e, w)
  after_kernel c none w = prepared_gate (prepare sys (new_runtime c) w)

  after_validate :
      Config → Option ConfigError → Result (KernelError X) KernelStatus → W → Gate W E X
  unfolding after_kernel kernel_gate
  after_validate c (some e) kernel w = (err (invalid_configuration e), w)
  after_validate c none kernel w = after_kernel c (kernel_gate c kernel) w

  -- The runtime that `main` goes on with, or why it exits.
  pub realtime_gate :
      Result ConfigError Config → Result (KernelError X) KernelStatus → W → Gate W E X
  unfolding after_validate
  realtime_gate (err e) kernel w = (err (invalid_configuration e), w)
  realtime_gate (ok c) kernel w = after_validate c (validate c) kernel w

kernel_gate-realtime :
    {E X : Type 0} (c : Config) (k : Result (KernelError X) KernelStatus)
    → kernel_gate {E = E} c k ≡ none
    → c.enabled ≡ true
    → c.strict ≡ true
    → (s : KernelStatus) × (k ≡ ok s) × (s.enabled ≡ true)
unfolding kernel_gate
kernel_gate-realtime c (err e) h enabled strict = absurd (ground arith)
kernel_gate-realtime c (ok s) h enabled strict = (s, refl, ground arith)

preflighted-ok :
    {W E X : Type 0} (p : List (RtError E) × Runtime E × W) (r : Runtime E) (w' : W)
    → preflighted {X = X} p ≡ (ok r, w')
    → p.0 ≡ []
unfolding preflighted
preflighted-ok ([], r0, w) r w' h = refl
preflighted-ok (e ∷ es, r0, w) r w' h = absurd (cc (ap (λ p. p.0) h))

module _ {W E A C : Type 0} (sys : SystemCalls W E A C) where
  prepare-config : (c : Config) (w : W) → (prepare sys (new_runtime c) w).1.config ≡ c
  unfolding prepare report_error
  prepare-config c w = ground arith

  locked-none :
      (c : Config) (o : Option E × W)
      → (locked sys (new_runtime c) o).0 ≡ []
      → ((locked sys (new_runtime c) o).2 ≡ o.1) × (c.strict ≡ true → o.0 ≡ none)
  unfolding locked
  locked-none c (none, w) h = (refl, λ strict. refl)
  locked-none c (some e, w) h = elim (Bool-cases c.strict) [
    | inl strict ↦ absurd (let k = rw (strict, locked) at h in cc k)
    | inr lax ↦ (rw (lax, locked) refl, λ strict. absurd (cc (lax, strict)))
  ]

  prepare-locks :
      (c : Config) (w : W)
      → (prepare sys (new_runtime c) w).0 ≡ []
      → c.enabled ≡ true
      → c.mlock ≡ true
      → ((prepare sys (new_runtime c) w).2 ≡ (sys.mlockall w).1)
        × (c.strict ≡ true → (sys.mlockall w).0 ≡ none)
  unfolding prepare
  prepare-locks c w h enabled asked =
      let same : prepare sys (new_runtime c) w ≡ locked sys (new_runtime c) (sys.mlockall w) =
        ground arith in
      subst
        (λ (p : List (RtError E) × Runtime E × W).
          (p.2 ≡ (sys.mlockall w).1) × (c.strict ≡ true → (sys.mlockall w).0 ≡ none))
        (sym same) (locked-none c (sys.mlockall w) (ap (λ p. p.0) (sym same) ∙ h))

  strict_setup :
      (r : Runtime E) (c : Config) (w : W)
      → r.config ≡ c
      → (run sys r (some no_callback) w).0 ≡ []
      → c.enabled ≡ true
      → c.strict ≡ true
      → (setup_thread sys c w).1 ≡ none
  strict_setup r c w same clean enabled strict = elim (Option-cases (setup_thread sys c w).1) [
    | inl e ↦ e
    | inr (x, e) ↦
        let on : r.config.enabled ≡ true = ap (λ (k : Config). k.enabled) same ∙ enabled in
        let hard : r.config.strict ≡ true = ap (λ (k : Config). k.strict) same ∙ strict in
        let failed : (setup_thread sys r.config w).1 ≡ some x =
          ap (λ k. (setup_thread sys k w).1) same ∙ e in
        let (again, (errs, some_errs)) =
          run_strict_failure sys r no_callback no_callback w x on hard failed in
        absurd (cc (clean, some_errs))
  ]

module _ {W E A C X : Type 0} (sys : SystemCalls W E A C) where
  -- For a valid configuration: what lets the gate pass from a state of the system.
  abbrev pub Passes : Config → Result (KernelError X) KernelStatus → W → Type 0
  Passes c kernel w =
      let p = prepare sys (new_runtime c) w in
      IsValid c
      × (p.0 ≡ [])
      × (c.enabled ≡ true
          → c.mlock ≡ true
          → (p.2 ≡ (sys.mlockall w).1) × (c.strict ≡ true → (sys.mlockall w).0 ≡ none))
      × ((run sys p.1 (some no_callback) p.2).0 ≡ [])
      × (c.enabled ≡ true
          → c.strict ≡ true
          → ((s : KernelStatus) × (kernel ≡ ok s) × (s.enabled ≡ true)) × Granted sys c p.2)

  prepared_gate-ok :
      (p : List (RtError E) × Runtime E × W) (r : Runtime E) (w' : W)
      → prepared_gate {X = X} sys p ≡ (ok r, w')
      → (p.0 ≡ []) × ((run sys p.1 (some no_callback) p.2).0 ≡ [])
  unfolding prepared_gate
  prepared_gate-ok (e ∷ es, r0, w) r w' h = absurd (cc (ap (λ p. p.0) h))
  prepared_gate-ok ([], r0, w) r w' h =
      (refl, preflighted-ok (run sys r0 (some no_callback) w) r w' h)

  -- From a configuration that could be read, `main` goes on only if it is valid, `mlockall` was called where
  -- the configuration is enabled and asks for it, and in strict mode succeeded, and an empty callback ran
  -- with no error; and if the configuration is enabled and strict, only on a kernel that says that it is a
  -- real-time one, and that has granted the thread the CPU of the configuration, if it names one, and behind
  -- that its policy and priority.
  pub realtime_gate-Passes :
      (c : Config) (kernel : Result (KernelError X) KernelStatus) (w w' : W) (r : Runtime E)
      → realtime_gate sys (ok c) kernel w ≡ (ok r, w')
      → Passes c kernel w
  unfolding realtime_gate after_validate after_kernel
  realtime_gate-Passes c kernel w w' r h = elim (Option-cases (validate c)) [
    | inr (e, bad) ↦ absurd (cc (ap (λ p. p.0) h, bad))
    | inl fine ↦ elim (Option-cases (kernel_gate {E = E} c kernel)) [
      | inr (e, bad) ↦ absurd (
          cc (
            ap (λ p. p.0)
              (sym (
                  ap (λ o. after_validate sys c o kernel w) fine
                  ∙ ap (λ o. after_kernel sys c o w) bad)
                ∙ h)))
      | inl real ↦
          let p = prepare sys (new_runtime c) w in
          let gate : prepared_gate sys p ≡ (ok r, w') =
            sym (
              ap (λ o. after_validate sys c o kernel w) fine
              ∙ ap (λ o. after_kernel sys c o w) real)
            ∙ h in
          let (locked, ran) = prepared_gate-ok p r w' gate in
          (
            (validate_iff c).0 fine,
            locked,
            prepare-locks sys c w locked,
            ran,
            λ enabled strict. (
              kernel_gate-realtime c kernel real enabled strict,
              setup_thread-Granted sys c p.2 ((validate_iff c).0 fine)
                  (strict_setup sys p.1 c p.2 (prepare-config sys c w) ran enabled strict),
            ),
          )
    ]
  ]
