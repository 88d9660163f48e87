-- ===== src/Control/Exclusion.antt =====
-- Any number of goroutines that lock and unlock, in any order of their steps.
use drone_os.Base.{
  ℕ, suc, ◌≤◌, ◌<◌, ℤ, pos, eq_ℤ, eq_ℤ_iff, ◌≡◌, ◌≢◌, refl, sym, ap, ◌∙◌, inl, inr, Bool, true,
  false, Option, none, some, List, [], ◌∷◌, ◌++◌, append_assoc, append-nil, length, length-append,
  arith, Bool-cases,
}
use drone_os.Control.{PriorityMutex, new_priority_mutex, lock, unlock}
use drone_os.Control.Order.{update_self, update_ne, NoneWait, Unlocks, frees, wakes, unlock-Unlocks}

-- The mutex and the goroutines whose `Lock` has returned and that have not called `Unlock` since.
pub record System : Type 0 where
  pub mutex : PriorityMutex
  pub holders : List ℕ

abbrev grant : Bool → ℕ → List ℕ → List ℕ
grant true t hs = t ∷ hs
grant false t hs = hs

abbrev woken : Option ℕ → List ℕ → List ℕ
woken (some t) hs = t ∷ hs
woken none hs = hs

-- A goroutine calls `Lock`; a holder calls `Unlock`, and the goroutine whose channel is closed returns
-- from its `Lock`.
pub data Step : System → System → Type 0 where
  locks :
      (s : System) (t : ℕ) (p : ℤ)
      → Step s (record {
        mutex = (lock s.mutex p t).0;
        holders = grant (lock s.mutex p t).1 t s.holders;
      })
  unlocks :
      (s : System) (before : List ℕ) (t : ℕ) (after : List ℕ)
      → s.holders ≡ before ++ t ∷ after
      → Step s (record {
        mutex = (unlock s.mutex).0;
        holders = woken (unlock s.mutex).1 (before ++ after);
      })

pub data Reach (s : System) : System → Type 0 where
  here : Reach s s
  next : {t u : System} → Reach s t → Step t u → Reach s u

abbrev pub start : System
start = record { mutex = new_priority_mutex; holders = [] }

abbrev count : Bool → ℕ
count true = 1
count false = 0

-- The lock is taken exactly if one goroutine holds it, and it is free only if none waits for it at one
-- of the priorities that `Unlock` looks at.
pub record IsSafe (s : System) : Type 0 where
  pub held : length s.holders ≡ count s.mutex.is_locked
  pub served : s.mutex.is_locked ≡ false → NoneWait s.mutex.wait_queue 1 11

start-IsSafe : IsSafe start
unfolding new_priority_mutex
start-IsSafe = record { held = refl; served = λ free p le lt. refl }

Unlocks-IsSafe :
    (s : System) (rest : List ℕ) (r : PriorityMutex × Option ℕ)
    → length rest ≡ 0
    → Unlocks s.mutex.wait_queue 1 11 r
    → IsSafe (record { mutex = r.0; holders = woken r.1 rest })
Unlocks-IsSafe s rest r none_left (frees _ e none_wait) =
    rw e (record { held = none_left; served = λ free. none_wait })
Unlocks-IsSafe s rest r none_left (wakes _ p ch more le lt none_wait first e) =
    rw e (record { held = ap suc none_left; served = λ taken. cc })

locks-IsSafe :
    (s : System) (t : ℕ) (p : ℤ)
    → IsSafe s
    → IsSafe
        (record { mutex = (lock s.mutex p t).0; holders = grant (lock s.mutex p t).1 t s.holders })
unfolding lock
locks-IsSafe s t p f = elim (Bool-cases s.mutex.is_locked) [
  | inl taken ↦ rw (taken, lock) (record { held = f.held ∙ ap count taken; served = λ free. cc })
  | inr free ↦
      rw (free, lock) (record { held = ap suc (f.held ∙ ap count free); served = λ taken. cc })
]

count-le : (b : Bool) → count b ≤ 1
count-le true = omega arith
count-le false = omega arith

Step-IsSafe : {s t : System} → Step s t → IsSafe s → IsSafe t
Step-IsSafe (locks s t p) f = locks-IsSafe s t p f
Step-IsSafe (unlocks s before t after e) f =
    Unlocks-IsSafe s (before ++ after) (unlock s.mutex)
      (omega (
        arith,
        f.held,
        ap (length {A = ℕ}) e,
        count-le s.mutex.is_locked,
        length-append before (t ∷ after),
        length-append before after,
      ))
      (unlock-Unlocks s.mutex)

Reach-IsSafe : {s t : System} → IsSafe s → Reach s t → IsSafe t
Reach-IsSafe f here = f
Reach-IsSafe f (next r st) = Step-IsSafe st (Reach-IsSafe f r)

-- Whatever the order of the calls, at most one goroutine holds the lock, one does exactly if the mutex is
-- marked as locked, and while it is not, none waits at a priority from 1 to 10.
pub mutual_exclusion :
    {s : System}
    → Reach start s
    → (length s.holders ≤ 1)
      × (length s.holders ≡ count s.mutex.is_locked)
      × (s.mutex.is_locked ≡ false → NoneWait s.mutex.wait_queue 1 11)
mutual_exclusion r =
    let f = Reach-IsSafe start-IsSafe r in (omega (arith, f.held, count-le _), f.held, f.served)

-- The priorities that the loop of `Unlock` does not reach.
abbrev pub OutOfReach : ℤ → Type 0
OutOfReach p = (k : ℕ) → 1 ≤ k → k < 11 → pos k ≢ p

abbrev Grows : List ℕ → List ℕ → Type 0
Grows l l' = (more : List ℕ) × (l' ≡ l ++ more)

unlock-Grows :
    (q : ℤ → List ℕ) (r : PriorityMutex × Option ℕ) (p : ℤ)
    → OutOfReach p
    → Unlocks q 1 11 r
    → r.0.wait_queue p ≡ q p
unlock-Grows q r p out (frees _ e none_wait) = rw e
unlock-Grows q r p out (wakes _ k ch rest le lt none_wait first e) =
    rw e (update_ne q (pos k) p rest (out k le lt))

lock-Grows :
    (pm : PriorityMutex) (t : ℕ) (k p : ℤ) → Grows (pm.wait_queue p) ((lock pm k t).0.wait_queue p)
unfolding lock
lock-Grows pm t k p = elim (Bool-cases pm.is_locked) [
  | inr free ↦ rw (free, lock) ([], sym (append-nil (pm.wait_queue p)))
  | inl taken ↦
      rw (taken, lock)
        (elim (Bool-cases (eq_ℤ k p)) [
          | inl same ↦
              let e = (eq_ℤ_iff k p).0 same in
              (t ∷ [], rw (← e) (update_self pm.wait_queue k (pm.wait_queue k ++ t ∷ [])))
          | inr other ↦ (
            [],
            update_ne pm.wait_queue k p _ (λ e. cc ((eq_ℤ_iff k p).1 e))
                ∙ sym (append-nil (pm.wait_queue p)),
          )
        ])
]

Step-Grows :
    {s t : System} (p : ℤ)
    → OutOfReach p
    → Step s t
    → Grows (s.mutex.wait_queue p) (t.mutex.wait_queue p)
Step-Grows p out (locks s t k) = lock-Grows s.mutex t k p
Step-Grows p out (unlocks s before t after e) = (
  [],
  unlock-Grows s.mutex.wait_queue (unlock s.mutex) p out (unlock-Unlocks s.mutex)
      ∙ sym (append-nil (s.mutex.wait_queue p)),
)

-- A goroutine that waits at a priority outside 1 to 10 is never woken: after any steps it still stands
-- where it stood in its queue.
pub waits_forever :
    {s t : System} (p : ℤ)
    → OutOfReach p
    → Reach s t
    → (more : List ℕ) × (t.mutex.wait_queue p ≡ s.mutex.wait_queue p ++ more)
waits_forever {s} p out here = ([], sym (append-nil (s.mutex.wait_queue p)))
waits_forever {s} p out (next r st) =
    let (a, e) = waits_forever p out r in
    let (b, e') = Step-Grows p out st in
    (a ++ b, e' ∙ ap (λ l. l ++ b) e ∙ append_assoc (s.mutex.wait_queue p) a b)
