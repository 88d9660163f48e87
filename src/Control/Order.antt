-- ===== src/Control/Order.antt =====
-- Whom `Unlock` wakes.
use drone_os.Base.{
  ℕ, zero, suc, ◌+◌, ◌≤◌, ◌<◌, ℤ, pos, eq_ℤ, eq_ℤ_iff, ◌≡◌, ◌≢◌, refl, ap, ◌∙◌, inl, inr, true,
  false, Option, none, some, List, [], ◌∷◌, arith, Bool-cases, ◌==◌, ==_iff,
}
use drone_os.Control.{PriorityMutex, update, wake, unlock_from, unlock}

pub update_self : (q : ℤ → List ℕ) (p : ℤ) (l : List ℕ) → update q p l p ≡ l
unfolding update
update_self q p l = rw ((eq_ℤ_iff p p).1 refl)

pub update_ne : (q : ℤ → List ℕ) (p k : ℤ) (l : List ℕ) → p ≢ k → update q p l k ≡ q k
unfolding update
update_ne q p k l h = elim (Bool-cases (eq_ℤ p k)) [
  | inl e ↦ absurd (h ((eq_ℤ_iff p k).0 e))
  | inr e ↦ rw e
]

-- No goroutine waits at a priority from `lo` up to `hi`.
abbrev pub NoneWait : (ℤ → List ℕ) → ℕ → ℕ → Type 0
NoneWait q lo hi = (p : ℕ) → lo ≤ p → p < hi → q (pos p) ≡ []

-- What `Unlock` does from the waiting goroutines `q`: it wakes the first of the smallest priority from
-- `lo` up to `hi` at which one waits, which then holds the lock, or leaves the lock free.
pub data Unlocks (q : ℤ → List ℕ) (lo hi : ℕ) : PriorityMutex × Option ℕ → Type 0 where
  frees :
      (r : PriorityMutex × Option ℕ)
      → r ≡ (record { is_locked = false; wait_queue = q }, none)
      → NoneWait q lo hi
      → Unlocks q lo hi r
  wakes :
      (r : PriorityMutex × Option ℕ) (p ch : ℕ) (rest : List ℕ)
      → lo ≤ p
      → p < hi
      → NoneWait q lo p
      → q (pos p) ≡ ch ∷ rest
      → r ≡ (record { is_locked = true; wait_queue = update q (pos p) rest }, some ch)
      → Unlocks q lo hi r

NoneWait-cons :
    (q : ℤ → List ℕ) (lo hi : ℕ) → q (pos lo) ≡ [] → NoneWait q (lo + 1) hi → NoneWait q lo hi
NoneWait-cons q lo hi e h p le lt = elim (Bool-cases (p == lo)) [
  | inl same ↦ ap (λ k. q (pos k)) ((==_iff p lo).0 same) ∙ e
  | inr other ↦ h p (ground arith) lt
]

Unlocks-cons :
    (q : ℤ → List ℕ) (lo hi : ℕ) {r : PriorityMutex × Option ℕ}
    → q (pos lo) ≡ []
    → Unlocks q (lo + 1) hi r
    → Unlocks q lo hi r
Unlocks-cons q lo hi e (frees r same none_wait) = frees r same (NoneWait-cons q lo hi e none_wait)
Unlocks-cons q lo hi e (wakes r p ch rest le lt none_wait here same) =
    wakes r p ch rest (omega arith) lt (NoneWait-cons q lo p e none_wait) here same

wake-Unlocks :
    (l : List ℕ) (lo hi : ℕ) (pm : PriorityMutex) (next : PriorityMutex × Option ℕ)
    → lo < hi
    → pm.wait_queue (pos lo) ≡ l
    → Unlocks pm.wait_queue (lo + 1) hi next
    → Unlocks pm.wait_queue lo hi (wake pm (pos lo) l next)
unfolding wake
wake-Unlocks [] lo hi pm next lt e u = Unlocks-cons pm.wait_queue lo hi e u
wake-Unlocks (ch ∷ rest) lo hi pm next lt e u =
    wakes _ lo ch rest (omega arith) lt (λ p le less. absurd (omega arith)) e refl

unlock_from-Unlocks :
    (n lo hi : ℕ) (pm : PriorityMutex)
    → lo + n ≡ hi
    → pm.is_locked ≡ false
    → Unlocks pm.wait_queue lo hi (unlock_from n lo pm)
unfolding unlock_from
unlock_from-Unlocks zero lo hi pm e free =
    frees _ (ap (λ b. (record { is_locked = b; wait_queue = pm.wait_queue }, none)) free)
      (λ p le lt. absurd (omega arith))
unlock_from-Unlocks (suc n) lo hi pm e free =
    wake-Unlocks (pm.wait_queue (pos lo)) lo hi pm (unlock_from n (lo + 1) pm) (omega arith) refl
      (unlock_from-Unlocks n (lo + 1) hi pm (omega arith) free)

-- `Unlock` hands the lock to the goroutine that has waited longest among those of the smallest
-- priority number from 1 to 10 at which any waits, and takes only that one from its queue; with none
-- there it frees the lock.
pub unlock-Unlocks : (pm : PriorityMutex) → Unlocks pm.wait_queue 1 11 (unlock pm)
unfolding unlock
unlock-Unlocks pm = unlock_from-Unlocks 10 1 11 (record pm { is_locked = false }) refl refl
