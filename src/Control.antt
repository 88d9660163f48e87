-- ===== src/Control.antt =====
-- internal/drone/control/main.go: `PriorityMutex`. Each method runs under the internal mutex `mu`, so a
-- call is one step; a waiting goroutine is the number of its channel.
pub mod Order
pub mod Exclusion
mod Tests
use drone_os.Base.{
  ℕ, zero, suc, ◌+◌, ℤ, pos, eq_ℤ, Bool, true, false, Option, none, some, List, [], ◌∷◌, ◌++◌,
  if◌then◌else◌,
}

-- A priority with no waiting goroutine has no entry in the map, or an empty list.
pub record PriorityMutex : Type 0 where
  pub is_locked : Bool
  pub wait_queue : ℤ → List ℕ

pub new_priority_mutex : PriorityMutex
new_priority_mutex = record { is_locked = false; wait_queue = λ _. [] }

pub update : (ℤ → List ℕ) → ℤ → List ℕ → ℤ → List ℕ
update q p l k = if eq_ℤ p k then l else q k

-- The new state, and whether the caller returns at once; otherwise it waits on channel `ch`.
pub lock : PriorityMutex → ℤ → ℕ → PriorityMutex × Bool
lock pm priority ch =
    if pm.is_locked
    then (
      record pm { wait_queue = update pm.wait_queue priority (pm.wait_queue priority ++ ch ∷ []) },
      false,
    )
    else (record pm { is_locked = true }, true)

-- The goroutine that is woken keeps the lock.
wake : PriorityMutex → ℤ → List ℕ → PriorityMutex × Option ℕ → PriorityMutex × Option ℕ
wake pm priority [] next = next
wake pm priority (ch ∷ rest) next =
    (record { is_locked = true; wait_queue = update pm.wait_queue priority rest }, some ch)

-- The loop of `Unlock` from a priority on, with the number of rounds left.
pub unlock_from : ℕ → ℕ → PriorityMutex → PriorityMutex × Option ℕ
unlock_from zero priority pm = (pm, none)
unlock_from (suc n) priority pm =
    let next = unlock_from n (priority + 1) pm in
    wake pm (pos priority) (pm.wait_queue (pos priority)) next

-- The new state, and the channel that is closed.
pub unlock : PriorityMutex → PriorityMutex × Option ℕ
unlock pm = unlock_from 10 1 (record pm { is_locked = false })
