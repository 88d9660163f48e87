-- ===== src/Control/Tests.antt =====
-- A pilot that holds the lock while two goroutines wait.
use drone_os.Base.{ℕ, ◌≤◌, pos, ◌≡◌, refl, true, false, List, [], ◌∷◌, ◌++◌, length, arith}
use drone_os.Control.{new_priority_mutex, update, lock, unlock, unlock_from, wake}
use drone_os.Control.Order.{Unlocks, NoneWait, unlock-Unlocks}
use drone_os.Control.Exclusion.{
  System, Step, locks, unlocks, Reach, here, next, start, OutOfReach, mutual_exclusion,
  waits_forever,
}

-- Goroutine 1 locks at priority 1; goroutine 2 waits at 2 and goroutine 3 at 11.
abbrev first : System
first = record { mutex = (lock start.mutex (pos 1) 1).0; holders = 1 ∷ [] }

abbrev second : System
second = record { mutex = (lock first.mutex (pos 2) 2).0; holders = 1 ∷ [] }

abbrev third : System
third = record { mutex = (lock second.mutex (pos 11) 3).0; holders = 1 ∷ [] }

abbrev fourth : System
fourth = record { mutex = (unlock third.mutex).0; holders = 2 ∷ [] }

third-Reach : Reach start third
unfolding lock new_priority_mutex
third-Reach =
    next (next (next here (locks start 1 (pos 1))) (locks first 2 (pos 2)))
      (locks second 3 (pos 11))

fourth-Step : Step third fourth
unfolding lock new_priority_mutex unlock unlock_from wake update
fourth-Step = unlocks third [] 1 [] refl

unlock-Unlocks_example : Unlocks third.mutex.wait_queue 1 11 (unlock third.mutex)
unlock-Unlocks_example = unlock-Unlocks third.mutex

mutual_exclusion_example :
    (length fourth.holders ≤ 1)
    × (length fourth.holders ≡ elim fourth.mutex.is_locked [ true ↦ 1 | false ↦ 0 ])
    × (fourth.mutex.is_locked ≡ false → NoneWait fourth.mutex.wait_queue 1 11)
unfolding lock new_priority_mutex unlock unlock_from wake update
mutual_exclusion_example = mutual_exclusion (next third-Reach fourth-Step)

out_of_reach : OutOfReach (pos 11)
out_of_reach k le lt e = absurd (omega (arith, to_nat e))
  where
    to_nat : pos k ≡ pos 11 → k ≡ 11
    to_nat e = cc

waits_forever_example :
    (more : List ℕ) × (fourth.mutex.wait_queue (pos 11) ≡ third.mutex.wait_queue (pos 11) ++ more)
waits_forever_example = waits_forever (pos 11) out_of_reach (next here fourth-Step)
