-- ===== src/Runner/Console/Tests.antt =====
-- A line, and another one with an interrupt in its middle.
use drone_os.Base.{◌≡◌, refl, ℕ, none, List, [], ◌∷◌, codes, length}
use drone_os.Runner.Console.{
  Typed, canceled, has_interrupt, before_interrupt, write_error, hand_on, read_end, go_on,
  copy_raw_console_input, interrupt,
}

abbrev typed : List (Typed ℕ)
typed =
    record { bytes = codes "ls\r"; failure = none }
    ∷ record { bytes = 113 ∷ interrupt ∷ codes "top"; failure = none }
    ∷ record { bytes = codes "gone"; failure = none }
    ∷ []

copied :
    copy_raw_console_input 0 (λ sent d. (length d, none)) typed []
    ≡ (canceled, codes "ls\r" ∷ codes "q" ∷ [])
unfolding copy_raw_console_input hand_on write_error read_end go_on has_interrupt before_interrupt
copied = refl
