-- ===== src/Runner/Status.antt =====
-- cmd/dev/pi_runner/main.go: the exit status in the output of the shell.
pub mod Reported
mod Tests
use drone_os.Base.{
  ℕ, zero, suc, Bool, true, false, ◌||◌, Option, none, some, List, [], ◌∷◌, ◌++◌, ◌==◌,
  if◌then◌else◌, ℤ, Bytes, codes, trim_space, atoi, length,
}
use drone_os.Runner.Session.{starts_with, carriage_return}

abbrev pub newline : ℕ
newline = 10

-- The text behind the first `n` bytes.
behind : Bytes → Bytes → Bytes
behind s [] = s
behind [] (y ∷ p) = []
behind (x ∷ s) (y ∷ p) = behind s p

-- strings.Index, by the text behind the first occurrence.
pub find_behind : Bytes → Bytes → Option Bytes
unfolding starts_with behind
find_behind p [] = if starts_with [] p then some (behind [] p) else none
find_behind p (x ∷ s) =
    let later = find_behind p s in if starts_with (x ∷ s) p then some (behind (x ∷ s) p) else later

-- strings.IndexAny(line, "\r\n"), by the line and the text behind its end.
pub first_line : Bytes → Option (Bytes × Bytes)
first_line [] = none
first_line (c ∷ s) =
    let rest = first_line s in
    if c == carriage_return || c == newline
    then some ([], s)
    else elim rest [ none ↦ none | some p ↦ some (c ∷ p.0, p.1) ]

status_or : Option ℤ → Option ℤ → Option ℤ
status_or (some status) rest = some status
status_or none rest = rest

-- The inner loop of `waitExitStatus`: each round but the last one takes at least the prefix away.
pub status_loop : ℕ → Bytes → Bytes → Option ℤ
unfolding find_behind first_line status_or
status_loop zero prefix text = none
status_loop (suc fuel) prefix text = elim (find_behind prefix text) [
  | none ↦ none
  | some line ↦ elim (first_line line) [
    | none ↦ none
    | some (first, after) ↦
        let rest = status_loop fuel prefix after in status_or (atoi (trim_space first)) rest
  ]
]

unfoldable pub exit_status_in : Bytes → Bytes → Option ℤ
unfolding status_loop
exit_status_in prefix text = status_loop (suc (length text)) prefix text
