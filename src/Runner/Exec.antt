-- ===== src/Runner/Exec.antt =====
-- cmd/dev/pi_runner/main.go: `runExec`, and how it cleans the output of the command.
pub mod Restored
mod Tests
use drone_os.Base.{
  ℕ, Bool, true, false, not, ◌&&◌, ◌||◌, Option, none, some, List, [], ◌∷◌, ◌++◌, ◌==◌,
  if◌then◌else◌, reverse, ℤ, pos, eq_ℤ, Bytes, codes, text_eq, Result, ok, err,
}
use drone_os.Runner.{shell_quote}
use drone_os.Runner.Session.{
  RunError, context_done, print_failed, refused, at, explain, exited, Session, Terminal,
  starts_with, contains, carriage_return, Ran, write_line, wait_for, resumed, expect, reset,
  then_run, then_with, login,
}
use drone_os.Runner.Status.{newline, exit_status_in}

-- What `runExec` takes of the options.
pub record ExecOptions : Type 0 where
  pub user : Bytes
  pub password : Bytes
  pub command : Bytes

-- strings.ReplaceAll with "\r\n" and then with "\r"
pub normalize_serial_output : Bytes → Bytes
normalize_serial_output [] = []
normalize_serial_output (c ∷ []) = (if c == carriage_return then newline else c) ∷ []
normalize_serial_output (c ∷ d ∷ s) =
    let rest = normalize_serial_output (d ∷ s) in
    if c == carriage_return then (if d == newline then rest else newline ∷ rest) else c ∷ rest

drop_newlines : Bytes → Bytes
drop_newlines [] = []
drop_newlines (c ∷ s) = if c == newline then drop_newlines s else c ∷ s

-- The text in front of the first occurrence.
before_marker : Bytes → Bytes → Option Bytes
unfolding starts_with
before_marker p [] = if starts_with [] p then some [] else none
before_marker p (x ∷ s) =
    let later = before_marker p s in
    if starts_with (x ∷ s) p then some [] else elim later [ none ↦ none | some b ↦ some (x ∷ b) ]

pub strip_after_marker : Bytes → Bytes → Bytes
unfolding before_marker drop_newlines
strip_after_marker output marker = elim (before_marker (marker ++ codes "EXIT:") output) [
  | none ↦ output
  | some text ↦ reverse (drop_newlines (reverse text))
]

ends_in_newline : Bytes → Bool
ends_in_newline s = elim (reverse s) [ [] ↦ false | c ∷ r ↦ c == newline ]

-- The `printf` of a marker that is split, so that the echo of the line does not hold it.
abbrev pub split_marker : Bytes → Bytes → Bytes
split_marker name token =
    codes "printf '\\n%s%s\\n' "
    ++ shell_quote name
    ++ codes " "
    ++ shell_quote (token ++ codes "__")

abbrev ready_name : Bytes
ready_name = codes "__DRONEOS_EXEC_READY_"

abbrev failed_name : Bytes
failed_name = codes "__DRONEOS_EXEC_FAILED_"

abbrev exit_marker : Bytes → Bytes
exit_marker token = codes "__DRONEOS_CMD_" ++ token ++ codes "__"

pub setup_line : Bytes → Bytes
unfolding shell_quote
setup_line token =
    codes "if stty -echo; then "
    ++ split_marker ready_name token
    ++ codes "; else "
    ++ split_marker failed_name token
    ++ codes "; fi"

pub command_line : Bytes → Bytes → Bytes
unfolding shell_quote
command_line token command =
    codes "sh -lc "
    ++ shell_quote command
    ++ codes "; status=$?; if ! stty echo; then status=1; fi; printf '\\n"
    ++ exit_marker token
    ++ codes "EXIT:%s\\n' \"$status\""

-- How the part behind the login ends, with the two flags that the deferred function looks at.
pub record Ending (E : Type 0) : Type 0 where
  pub result : Result (RunError E) Bytes
  pub restore_needed : Bool
  pub finished : Bool

abbrev pub failed_ending : {E : Type 0} → RunError E → Ending E
failed_ending e = record { result = err e; restore_needed = true; finished = false }

abbrev pub refused_ending : {E : Type 0} → Ending E
refused_ending = record {
  result = err (refused (codes "remote terminal refused to disable echo for exec"));
  restore_needed = false;
  finished = false;
}

abbrev pub finished_ending : {E : Type 0} → Bytes → Ending E
finished_ending b = record { result = ok b; restore_needed = true; finished = true }

module _ {E : Type 0} where
  end_run :
      Bytes
      → Option (RunError E) × Session E
      → (Session E → Ending E × Session E)
      → Ending E × Session E
  end_run text (some e, s) go = (failed_ending (explain text e), s)
  end_run text (none, s) go = go s

  end_with :
      {A : Type 0} → Bytes → Ran E A → (A → Session E → Ending E × Session E) → Ending E × Session E
  end_with text (err e, s) go = (failed_ending (explain text e), s)
  end_with text (ok a, s) go = go a s

module _ {E : Type 0} (t : Terminal E) where
  status_error : RunError E → RunError E
  status_error (context_done e) = at (codes "read command exit status") (context_done e)
  status_error e = e

  status_result : Result (RunError E) ℤ × Session E → Ran E ℤ
  unfolding status_error
  status_result (ok n, s) = (ok n, s)
  status_result (err e, s) = (err (status_error e), s)

  -- `waitExitStatus`
  pub wait_exit_status : Bytes → Session E → Ran E ℤ
  unfolding status_result wait_for exit_status_in
  wait_exit_status marker s =
      status_result
        (resumed s (wait_for t (exit_status_in (marker ++ codes "EXIT:")) s.recent s.reads))

-- `print` gives the error of a write to the standard output.
module _ {E : Type 0} (t : Terminal E) (print : Bytes → Option E) where
  print_newline : Bytes → Option E → Result (RunError E) Bytes
  print_newline cleaned (some e) = err (at (codes "terminate command output") (print_failed e))
  print_newline cleaned none = ok (cleaned ++ newline ∷ [])

  print_rest : Bytes → Option E → Result (RunError E) Bytes
  unfolding print_newline ends_in_newline
  print_rest cleaned (some e) = err (at (codes "write command output") (print_failed e))
  print_rest cleaned none =
      if not (text_eq cleaned []) && not (ends_in_newline cleaned)
      then print_newline cleaned (print (newline ∷ []))
      else ok cleaned

  -- What was printed, or the error.
  print_output : Bytes → Result (RunError E) Bytes
  unfolding print_rest
  print_output cleaned = print_rest cleaned (print cleaned)

  after_print : ℤ → Session E → Result (RunError E) Bytes → Ending E × Session E
  after_print status s (err e) = (failed_ending e, s)
  after_print status s (ok printed) =
      if eq_ℤ status (pos 0)
      then (finished_ending printed, s)
      else (failed_ending (exited status), s)

  report_status : Bytes → ℤ → Session E → Ending E × Session E
  unfolding print_output after_print normalize_serial_output strip_after_marker
  report_status token status s =
      after_print status s
        (print_output (strip_after_marker (normalize_serial_output s.recent) (exit_marker token)))

  await_status : Bytes → Bytes → Session E → Ending E × Session E
  unfolding end_with wait_exit_status report_status
  await_status token text s =
      end_with [] (wait_exit_status t (exit_marker token) s) (report_status token)

  await_exit : Bytes → Session E → Ending E × Session E
  unfolding end_with expect await_status
  await_exit token s =
      end_with (codes "wait for command exit marker")
        (expect t ((exit_marker token ++ codes "EXIT:") ∷ []) s) (await_status token)

  pub run_command : Bytes → Bytes → Session E → Ending E × Session E
  unfolding end_run write_line await_exit command_line
  run_command token command s =
      end_run [] (write_line t (command_line token command) s) (await_exit token)

  after_setup : Bytes → Bytes → Bytes → Session E → Ending E × Session E
  unfolding run_command contains reset
  after_setup token command response s =
      if contains response (failed_name ++ token ++ codes "__")
      then (refused_ending, s)
      else run_command token command (reset s)

  await_setup : Bytes → Bytes → Session E → Ending E × Session E
  unfolding end_with expect after_setup
  await_setup token command s =
      end_with (codes "wait for remote exec setup")
        (expect t ((ready_name ++ token ++ codes "__") ∷ (failed_name ++ token ++ codes "__") ∷ [])
          s)
        (after_setup token command)

  -- The part behind the login.
  pub exec_body : Bytes → Bytes → Session E → Ending E × Session E
  unfolding end_run await_setup setup_line write_line
  exec_body token command s =
      end_run (codes "disable remote echo") (write_line t (setup_line token) s)
        (await_setup token command)

  -- The deferred function.
  pub deferred : Ending E × Session E → Ran E Bytes
  unfolding write_line
  deferred (e, s) =
      if e.restore_needed && not e.finished
      then (e.result, (write_line t (codes "stty echo") s).1)
      else (e.result, s)

  after_login : Bytes → Bytes → Ran E (Unit {0}) → Ran E Bytes
  unfolding exec_body deferred reset
  after_login token command (err e, s) = (err e, s)
  after_login token command (ok u, s) = deferred (exec_body token command (reset s))

  -- `runExec`, with the token and the marker that it makes from the clock.
  pub run_exec : Bytes → Bytes → ExecOptions → Session E → Ran E Bytes
  unfolding login after_login
  run_exec marker token opts s =
      after_login token opts.command (login t marker opts.user opts.password s)
