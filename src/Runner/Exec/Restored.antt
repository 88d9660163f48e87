-- ===== src/Runner/Exec/Restored.antt =====
-- What `runExec` writes, however it ends.
use drone_os.Base.{◌≡◌, refl, true, Option, List, [], ◌∷◌, ◌++◌, pos, Bytes, codes, Result, ok, err}
use drone_os.Runner.{shell_quote}
use drone_os.Runner.Session.{
  RunError, refused, Session, Terminal, contains, carriage_return, Ran, write_line, expect, reset,
}
use drone_os.Runner.Exec.{
  Ending, failed_ending, refused_ending, finished_ending, setup_line, wait_exit_status, exit_marker,
}

-- A line as it is written.
abbrev pub line : Bytes → Bytes
line text = text ++ carriage_return ∷ []

abbrev pub restoring : Bytes
restoring = line (codes "stty echo")

-- The line that turns the echo off, and says whether this went well by a marker that is cut in two, so that
-- the echo of the line does not hold it.
abbrev pub silencing : Bytes → Bytes
silencing token =
    codes "if stty -echo; then "
    ++ (codes "printf '\\n%s%s\\n' "
        ++ shell_quote (codes "__DRONEOS_EXEC_READY_")
        ++ codes " "
        ++ shell_quote (token ++ codes "__"))
    ++ codes "; else "
    ++ (codes "printf '\\n%s%s\\n' "
        ++ shell_quote (codes "__DRONEOS_EXEC_FAILED_")
        ++ codes " "
        ++ shell_quote (token ++ codes "__"))
    ++ codes "; fi"

-- The line that runs the command in a shell of its own, turns the echo on, and prints the status.
abbrev pub running : Bytes → Bytes → Bytes
running token command =
    codes "sh -lc "
    ++ shell_quote command
    ++ codes "; status=$?; if ! stty echo; then status=1; fi; printf '\\n"
    ++ (codes "__DRONEOS_CMD_" ++ token ++ codes "__")
    ++ codes "EXIT:%s\\n' \"$status\""

setup_line-silencing : (token : Bytes) → setup_line token ≡ silencing token
unfolding setup_line
setup_line-silencing token = refl

-- How the body ends behind the writes `pre`, where `command` is the line with the command `R` is the
-- evidence of a refusal and `V` that of success.
data Fares {E : Type 0} (R V : Type 0) (pre : List Bytes) (command : Bytes)
    : Ending E × Session E → Type 0 where
  early :
      (x : RunError E) (s : Session E) → s.sent ≡ pre → Fares R V pre command (failed_ending x, s)
  late :
      (x : RunError E) (s : Session E)
      → s.sent ≡ pre ++ command ∷ []
      → Fares R V pre command (failed_ending x, s)
  refuses : (s : Session E) → R → s.sent ≡ pre → Fares R V pre command (refused_ending, s)
  finishes :
      (b : Bytes) (s : Session E)
      → V
      → s.sent ≡ pre ++ command ∷ []
      → Fares R V pre command (finished_ending b, s)

-- In the session `s`, the first text that the wait for the setup finds has the marker of a refusal.
abbrev pub Refuses : {E : Type 0} → Terminal E → Bytes → Session E → Type 0
Refuses {E = E} t token s =
    (response : Bytes) × (s' : Session E) × (expect t
        ((codes "__DRONEOS_EXEC_READY_" ++ token ++ codes "__")
          ∷ (codes "__DRONEOS_EXEC_FAILED_" ++ token ++ codes "__")
          ∷ [])
        s
      ≡ (ok response, s'))
    × (contains response (codes "__DRONEOS_EXEC_FAILED_" ++ token ++ codes "__") ≡ true)

-- From the session `s` on, the marker of the end is found, and then the exit status 0.
abbrev pub ExitsZero : {E : Type 0} → Terminal E → Bytes → Session E → Type 0
ExitsZero {E = E} t token s =
    (text : Bytes) × (told : Session E) × (s' : Session E) × (expect t
        ((exit_marker token ++ codes "EXIT:") ∷ []) s
      ≡ (ok text, told))
    × (wait_exit_status t (exit_marker token) told ≡ (ok (pos 0), s'))

-- The exit status 0 behind the line that runs the command.
abbrev pub Exits : {E : Type 0} → Terminal E → Bytes → Bytes → Type 0
Exits {E = E} t token command =
    (before : Session E) × ExitsZero t token (write_line t (running token command) before).1

-- How `runExec` ends behind the login: the outcome, with the lines written; `R` is the evidence of a refusal and `V` that of
-- success.
pub data Ends {E : Type 0} (R V : Type 0) (token command : Bytes)
    : Result (RunError E) Bytes → List Bytes → Type 0 where
  refused_setup :
      R
      → Ends R V token command
          (err (refused (codes "remote terminal refused to disable echo for exec")))
          (line (silencing token) ∷ [])
  fails :
      (e : RunError E) → Ends R V token command (err e) (line (silencing token) ∷ restoring ∷ [])
  fails_late :
      (e : RunError E)
      → Ends R V token command
          (err e)
          (line (silencing token) ∷ line (running token command) ∷ restoring ∷ [])
  succeeds :
      (b : Bytes)
      → V
      → Ends R V token command (ok b) (line (silencing token) ∷ line (running token command) ∷ [])

module _ {E : Type 0} (t : Terminal E) (print : Bytes → Option E) where
  -- The lines written behind those in `old`.
  abbrev pub Writes : Type 0 → Type 0 → Bytes → Bytes → List Bytes → Ran E Bytes → Type 0
  Writes R V token command old (r, s) =
      (lines : List Bytes) × (s.sent ≡ old ++ lines) × Ends R V token command r lines

  -- What `runExec` does behind a login that ended so.
  abbrev pub Executes : Bytes → Bytes → Ran E (Unit {0}) → Ran E Bytes → Type 0
  Executes token command (err e, s) r = r ≡ (err e, s)
  Executes token command (ok u, s) r =
      Writes (Refuses t token (write_line t (silencing token) (reset s)).1) (Exits t token command)
        token command s.sent r
