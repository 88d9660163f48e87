-- ===== src/Runner/Deliver/Cleaned.antt =====
-- An upload always ends, and one that fails restores the terminal.
use drone_os.Base.{
  ◌≡◌, Bool, true, Option, none, some, List, [], ◌∷◌, ◌++◌, pos, Bytes, codes, ok, err,
}
use drone_os.Runner.{shell_quote, upload_cleanup_command}
use drone_os.Runner.Session.{
  RunError, refused, Session, Terminal, Ran, write_line, carriage_return, expect, login, reset,
  contains,
}
use drone_os.Runner.Upload.{LineWriter}
use drone_os.Runner.Upload.Total.{Fitting}
use drone_os.Runner.Exec.{wait_exit_status}
use drone_os.Runner.Deliver.{
  Source, UploadOptions, Ending, Ended, Copied, empty_lines, stopped, refused_ending,
  finished_ending, exit_marker, delimiter, setup_line, stream_base64_upload,
}

-- A copy that ends, with a line that is not overfull.
abbrev CopyEnds : {E : Type 0} → Copied E → Type 0
CopyEnds {E = E} a = (r : Option (RunError E) × LineWriter × Session E) × (a ≡ some r) × Fitting r.1

abbrev Returns : {A : Type 0} → Option A → Type 0
Returns {A = A} a = (r : A) × (a ≡ some r)

-- The markers of the answers to the setup.
abbrev pub setup_markers : Bytes → List Bytes
setup_markers token =
    (codes "__DRONEOS_UPLOAD_READY_" ++ token ++ codes "__")
    ∷ (codes "__DRONEOS_UPLOAD_FAILED_" ++ token ++ codes "__")
    ∷ []

abbrev flat : List Bytes → Bytes
flat [] = []
flat (a ∷ []) = a
flat (a ∷ b ∷ l) = a ++ flat (b ∷ l)

-- The line that decodes what follows into a file, up to the delimiter.
abbrev pub decoding : Bytes → Bytes → Bytes
decoding token temp =
    codes "base64 -d > "
    ++ shell_quote temp
    ++ codes " <<"
    ++ shell_quote (codes "__DRONEOS_UPLOAD_DATA_" ++ token ++ codes "__")

-- The command that compares the digest of the file, and only if it is the same makes the file executable and
-- moves it; the status is 0 only if all of this went well and the echo is on again.
abbrev pub verifying : Bytes → Bytes → Bytes → Bytes → Bytes
verifying temp remote digest marker = flat (
    codes "if actual=$(sha256sum -- "
    ∷ shell_quote temp
    ∷ codes ") && [ \"${actual%% *}\" = "
    ∷ shell_quote digest
    ∷ codes " ] && chmod 0755 -- "
    ∷ shell_quote temp
    ∷ codes " && mv -f -- "
    ∷ shell_quote temp
    ∷ codes " "
    ∷ shell_quote remote
    ∷ codes "; then status=0; else rm -f -- "
    ∷ shell_quote temp
    ∷ codes "; status=1; fi; if ! stty echo; then status=1; fi; printf '\\n"
    ∷ marker
    ∷ codes "EXIT:%s\\n' \"$status\""
    ∷ [])

-- In the session `s`, the first text that the wait for the setup finds has the marker of a refusal; the
-- wait leaves `s'`.
abbrev pub Refuses : {E : Type 0} → Terminal E → Bytes → Session E → Session E → Type 0
Refuses t token s s' =
    (response : Bytes) × (expect t (setup_markers token) s ≡ (ok response, s'))
    × (contains response (codes "__DRONEOS_UPLOAD_FAILED_" ++ token ++ codes "__") ≡ true)

-- The whole upload went through, up to the session `s'`: the line that decodes the text into the temporary
-- file, the text, its end, and the command that verifies the file by its digest and moves it were written
-- without error, one behind the other, and then the exit status 0 of that command was read.
pub record Verified {E : Type 0} (t : Terminal E) (token temp remote : Bytes) (src : Source E)
    (s' : Session E) : Type 0 where
  pub before : Session E
  pub opened : Session E
  pub streamed : Session E
  pub closed : Session E
  pub asked : Session E
  pub told : Session E
  pub lines : LineWriter
  pub text : Bytes
  pub opens : write_line t (decoding token temp) before ≡ (none, opened)
  pub streams : stream_base64_upload t src empty_lines opened ≡ some (none, lines, streamed)
  pub closes : write_line t (delimiter token) streamed ≡ (none, closed)
  pub asks :
      write_line t (verifying temp remote src.digest (exit_marker token)) closed ≡ (none, asked)
  pub tells : expect t ((exit_marker token ++ codes "EXIT:") ∷ []) asked ≡ (ok text, told)
  pub status : wait_exit_status t (exit_marker token) told ≡ (ok (pos 0), s')

-- How the part behind the login ends: in an error, with the terminal to restore, or in a refusal, or with
-- the upload verified; `R` and `V` are the evidence of the last two.
data BodyEnds {E : Type 0} (R V : Session E → Type 0) : Ending E × Session E → Type 0 where
  failing :
      (open_ : Bool) (lw : LineWriter) (e : RunError E) (s : Session E)
      → BodyEnds R V (stopped open_ lw e, s)
  refusing : (lw : LineWriter) (s : Session E) → R s → BodyEnds R V (refused_ending lw, s)
  finishing : (lw : LineWriter) (s : Session E) → V s → BodyEnds R V (finished_ending lw, s)

module _ {E : Type 0} (R V : Session E → Type 0) where
  abbrev Ends : Ended E → Type 0
  Ends a = (r : Ending E × Session E) × (a ≡ some r) × BodyEnds R V r

module _ {E : Type 0} (t : Terminal E) (token temp remote : Bytes) (src : Source E)
    (R : Session E → Type 0) where
  abbrev V : Session E → Type 0
  V s = Verified t token temp remote src s

-- The refusal of the setup that is written in the session `s`.
abbrev pub SetupRefused : {E : Type 0} → Terminal E → Bytes → Session E → Session E → Type 0
SetupRefused t token s s' = Refuses t token (write_line t (setup_line token) s).1 s'

-- How an upload ends.
pub data Delivers {E : Type 0} (t : Terminal E) (token temp marker : Bytes) (opts : UploadOptions)
    (src : Source E) (s : Session E) : Ran E (Unit {0}) → Type 0 where
  no_login :
      (e : RunError E) (s' : Session E)
      → login t marker opts.user opts.password s ≡ (err e, s')
      → Delivers t token temp marker opts src s (err e, s')
  no_echo_off :
      (logged_in s' : Session E)
      → login t marker opts.user opts.password s ≡ (ok tt, logged_in)
      → SetupRefused t token (reset logged_in) s'
      → Delivers t token temp marker opts src s
          (err (refused (codes "remote terminal refused to disable echo for upload")), s')
  delivered :
      (s' : Session E)
      → Verified t token temp opts.remote src s'
      → Delivers t token temp marker opts src s (ok tt, s')
  cleaned :
      (e : RunError E) (before s' : Session E)
      → s'.sent ≡ before.sent ++ (upload_cleanup_command temp ++ carriage_return ∷ []) ∷ []
      → Delivers t token temp marker opts src s (err e, s')

module _ {E : Type 0} (t : Terminal E) (token temp : Bytes) (src : Source E) (marker : Bytes)
    (opts : UploadOptions) where
  -- A result that is there, and is one of those.
  abbrev pub Finishes : Session E → Option (Ran E (Unit {0})) → Type 0
  Finishes s a = (r : Ran E (Unit {0})) × (a ≡ some r) × Delivers t token temp marker opts src s r
