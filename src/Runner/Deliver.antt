-- ===== src/Runner/Deliver.antt =====
-- cmd/dev/pi_runner/main.go: `runUploadWithToken` and `streamBase64Upload`. What the encoder makes of the file,
-- the digest of the file and its text in hexadecimal are parameters.
pub mod Cleaned
mod Tests
use drone_os.Base.{
  ℕ, Bool, true, false, Option, none, some, List, [], ◌∷◌, ◌++◌, ◌==◌, if◌then◌else◌, ℤ, pos, eq_ℤ,
  Bytes, codes, length, replicate, Result, ok, err,
}
use drone_os.Runner.{shell_quote, upload_cleanup_command, upload_finish_command}
use drone_os.Runner.Session.{
  RunError, write_failed, read_failed, short_write, refused, exited, Session, Terminal, Ran,
  write_line, expect, login, reset, contains, explain,
}
use drone_os.Runner.Upload.{LineWriter, WriteError, Written, line_length, write_text, close}
use drone_os.Runner.Upload
use drone_os.Runner.Exec.{wait_exit_status, split_marker}
use drone_os.Runner.Options.{PathError, upload_temp_path}

-- What is read of the file: the writes of the encoder up to the end of the copy, the error of reading that
-- ends the copy, the writes of closing the encoder, and the digest in hexadecimal.
pub record Source (E : Type 0) : Type 0 where
  pub pieces : List Bytes
  pub failure : Option E
  pub last : List Bytes
  pub digest : Bytes

pub record UploadOptions : Type 0 where
  pub user : Bytes
  pub password : Bytes
  pub remote : Bytes

-- How the part behind the login ends, with the flags that the deferred function looks at.
pub record Ending (E : Type 0) : Type 0 where
  pub result : Result (RunError E) (Unit {0})
  pub heredoc_open : Bool
  pub restore_needed : Bool
  pub finished : Bool
  pub lines : LineWriter

pub data UploadError (E : Type 0) : Type 0 where
  open_failed : E → UploadError E
  bad_path : PathError → UploadError E
  run_failed : RunError E → UploadError E

abbrev pub empty_lines : LineWriter
empty_lines = record { line = replicate line_length 0; filled = 0 }

abbrev pub stopped : {E : Type 0} → Bool → LineWriter → RunError E → Ending E
stopped open_ lw e = record {
  result = err e;
  heredoc_open = open_;
  restore_needed = true;
  finished = false;
  lines = lw;
}

abbrev pub refused_ending : {E : Type 0} → LineWriter → Ending E
refused_ending lw = record {
  result = err (refused (codes "remote terminal refused to disable echo for upload"));
  heredoc_open = false;
  restore_needed = false;
  finished = false;
  lines = lw;
}

abbrev pub finished_ending : {E : Type 0} → LineWriter → Ending E
finished_ending lw = record {
  result = ok tt;
  heredoc_open = false;
  restore_needed = true;
  finished = true;
  lines = lw;
}

abbrev ready_name : Bytes
ready_name = codes "__DRONEOS_UPLOAD_READY_"

abbrev failed_name : Bytes
failed_name = codes "__DRONEOS_UPLOAD_FAILED_"

abbrev pub exit_marker : Bytes → Bytes
exit_marker token = codes "__DRONEOS_UPLOAD_" ++ token ++ codes "__"

abbrev delimiter : Bytes → Bytes
delimiter token = codes "__DRONEOS_UPLOAD_DATA_" ++ token ++ codes "__"

pub setup_line : Bytes → Bytes
unfolding shell_quote
setup_line token =
    codes "if stty -echo; then "
    ++ split_marker ready_name token
    ++ codes "; else "
    ++ split_marker failed_name token
    ++ codes "; fi"

pub header_line : Bytes → Bytes → Bytes
unfolding shell_quote
header_line token temp =
    codes "base64 -d > " ++ shell_quote temp ++ codes " <<" ++ shell_quote (delimiter token)

-- What the encoder and the writer of lines did: the first error, the writer, and the session. The outer `none`
-- of a result means that the fuel of a loop ran out.
abbrev pub Copied : Type 0 → Type 0
Copied E = Option (Option (RunError E) × LineWriter × Session E)

abbrev pub Ended : Type 0 → Type 0
Ended E = Option (Ending E × Session E)

module _ {E : Type 0} where
  first_of : Option (RunError E) → Option (RunError E) → Option (RunError E)
  first_of (some e) later = some e
  first_of none later = later

  run_error : WriteError (RunError E) → RunError E
  run_error (Upload.write_failed e) = e
  run_error Upload.short_write = short_write

  line_error : Option (WriteError (RunError E)) → Option (RunError E)
  unfolding run_error
  line_error none = none
  line_error (some e) = some (run_error e)

  read_error : Option E → Option (RunError E)
  read_error none = none
  read_error (some e) = some (read_failed e)

  -- Behind a write, to the port or of a file, where an error ends the upload.
  then_line :
      Bool → LineWriter → Bytes → Option (RunError E) × Session E → (Session E → Ended E) → Ended E
  then_line open_ lw text (some e, s) go = some (stopped open_ lw (explain text e), s)
  then_line open_ lw text (none, s) go = go s

  -- Behind a wait.
  then_text :
      {A : Type 0} → Bool → LineWriter → Bytes → Ran E A → (A → Session E → Ended E) → Ended E
  then_text open_ lw text (err e, s) go = some (stopped open_ lw (explain text e), s)
  then_text open_ lw text (ok a, s) go = go a s

module _ {E : Type 0} (t : Terminal E) where
  serial_wrote : Bytes → ℕ × Option E → ℕ × Option (RunError E)
  serial_wrote d (n, some e) = (n, some (write_failed e))
  serial_wrote d (n, none) = if n == length d then (n, none) else (n, some short_write)

  -- `serialWriter.Write`
  pub serial_write : Bytes → Session E → (ℕ × Option (RunError E)) × Session E
  unfolding serial_wrote
  serial_write d s = (serial_wrote d (t.write s.sent d), record s { sent = s.sent ++ d ∷ [] })

  after_piece :
      Written {E = RunError E} serial_write → (LineWriter → Session E → Copied E) → Copied E
  unfolding run_error
  after_piece none go = none
  after_piece (some ((n, some e), lw, s)) go = some (some (run_error e), lw, s)
  after_piece (some ((n, none), lw, s)) go = go lw s

  -- The writes of the encoder, up to one that fails.
  pub encode_pieces : List Bytes → LineWriter → Session E → Copied E
  unfolding after_piece
  encode_pieces [] lw s = some (none, lw, s)
  encode_pieces (p ∷ ps) lw s =
      after_piece (write_text serial_write lw p s) (λ lw s. encode_pieces ps lw s)

  lines_closed :
      Option (RunError E)
      → Option (Option (WriteError (RunError E)) × LineWriter × Session E)
      → Copied E
  unfolding first_of line_error
  lines_closed earlier none = none
  lines_closed earlier (some (e, lw, s)) = some (first_of earlier (line_error e), lw, s)

  close_lines : Option (RunError E) → LineWriter → Session E → Copied E
  unfolding lines_closed
  close_lines earlier lw s = lines_closed earlier (close serial_write lw s)

  after_last : Option E → Copied E → Copied E
  unfolding close_lines first_of read_error
  after_last failure none = none
  after_last failure (some (e, lw, s)) = close_lines (first_of (read_error failure) e) lw s

  -- An encoder that failed writes no more.
  close_encoder : Source E → Copied E → Copied E
  unfolding close_lines after_last encode_pieces
  close_encoder src none = none
  close_encoder src (some (some e, lw, s)) = close_lines (some e) lw s
  close_encoder src (some (none, lw, s)) = after_last src.failure (encode_pieces src.last lw s)

  -- `streamBase64Upload`
  pub stream_base64_upload : Source E → LineWriter → Session E → Copied E
  unfolding close_encoder encode_pieces
  stream_base64_upload src lw s = close_encoder src (encode_pieces src.pieces lw s)

  after_status : LineWriter → ℤ → Session E → Ended E
  after_status lw status s =
      if eq_ℤ status (pos 0)
      then some (finished_ending lw, s)
      else some (stopped false lw (exited status), s)

  await_status : Bytes → LineWriter → Bytes → Session E → Ended E
  unfolding then_text after_status
  await_status token lw text s =
      then_text false lw [] (wait_exit_status t (exit_marker token) s) (after_status lw)

  await_exit : Bytes → LineWriter → Session E → Ended E
  unfolding then_text await_status
  await_exit token lw s =
      then_text false lw (codes "wait for upload exit marker")
        (expect t ((exit_marker token ++ codes "EXIT:") ∷ []) s) (await_status token lw)

module _ {E : Type 0} (t : Terminal E) (token temp remote : Bytes) (src : Source E) where
  verify : LineWriter → Session E → Ended E
  unfolding then_line await_exit
  verify lw s =
      then_line false lw (codes "verify uploaded file")
        (write_line t (upload_finish_command temp remote src.digest (exit_marker token)) s)
        (await_exit t token lw)

  after_stream : Copied E → Ended E
  unfolding then_line verify
  after_stream none = none
  after_stream (some (some e, lw, s)) =
      some (stopped true lw (explain (codes "stream upload file") e), s)
  after_stream (some (none, lw, s)) =
      then_line true lw (codes "finish upload payload") (write_line t (delimiter token) s)
        (verify lw)

  stream : LineWriter → Session E → Ended E
  unfolding after_stream stream_base64_upload
  stream lw s = after_stream (stream_base64_upload t src lw s)

  pub after_setup : Bytes → Session E → Ended E
  unfolding then_line stream header_line
  after_setup response s =
      if contains response (failed_name ++ token ++ codes "__")
      then some (refused_ending empty_lines, s)
      else then_line true empty_lines (codes "begin remote upload")
          (write_line t (header_line token temp) (reset s)) (stream empty_lines)

  await_setup : Session E → Ended E
  unfolding then_text after_setup
  await_setup s =
      then_text false empty_lines (codes "wait for remote upload setup")
        (expect t ((ready_name ++ token ++ codes "__") ∷ (failed_name ++ token ++ codes "__") ∷ [])
          s)
        after_setup

  -- The part behind the login.
  pub upload_body : Session E → Ended E
  unfolding then_line await_setup setup_line
  upload_body s =
      then_line false empty_lines (codes "disable remote echo") (write_line t (setup_line token) s)
        await_setup

  restored : Ending E → Session E → Session E
  unfolding upload_cleanup_command
  restored e s = if e.restore_needed then (write_line t (upload_cleanup_command temp) s).1 else s

  heredoc_closed :
      Ending E
      → Option (Option (WriteError (RunError E)) × LineWriter × Session E)
      → Option (Ran E (Unit {0}))
  unfolding restored
  heredoc_closed e none = none
  heredoc_closed e (some (failure, lw, s)) =
      some (e.result, restored e (write_line t (delimiter token) s).1)

  -- The deferred function.
  pub deferred : Ended E → Option (Ran E (Unit {0}))
  unfolding heredoc_closed restored
  deferred none = none
  deferred (some (e, s)) =
      if e.finished
      then some (e.result, s)
      else if e.heredoc_open
      then heredoc_closed e (close (serial_write t) e.lines s)
      else some (e.result, restored e s)

  after_login : Ran E (Unit {0}) → Option (Ran E (Unit {0}))
  unfolding deferred upload_body
  after_login (err e, s) = some (err e, s)
  after_login (ok u, s) = deferred (upload_body (reset s))

  -- The part behind the opening of the file and the check of the path; `marker` is the one of the login.
  pub upload_session : Bytes → UploadOptions → Session E → Option (Ran E (Unit {0}))
  unfolding after_login
  upload_session marker opts s = after_login (login t marker opts.user opts.password s)

module _ {E : Type 0} (t : Terminal E) (token marker : Bytes) (opts : UploadOptions) where
  uploaded : Option (Ran E (Unit {0})) → Option (Result (UploadError E) (Unit {0}) × Session E)
  uploaded none = none
  uploaded (some (err e, s)) = some (err (run_failed e), s)
  uploaded (some (ok u, s)) = some (ok u, s)

  to_path :
      Source E
      → Result PathError Bytes
      → Session E
      → Option (Result (UploadError E) (Unit {0}) × Session E)
  unfolding uploaded upload_session
  to_path src (err e) s = some (err (bad_path e), s)
  to_path src (ok temp) s = uploaded (upload_session t token temp opts.remote src marker opts s)

  -- `runUploadWithToken`, with what opening the file gives.
  pub run_upload_with_token :
      Result E (Source E) → Session E → Option (Result (UploadError E) (Unit {0}) × Session E)
  unfolding to_path
  run_upload_with_token (err e) s = some (err (open_failed e), s)
  run_upload_with_token (ok src) s = to_path src (upload_temp_path opts.remote token) s
