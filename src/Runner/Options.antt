-- ===== src/Runner/Options.antt =====
-- cmd/dev/pi_runner/main.go: the settings of the environment, the checks of `parseFlags` and the path of an
-- upload. The package flag and the parsing of durations are parameters; durations count nanoseconds.
pub mod Checked
mod Tests
use drone_os.Base.{
  ◌||◌, ◌&&◌, not, Bool, true, false, Option, none, some, List, [], ◌∷◌, ◌++◌, ◌==◌, if◌then◌else◌,
  reverse, ℕ, ℤ, pos, ltb_ℤ, Bytes, codes, text_eq, slash, file_base, atoi, Result, ok, err,
}

pub record Options : Type 0 where
  pub baud : ℤ
  pub command : Bytes
  pub device : Bytes
  pub file : Bytes
  pub password : Bytes
  pub poke : ℤ
  pub remote : Bytes
  pub timeout : ℤ
  pub user : Bytes
  pub verbose : Bool
  pub wait_marker : Bytes

pub data FlagError (E : Type 0) : Type 0 where
  flag_failed : E → FlagError E
  no_mode : FlagError E
  unexpected_arguments : List Bytes → FlagError E
  invalid_baud invalid_timeout : ℤ → FlagError E
  only_with_exec only_with_upload : Bytes → FlagError E
  no_marker no_command no_file no_remote : FlagError E

-- What a flag set makes of the arguments: the options, the names of the flags that were set, and the
-- arguments that are left.
pub record Parsed : Type 0 where
  pub options : Options
  pub set : List Bytes
  pub rest : List Bytes

pub env_string : (Bytes → Bytes) → Bytes → Bytes → Bytes
env_string getenv name fallback = if text_eq (getenv name) [] then fallback else getenv name

-- A value that cannot be read gives the fallback.
read_or : Option ℤ → ℤ → ℤ
read_or none fallback = fallback
read_or (some n) fallback = n

pub env_int : (Bytes → Bytes) → Bytes → ℤ → ℤ
unfolding read_or
env_int getenv name fallback =
    if text_eq (getenv name) [] then fallback else read_or (atoi (getenv name)) fallback

pub env_duration : (Bytes → Option ℤ) → (Bytes → Bytes) → Bytes → ℤ → ℤ
unfolding read_or
env_duration parse_duration getenv name fallback =
    if text_eq (getenv name) [] then fallback else read_or (parse_duration (getenv name)) fallback

-- The options in front of the flags.
pub default_options : (Bytes → Option ℤ) → (Bytes → Bytes) → Options
unfolding env_string env_int env_duration
default_options parse_duration getenv = record {
  baud = env_int getenv (codes "DRONEOS_SERIAL_BAUD") (pos 115200);
  command = [];
  device = env_string getenv (codes "DRONEOS_SERIAL_DEVICE") (codes "auto");
  file = env_string getenv (codes "DRONEOS_UPLOAD_FILE") [];
  password = env_string getenv (codes "DRONEOS_PI_PASSWORD") [];
  poke = env_duration parse_duration getenv (codes "DRONEOS_SERIAL_POKE_INTERVAL") (pos 2000000000);
  remote = env_string getenv (codes "DRONEOS_UPLOAD_REMOTE") [];
  timeout = env_duration parse_duration getenv (codes "DRONEOS_SERIAL_TIMEOUT") (pos 90000000000);
  user = env_string getenv (codes "DRONEOS_PI_USER") (codes "admin");
  verbose = false;
  wait_marker = env_string getenv (codes "DRONEOS_SERIAL_WAIT_MARKER") (codes "login:");
}

abbrev exec_mode : Bytes
exec_mode = codes "exec"

abbrev upload_mode : Bytes
upload_mode = codes "upload"

abbrev wait_mode : Bytes
wait_mode = codes "wait"

abbrev space : ℕ
space = 32

-- strings.Join(rest, " ")
join_words : List Bytes → Bytes
join_words [] = []
join_words (w ∷ []) = w
join_words (w ∷ v ∷ ws) = w ++ space ∷ join_words (v ∷ ws)

has_name : Bytes → List Bytes → Bool
has_name name [] = false
has_name name (n ∷ ns) = text_eq n name || has_name name ns

module _ {E : Type 0} where
  -- The first of the checks that fails, if any.
  pub check_options : Options → Bytes → Bool → Bool → Bool → Option (FlagError E)
  check_options o mode command_set file_set remote_set =
      if not (ltb_ℤ (pos 0) o.baud)
      then some (invalid_baud o.baud)
      else if not (ltb_ℤ (pos 0) o.timeout)
      then some (invalid_timeout o.timeout)
      else if command_set && not (text_eq mode exec_mode)
      then some (only_with_exec (codes "--command"))
      else if file_set && not (text_eq mode upload_mode)
      then some (only_with_upload (codes "--file"))
      else if remote_set && not (text_eq mode upload_mode)
      then some (only_with_upload (codes "--remote"))
      else if text_eq mode wait_mode && text_eq o.wait_marker []
      then some no_marker
      else if text_eq mode exec_mode && text_eq o.command []
      then some no_command
      else if text_eq mode upload_mode && text_eq o.file []
      then some no_file
      else if text_eq mode upload_mode && text_eq o.remote []
      then some no_remote
      else none

  checked : Options → Bytes → Option (FlagError E) → Result (FlagError E) (Options × Bytes)
  checked o mode (some e) = err e
  checked o mode none = ok (o, mode)

  -- The command that stands behind the mode.
  take_words : Options → Bytes → List Bytes → Result (FlagError E) Options
  unfolding join_words
  take_words o mode [] = ok o
  take_words o mode (w ∷ ws) =
      if not (text_eq mode exec_mode) || not (text_eq o.command [])
      then err (unexpected_arguments (w ∷ ws))
      else ok (record o { command = join_words (w ∷ ws) })

  all_checked :
      Bytes → List Bytes → Result (FlagError E) Options → Result (FlagError E) (Options × Bytes)
  unfolding checked check_options has_name
  all_checked mode names (err e) = err e
  all_checked mode names (ok o) = checked o mode (
      check_options o mode (has_name (codes "command") names) (has_name (codes "file") names)
        (has_name (codes "remote") names))

  after_trailing : Bytes → List Bytes → Result E Parsed → Result (FlagError E) (Options × Bytes)
  unfolding all_checked take_words
  after_trailing mode set (err e) = err (flag_failed e)
  after_trailing mode set (ok p) =
      all_checked mode (set ++ p.set) (take_words p.options mode p.rest)

  after_leading :
      (Options → List Bytes → Result E Parsed)
      → Options
      → List Bytes
      → List Bytes
      → Result (FlagError E) (Options × Bytes)
  unfolding after_trailing
  after_leading parse o set [] = err no_mode
  after_leading parse o set (mode ∷ rest) = after_trailing mode set (parse o rest)

  with_leading :
      (Options → List Bytes → Result E Parsed)
      → Result E Parsed
      → Result (FlagError E) (Options × Bytes)
  unfolding after_leading
  with_leading parse (err e) = err (flag_failed e)
  with_leading parse (ok p) = after_leading parse p.options p.set p.rest

  -- `parseFlags`: the options and the mode. `parse` is a flag set over the options so far.
  pub parse_flags :
      (Options → List Bytes → Result E Parsed)
      → Options
      → List Bytes
      → Result (FlagError E) (Options × Bytes)
  unfolding with_leading
  parse_flags parse defaults args = with_leading parse (parse defaults args)

pub data PathError : Type 0 where
  no_destination null_byte : PathError
  no_file_name : Bytes → PathError

has_null : Bytes → Bool
has_null [] = false
has_null (c ∷ s) = c == 0 || has_null s

ends_in_slash : Bytes → Bool
ends_in_slash s = elim (reverse s) [ [] ↦ false | c ∷ r ↦ c == slash ]

-- `uploadTempPath`
pub upload_temp_path : Bytes → Bytes → Result PathError Bytes
unfolding has_null ends_in_slash
upload_temp_path remote token =
    if text_eq remote []
    then err no_destination
    else if has_null remote
    then err null_byte
    else if ends_in_slash remote
        || (text_eq (file_base remote) (codes ".") || text_eq (file_base remote) (codes ".."))
    then err (no_file_name remote)
    else ok (remote ++ codes ".droneos-upload-" ++ token ++ codes ".tmp")
