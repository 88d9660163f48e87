-- ===== src/Runner/Options/Tests.antt =====
-- Command lines over a flag set that knows only `--command`, and paths of uploads.
use drone_os.Base.{
  ◌≡◌, refl, none, List, [], ◌∷◌, Bytes, codes, text_eq, if◌then◌else◌, file_base, drop_slashes,
  until_slash, Result, ok, err,
}
use drone_os.Runner.Options.{
  Options, Parsed, FlagError, unexpected_arguments, no_command, default_options, parse_flags,
  with_leading, after_leading, after_trailing, take_words, all_checked, checked, check_options,
  has_name, env_string, env_int, env_duration, upload_temp_path, has_null, ends_in_slash,
  no_file_name,
}

abbrev parse : Options → List Bytes → Result (Unit {0}) Parsed
parse o [] = ok (record { options = o; set = []; rest = [] })
parse o (w ∷ []) = ok (record { options = o; set = []; rest = w ∷ [] })
parse o (w ∷ v ∷ ws) =
    if text_eq w (codes "--command")
    then ok (record { options = record o { command = v }; set = codes "command" ∷ []; rest = ws })
    else ok (record { options = o; set = []; rest = w ∷ v ∷ ws })

abbrev defaults : Options
defaults = default_options (λ text. none) (λ name. [])

abbrev run : List Bytes → Result (FlagError (Unit {0})) (Options × Bytes)
run args = parse_flags parse defaults args

-- The option behind the mode gives the command, and two commands are refused.
exec_line :
    run (codes "exec" ∷ codes "--command" ∷ codes "ls" ∷ [])
    ≡ ok (record defaults { command = codes "ls" }, codes "exec")
unfolding parse_flags with_leading after_leading after_trailing take_words all_checked checked
    check_options has_name default_options env_string env_int env_duration text_eq
exec_line = refl

two_commands :
    run (codes "exec" ∷ codes "--command" ∷ codes "ls" ∷ codes "-l" ∷ [])
    ≡ err (unexpected_arguments (codes "-l" ∷ []))
unfolding parse_flags with_leading after_leading after_trailing take_words text_eq default_options
two_commands = refl

no_words : run (codes "exec" ∷ []) ≡ err no_command
unfolding parse_flags with_leading after_leading after_trailing take_words all_checked checked
    check_options has_name default_options env_string env_int env_duration text_eq
no_words = refl

temp_path :
    upload_temp_path (codes "/opt/app") (codes "5") ≡ ok (codes "/opt/app.droneos-upload-5.tmp")
unfolding upload_temp_path has_null ends_in_slash text_eq file_base drop_slashes until_slash
temp_path = refl

temp_dots : upload_temp_path (codes "/opt/..") (codes "5") ≡ err (no_file_name (codes "/opt/.."))
unfolding upload_temp_path has_null ends_in_slash text_eq file_base drop_slashes until_slash
temp_dots = refl
