-- ===== src/Runner.antt =====
-- cmd/dev/pi_runner/main.go: the buffer of serial output, and the words and paths of its shell commands.
pub mod Buffer
pub mod Quote
pub mod Upload
pub mod Session
pub mod Status
pub mod Exec
pub mod Options
pub mod Console
pub mod Waits
pub mod Deliver
mod Tests
use drone_os.Base.{
  ℕ, ◌+◌, ◌-◌, ◌*◌, Bool, true, false, not, ◌&&◌, Option, none, some, List, [], ◌∷◌, ◌++◌, ltb, leb,
  ◌==◌, if◌then◌else◌, Bytes, codes, text_eq, Result, ok, err, length, drop,
}

abbrev pub max_buffer : ℕ
max_buffer = 64 * 1024

pub data AppendError (E : Type 0) : Type 0 where
  mirror_failed : E → AppendError E
  short_write : AppendError E

-- `mirror.Write`: the number of bytes written, the error, and the writer behind it. A missing mirror is
-- nil. Writes to a `bytes.Buffer` are complete and do not fail.
abbrev pub Mirror : Type 0 → Type 0 → Type 0
Mirror E W = Option (Bytes → W → (ℕ × Option E) × W)

-- The error, if there is one, and the new contents of `recent`.
abbrev pub Appended : Type 0 → Type 0 → Type 0
Appended E W = Option (AppendError E) × Bytes × W

-- The part of `append` behind the mirror.
pub remember : Bytes → Bytes → Bytes
remember recent bytes =
    let value = recent ++ bytes in
    if leb (length value) max_buffer then value else drop (length value - max_buffer) value

module _ {E W : Type 0} where
  mirrored : Bytes → Bytes → (ℕ × Option E) × W → Appended E W
  unfolding remember
  mirrored recent bytes ((n, some e), w) = (some (mirror_failed e), recent, w)
  mirrored recent bytes ((n, none), w) =
      if n == length bytes then (none, remember recent bytes, w) else (some short_write, recent, w)

  -- `serialRunner.append`
  pub append : Mirror E W → Bytes → Bytes → W → Appended E W
  unfolding mirrored
  append none recent bytes w = (none, remember recent bytes, w)
  append (some write) recent bytes w = mirrored recent bytes (write bytes w)

pub data DeviceError : Type 0 where
  no_device : DeviceError
  several_devices : List Bytes → DeviceError

only_device : List Bytes → Result DeviceError Bytes
only_device [] = err no_device
only_device (d ∷ []) = ok d
only_device ds = err (several_devices ds)

-- `resolveSerialDevice`
pub resolve_serial_device : Bytes → List Bytes → Result DeviceError Bytes
unfolding only_device
resolve_serial_device value devices =
    if not (text_eq value []) && not (text_eq value (codes "auto"))
    then ok value
    else only_device devices

-- The bytes ' and \.
abbrev pub quote : ℕ
quote = 39

abbrev pub backslash : ℕ
backslash = 92

-- strings.ReplaceAll(value, "'", "'\\''")
pub escape_quotes : Bytes → Bytes
escape_quotes [] = []
escape_quotes (c ∷ s) =
    let rest = escape_quotes s in
    if c == quote then quote ∷ backslash ∷ quote ∷ quote ∷ rest else c ∷ rest

-- `shellQuote`
pub shell_quote : Bytes → Bytes
unfolding escape_quotes
shell_quote value = (quote ∷ escape_quotes value) ++ (quote ∷ [])

-- `uploadCleanupCommand`
pub upload_cleanup_command : Bytes → Bytes
unfolding shell_quote
upload_cleanup_command temp = codes "rm -f -- " ++ (shell_quote temp ++ codes "; stty echo")

-- `uploadFinishCommand`: the pieces between the words that are quoted.
pub upload_finish_command : Bytes → Bytes → Bytes → Bytes → Bytes
unfolding shell_quote
upload_finish_command temp remote digest marker =
    codes "if actual=$(sha256sum -- "
    ++ (shell_quote temp
        ++ (codes ") && [ \"${actual%% *}\" = "
            ++ (shell_quote digest
                ++ (codes " ] && chmod 0755 -- "
                    ++ (shell_quote temp
                        ++ (codes " && mv -f -- "
                            ++ (shell_quote temp
                                ++ (codes " "
                                    ++ (shell_quote remote
                                        ++ (codes "; then status=0; else rm -f -- "
                                            ++ (shell_quote temp
                                                ++ (codes
                                                      "; status=1; fi; if ! stty echo; then status=1; fi; printf '\\n"
                                                    ++ (marker
                                                        ++ codes
                                                            "EXIT:%s\\n' \"$status\"")))))))))))))
