-- ===== src/Lora/Hat/Tests.antt =====
-- A board on which the second line is taken by another program.
use drone_os.Base.{ℕ, ◌==◌, if◌then◌else◌, some, none, [], ok, true}
use drone_os.Lora.Device.{FileSystem, resolve_serial_device}
use drone_os.Lora.Hat.{HatDev, m1_pin, open_radio}
use drone_os.Lora.Hat.Held.{Opens, open_radio-Opens}

abbrev fs : FileSystem ℕ
fs = record {
  read_dir = λ path. none;
  glob = λ pattern. [];
  is_symlink = λ path. none;
  eval_symlinks = λ path. none;
  is_char_device = λ path. ok true;
}

abbrev dev : HatDev ℕ
dev = record {
  request_line = λ l. if l == m1_pin then some 16 else none;
  open_port = λ device timeout. none;
  write = λ b. none;
}

open_radio-Opens_example : Opens dev (resolve_serial_device fs none) (open_radio dev fs none)
open_radio-Opens_example = open_radio-Opens dev fs none
