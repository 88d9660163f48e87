-- ===== src/Lora/Device/Tests.antt =====
-- A scan of two USB adapters.
use drone_os.Base.{ℕ, true, false, none, some, [], ◌∷◌, ok, codes}
use drone_os.Config.{Radio}
use drone_os.Lora.Device.{FileSystem}
use drone_os.Lora.Device.Chosen.{Chosen}

abbrev files : FileSystem ℕ
files = record {
  read_dir = λ p. some (codes "b" ∷ codes "a" ∷ []);
  glob = λ p. [];
  is_symlink = λ p. some false;
  eval_symlinks = λ p. none;
  is_char_device = λ p. ok true;
}

abbrev scanning : Radio
scanning = record {
  name = codes "sx1262";
  always_use = false;
  pins = [];
  usb_id = codes "auto";
  usb_scan = false;
  uart_device = [];
}
