-- ===== src/Lora/Device/Chosen.antt =====
-- Which device `resolveSerialDevice` may choose.
use drone_os.Base.{
  text_lt, ◌≡◌, ◌≢◌, map, ◌++◌, codes, one_of, to_lower, ◌⊎◌, Bool, true, false, Option, none, some,
  List, [], ◌∷◌, Bytes, trim_space, ok,
}
use drone_os.Config.{Radio}
use drone_os.Lora.Device.{FileSystem, serial_device}

pub data Mem (a : Bytes) : List Bytes → Type 0 where
  head : {bs : List Bytes} → Mem a (a ∷ bs)
  tail : {b : Bytes} {bs : List Bytes} → Mem a bs → Mem a (b ∷ bs)

-- `d` is one of the texts, and none is less.
pub record IsLeast (d : Bytes) (bs : List Bytes) : Type 0 where
  pub member : Mem d bs
  pub least : (c : Bytes) → Mem c bs → text_lt c d ≡ false

module _ {E : Type 0} (fs : FileSystem E) where
  -- Where a name leads: a symbolic link to what it stands for, where this can be told, else the name itself.
  pub data Leads (c : Bytes) : Bytes → Type 0 where
    followed : {t : Bytes} → fs.is_symlink c ≡ some true → fs.eval_symlinks c ≡ some t → Leads c t
    broken : fs.is_symlink c ≡ some true → fs.eval_symlinks c ≡ none → Leads c c
    plain : fs.is_symlink c ≢ some true → Leads c c

  -- A name that leads to a character device.
  abbrev pub IsSerial : Bytes → Type 0
  IsSerial c = (t : Bytes) × Leads c t × (fs.is_char_device t ≡ ok true)

  -- The names under /dev/serial/by-id, or if there is none those of the USB terminals.
  abbrev pub names_of : Option (List Bytes) → List Bytes
  names_of (some (e ∷ es)) = map (λ name. codes "/dev/serial/by-id/" ++ name) (e ∷ es)
  names_of _ = fs.glob (codes "/dev/ttyUSB*") ++ fs.glob (codes "/dev/ttyACM*")

  abbrev pub usb_names : List Bytes
  usb_names = names_of (fs.read_dir (codes "/dev/serial/by-id"))

  -- The first of the USB names that lead to character devices.
  pub record IsFirst (d : Bytes) : Type 0 where
    pub member : Mem d usb_names
    pub serial : IsSerial d
    pub first : (c : Bytes) → Mem c usb_names → IsSerial c → text_lt c d ≡ false

  -- The settings name one of the words for a scan, in any case, or no USB device but ask for a scan.
  abbrev pub AsksScan : Radio → Type 0
  AsksScan cfg =
      (one_of (to_lower (trim_space (trim_space cfg.usb_id)))
          (codes "auto" ∷ codes "scan" ∷ codes "usb" ∷ codes "usb-auto" ∷ codes "usb-scan" ∷ [])
        ≡ true)
      ⊎ ((trim_space cfg.usb_id ≡ []) × (cfg.usb_scan ≡ true))

  -- What is known of a device that was chosen, and whether it is driven over GPIO: the board's UART, the
  -- USB or UART device of the settings, which is a character device, or the first of the USB devices.
  pub data Chosen : Option Radio → Bytes → Bool → Type 0 where
    no_settings : Chosen none serial_device true
    board_uart :
        (cfg : Radio)
        → trim_space cfg.usb_id ≡ []
        → trim_space cfg.uart_device ≡ []
        → Chosen (some cfg) serial_device true
    named_usb :
        (cfg : Radio)
        → trim_space cfg.usb_id ≢ []
        → fs.is_char_device (trim_space cfg.usb_id) ≡ ok true
        → Chosen (some cfg) (trim_space cfg.usb_id) false
    named_uart :
        (cfg : Radio)
        → trim_space cfg.usb_id ≡ []
        → fs.is_char_device (trim_space cfg.uart_device) ≡ ok true
        → Chosen (some cfg) (trim_space cfg.uart_device) true
    scanned : (cfg : Radio) (d : Bytes) → AsksScan cfg → IsFirst d → Chosen (some cfg) d false
