-- ===== src/Lora/Device.antt =====
-- internal/drivers/radio/SX1262/main.go: which serial device the radio uses. The file system is what
-- the calls of os and filepath answer.
pub mod Chosen
mod Tests
use drone_os.Base.{
  ℕ, ◌≡◌, refl, ◌⊎◌, inl, inr, Bool, true, false, not, ◌||◌, ◌&&◌, Option, none, some, List, [],
  ◌∷◌, ◌++◌, map, arith, ltb, ◌==◌, if◌then◌else◌, Bytes, codes, text_eq, one_of, trim_space,
  text_lt, to_lower, Result, ok, err, ◌>>=◌, All, Bool-cases, Option-cases, Result-cases,
}
use drone_os.Config.{Radio}

-- A file's symbolic link bit by `os.Lstat`, and its character device bit by `os.Stat`.
pub record FileSystem (E : Type 0) : Type 0 where
  pub read_dir : Bytes → Option (List Bytes)
  pub glob : Bytes → List Bytes
  pub is_symlink : Bytes → Option Bool
  pub eval_symlinks : Bytes → Option Bytes
  pub is_char_device : Bytes → Result E Bool

pub data DeviceError (E : Type 0) : Type 0 where
  stat_failed : E → DeviceError E
  not_a_char_device : Bytes → DeviceError E
  no_usb_device : DeviceError E

-- `SERIAL_DEVICE`
abbrev pub serial_device : Bytes
serial_device = codes "/dev/ttyS0"

-- `isAutoUSB`
pub is_auto_usb : Bytes → Bool
is_auto_usb value =
    one_of (to_lower (trim_space value))
      (codes "auto" ∷ codes "scan" ∷ codes "usb" ∷ codes "usb-auto" ∷ codes "usb-scan" ∷ [])

-- `radioMode`
pub radio_mode : Bool → Bytes
radio_mode use_gpio = if use_gpio then codes "GPIO UART" else codes "USB"

-- The first of the texts behind `sort.Strings`.
pub first_sorted : Bytes → List Bytes → Bytes
unfolding text_lt
first_sorted a [] = a
first_sorted a (b ∷ bs) =
    let with_a = first_sorted a bs in
    let with_b = first_sorted b bs in if text_lt b a then with_b else with_a

module _ {E : Type 0} (fs : FileSystem E) where
  pub validate_serial_device : Bytes → Result (DeviceError E) Bytes
  validate_serial_device device = elim (fs.is_char_device device) [
    | err e ↦ err (stat_failed e)
    | ok b ↦ if b then ok device else err (not_a_char_device device)
  ]

  by_id : Option (List Bytes) → List Bytes
  by_id none = []
  by_id (some entries) = map (λ name. codes "/dev/serial/by-id/" ++ name) entries

  or_tty : List Bytes → List Bytes
  or_tty [] = fs.glob (codes "/dev/ttyUSB*") ++ fs.glob (codes "/dev/ttyACM*")
  or_tty (c ∷ cs) = c ∷ cs

  pub candidates : List Bytes
  unfolding by_id or_tty
  candidates = or_tty (by_id (fs.read_dir (codes "/dev/serial/by-id")))

  target_or : Bytes → Option Bytes → Bytes
  target_or c none = c
  target_or c (some t) = t

  resolve_link : Bytes → Option Bool → Bytes
  unfolding target_or
  resolve_link c (some true) = target_or c (fs.eval_symlinks c)
  resolve_link c _ = c

  -- Whether the loop keeps a candidate.
  pub usable : Bytes → Bool
  unfolding resolve_link
  usable c = elim (fs.is_char_device (resolve_link c (fs.is_symlink c))) [
    | err e ↦ false
    | ok b ↦ b
  ]

  pub usable_only : List Bytes → List Bytes
  unfolding usable
  usable_only [] = []
  usable_only (c ∷ cs) = let rest = usable_only cs in if usable c then c ∷ rest else rest

  first_of : List Bytes → Result (DeviceError E) Bytes
  first_of [] = err no_usb_device
  first_of (c ∷ cs) = ok (first_sorted c cs)

  pub find_usb_serial_device : Result (DeviceError E) Bytes
  unfolding first_of
  find_usb_serial_device = first_of (usable_only candidates)

  abbrev with_gpio : Bool → Result (DeviceError E) Bytes → Result (DeviceError E) (Bytes × Bool)
  with_gpio g (ok d) = ok (d, g)
  with_gpio g (err e) = err e

  resolve_uart : Bytes → Result (DeviceError E) (Bytes × Bool)
  resolve_uart uart =
      if text_eq uart []
      then ok (serial_device, true)
      else with_gpio true (validate_serial_device uart)

  resolve_radio : Radio → Result (DeviceError E) (Bytes × Bool)
  unfolding resolve_uart is_auto_usb
  resolve_radio cfg =
      let usb_id = trim_space cfg.usb_id in
      if is_auto_usb usb_id || (text_eq usb_id [] && cfg.usb_scan)
      then with_gpio false find_usb_serial_device
      else if not (text_eq usb_id [])
      then with_gpio false (validate_serial_device usb_id)
      else resolve_uart (trim_space cfg.uart_device)

  -- `resolveSerialDevice`: the device, and whether it is the UART, whose mode pins are driven over GPIO.
  pub resolve_serial_device : Option Radio → Result (DeviceError E) (Bytes × Bool)
  unfolding resolve_radio
  resolve_serial_device none = ok (serial_device, true)
  resolve_serial_device (some cfg) = resolve_radio cfg
