-- ===== src/Lora/Hat.antt =====
-- internal/drivers/radio/SX1262/main.go: opening, using and closing the LoRa HAT, with the lines and the port
-- that are taken and freed in their order. Log lines and the pause of `setTransparentMode` are left out.
pub mod Held
mod Tests
use drone_os.Base.{
  ℕ, Bool, true, false, Option, none, some, List, [], ◌∷◌, ◌++◌, ◌==◌, if◌then◌else◌, Bytes,
  text_eq, Result, ok, err, replicate,
}
use drone_os.Config.{Radio}
use drone_os.Lora.{LoRaHat, max_frame_size}
use drone_os.Lora.Device.{FileSystem, DeviceError, radio_mode, resolve_serial_device}

-- `M0_PIN`
abbrev pub m0_pin : ℕ
m0_pin = 22

-- `M1_PIN`
abbrev pub m1_pin : ℕ
m1_pin = 27

-- A line of gpiochip0, or the serial port of a device.
pub data Handle : Type 0 where
  line : ℕ → Handle
  port : Bytes → Handle

pub data HatCall : Type 0 where
  takes frees : Handle → HatCall
  sets : ℕ → ℕ → HatCall
  writes : Bytes → HatCall

-- Requesting a line as an output that is low, opening a port with a timeout in milliseconds, and writing.
-- The errors of `SetValue` and `Close` are not looked at.
pub record HatDev (E : Type 0) : Type 0 where
  pub request_line : ℕ → Option E
  pub open_port : Bytes → ℕ → Option E
  pub write : Bytes → Option E

pub data HatError (E : Type 0) : Type 0 where
  line_failed : E → HatError E
  open_failed : Bytes → Bytes → E → HatError E
  unresolved : DeviceError E → HatError E

-- The struct `LoRaHAT`: its handles, and the receive buffer with its two indices.
pub record Hat : Type 0 where
  pub serial : Option Bytes
  pub m0 : Option ℕ
  pub m1 : Option ℕ
  pub buffer : LoRaHat

-- The zero values of the receive buffer.
pub new_buffer : LoRaHat
new_buffer = record { receive_buf = replicate max_frame_size 0; receive_start = 0; receive_end = 0 }

pub set_line : Option ℕ → ℕ → List HatCall
set_line none value = []
set_line (some l) value = sets l value ∷ []

pub set_transparent_mode : Hat → List HatCall
unfolding set_line
set_transparent_mode h = set_line h.m0 0 ++ set_line h.m1 0

abbrev close_line : Option ℕ → List HatCall
close_line none = []
close_line (some l) = frees (line l) ∷ []

abbrev close_port : Option Bytes → List HatCall
close_port none = []
close_port (some device) = frees (port device) ∷ []

pub close : Hat → List HatCall
close h = close_port h.serial ++ close_line h.m0 ++ close_line h.m1

-- `none` is the panic on a HAT without a port.
pub send : {E : Type 0} → HatDev E → Hat → Bytes → Option (Option E × List HatCall)
send dev h b = elim h.serial [ none ↦ none | some device ↦ some (dev.write b, writes b ∷ []) ]

module _ {E : Type 0} (dev : HatDev E) where
  abbrev Opened : Type 0
  Opened = Result (HatError E) Hat × List HatCall

  ready : Hat → Bool → List HatCall → Opened
  unfolding set_transparent_mode
  ready hat use_gpio calls = (ok hat, calls ++ (if use_gpio then set_transparent_mode hat else []))

  -- The port, behind the lines.
  after_port : Bytes → Bool → Option ℕ → Option ℕ → List HatCall → Option E → Opened
  unfolding ready
  after_port device use_gpio m0 m1 calls (some e) =
      (err (open_failed device (radio_mode use_gpio) e), calls ++ close_line m0 ++ close_line m1)
  after_port device use_gpio m0 m1 calls none =
      ready (record { serial = some device; m0 = m0; m1 = m1; buffer = new_buffer }) use_gpio
        (calls ++ takes (port device) ∷ [])

  open_serial : Bytes → Bool → Option ℕ → Option ℕ → List HatCall → Opened
  unfolding after_port
  open_serial device use_gpio m0 m1 calls =
      after_port device use_gpio m0 m1 calls (dev.open_port device (if use_gpio then 200 else 1000))

  after_m1 : Bytes → Option E → Opened
  unfolding open_serial
  after_m1 device (some e) = (err (line_failed e), takes (line m0_pin) ∷ frees (line m0_pin) ∷ [])
  after_m1 device none =
      open_serial device true (some m0_pin) (some m1_pin)
        (takes (line m0_pin) ∷ takes (line m1_pin) ∷ [])

  after_m0 : Bytes → Option E → Opened
  unfolding after_m1
  after_m0 device (some e) = (err (line_failed e), [])
  after_m0 device none = after_m1 device (dev.request_line m1_pin)

  pub new_lora_hat : Bytes → Bool → Opened
  unfolding after_m0
  new_lora_hat device use_gpio =
      if use_gpio
      then after_m0 device (dev.request_line m0_pin)
      else open_serial device false none none []

  after_resolve : Result (DeviceError E) (Bytes × Bool) → Opened
  unfolding new_lora_hat
  after_resolve (err e) = (err (unresolved e), [])
  after_resolve (ok (device, use_gpio)) = new_lora_hat device use_gpio

  -- `Main`
  pub open_radio : FileSystem E → Option Radio → Opened
  unfolding after_resolve
  open_radio fs s = after_resolve (resolve_serial_device fs s)
