-- ===== src/Startup/Preflight.antt =====
-- cmd/drone/main.go: `preflightPins`, `preflightDevices` and `logGPIOPins`, by the entries that they log.
use drone_os.Base.{
  ◌≡◌, refl, ap, arith, Bool, false, Option, none, some, List, [], ◌∷◌, ◌++◌, length, map,
  if◌then◌else◌, ℤ, pos, Bytes, codes,
}
use drone_os.Config.{Config, Device, Pin}
use drone_os.Gpio.{Layout}
use drone_os.Gpio.Validate.{GpioError, GpioDev, PinStatus, validate_pins}
use drone_os.Gpio.Validate.Requests.{validate_pins-counts}

-- The struct `gpioPinLog`.
pub record GpioPinLog : Type 0 where
  pub name : Bytes
  pub scheme : Bytes
  pub number : ℤ
  pub config_chip : Bytes
  pub config_offset : ℤ
  pub resolved_chip : Bytes
  pub resolved_offset : ℤ
  pub direction : Bytes
  pub active_low : Option Bool
  pub bias : Bytes
  pub drive : Bytes
  pub used : Bool
  pub consumer : Bytes
  pub error_text : Bytes

-- What is logged: the pins of a device, and the warnings with the line each is about.
pub data Entry (G : Type 0) : Type 0 where
  device_config : Bytes → Bytes → List GpioPinLog → Entry G
  validation_failed : Bytes → Bytes → Bytes → ℤ → GpioError G → Entry G
  already_in_use : Bytes → Bytes → Bytes → ℤ → Bytes → Entry G

-- The part that the configuration gives.
pub pin_log : Pin → GpioPinLog
pin_log pin = record {
  name = pin.name;
  scheme = pin.scheme;
  number = pin.number;
  config_chip = pin.chip;
  config_offset = pin.offset;
  resolved_chip = [];
  resolved_offset = pos 0;
  direction = pin.direction;
  active_low = pin.active_low;
  bias = pin.bias;
  drive = pin.drive;
  used = false;
  consumer = [];
  error_text = [];
}

module _ {G : Type 0} (text : GpioError G → Bytes) where
  failure_text : Option (GpioError G) → Bytes
  failure_text none = []
  failure_text (some e) = text e

  pub with_status : GpioPinLog → PinStatus G → GpioPinLog
  unfolding failure_text
  with_status l s = record l {
    resolved_chip = s.resolved.chip;
    resolved_offset = s.resolved.offset;
    used = s.used;
    consumer = s.consumer;
    error_text = failure_text s.failure;
  }

  -- The pins with the statuses at their indices, as far as there are any.
  pin_logs : List Pin → List (PinStatus G) → List GpioPinLog
  unfolding pin_log with_status
  pin_logs [] ss = []
  pin_logs (pin ∷ pins) [] = pin_log pin ∷ pin_logs pins []
  pin_logs (pin ∷ pins) (s ∷ ss) = with_status (pin_log pin) s ∷ pin_logs pins ss

  pub log_gpio_pins : Bytes → Bytes → List Pin → List (PinStatus G) → List (Entry G)
  unfolding pin_logs
  log_gpio_pins kind name [] ss = []
  log_gpio_pins kind name (pin ∷ pins) ss = device_config name kind (pin_logs (pin ∷ pins) ss) ∷ []

pub warnings : {G : Type 0} → Bytes → Bytes → List (PinStatus G) → List (Entry G)
warnings kind name [] = []
warnings kind name (s ∷ ss) =
    let rest = warnings kind name ss in
    elim s.failure [
      | some e ↦ validation_failed name kind s.resolved.chip s.resolved.offset e ∷ rest
      | none ↦
          if s.used
          then already_in_use name kind s.resolved.chip s.resolved.offset s.consumer ∷ rest
          else rest
    ]

module _ {G : Type 0} (dev : GpioDev G) (text : GpioError G → Bytes) where
  pub preflight_pins : Layout → Bytes → Bytes → List Pin → List (Entry G)
  unfolding log_gpio_pins warnings
  preflight_pins layout kind name [] = []
  preflight_pins layout kind name (pin ∷ pins) =
      let statuses = (validate_pins dev layout (pin ∷ pins)).statuses in
      log_gpio_pins text kind name (pin ∷ pins) statuses ++ warnings kind name statuses

  pub preflight_devices : {V : Type 0} → Layout → Bytes → List (Device V) → List (Entry G)
  unfolding preflight_pins
  preflight_devices layout kind [] = []
  preflight_devices layout kind (d ∷ ds) =
      preflight_pins layout kind d.name d.pins ++ preflight_devices layout kind ds

  -- The preflight of `main`.
  pub preflight : {V : Type 0} → Layout → Config V → List (Entry G)
  unfolding preflight_devices
  preflight layout settings =
      preflight_devices layout (codes "sensor") settings.drone.sensors
      ++ preflight_devices layout (codes "output") settings.drone.outputs
      ++ preflight_pins layout (codes "radio") settings.drone.radio.name settings.drone.radio.pins

module _ {G : Type 0} (text : GpioError G → Bytes) where
  abbrev status_log : Pin × PinStatus G → GpioPinLog
  status_log (pin, s) = with_status text (pin_log pin) s

  abbrev pub pairs : List Pin → List (PinStatus G) → List (Pin × PinStatus G)
  pairs (pin ∷ pins) (s ∷ ss) = (pin, s) ∷ pairs pins ss
  pairs _ _ = []

  pin_logs-pairs :
      (pins : List Pin) (ss : List (PinStatus G))
      → length ss ≡ length pins
      → pin_logs text pins ss ≡ map status_log (pairs pins ss)
  unfolding pin_logs
  pin_logs-pairs [] ss h = refl
  pin_logs-pairs (pin ∷ pins) [] h = absurd (omega arith)
  pin_logs-pairs (pin ∷ pins) (s ∷ ss) h =
      ap (◌∷◌ (status_log (pin, s))) (pin_logs-pairs pins ss (omega arith))

  -- Every pin that is logged is logged with the status that `ValidatePins` gave for it.
  pub preflight_pins-logs :
      (dev : GpioDev G) (layout : Layout) (kind name : Bytes) (pin : Pin) (pins : List Pin)
      → let ss = (validate_pins dev layout (pin ∷ pins)).statuses in
        preflight_pins dev text layout kind name (pin ∷ pins)
        ≡ device_config name kind (map status_log (pairs (pin ∷ pins) ss)) ∷ warnings kind name ss
  unfolding preflight_pins log_gpio_pins
  preflight_pins-logs dev layout kind name pin pins =
      let ss = (validate_pins dev layout (pin ∷ pins)).statuses in
      ap (λ l. device_config name kind l ∷ warnings kind name ss)
        (pin_logs-pairs (pin ∷ pins) ss (validate_pins-counts dev layout (pin ∷ pins)).0)
