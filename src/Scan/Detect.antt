-- ===== src/Scan/Detect.antt =====
-- internal/drone/device_detect.go and internal/drone/i2c_probe.go: whether a configured device is there.
pub mod Values
pub mod Configured
pub mod I2c
pub mod Verdict
use drone_os.Base.{
  ℕ, ◌||◌, ◌==◌, Bool, true, false, Option, none, some, List, [], ◌∷◌, ◌++◌, if◌then◌else◌, ℤ, pos,
  Bytes, codes, text_eq, hex_byte, Result, ok, err,
}
use drone_os.Config.{Device}
use drone_os.Gpio.{ResolvedPin}
use drone_os.Protocol.Handlers.{find_function}
use drone_os.Scan.Detect.Values.{Value, Numbers, config_int, config_string}
use drone_os.Scan.Detect.I2c.{I2cDev, I2cError, read_i2c_register}

abbrev pub detect_detected : Bytes
detect_detected = codes "detected"

abbrev pub detect_not_detected : Bytes
detect_not_detected = codes "not_detected"

abbrev pub detect_unknown : Bytes
detect_unknown = codes "unknown"

abbrev pub detect_error : Bytes
detect_error = codes "error"

pub record DetectResult : Type 0 where
  pub status : Bytes
  pub method : Bytes
  pub reason : Bytes

abbrev pub DeviceDetectFunc : Type 0 → Type 0
DeviceDetectFunc F = Device (Value F) → List ResolvedPin → DetectResult

pub record DetectRegistry (F : Type 0) : Type 0 where
  pub sensors : List (Bytes × DeviceDetectFunc F)
  pub outputs : List (Bytes × DeviceDetectFunc F)

-- What the rest of the system answers: the values of a configuration, the I²C buses with the texts of their
-- errors, and `os.Stat`, which gives the text of its error or whether the file is a character device.
pub record Probing (F E : Type 0) : Type 0 where
  pub numbers : Numbers F
  pub bus : I2cDev E
  pub i2c_text : I2cError E → Bytes
  pub stat : Bytes → Result Bytes Bool

abbrev no_registry : DetectResult
no_registry = record {
  status = detect_unknown;
  method = codes "config";
  reason = codes "no detector registry";
}

module _ {F : Type 0} where
  pub detect_no_probe : Bytes → DeviceDetectFunc F
  detect_no_probe method device pins = record {
    status = detect_unknown;
    method = if text_eq method [] then codes "config" else method;
    reason = codes "no device probe implemented";
  }

  -- The registry's answer for a device of this name.
  detect_in : Option (DeviceDetectFunc F) → DeviceDetectFunc F
  detect_in none device pins = record {
    status = detect_unknown;
    method = codes "config";
    reason = codes "no detector for device";
  }
  detect_in (some fn) device pins = fn device pins

  pub detect_sensor : Option (DetectRegistry F) → DeviceDetectFunc F
  unfolding detect_in find_function
  detect_sensor none device pins = no_registry
  detect_sensor (some r) device pins = detect_in (find_function device.name r.sensors) device pins

  pub detect_output : Option (DetectRegistry F) → DeviceDetectFunc F
  unfolding detect_in find_function
  detect_output none device pins = no_registry
  detect_output (some r) device pins = detect_in (find_function device.name r.outputs) device pins

abbrev uart_result : Bytes → Bytes → DetectResult
uart_result status reason = record { status = status; method = codes "uart"; reason = reason }

uart_stat : Result Bytes Bool → DetectResult
uart_stat (err e) = uart_result detect_not_detected (codes "serial device missing: " ++ e)
uart_stat (ok is_char_device) =
    if is_char_device
    then uart_result detect_unknown (codes "serial device present; no UART probe implemented")
    else uart_result detect_error (codes "serialDevice is not a character device")

abbrev i2c_result : Bytes → Bytes → DetectResult
i2c_result status reason = record { status = status; method = codes "i2c"; reason = reason }

module _ {F E : Type 0} (w : Probing F E) where
  pub detect_gtu7 : DeviceDetectFunc F
  unfolding uart_stat config_string
  detect_gtu7 device pins =
      let serial_device = config_string device.config (codes "serialDevice") [] in
      if text_eq serial_device []
      then uart_result detect_unknown (codes "serialDevice not configured")
      else uart_stat (w.stat serial_device)

  who_am_i : Result (I2cError E) ℕ → DetectResult
  who_am_i (err e) = i2c_result detect_error (codes "i2c probe failed: " ++ w.i2c_text e)
  who_am_i (ok who) =
      if who == 104 || who == 105
      then i2c_result detect_detected (codes "WHO_AM_I=0x" ++ hex_byte who)
      else i2c_result detect_not_detected (codes "unexpected WHO_AM_I=0x" ++ hex_byte who)

  pub detect_mpu6050 : DeviceDetectFunc F
  unfolding who_am_i config_int read_i2c_register
  detect_mpu6050 device pins =
      let bus = config_int w.numbers device.config (codes "i2cBus") (pos 1) in
      let addr = config_int w.numbers device.config (codes "i2cAddress") (pos 104) in
      who_am_i (read_i2c_register w.bus bus addr 117).0

  pub default_detect_registry : DetectRegistry F
  unfolding detect_no_probe detect_gtu7 detect_mpu6050
  default_detect_registry = record {
    sensors =
        (codes "frienda_obstacle_431S", detect_no_probe (codes "gpio"))
        ∷ (codes "GT_U7", detect_gtu7)
        ∷ (codes "HC_SR04", detect_no_probe (codes "gpio"))
        ∷ (codes "MPU_6050", detect_mpu6050)
        ∷ [];
    outputs =
        (codes "hawks_work_ESC", detect_no_probe (codes "gpio"))
        ∷ (codes "MG90S", detect_no_probe (codes "gpio"))
        ∷ [];
  }
