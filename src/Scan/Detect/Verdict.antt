-- ===== src/Scan/Detect/Verdict.antt =====
-- When the motion sensor MPU-6050 counts as there.
use drone_os.Base.{◌≡◌, refl, ◌↔◌, ◌⊎◌, arith, ℕ, List, some, Result, ok, err, pos, codes, text_eq}
use drone_os.Config.{Device}
use drone_os.Gpio.{ResolvedPin}
use drone_os.Protocol.Handlers.{find_function}
use drone_os.Scan.Detect.{
  Probing, detect_detected, who_am_i, detect_mpu6050, detect_sensor, detect_in,
  default_detect_registry,
}
use drone_os.Scan.Detect.Values.{Value, config_int}
use drone_os.Scan.Detect.I2c.{I2cError, HoldsByte, read_i2c_register, read_i2c_register_iff}

module _ {F E : Type 0} (w : Probing F E) where
  who_am_i_iff :
      (r : Result (I2cError E) ℕ)
      → ((who_am_i w r).status ≡ detect_detected)
        ↔ ((who : ℕ) × (r ≡ ok who) × ((who ≡ 104) ⊎ (who ≡ 105)))
  unfolding who_am_i
  who_am_i_iff (err e) = (λ h. absurd (cc h), λ (who, e, h). absurd (cc e))
  who_am_i_iff (ok who) = (λ h. (who, refl, ground arith), λ (k, e, h). ground arith)

  -- The sensor is detected exactly if the register 0x75 of the chip at the configured address of the
  -- configured bus, where none is configured that at 0x68 of bus 1, can be read and holds 0x68 or 0x69.
  pub detect_mpu6050_iff :
      (device : Device (Value F)) (pins : List ResolvedPin)
      → let bus = config_int w.numbers device.config (codes "i2cBus") (pos 1) in
        let addr = config_int w.numbers device.config (codes "i2cAddress") (pos 104) in
        ((detect_mpu6050 w device pins).status ≡ detect_detected)
        ↔ ((who : ℕ) × HoldsByte w.bus bus addr 117 who × ((who ≡ 104) ⊎ (who ≡ 105)))
  unfolding detect_mpu6050
  detect_mpu6050_iff device pins =
      let bus = config_int w.numbers device.config (codes "i2cBus") (pos 1) in
      let addr = config_int w.numbers device.config (codes "i2cAddress") (pos 104) in
      let (there, back) = who_am_i_iff (read_i2c_register w.bus bus addr 117).0 in
      (
        λ h.
            let (who, e, k) = there h in
            (who, (read_i2c_register_iff w.bus bus addr 117 who).0 e, k),
        λ (who, holds, k). back (who, (read_i2c_register_iff w.bus bus addr 117 who).1 holds, k),
      )

  pub detect_sensor-mpu6050 :
      (device : Device (Value F)) (pins : List ResolvedPin)
      → device.name ≡ codes "MPU_6050"
      → detect_sensor (some (default_detect_registry w)) device pins ≡ detect_mpu6050 w device pins
  unfolding detect_sensor detect_in default_detect_registry find_function text_eq
  detect_sensor-mpu6050 device pins named = rw (named, detect_sensor, find_function) refl
