-- ===== src/Scan/Probe/Devices.antt =====
-- What the report says of a configured device.
use drone_os.Base.{
  ◌≡◌, All, refl, sym, ap, ◌∙◌, subst, ◌↔◌, ◌⊎◌, inl, inr, arith, ℕ, ◌+◌, ◌&&◌, Bool-cases, true,
  false, List, [], ◌∷◌, Option, some, none, map, length, pos, codes, Bytes, if◌then◌else◌, text_eq,
  text_eq_iff, Bool, ℤ,
}
use drone_os.Config.{Device}
use drone_os.Gpio.{Layout, ResolvedPin, layout_or_default}
use drone_os.Scan.Probe.Inspected.{PinReads, inspect_pins-PinReads}
use drone_os.Gpio.Validate.{GpioError, GpioDev, PinStatus, opt_list, inspect_pins}
use drone_os.Gpio.Validate.Requests.{failures, inspect_pins-counts}
use drone_os.Protocol.Report.{DeviceDetect}
use drone_os.Scan.Detect.{
  Probing, DetectResult, DeviceDetectFunc, detect_detected, detect_unknown, detect_sensor,
  default_detect_registry,
}
use drone_os.Scan.Detect.Values.{Value, config_int}
use drone_os.Scan.Detect.Configured.{Configured, config_int-Configured}
use drone_os.Scan.Detect.I2c.{HoldsByte}
use drone_os.Scan.Detect.Verdict.{detect_mpu6050_iff, detect_sensor-mpu6050}
use drone_os.Scan.Probe.{
  probe_device, sound_pins, final_detect, first_detect, detect_of, pins_only, has_pins,
}

abbrev pub resolved_of : {G : Type 0} → PinStatus G → ResolvedPin
resolved_of s = s.resolved

module _ {G : Type 0} (text : GpioError G → Bytes) where
  sound_pins-cons :
      (r : ResolvedPin) (used : Bool) (c : Bytes) (f : Option (GpioError G))
      (ss : List (PinStatus G))
      → length (opt_list f) + failures ss ≡ 0
      → (failures ss ≡ 0 → sound_pins ss ≡ map resolved_of ss)
      → let s : PinStatus G = record { resolved = r; used = used; consumer = c; failure = f } in
        sound_pins (s ∷ ss) ≡ r ∷ map resolved_of ss
  unfolding sound_pins
  sound_pins-cons r used c (some e) ss h rest = absurd (omega arith)
  sound_pins-cons r used c none ss h rest = ap (◌∷◌ r) (rest (omega arith))

  sound_pins_all : (ss : List (PinStatus G)) → failures ss ≡ 0 → sound_pins ss ≡ map resolved_of ss
  unfolding sound_pins
  sound_pins_all [] h = refl
  sound_pins_all (s ∷ ss) h =
      sound_pins-cons s.resolved s.used s.consumer s.failure ss h (sound_pins_all ss)

  final_status : (d : DeviceDetect) (b : Bool) → (if b then pins_only d else d).status ≡ d.status
  unfolding pins_only
  final_status d true = refl
  final_status d false = refl

  final_detect_iff :
      (errs : List (GpioError G)) (pins : Bool) (d : DeviceDetect)
      → ((final_detect text errs pins d).status ≡ detect_detected)
        ↔ ((errs ≡ []) × (d.status ≡ detect_detected))
  unfolding final_detect
  final_detect_iff (e ∷ es) pins d = (λ h. absurd (cc h), λ (h, k). absurd (cc h))
  final_detect_iff [] pins d =
      let same = final_status d (text_eq d.status detect_unknown && pins) in
      (λ h. (refl, sym same ∙ h), λ (e, h). same ∙ h)

detect_of_iff :
    (status method reason : Bytes)
    → let r : DetectResult = record { status = status; method = method; reason = reason } in
      ((detect_of r).status ≡ detect_detected) ↔ (status ≡ detect_detected)
detect_of_iff status method reason = elim (Bool-cases (text_eq status [])) [
  | inl e ↦
      let empty : status ≡ [] = (text_eq_iff status []).0 e in
      rw e (λ h. absurd (cc h), λ h. absurd (cc (h, empty)))
  | inr e ↦ rw e ((λ h. h), (λ h. h))
]

module _ {F G : Type 0} (dev : GpioDev G) (text : GpioError G → Bytes) where
  -- A device counts as detected exactly if none of its pins has an error and the detector says so, which
  -- is given all the pins as they were resolved, in their order.
  pub probe_device-detected_iff :
      (kind : Bytes) (device : Device (Value F)) (layout : Layout) (detect : DeviceDetectFunc F)
      → let i = inspect_pins dev layout device.pins in
        ((probe_device dev text kind device layout (some detect)).0.detect.status ≡ detect_detected)
        ↔ ((i.errs ≡ []) × ((detect device (map resolved_of i.statuses)).status ≡ detect_detected))
  unfolding probe_device first_detect
  probe_device-detected_iff kind device layout detect =
      let i = inspect_pins dev layout device.pins in
      let given = sound_pins i.statuses in
      let r = detect device given in
      let (there, back) = final_detect_iff text i.errs (has_pins device.pins) (detect_of r) in
      let (told, tells) = detect_of_iff r.status r.method r.reason in
      let all_given : i.errs ≡ [] → given ≡ map resolved_of i.statuses = λ none_failed.
        sound_pins_all text i.statuses
          (sym (inspect_pins-counts dev layout device.pins).1 ∙ ap length none_failed) in
      (
        λ h.
            let (clean, d) = there h in
            (
              clean,
              subst (λ ps. (detect device ps).status ≡ detect_detected) (all_given clean) (told d),
            ),
        λ (clean, d). back (
          clean,
          tells
              (subst (λ ps. (detect device ps).status ≡ detect_detected) (sym (all_given clean)) d),
        ),
      )

module _ {F E G : Type 0} (w : Probing F E) (dev : GpioDev G) (text : GpioError G → Bytes) where
  -- A sensor with the name MPU_6050 is reported as detected exactly if each of its pins stands for a line,
  -- of a chip that opens, whose state can be read, and the register 0x75 of the chip at the configured
  -- address of the configured bus, where none is configured that at 0x68 of bus 1, can be read and holds
  -- 0x68 or 0x69.
  pub probe_device-mpu6050 :
      (device : Device (Value F)) (layout : Layout)
      → device.name ≡ codes "MPU_6050"
      → let probe =
          probe_device dev text
            (codes "sensor")
            device
            layout
            (some (detect_sensor (some (default_detect_registry w)))) in
        (bus : ℤ) × (addr : ℤ) × Configured w.numbers (codes "i2cBus") (pos 1) device.config bus
        × Configured w.numbers (codes "i2cAddress") (pos 104) device.config addr
        × ((probe.0.detect.status ≡ detect_detected)
            ↔ All (PinReads dev (layout_or_default layout)) device.pins
              × (who : ℕ) × HoldsByte w.bus bus addr 117 who
              × ((who ≡ 104) ⊎ (who ≡ 105)))
  probe_device-mpu6050 device layout named =
      let i = inspect_pins dev layout device.pins in
      let (reads, clears) = inspect_pins-PinReads dev layout device.pins in
      let pins = map resolved_of i.statuses in
      let (there, back) =
        probe_device-detected_iff dev text (codes "sensor") device layout
          (detect_sensor (some (default_detect_registry w))) in
      let (told, tells) = detect_mpu6050_iff w device pins in
      let same = detect_sensor-mpu6050 w device pins named in
      let says = λ (r : DetectResult). r.status ≡ detect_detected in
      (
        config_int w.numbers device.config (codes "i2cBus") (pos 1),
        config_int w.numbers device.config (codes "i2cAddress") (pos 104),
        config_int-Configured w.numbers (codes "i2cBus") (pos 1) device.config,
        config_int-Configured w.numbers (codes "i2cAddress") (pos 104) device.config,
        (
          λ h.
              let (clean, d) = there h in
              let (who, holds, k) = told (subst says same d) in (reads clean, who, holds, k),
          λ (clean, who, holds, k).
              back (clears clean, subst says (sym same) (tells (who, holds, k))),
        ),
      )
