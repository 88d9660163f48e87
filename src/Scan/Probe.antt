-- ===== src/Scan/Probe.antt =====
-- internal/drone/device_scan.go: the configured devices, and the report of all that the drone sees.
pub mod Devices
pub mod Inspected
pub mod Complete
mod Tests
use drone_os.Base.{
  ◌&&◌, ◌||◌, not, Bool, true, false, Option, none, some, List, [], ◌∷◌, ◌++◌, map, if◌then◌else◌,
  ℤ, pos, Bytes, codes, text_eq, Result, ok, err,
}
use drone_os.Config.{Config, Device, Pin}
use drone_os.Gpio.{Layout, ResolvedPin, default_layout, layout_by_name}
use drone_os.Gpio.Validate.{GpioError, GpioDev, PinStatus, inspect_pins}
use drone_os.Protocol.Report.{
  DeviceProbePin, DeviceDetect, DeviceProbe, DeviceStateReport, GpioPinState, UsbDevice, UsbState,
}
use drone_os.Scan.Detect.{
  DetectResult, DeviceDetectFunc, DetectRegistry, Probing, detect_unknown, detect_error,
  detect_sensor, detect_output, default_detect_registry,
}
use drone_os.Scan.Detect.Values.{Value}
use drone_os.Scan.Lines.{ScanDev, ScanError, Scanned, scan_gpio_pins}
use drone_os.Scan.Usb.{SysFs, scan_usb_devices}

pub data ReportError (E G : Type 0) : Type 0 where
  usb_failed : E → ReportError E G
  scan_failed : ScanError G → ReportError E G
  unknown_layout : Bytes → ReportError E G
  pin_failed : GpioError G → ReportError E G

abbrev config_detect : Bytes → DeviceDetect
config_detect reason = record { status = detect_unknown; method = codes "config"; reason = reason }

abbrev no_probe_configured : Bytes
no_probe_configured = codes "no device probe configured"

abbrev or_default : Bytes → Bytes → Bytes
or_default text default = if text_eq text [] then default else text

-- What the probe takes over of a detector's answer.
abbrev detect_of : DetectResult → DeviceDetect
detect_of r = record {
  status = or_default r.status detect_unknown;
  method = or_default r.method (codes "config");
  reason = r.reason;
}

-- The verdict on a device that has pins, all of them inspected.
pins_only : DeviceDetect → DeviceDetect
pins_only d = record {
  status = d.status;
  method = codes "gpio";
  reason =
      if text_eq d.reason [] || text_eq d.reason no_probe_configured
      then codes "pins inspected only"
      else d.reason;
}

module _ {G : Type 0} where
  -- The pins that the detector is given.
  sound_pins : List (PinStatus G) → List ResolvedPin
  sound_pins [] = []
  sound_pins (s ∷ ss) =
      let rest = sound_pins ss in elim s.failure [ none ↦ s.resolved ∷ rest | some e ↦ rest ]

has_pins : List Pin → Bool
has_pins [] = false
has_pins (p ∷ ps) = true

module _ {G : Type 0} (text : GpioError G → Bytes) where
  error_text_of : Option (GpioError G) → Bytes
  error_text_of none = []
  error_text_of (some e) = text e

  probe_pin : PinStatus G → DeviceProbePin
  unfolding error_text_of
  probe_pin s = record {
    name = s.resolved.name;
    chip = s.resolved.chip;
    offset = s.resolved.offset;
    used = s.used;
    consumer = s.consumer;
    direction = s.resolved.direction;
    active_low = s.resolved.active_low;
    drive = s.resolved.drive;
    bias = s.resolved.bias;
    error_text = error_text_of s.failure;
  }

  -- The last word: the errors of the pins come before what a detector says.
  final_detect : List (GpioError G) → Bool → DeviceDetect → DeviceDetect
  unfolding pins_only
  final_detect (e ∷ es) pins d = record {
    status = detect_error;
    method = codes "gpio";
    reason = text e;
  }
  final_detect [] pins d = if text_eq d.status detect_unknown && pins then pins_only d else d

module _ {F : Type 0} where
  first_detect : Option (DeviceDetectFunc F) → Device (Value F) → List ResolvedPin → DeviceDetect
  first_detect none device pins = config_detect no_probe_configured
  first_detect (some detect) device pins = detect_of (detect device pins)

  pub probe_device :
      {G : Type 0}
      → GpioDev G
      → (GpioError G → Bytes)
      → Bytes
      → Device (Value F)
      → Layout
      → Option (DeviceDetectFunc F)
      → DeviceProbe × List (GpioError G)
  unfolding probe_pin sound_pins first_detect final_detect has_pins
  probe_device dev text kind device layout detect =
      let i = inspect_pins dev layout device.pins in
      (
        record {
          name = device.name;
          kind = kind;
          pins = map (probe_pin text) i.statuses;
          detect =
              final_detect text i.errs (has_pins device.pins)
                (first_detect detect device (sound_pins i.statuses));
        },
        i.errs,
      )

-- What the report is read from: the USB devices, the GPIO lines twice over, what the detectors ask, the
-- clock, and the texts of the errors.
pub record World (F E G : Type 0) : Type 0 where
  pub sysfs : SysFs E
  pub scan : ScanDev G
  pub lines : GpioDev G
  pub probing : Probing F E
  pub now : ℤ
  pub gpio_text : GpioError G → Bytes
  pub text : ReportError E G → Bytes

module _ {F E G : Type 0} (w : World F E G) where
  -- The loops over the sensors and the outputs.
  probe_loop :
      Bytes
      → Layout
      → DeviceDetectFunc F
      → List (Device (Value F))
      → List DeviceProbe × List (ReportError E G)
      → List DeviceProbe × List (ReportError E G)
  unfolding probe_device
  probe_loop kind layout detect [] acc = acc
  probe_loop kind layout detect (device ∷ devices) (probes, errs) =
      let (probe, probe_errs) = probe_device w.lines w.gpio_text kind device layout (some detect) in
      probe_loop kind layout detect devices
        (probes ++ probe ∷ [], errs ++ map pin_failed probe_errs)

  abbrev layout_used : Result Bytes Layout → Layout
  layout_used (ok layout) = layout
  layout_used (err name) = default_layout

  abbrev layout_errors : Result Bytes Layout → List (ReportError E G)
  layout_errors (ok layout) = []
  layout_errors (err name) = unknown_layout name ∷ []

  abbrev registry_used : Option (DetectRegistry F) → DetectRegistry F
  registry_used none = default_detect_registry w.probing
  registry_used (some r) = r

  pub scan_configured_devices :
      Option (Config (Value F))
      → Option (DetectRegistry F)
      → List DeviceProbe × List (ReportError E G)
  unfolding probe_loop
  scan_configured_devices none registry = ([], [])
  scan_configured_devices (some settings) registry =
      let r = layout_by_name settings.drone.gpio_layout in
      let known = some (registry_used registry) in
      probe_loop (codes "output") (layout_used r) (detect_output known) settings.drone.outputs (
        probe_loop (codes "sensor") (layout_used r) (detect_sensor known) settings.drone.sensors
          ([], layout_errors r))

  usb_list : Result E (List UsbDevice) → List UsbDevice
  usb_list (ok devices) = devices
  usb_list (err e) = []

  usb_errors : Result E (List UsbDevice) → List (ReportError E G)
  usb_errors (ok devices) = []
  usb_errors (err e) = usb_failed e ∷ []

  drone_id_of : Option (Config (Value F)) → ℤ
  drone_id_of none = pos 0
  drone_id_of (some settings) = settings.drone.id

  pub collect_device_state : Option (Config (Value F)) → DeviceStateReport × List (ReportError E G)
  unfolding usb_list usb_errors drone_id_of
  collect_device_state settings =
      let usb = scan_usb_devices w.sysfs in
      let gpio = scan_gpio_pins w.scan in
      let (devices, device_errs) =
        scan_configured_devices settings (some (default_detect_registry w.probing)) in
      let errs = usb_errors usb ++ map scan_failed gpio.errs ++ device_errs in
      (
        record {
          drone_id = drone_id_of settings;
          timestamp = w.now;
          usb = record { devices = usb_list usb };
          gpio = gpio.states;
          devices = devices;
          errors = map w.text errs;
        },
        errs,
      )
