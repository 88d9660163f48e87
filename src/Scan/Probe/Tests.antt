-- ===== src/Scan/Probe/Tests.antt =====
-- A drone with a motion sensor on the bus 1, a motor, and no access to USB or GPIO chips.
use drone_os.Base.{
  ◌≡◌, ◌↔◌, ◌⊎◌, ◌++◌, refl, ℕ, ℤ, pos, true, false, some, none, [], ◌∷◌, Bytes, codes, All, IsOk,
  ok, err,
}
use drone_os.Config.{Config, Device, Pin, Radio}
use drone_os.Gpio.{default_layout, layout_by_name, layout_or_default}
use drone_os.Gpio.Validate.{GpioDev, GpioError}
use drone_os.Scan.Detect.{Probing, detect_detected, detect_sensor, default_detect_registry}
use drone_os.Scan.Detect.Values.{Value, int_value}
use drone_os.Scan.Detect.Configured.{Configured}
use drone_os.Scan.Detect.I2c.{I2cDev, HoldsByte}
use drone_os.Scan.Lines.Ordered.{outcomes}
use drone_os.Scan.Usb.{usb_sysfs_path}
use drone_os.Scan.Probe.Inspected.{IsKnown, PinReads}
use drone_os.Scan.Probe.{World, probe_device, layout_used, collect_device_state}
use drone_os.Scan.Probe.Devices.{probe_device-mpu6050}
use drone_os.Scan.Probe.Complete.{PinsFine, sensors_of, outputs_of, collect_device_state_lem}

abbrev bus : I2cDev ℕ
bus = record {
  open_bus = λ path. none;
  select = λ calls addr. none;
  write_byte = λ calls reg. none;
  read_byte = λ calls. ok (some 104);
}

abbrev probing : Probing ℕ ℕ
probing = record {
  numbers = record { float_to_int = λ f. pos f; parse_int = λ s. none };
  bus = bus;
  i2c_text = λ e. codes "i2c";
  stat = λ path. ok true;
}

abbrev lines : GpioDev ℕ
lines = record {
  new_chip = λ chip. some 13;
  line_info = λ chip offset. err 5;
  request_line = λ chip offset options. none;
}

abbrev gpio_text : GpioError ℕ → Bytes
gpio_text e = codes "gpio"

abbrev mpu : Device (Value ℕ)
mpu = record {
  name = codes "MPU_6050";
  pins = [];
  config = some ((codes "i2cBus", int_value (pos 1)) ∷ []);
}

probe_device-mpu6050_example :
    let probe =
      probe_device lines gpio_text
        (codes "sensor")
        mpu
        default_layout
        (some (detect_sensor (some (default_detect_registry probing)))) in
    (at_bus : ℤ) × (addr : ℤ) × Configured probing.numbers
      (codes "i2cBus")
      (pos 1)
      mpu.config
      at_bus
    × Configured probing.numbers (codes "i2cAddress") (pos 104) mpu.config addr
    × ((probe.0.detect.status ≡ detect_detected)
        ↔ All (PinReads lines (layout_or_default default_layout)) mpu.pins
          × (who : ℕ) × HoldsByte bus at_bus addr 117 who
          × ((who ≡ 104) ⊎ (who ≡ 105)))
probe_device-mpu6050_example = probe_device-mpu6050 probing lines gpio_text mpu default_layout refl

abbrev world : World ℕ ℕ ℕ
world = record {
  sysfs = record { read_dir = λ path. err 2; read_file = λ path. none; read_link = λ path. none };
  scan = record {
    chips = [];
    new_chip = λ chip. none;
    lines = λ chip. 0;
    line_info = λ chip offset. err 1;
  };
  lines = lines;
  probing = probing;
  now = pos 100;
  gpio_text = gpio_text;
  text = λ e. codes "failed";
}

abbrev motor_pin : Pin
motor_pin = record {
  name = codes "motor";
  scheme = codes "physical";
  number = pos 12;
  chip = [];
  offset = pos 0;
  direction = codes "output";
  active_low = none;
  bias = [];
  drive = [];
}

abbrev radio : Radio
radio = record {
  name = codes "none";
  always_use = false;
  pins = [];
  usb_id = [];
  usb_scan = false;
  uart_device = [];
}

abbrev pub settings : Config (Value ℕ)
settings = record {
  base = record {
    host = codes "base";
    port = pos 80;
    controller = [];
    radio = radio;
    log_level = [];
  };
  drone = record {
    id = pos 1;
    radio = radio;
    always_use_radio = false;
    sensors = mpu ∷ [];
    outputs = record { name = codes "MG90S"; pins = motor_pin ∷ []; config = none } ∷ [];
    control_algorithm_priority = [];
    gpio_layout = codes "rpi-40";
    enable_logging = false;
    log_level = [];
  };
}

collect_device_state_lem_example :
    let r = layout_by_name (codes "rpi-40") in
    let layout = layout_used world r in
    let report = (collect_device_state world (some settings)).0 in
    (report.devices ≡ sensors_of world layout settings ++ outputs_of world layout settings)
    × ((report.errors ≡ []) ↔ (
        IsOk (world.sysfs.read_dir usb_sysfs_path)
        × All IsOk (outcomes world.scan [])
        × IsKnown (codes "rpi-40")
        × All (PinsFine world layout) settings.drone.sensors
        × All (PinsFine world layout) settings.drone.outputs))
collect_device_state_lem_example = collect_device_state_lem world settings
