-- ===== src/Scan/Usb.antt =====
-- internal/drone/device_scan.go: `scanUSBDevices`, over what the files under sysfs hold.
pub mod Listed
mod Tests
use drone_os.Base.{
  ℕ, Bool, true, false, ◌&&◌, Option, none, some, List, [], ◌∷◌, ◌++◌, ◌==◌, if◌then◌else◌, Bytes,
  codes, text_eq, text_lt, trim_space, sort_by, join_path, file_base, Result, ok, err,
}
use drone_os.Protocol.Report.{UsbDevice}

-- `os.ReadDir`, `os.ReadFile` and `os.Readlink`.
pub record SysFs (E : Type 0) : Type 0 where
  pub read_dir : Bytes → Result E (List Bytes)
  pub read_file : Bytes → Option Bytes
  pub read_link : Bytes → Option Bytes

abbrev pub usb_sysfs_path : Bytes
usb_sysfs_path = codes "/sys/bus/usb/devices"

abbrev colon : ℕ
colon = 58

-- strings.Contains(name, ":")
pub has_colon : Bytes → Bool
has_colon [] = false
has_colon (c ∷ s) = if c == colon then true else has_colon s

-- strings.SplitN(name, ":", 2)[0]
pub before_colon : Bytes → Bytes
before_colon [] = []
before_colon (c ∷ s) = if c == colon then [] else c ∷ before_colon s

-- The map `interfaces`; a key that is missing gives nil.
abbrev pub Interfaces : Type 0
Interfaces = Bytes → List Bytes

add_interface : Interfaces → Bytes → Interfaces
add_interface m name k = if text_eq (before_colon name) k then m k ++ (name ∷ []) else m k

collect_interfaces : List Bytes → Interfaces → Interfaces
unfolding has_colon
collect_interfaces [] m = m
collect_interfaces (name ∷ names) m =
    collect_interfaces names (if has_colon name then add_interface m name else m)

abbrev less_path : UsbDevice → UsbDevice → Bool
less_path a b = text_lt a.sysfs_path b.sysfs_path

module _ {E : Type 0} (fs : SysFs E) where
  pub read_sysfs_value : Bytes → Bytes → Bytes
  read_sysfs_value dir name = elim (fs.read_file (join_path dir name)) [
    | none ↦ []
    | some text ↦ trim_space text
  ]

  pub read_sysfs_symlink : Bytes → Bytes → Bytes
  read_sysfs_symlink dir name = elim (fs.read_link (join_path dir name)) [
    | none ↦ []
    | some target ↦ file_base target
  ]

  -- The device at a path, with the interfaces that belong to it.
  pub usb_device : Bytes → List Bytes → UsbDevice
  unfolding read_sysfs_value read_sysfs_symlink
  usb_device path names = record {
    sysfs_path = path;
    bus_num = read_sysfs_value path (codes "busnum");
    dev_num = read_sysfs_value path (codes "devnum");
    vendor_id = read_sysfs_value path (codes "idVendor");
    product_id = read_sysfs_value path (codes "idProduct");
    product = read_sysfs_value path (codes "product");
    manufacturer = read_sysfs_value path (codes "manufacturer");
    serial = read_sysfs_value path (codes "serial");
    driver = read_sysfs_symlink path (codes "driver");
    interfaces = sort_by text_lt names;
  }

  -- Whether sysfs knows neither the vendor nor the product.
  pub is_anonymous : Bytes → Bool
  unfolding read_sysfs_value
  is_anonymous path =
      text_eq (read_sysfs_value path (codes "idVendor")) []
      && text_eq (read_sysfs_value path (codes "idProduct")) []

  usb_round : Interfaces → Bytes → List UsbDevice → List UsbDevice
  unfolding has_colon is_anonymous
  usb_round interfaces name devices =
      if has_colon name
      then devices
      else if is_anonymous (join_path usb_sysfs_path name)
      then devices
      else devices ++ (usb_device (join_path usb_sysfs_path name) (interfaces name) ∷ [])

  usb_loop : Interfaces → List Bytes → List UsbDevice → List UsbDevice
  unfolding usb_round
  usb_loop interfaces [] devices = devices
  usb_loop interfaces (name ∷ names) devices =
      usb_loop interfaces names (usb_round interfaces name devices)

  usb_found : List Bytes → List UsbDevice
  unfolding usb_loop collect_interfaces
  usb_found names = sort_by less_path (usb_loop (collect_interfaces names (λ k. [])) names [])

  -- The devices, or the error of the directory.
  pub scan_usb_devices : Result E (List UsbDevice)
  unfolding usb_found
  scan_usb_devices = elim (fs.read_dir usb_sysfs_path) [
    | err e ↦ err e
    | ok names ↦ ok (usb_found names)
  ]
