-- ===== src/Scan/Usb/Tests.antt =====
-- A hub and a radio on it.
use drone_os.Base.{◌≡◌, refl, ℕ, some, none, List, [], ◌∷◌, Bytes, codes, Permᴰ, Chain, ok}
use drone_os.Protocol.Report.{UsbDevice}
use drone_os.Scan.Usb.{SysFs, scan_usb_devices}
use drone_os.Scan.Usb.Listed.{listed, PathsInOrder, scan_usb_devices-listed}

abbrev names : List Bytes
names = codes "usb1" ∷ codes "1-1" ∷ codes "1-1:1.0" ∷ []

abbrev fs : SysFs ℕ
fs = record {
  read_dir = λ path. ok names;
  read_file = λ path. some (codes "1a86\n");
  read_link = λ path. none;
}

scan_usb_devices-listed_example :
    (ds : List UsbDevice) × (scan_usb_devices fs ≡ ok ds)
    × Chain PathsInOrder ds
    × Permᴰ ds (listed fs names names)
scan_usb_devices-listed_example = scan_usb_devices-listed fs names refl
