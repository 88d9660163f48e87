-- ===== src/Scan/Usb/Listed.antt =====
-- What the list of USB devices holds.
use drone_os.Base.{
  ◌≡◌, ◌↔◌, IsOk, Result-cases, refl, sym, List, [], ◌∷◌, ◌++◌, append_assoc, append-nil, Permᴰ,
  arith, if◌then◌else◌, Bytes, text_eq, text_lt_asym, text_ge_trans, sort_by, text_lt, trim_space,
  file_base, codes, Option, none, some, Bool, true, false, not, ◌==◌, ◌||◌, Bool-cases, inl, inr,
  ap, ◌∙◌, IsOrder, Chain, IsSorted-Chain, sort_by-perm, sort_by-IsSorted, join_path, ok,
}
use drone_os.Protocol.Report.{UsbDevice}
use drone_os.Scan.Usb.{
  SysFs, usb_sysfs_path, has_colon, before_colon, Interfaces, add_interface, collect_interfaces,
  less_path, read_sysfs_value, read_sysfs_symlink, usb_device, is_anonymous, usb_round, usb_loop,
  usb_found, scan_usb_devices,
}

-- What stands in front of the first colon of a name, if it has one.
abbrev pub device_part : Bytes → Option Bytes
device_part [] = none
device_part (c ∷ s) =
    let rest = device_part s in
    if c == 58 then some [] else elim rest [ none ↦ none | some p ↦ some (c ∷ p) ]

abbrev belongs : Bytes → Option Bytes → Bool
belongs k none = false
belongs k (some p) = text_eq p k

-- The names of the interfaces of the device `k`, in the order of the directory.
abbrev pub interfaces_of : Bytes → List Bytes → List Bytes
interfaces_of k [] = []
interfaces_of k (name ∷ names) =
    let rest = interfaces_of k names in if belongs k (device_part name) then name ∷ rest else rest

device_part-none : (s : Bytes) → has_colon s ≡ false → device_part s ≡ none
unfolding has_colon
device_part-none [] h = refl
device_part-none (c ∷ s) h = ground (arith, device_part-none s)

device_part-some : (s : Bytes) → has_colon s ≡ true → device_part s ≡ some (before_colon s)
unfolding has_colon before_colon
device_part-some [] h = cc
device_part-some (c ∷ s) h = ground (arith, device_part-some s)

collect_interfaces-interfaces_of :
    (names : List Bytes) (m : Interfaces) (k : Bytes)
    → collect_interfaces names m k ≡ m k ++ interfaces_of k names
unfolding collect_interfaces add_interface
collect_interfaces-interfaces_of [] m k = sym (append-nil (m k))
collect_interfaces-interfaces_of (name ∷ names) m k = ground (
  arith,
  collect_interfaces-interfaces_of names m k,
  collect_interfaces-interfaces_of names (add_interface m name) k,
  append_assoc (m k) (name ∷ []) (interfaces_of k names),
  device_part-none name,
  device_part-some name,
)

-- The path of the second device is not before that of the first.
abbrev pub PathsInOrder : UsbDevice → UsbDevice → Type 0
PathsInOrder a b = text_lt b.sysfs_path a.sysfs_path ≡ false

pub less_path-IsOrder : IsOrder less_path
less_path-IsOrder = record {
  asym = λ a b. text_lt_asym a.sysfs_path b.sysfs_path;
  ge_trans = λ a b c. text_ge_trans a.sysfs_path b.sysfs_path c.sysfs_path;
}

pub scan_usb_devices-IsOk :
    {E : Type 0} (fs : SysFs E) → IsOk (scan_usb_devices fs) ↔ IsOk (fs.read_dir usb_sysfs_path)
unfolding scan_usb_devices
scan_usb_devices-IsOk fs = elim (Result-cases (fs.read_dir usb_sysfs_path)) [
  | inl (names, e) ↦ rw (e, scan_usb_devices) (λ h. (names, refl), λ h. (_, refl))
  | inr (x, e) ↦ rw (e, scan_usb_devices) (λ (l, h). absurd (cc h), λ (l, h). absurd (cc h))
]

module _ {E : Type 0} (fs : SysFs E) where
  -- What a file of a device says, without the space around it, and the name a link leads to.
  abbrev pub says : Bytes → Bytes → Bytes
  says path key = elim (fs.read_file (join_path path key)) [
    | none ↦ []
    | some text ↦ trim_space text
  ]

  abbrev pub leads_to : Bytes → Bytes → Bytes
  leads_to path key = elim (fs.read_link (join_path path key)) [
    | none ↦ []
    | some target ↦ file_base target
  ]

  abbrev pub described : Bytes → List Bytes → UsbDevice
  described path names = record {
    sysfs_path = path;
    bus_num = says path (codes "busnum");
    dev_num = says path (codes "devnum");
    vendor_id = says path (codes "idVendor");
    product_id = says path (codes "idProduct");
    product = says path (codes "product");
    manufacturer = says path (codes "manufacturer");
    serial = says path (codes "serial");
    driver = leads_to path (codes "driver");
    interfaces = sort_by text_lt names;
  }

  -- Whether there is something in a text.
  abbrev pub filled : Bytes → Bool
  filled [] = false
  filled (c ∷ s) = true

  abbrev pub entry_listed : Bytes → List Bytes → Option Bytes → List UsbDevice
  entry_listed name names (some p) = []
  entry_listed name names none =
      let path = join_path usb_sysfs_path name in
      if filled (says path (codes "idVendor")) || filled (says path (codes "idProduct"))
      then described path (interfaces_of name names) ∷ []
      else []

  -- The devices among the entries `entries` of a directory with the entries `names`.
  abbrev pub listed : List Bytes → List Bytes → List UsbDevice
  listed names [] = []
  listed names (name ∷ entries) = entry_listed name names (device_part name) ++ listed names entries

  filled-text_eq : (s : Bytes) → text_eq s [] ≡ not (filled s)
  unfolding text_eq
  filled-text_eq [] = refl
  filled-text_eq (c ∷ s) = refl

  usb_round-listed :
      (names : List Bytes) (name : Bytes) (devices : List UsbDevice)
      → usb_round fs (collect_interfaces names (λ k. [])) name devices
        ≡ devices ++ entry_listed name names (device_part name)
  unfolding usb_round is_anonymous usb_device read_sysfs_value read_sysfs_symlink
  usb_round-listed names name devices = elim (Bool-cases (has_colon name)) [
    | inl h ↦ rw (h, device_part-some name h) (sym (append-nil devices))
    | inr h ↦
        rw (h, device_part-none name h)
          (ground (
            arith,
            append-nil devices,
            collect_interfaces-interfaces_of names (λ k. []) name,
            filled-text_eq (says (join_path usb_sysfs_path name) (codes "idVendor")),
            filled-text_eq (says (join_path usb_sysfs_path name) (codes "idProduct")),
          ))
  ]

  usb_loop-listed :
      (names entries : List Bytes) (devices : List UsbDevice)
      → usb_loop fs (collect_interfaces names (λ k. [])) entries devices
        ≡ devices ++ listed names entries
  unfolding usb_loop
  usb_loop-listed names [] devices = sym (append-nil devices)
  usb_loop-listed names (name ∷ entries) devices =
      usb_loop-listed names entries _
      ∙ ap (λ ds. ds ++ listed names entries) (usb_round-listed names name devices)
      ∙ append_assoc devices (entry_listed name names (device_part name)) (listed names entries)

  -- If the directory can be read, the list is sorted by path, and up to this order it has one device for
  -- each entry that has no colon and a vendor or a product, with the interfaces whose names begin with that
  -- of the device and a colon.
  pub scan_usb_devices-listed :
      (names : List Bytes)
      → fs.read_dir usb_sysfs_path ≡ ok names
      → (ds : List UsbDevice) × (scan_usb_devices fs ≡ ok ds)
        × Chain PathsInOrder ds
        × Permᴰ ds (listed names names)
  unfolding scan_usb_devices usb_found sort_by
  scan_usb_devices-listed names readable =
      let found = usb_loop fs (collect_interfaces names (λ k. [])) names [] in
      let same : found ≡ listed names names = usb_loop-listed names names [] in
      (
        sort_by less_path found,
        rw (readable, scan_usb_devices) refl,
        IsSorted-Chain PathsInOrder less_path (λ a b h. h) _
            (sort_by-IsSorted less_path less_path-IsOrder found),
        rw same (sort_by-perm less_path (listed names names)),
      )
