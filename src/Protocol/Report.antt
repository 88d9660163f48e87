-- ===== src/Protocol/Report.antt =====
-- The report types of internal/protocol/device_state.go.
use drone_os.Base.{ℤ, Bool, Option, List, Bytes}

pub record UsbDevice : Type 0 where
  pub sysfs_path : Bytes
  pub bus_num : Bytes
  pub dev_num : Bytes
  pub vendor_id : Bytes
  pub product_id : Bytes
  pub product : Bytes
  pub manufacturer : Bytes
  pub serial : Bytes
  pub driver : Bytes
  pub interfaces : List Bytes

pub record UsbState : Type 0 where
  pub devices : List UsbDevice

pub record GpioPinState : Type 0 where
  pub chip : Bytes
  pub offset : ℤ
  pub name : Bytes
  pub consumer : Bytes
  pub used : Bool
  pub direction : Bytes
  pub active_low : Bool
  pub drive : Bytes
  pub bias : Bytes
  pub value : Option ℤ

pub record DeviceProbePin : Type 0 where
  pub name : Bytes
  pub chip : Bytes
  pub offset : ℤ
  pub used : Bool
  pub consumer : Bytes
  pub direction : Bytes
  pub active_low : Option Bool
  pub drive : Bytes
  pub bias : Bytes
  pub error_text : Bytes

pub record DeviceDetect : Type 0 where
  pub status : Bytes
  pub method : Bytes
  pub reason : Bytes

pub record DeviceProbe : Type 0 where
  pub name : Bytes
  pub kind : Bytes
  pub pins : List DeviceProbePin
  pub detect : DeviceDetect

pub record DeviceStateReport : Type 0 where
  pub drone_id : ℤ
  pub timestamp : ℤ
  pub usb : UsbState
  pub gpio : List GpioPinState
  pub devices : List DeviceProbe
  pub errors : List Bytes
