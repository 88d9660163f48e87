-- ===== src/Config.antt =====
-- internal/config/config.go: the settings of base and drone. The values under `config:` of a device have
-- a type `V` of their own. Reading the YAML file is not modelled.
use drone_os.Base.{ℤ, Bool, Option, List, Bytes}

pub record Pin : Type 0 where
  pub name : Bytes
  pub scheme : Bytes
  pub number : ℤ
  pub chip : Bytes
  pub offset : ℤ
  pub direction : Bytes
  pub active_low : Option Bool
  pub bias : Bytes
  pub drive : Bytes

pub record Device (V : Type 0) : Type 0 where
  pub name : Bytes
  pub pins : List Pin
  pub config : Option (List (Bytes × V))

pub record Radio : Type 0 where
  pub name : Bytes
  pub always_use : Bool
  pub pins : List Pin
  pub usb_id : Bytes
  pub usb_scan : Bool
  pub uart_device : Bytes

pub record BaseConfig : Type 0 where
  pub host : Bytes
  pub port : ℤ
  pub controller : Bytes
  pub radio : Radio
  pub log_level : Bytes

pub record DroneConfig (V : Type 0) : Type 0 where
  pub id : ℤ
  pub radio : Radio
  pub always_use_radio : Bool
  pub sensors : List (Device V)
  pub outputs : List (Device V)
  pub control_algorithm_priority : List Bytes
  pub gpio_layout : Bytes
  pub enable_logging : Bool
  pub log_level : Bytes

pub record Config (V : Type 0) : Type 0 where
  pub base : BaseConfig
  pub drone : DroneConfig V
