-- ===== src/Scan.antt =====
-- internal/drone: what the drone reports of its devices. device_scan.go lists the USB devices and the GPIO
-- lines and inspects the configured devices, device_detect.go tells which of these are there, and
-- device_reporter.go sends the report.
pub mod Usb
pub mod Lines
pub mod Detect
pub mod Probe
pub mod Reporter
