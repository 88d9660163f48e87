-- ===== src/Scan/Reporter.antt =====
-- internal/drone/device_reporter.go: a round of the loop of `StartDeviceReporter` behind its tick.
pub mod Delivered
mod Tests
use drone_os.Base.{
  Bool, not, Option, none, some, ◌∷◌, ◌++◌, if◌then◌else◌, ℤ, Bytes, codes, decimal_ℤ, Result, ok,
  err,
}
use drone_os.Config.{Config}
use drone_os.Protocol.{Message, Json}
use drone_os.Protocol.Report.{DeviceStateReport}
use drone_os.Protocol.Transport.{Network, Sent, wifi_send}
use drone_os.Scan.Detect.Values.{Value}
use drone_os.Scan.Probe.{World, collect_device_state}

-- How a round ends.
pub data Reported (N E : Type 0) : Type 0 where
  not_connected : Reported N E
  not_encoded : E → Reported N E
  answered : Sent N E → Reported N E

-- `%s:%d` on the host and the port of the base
abbrev pub base_addr : {V : Type 0} → Config V → Bytes
base_addr settings = settings.base.host ++ codes ":" ++ decimal_ℤ settings.base.port

abbrev pub report_message : ℤ → Bytes → Message
report_message id payload = record { id = id; cmd = codes "device_state"; data_text = payload }

module _ {N E : Type 0} (j : Json E) (marshal : DeviceStateReport → Result E Bytes)
    (net : Network N) where
  send_report : Bytes → ℤ → Result E Bytes → Reported N E
  send_report addr id (err e) = not_encoded e
  send_report addr id (ok payload) = answered (wifi_send j net addr (report_message id payload))

  pub report_round : {F I G : Type 0} → World F I G → Config (Value F) → Bool → Reported N E
  unfolding send_report
  report_round w settings wifi_connected =
      let (report, errs) = collect_device_state w (some settings) in
      if not wifi_connected
      then not_connected
      else send_report (base_addr settings) settings.drone.id (marshal report)
