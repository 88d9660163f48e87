-- ===== src/Scan/Probe/Complete.antt =====
-- When the report of the drone lists no error, and which devices it lists.
use drone_os.Base.{
  ◌≡◌, refl, sym, ap, ◌∙◌, ◌↔◌, List, [], ◌∷◌, ◌++◌, append_assoc, append-nil, some, map,
  map-eq-nil, append-eq-nil, All, Result, ok, err, IsOk, codes, Bytes,
}
use drone_os.Config.{Config, Device}
use drone_os.Gpio.{Layout, layout_by_name, layout_or_default}
use drone_os.Gpio.Validate.{inspect_pins}
use drone_os.Protocol.Report.{DeviceProbe, UsbDevice}
use drone_os.Scan.Detect.{DeviceDetectFunc, detect_sensor, detect_output, default_detect_registry}
use drone_os.Scan.Detect.Values.{Value}
use drone_os.Scan.Lines.{scan_gpio_pins}
use drone_os.Scan.Lines.Ordered.{Outcome, outcomes, errors_of, scan_gpio_pins-IsScan}
use drone_os.Scan.Usb.{usb_sysfs_path, scan_usb_devices}
use drone_os.Scan.Usb.Listed.{scan_usb_devices-IsOk}
use drone_os.Scan.Probe.Inspected.{PinReads, inspect_pins-PinReads, IsKnown, layout_by_name-IsKnown}
use drone_os.Scan.Probe.{
  World, ReportError, pin_failed, scan_failed, probe_device, probe_loop, layout_used, layout_errors,
  scan_configured_devices, usb_errors, collect_device_state,
}

errors_of-IsOk : {G : Type 0} (os : List (Outcome G)) → (errors_of os ≡ []) ↔ All IsOk os
errors_of-IsOk [] = (λ h. tt, λ h. refl)
errors_of-IsOk (ok s ∷ os) =
    let (there, back) = errors_of-IsOk os in (λ h. ((s, refl), there h), λ (e, h). back h)
errors_of-IsOk (err e ∷ os) = (λ h. absurd (cc h), λ (ok_e, h). absurd (cc ok_e.1))

module _ {F E G : Type 0} (w : World F E G) where
  abbrev pub probe_of : Bytes → Layout → DeviceDetectFunc F → Device (Value F) → DeviceProbe
  probe_of kind layout detect device =
      (probe_device w.lines w.gpio_text kind device layout (some detect)).0

  abbrev pin_errors : Layout → List (Device (Value F)) → List (ReportError E G)
  pin_errors layout [] = []
  pin_errors layout (d ∷ ds) =
      map pin_failed (inspect_pins w.lines layout d.pins).errs ++ pin_errors layout ds

  -- Each pin of the device stands for a line, of a chip that opens, whose state can be read.
  abbrev pub PinsFine : Layout → Device (Value F) → Type 0
  PinsFine layout d = All (PinReads w.lines (layout_or_default layout)) d.pins

  pin_errors-PinsFine :
      (layout : Layout) (ds : List (Device (Value F)))
      → (pin_errors layout ds ≡ []) ↔ All (PinsFine layout) ds
  pin_errors-PinsFine layout [] = (λ h. tt, λ h. refl)
  pin_errors-PinsFine layout (d ∷ ds) =
      let es = (inspect_pins w.lines layout d.pins).errs in
      let (apart, together) = append-eq-nil (map pin_failed es) (pin_errors layout ds) in
      let (one, one') = map-eq-nil {B = ReportError E G} pin_failed es in
      let (there, back) = pin_errors-PinsFine layout ds in
      let (reads, fails) = inspect_pins-PinReads w.lines layout d.pins in
      (
        λ h. let (a, b) = apart h in (reads (one a), there b),
        λ (a, b). together (one' (fails a), back b),
      )

  probe_loop-each :
      (kind : Bytes) (layout : Layout) (detect : DeviceDetectFunc F) (ds : List (Device (Value F)))
      (probes : List DeviceProbe) (errs : List (ReportError E G))
      → probe_loop w kind layout detect ds (probes, errs)
        ≡ (probes ++ map (probe_of kind layout detect) ds, errs ++ pin_errors layout ds)
  unfolding probe_loop
  probe_loop-each kind layout detect [] probes errs = rw (append-nil probes, append-nil errs) refl
  probe_loop-each kind layout detect (d ∷ ds) probes errs =
      let p = probe_of kind layout detect d in
      let es = map pin_failed (inspect_pins w.lines layout d.pins).errs in
      probe_loop-each kind layout detect ds (probes ++ p ∷ []) (errs ++ es)
      ∙ rw
          (
            append_assoc probes (p ∷ []) (map (probe_of kind layout detect) ds),
            append_assoc errs es (pin_errors layout ds),
          )
          refl

  abbrev pub sensors_of : Layout → Config (Value F) → List DeviceProbe
  sensors_of layout settings =
      map
        (probe_of (codes "sensor") layout
          (detect_sensor (some (default_detect_registry w.probing))))
        settings.drone.sensors

  abbrev pub outputs_of : Layout → Config (Value F) → List DeviceProbe
  outputs_of layout settings =
      map
        (probe_of (codes "output") layout
          (detect_output (some (default_detect_registry w.probing))))
        settings.drone.outputs

  scan_configured_devices-each :
      (settings : Config (Value F))
      → let r = layout_by_name settings.drone.gpio_layout in
        let layout = layout_used w r in
        scan_configured_devices w (some settings) (some (default_detect_registry w.probing)) ≡ (
          sensors_of layout settings ++ outputs_of layout settings,
          layout_errors w r
              ++ pin_errors layout settings.drone.sensors
              ++ pin_errors layout settings.drone.outputs,
        )
  unfolding scan_configured_devices
  scan_configured_devices-each settings =
      let r = layout_by_name settings.drone.gpio_layout in
      let layout = layout_used w r in
      let known = some (default_detect_registry w.probing) in
      ap (probe_loop w (codes "output") layout (detect_output known) settings.drone.outputs) (
        probe_loop-each (codes "sensor") layout (detect_sensor known) settings.drone.sensors []
          (layout_errors w r))
      ∙ probe_loop-each (codes "output") layout (detect_output known) settings.drone.outputs _ _

  usb_errors-IsOk : (r : Result E (List UsbDevice)) → (usb_errors w r ≡ []) ↔ IsOk r
  unfolding usb_errors
  usb_errors-IsOk (ok ds) = (λ h. (ds, refl), λ h. refl)
  usb_errors-IsOk (err e) = (λ h. absurd (cc h), λ (ds, h). absurd (cc h))

  layout_errors-IsOk : (r : Result Bytes Layout) → (layout_errors w r ≡ []) ↔ IsOk r
  layout_errors-IsOk (ok l) = (λ h. (l, refl), λ h. refl)
  layout_errors-IsOk (err e) = (λ h. absurd (cc h), λ (l, h). absurd (cc h))

  -- Five lists of errors in a row are empty if each of them is.
  five-eq-nil :
      (a b c d e : List (ReportError E G))
      → (map w.text (a ++ b ++ (c ++ d ++ e)) ≡ [])
        ↔ ((a ≡ []) × (b ≡ []) × (c ≡ []) × (d ≡ []) × (e ≡ []))
  five-eq-nil a b c d e =
      let (m, m') = map-eq-nil w.text (a ++ b ++ (c ++ d ++ e)) in
      let (x, x') = append-eq-nil (a ++ b) (c ++ d ++ e) in
      let (y, y') = append-eq-nil a b in
      let (z, z') = append-eq-nil (c ++ d) e in
      let (u, u') = append-eq-nil c d in
      (
        λ h.
            let (ab, cde) = x (m h) in
            let (cd, none_e) = z cde in ((y ab).0, (y ab).1, (u cd).0, (u cd).1, none_e),
        λ (p, q, r, s, t). m' (x' (y' (p, q), z' (u' (r, s), t))),
      )

  -- The report lists, in the order of the configuration, what was found of each sensor and each output, and
  -- it lists no error exactly if the USB directory can be read, every GPIO chip opens and each of its
  -- lines can be read, the name of the layout is known, and each pin of a configured device stands for a
  -- line, of a chip that opens, whose state can be read.
  pub collect_device_state_lem :
      (settings : Config (Value F))
      → let r = layout_by_name settings.drone.gpio_layout in
        let layout = layout_used w r in
        let report = (collect_device_state w (some settings)).0 in
        (report.devices ≡ sensors_of layout settings ++ outputs_of layout settings)
        × ((report.errors ≡ []) ↔ (
            IsOk (w.sysfs.read_dir usb_sysfs_path)
            × All IsOk (outcomes w.scan w.scan.chips)
            × IsKnown settings.drone.gpio_layout
            × All (PinsFine layout) settings.drone.sensors
            × All (PinsFine layout) settings.drone.outputs))
  unfolding collect_device_state
  collect_device_state_lem settings =
      let r = layout_by_name settings.drone.gpio_layout in
      let layout = layout_used w r in
      let scanned = scan_configured_devices-each settings in
      let (ul, ur) = usb_errors-IsOk (scan_usb_devices w.sysfs) in
      let (dl, dr) = scan_usb_devices-IsOk w.sysfs in
      let g = errors_of-IsOk (outcomes w.scan w.scan.chips) in
      let (ll, lr) = layout_errors-IsOk r in
      let (kl, kr) = layout_by_name-IsKnown settings.drone.gpio_layout in
      let s = pin_errors-PinsFine layout settings.drone.sensors in
      let o = pin_errors-PinsFine layout settings.drone.outputs in
      let b : List (ReportError E G) = map scan_failed (scan_gpio_pins w.scan).errs in
      let usb = usb_errors w (scan_usb_devices w.sysfs) in
      let (there, back) =
        five-eq-nil usb b (layout_errors w r) (pin_errors layout settings.drone.sensors)
          (pin_errors layout settings.drone.outputs) in
      let same = ap (λ p. map w.text (usb ++ b ++ p.1)) scanned in
      let (lines, lines') =
        map-eq-nil {B = ReportError E G} scan_failed (scan_gpio_pins w.scan).errs in
      let errs = (scan_gpio_pins-IsScan w.scan).2 in
      (
        ap (λ p. p.0) scanned,
        (
          λ h.
              let (p, q, k, x, y) = there (sym same ∙ h) in
              (dl (ul p), g.0 (sym errs ∙ lines q), kl (ll k), s.0 x, o.0 y),
          λ (p, q, k, x, y).
              same ∙ back (ur (dr p), lines' (errs ∙ g.1 q), lr (kr k), s.1 x, o.1 y),
        ),
      )
