-- ===== src/Gpio/Validate.antt =====
-- `InspectPins` and `ValidatePins` of internal/drivers/gpio/validate.go, with the calls that they make of
-- go-gpiocdev in their order.
pub mod Requests
use drone_os.Base.{
  ℕ, suc, ◌+◌, ◌≡◌, ◌≢◌, refl, sym, ap, ◌∙◌, ◌⊎◌, inl, inr, ℤ, pos, Bool, true, false, not, ◌||◌,
  ◌&&◌, Option, none, some, List, [], ◌∷◌, ◌++◌, map, if◌then◌else◌, Bytes, text_eq, trim_space,
  Result, ok, err, length, length-append, arith, Bool-cases, Option-cases, Result-cases,
  append_assoc, append-nil, All, All-append,
}
use drone_os.Config.{Pin}
use drone_os.Gpio.{Layout, ResolvedPin, PinError, resolve_pin, layout_or_default}
use drone_os.Gpio.Lines.{LineReqOption, line_req_options}

pub data GpioError (G : Type 0) : Type 0 where
  unresolved : PinError → GpioError G
  open_failed : Bytes → G → GpioError G
  line_info_failed request_failed : Bytes → ℤ → G → GpioError G

pub record LineInfo : Type 0 where
  pub used : Bool
  pub consumer : Bytes

-- What go-gpiocdev answers: whether a chip opens, what is known of a line, whether a request fails.
pub record GpioDev (G : Type 0) : Type 0 where
  pub new_chip : Bytes → Option G
  pub line_info : Bytes → ℤ → Result G LineInfo
  pub request_line : Bytes → ℤ → List LineReqOption → Option G

pub data Call : Type 0 where
  opens closes : Bytes → Call
  requests releases : Bytes → ℤ → Call

pub record PinStatus (G : Type 0) : Type 0 where
  pub resolved : ResolvedPin
  pub used : Bool
  pub consumer : Bytes
  pub failure : Option (GpioError G)

-- The statuses, the errors and the calls so far.
pub record Inspection (G : Type 0) : Type 0 where
  pub statuses : List (PinStatus G)
  pub errs : List (GpioError G)
  pub calls : List Call

abbrev pub nothing_yet : {G : Type 0} → Inspection G
nothing_yet = record { statuses = []; errs = []; calls = [] }

abbrev pub opt_list : {G : Type 0} → Option (GpioError G) → List (GpioError G)
opt_list none = []
opt_list (some e) = e ∷ []

-- `ResolvedPin{Name: pin.Name}`
abbrev named : Pin → ResolvedPin
named pin = record {
  name = pin.name;
  chip = [];
  offset = pos 0;
  direction = [];
  active_low = none;
  bias = [];
  drive = [];
}

abbrev status_of : {G : Type 0} → ResolvedPin → Option (GpioError G) → PinStatus G
status_of r e = record { resolved = r; used = false; consumer = []; failure = e }

module _ {G : Type 0} (dev : GpioDev G) where
  unfoldable pub read_line : ResolvedPin → Result G LineInfo → PinStatus G
  read_line r (err e) = status_of r (some (line_info_failed r.chip r.offset e))
  read_line r (ok i) = record {
    resolved = r;
    used = i.used;
    consumer = trim_space i.consumer;
    failure = none;
  }

  unfoldable pub open_chip : ResolvedPin → Option G → PinStatus G × List Call
  unfolding read_line
  open_chip r (some e) = (status_of r (some (open_failed r.chip e)), [])
  open_chip r none =
      (read_line r (dev.line_info r.chip r.offset), opens r.chip ∷ closes r.chip ∷ [])

  unfoldable pub inspect_resolved : Pin → Result PinError ResolvedPin → PinStatus G × List Call
  unfolding open_chip
  inspect_resolved pin (err e) = (status_of (named pin) (some (unresolved e)), [])
  inspect_resolved pin (ok r) = open_chip r (dev.new_chip r.chip)

  -- The status of one pin, and the calls made for it.
  unfoldable pub inspect_pin : Layout → Pin → PinStatus G × List Call
  unfolding inspect_resolved
  inspect_pin layout pin = inspect_resolved pin (resolve_pin layout pin)

  unfoldable pub inspect_loop : Layout → List Pin → Inspection G → Inspection G
  inspect_loop layout [] acc = acc
  inspect_loop layout (pin ∷ pins) acc =
      let (s, calls) = inspect_pin layout pin in
      inspect_loop layout pins (record {
        statuses = acc.statuses ++ s ∷ [];
        errs = acc.errs ++ opt_list s.failure;
        calls = acc.calls ++ calls;
      })

  unfoldable pub inspect_pins : Layout → List Pin → Inspection G
  unfolding inspect_loop
  inspect_pins layout pins = inspect_loop (layout_or_default layout) pins nothing_yet

  requested : PinStatus G → Option G → PinStatus G × List Call
  requested s (some e) = (
    record s { failure = some (request_failed s.resolved.chip s.resolved.offset e) },
    requests s.resolved.chip s.resolved.offset ∷ [],
  )
  requested s none = (
    s,
    requests s.resolved.chip s.resolved.offset ∷ releases s.resolved.chip s.resolved.offset ∷ [],
  )

  with_options : PinStatus G → List LineReqOption → PinStatus G × List Call
  unfolding requested
  with_options s [] = (s, [])
  with_options s (o ∷ os) =
      requested s (dev.request_line s.resolved.chip s.resolved.offset (o ∷ os))

  -- One round of the loop of `ValidatePins`.
  pub validate_status : PinStatus G → PinStatus G × List Call
  unfolding with_options
  validate_status s = elim s.failure [
    | some e ↦ (s, [])
    | none ↦ if s.used then (s, []) else with_options s (line_req_options s.resolved)
  ]

  -- The error that a round adds.
  new_error : PinStatus G → PinStatus G → List (GpioError G)
  new_error before after = elim before.failure [ some e ↦ [] | none ↦ opt_list after.failure ]

  validate_loop : List (PinStatus G) → Inspection G → Inspection G
  unfolding new_error
  validate_loop [] acc = acc
  validate_loop (s ∷ ss) acc =
      let (s', calls) = validate_status s in
      validate_loop ss (record {
        statuses = acc.statuses ++ s' ∷ [];
        errs = acc.errs ++ new_error s s';
        calls = acc.calls ++ calls;
      })

  pub validate_pins : Layout → List Pin → Inspection G
  unfolding validate_loop
  validate_pins layout pins =
      let i = inspect_pins layout pins in
      validate_loop i.statuses (record { statuses = []; errs = i.errs; calls = i.calls })
