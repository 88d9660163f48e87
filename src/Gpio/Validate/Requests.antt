-- ===== src/Gpio/Validate/Requests.antt =====
-- Which lines `ValidatePins` requests, and what it reports.
use drone_os.Base.{
  if◌then◌else◌, ℕ, ◌+◌, ◌≡◌, refl, ◌∙◌, Bool, true, false, Option, none, some, List, [], ◌∷◌, ◌++◌,
  Bytes, Result, ok, err, length, length-append, arith, All, All-append,
}
use drone_os.Config.{Pin}
use drone_os.Gpio.{Layout, ResolvedPin, PinError, resolve_pin, layout_or_default}
use drone_os.Gpio.Lines.{LineReqOption, line_req_options}
use drone_os.Gpio.Validate.{
  GpioError, LineInfo, GpioDev, Call, requests, PinStatus, Inspection, opt_list, inspect_pin,
  inspect_resolved, open_chip, read_line, inspect_loop, inspect_pins, validate_status, with_options,
  requested, new_error, validate_loop, validate_pins, nothing_yet,
}

module _ {G : Type 0} where
  -- The number of the pins whose last status is a failure.
  abbrev pub failures : List (PinStatus G) → ℕ
  failures [] = 0
  failures (s ∷ ss) = length (opt_list s.failure) + failures ss

  failures-append : (ss ts : List (PinStatus G)) → failures (ss ++ ts) ≡ failures ss + failures ts
  failures-append [] ts = omega arith
  failures-append (s ∷ ss) ts = omega (arith, failures-append ss ts)

module _ {G : Type 0} (dev : GpioDev G) where
  -- A line is requested only where the chip says that it is not in use.
  abbrev pub IsFree : Call → Type 0
  IsFree (requests chip offset) =
      (i : LineInfo) × (dev.line_info chip offset ≡ ok i) × (i.used ≡ false)
  IsFree _ = Unit {0}

  -- What the first pass knows of a line.
  abbrev Known : PinStatus G → Type 0
  Known s =
      s.failure ≡ none
      → (i : LineInfo) × (dev.line_info s.resolved.chip s.resolved.offset ≡ ok i)
        × (i.used ≡ s.used)

  read_line-Known :
      (r : ResolvedPin) (o : Result G LineInfo)
      → dev.line_info r.chip r.offset ≡ o
      → Known (read_line dev r o)
  unfolding read_line
  read_line-Known r (err e) h = λ k. absurd (cc k)
  read_line-Known r (ok i) h = λ k. (i, h, refl)

  open_chip-Known :
      (r : ResolvedPin) (o : Option G)
      → Known (open_chip dev r o).0 × All IsFree (open_chip dev r o).1
  unfolding open_chip
  open_chip-Known r (some e) = (λ k. absurd (cc k), tt)
  open_chip-Known r none = (read_line-Known r _ refl, (tt, (tt, tt)))

  inspect_pin-Known :
      (pin : Pin) (o : Result PinError ResolvedPin)
      → Known (inspect_resolved dev pin o).0 × All IsFree (inspect_resolved dev pin o).1
  unfolding inspect_resolved
  inspect_pin-Known pin (err e) = (λ k. absurd (cc k), tt)
  inspect_pin-Known pin (ok r) = open_chip-Known r (dev.new_chip r.chip)

  requested-IsFree :
      (s : PinStatus G) (o : Option G) (i : LineInfo)
      → dev.line_info s.resolved.chip s.resolved.offset ≡ ok i
      → i.used ≡ false
      → All IsFree (requested dev s o).1
  unfolding requested
  requested-IsFree s (some e) i h u = ((i, h, u), tt)
  requested-IsFree s none i h u = ((i, h, u), (tt, tt))

  with_options-IsFree :
      (s : PinStatus G) (os : List LineReqOption) (i : LineInfo)
      → dev.line_info s.resolved.chip s.resolved.offset ≡ ok i
      → i.used ≡ false
      → All IsFree (with_options dev s os).1
  unfolding with_options
  with_options-IsFree s [] i h u = tt
  with_options-IsFree s (o ∷ os) i h u = requested-IsFree s _ i h u

  unused-IsFree :
      (s : PinStatus G) (os : List LineReqOption) (used : Bool)
      → (used ≡ false → All IsFree (with_options dev s os).1)
      → All IsFree (if used then (s, []) else with_options dev s os).1
  unused-IsFree s os true h = tt
  unused-IsFree s os false h = h refl

  inspected-IsFree :
      (r : ResolvedPin) (used : Bool) (c : Bytes) (f : Option (GpioError G))
      → let s : PinStatus G = record { resolved = r; used = used; consumer = c; failure = f } in
        Known s → All IsFree (validate_status dev s).1
  unfolding validate_status
  inspected-IsFree r used c (some e) known = tt
  inspected-IsFree r used c none known =
      let (i, info, same) = known refl in
      unused-IsFree _ (line_req_options r) used
        (λ free. with_options-IsFree _ (line_req_options r) i info (same ∙ free))

  validate_status-IsFree : (s : PinStatus G) → Known s → All IsFree (validate_status dev s).1
  validate_status-IsFree s known = inspected-IsFree s.resolved s.used s.consumer s.failure known

  inspect_loop-Known :
      (layout : Layout) (pins : List Pin) (acc : Inspection G)
      → All Known acc.statuses
      → All IsFree acc.calls
      → All Known (inspect_loop dev layout pins acc).statuses
        × All IsFree (inspect_loop dev layout pins acc).calls
  unfolding inspect_loop inspect_pin
  inspect_loop-Known layout [] acc known free = (known, free)
  inspect_loop-Known layout (pin ∷ pins) acc known free =
      let (one, calls) = inspect_pin-Known pin (resolve_pin layout pin) in
      inspect_loop-Known layout pins _ (All-append Known acc.statuses _ known (one, tt))
        (All-append IsFree acc.calls _ free calls)

  validate_loop-IsFree :
      (ss : List (PinStatus G)) (acc : Inspection G)
      → All Known ss
      → All IsFree acc.calls
      → All IsFree (validate_loop dev ss acc).calls
  unfolding validate_loop
  validate_loop-IsFree [] acc known free = free
  validate_loop-IsFree (s ∷ ss) acc (k, known) free =
      validate_loop-IsFree ss _ known
        (All-append IsFree acc.calls _ free (validate_status-IsFree s k))

  -- `ValidatePins` requests no line that the chip says is in use, and none that it could not ask about.
  pub validate_pins-IsFree :
      (layout : Layout) (pins : List Pin) → All IsFree (validate_pins dev layout pins).calls
  unfolding validate_pins inspect_pins
  validate_pins-IsFree layout pins =
      let (known, free) = inspect_loop-Known (layout_or_default layout) pins nothing_yet tt tt in
      validate_loop-IsFree _ _ known free

  inspect_loop-counts :
      (layout : Layout) (pins : List Pin) (acc : Inspection G)
      → let r = inspect_loop dev layout pins acc in
        (length r.statuses ≡ length acc.statuses + length pins)
        × (length r.errs + failures acc.statuses ≡ length acc.errs + failures r.statuses)
  unfolding inspect_loop
  inspect_loop-counts layout [] acc = (omega arith, omega arith)
  inspect_loop-counts layout (pin ∷ pins) acc =
      let s = (inspect_pin dev layout pin).0 in
      let acc' : Inspection G = record {
        statuses = acc.statuses ++ s ∷ [];
        errs = acc.errs ++ opt_list s.failure;
        calls = acc.calls ++ (inspect_pin dev layout pin).1;
      } in
      let (statuses, errors) = inspect_loop-counts layout pins acc' in
      (
        omega (arith, length-append acc.statuses (s ∷ [])),
        omega (
          arith,
          length-append acc.errs (opt_list s.failure),
          failures-append acc.statuses (s ∷ []),
        ),
      )

  -- `InspectPins` reports one status for each pin, and one error for each status that is a failure.
  pub inspect_pins-counts :
      (layout : Layout) (pins : List Pin)
      → let r = inspect_pins dev layout pins in
        (length r.statuses ≡ length pins) × (length r.errs ≡ failures r.statuses)
  unfolding inspect_pins
  inspect_pins-counts layout pins =
      let (statuses, errors) = inspect_loop-counts (layout_or_default layout) pins nothing_yet in
      (omega arith, omega arith)

  new_error-counts :
      (r : ResolvedPin) (used : Bool) (c : Bytes) (f : Option (GpioError G))
      → let s : PinStatus G = record { resolved = r; used = used; consumer = c; failure = f } in
        let s' = (validate_status dev s).0 in
        length (opt_list f) + length (new_error dev s s') ≡ length (opt_list s'.failure)
  unfolding validate_status new_error
  new_error-counts r used c (some e) = omega arith
  new_error-counts r used c none = omega arith

  validate_loop-counts :
      (ss : List (PinStatus G)) (acc : Inspection G)
      → let r = validate_loop dev ss acc in
        (length r.statuses ≡ length acc.statuses + length ss)
        × (length r.errs + (failures acc.statuses + failures ss)
            ≡ length acc.errs + failures r.statuses)
  unfolding validate_loop
  validate_loop-counts [] acc = (omega arith, omega arith)
  validate_loop-counts (s ∷ ss) acc =
      let (s', calls) = validate_status dev s in
      let acc' : Inspection G = record {
        statuses = acc.statuses ++ s' ∷ [];
        errs = acc.errs ++ new_error dev s s';
        calls = acc.calls ++ calls;
      } in
      let (statuses, errors) = validate_loop-counts ss acc' in
      (
        omega (arith, length-append acc.statuses (s' ∷ [])),
        omega (
          arith,
          length-append acc.errs (new_error dev s s'),
          failures-append acc.statuses (s' ∷ []),
          new_error-counts s.resolved s.used s.consumer s.failure,
        ),
      )

  -- `ValidatePins` reports one status for each pin, and one error for each status that is a failure.
  pub validate_pins-counts :
      (layout : Layout) (pins : List Pin)
      → let r = validate_pins dev layout pins in
        (length r.statuses ≡ length pins) × (length r.errs ≡ failures r.statuses)
  unfolding validate_pins inspect_pins
  validate_pins-counts layout pins =
      let i = inspect_loop dev (layout_or_default layout) pins nothing_yet in
      let (statuses, errors) = inspect_loop-counts (layout_or_default layout) pins nothing_yet in
      let (statuses', errors') =
        validate_loop-counts i.statuses
          (record { statuses = []; errs = i.errs; calls = i.calls }) in
      (omega arith, omega arith)
