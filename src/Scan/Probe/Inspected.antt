-- ===== src/Scan/Probe/Inspected.antt =====
-- When inspecting pins finds no error, and when the layout is known.
use drone_os.Base.{
  ◌≡◌, refl, ◌↔◌, inl, inr, true, Bool-cases, Option, none, some, List, [], ◌∷◌, append-eq-nil, All,
  Bytes, codes, one_of, to_lower, trim_space, Result, ok, err, IsOk,
}
use drone_os.Config.{Pin}
use drone_os.Gpio.{Layout, ResolvedPin, PinError, resolve_pin, layout_or_default, layout_by_name}
use drone_os.Gpio.Validate.{
  GpioDev, LineInfo, GpioError, Inspection, opt_list, nothing_yet, read_line, open_chip,
  inspect_resolved, inspect_pin, inspect_loop, inspect_pins,
}

module _ {G : Type 0} (dev : GpioDev G) where
  -- A pin that stands for a line, of a chip that opens, whose state can be read.
  abbrev pub PinReads : Layout → Pin → Type 0
  PinReads layout pin =
      (r : ResolvedPin) × (resolve_pin layout pin ≡ ok r)
      × (dev.new_chip r.chip ≡ none)
      × IsOk (dev.line_info r.chip r.offset)

  read_line-PinReads :
      (r : ResolvedPin) (l : Result G LineInfo) → ((read_line dev r l).failure ≡ none) ↔ IsOk l
  unfolding read_line
  read_line-PinReads r (ok i) = (λ h. (i, refl), λ h. refl)
  read_line-PinReads r (err e) = (λ h. absurd (cc h), λ (i, h). absurd (cc h))

  open_chip-PinReads :
      (r : ResolvedPin) (o : Option G)
      → ((open_chip dev r o).0.failure ≡ none) ↔ ((o ≡ none) × IsOk (dev.line_info r.chip r.offset))
  unfolding open_chip
  open_chip-PinReads r (some e) = (λ h. absurd (cc h), λ (h, k). absurd (cc h))
  open_chip-PinReads r none =
      let (there, back) = read_line-PinReads r (dev.line_info r.chip r.offset) in
      (λ h. (refl, there h), λ (h, k). back k)

  inspect_resolved-PinReads :
      (pin : Pin) (p : Result PinError ResolvedPin)
      → ((inspect_resolved dev pin p).0.failure ≡ none) ↔ (
          (r : ResolvedPin) × (p ≡ ok r)
          × (dev.new_chip r.chip ≡ none)
          × IsOk (dev.line_info r.chip r.offset))
  unfolding inspect_resolved
  inspect_resolved-PinReads pin (err e) = (λ h. absurd (cc h), λ (r, h, k, l). absurd (cc h))
  inspect_resolved-PinReads pin (ok r) =
      let (there, back) = open_chip-PinReads r (dev.new_chip r.chip) in
      (
        λ h. let (opens, reads) = there h in (r, refl, opens, reads),
        λ (r', h, opens, reads). let same : r ≡ r' = cc h in back (rw same opens, rw same reads),
      )

  opt_list-eq-nil : (o : Option (GpioError G)) → (opt_list o ≡ []) ↔ (o ≡ none)
  opt_list-eq-nil none = (λ h. refl, λ h. refl)
  opt_list-eq-nil (some e) = (λ h. absurd (cc h), λ h. absurd (cc h))

  -- The errors behind those so far.
  inspect_loop-PinReads :
      (layout : Layout) (pins : List Pin) (acc : Inspection G)
      → ((inspect_loop dev layout pins acc).errs ≡ [])
        ↔ ((acc.errs ≡ []) × All (PinReads layout) pins)
  unfolding inspect_loop inspect_pin
  inspect_loop-PinReads layout [] acc = (λ h. (h, tt), λ (h, k). h)
  inspect_loop-PinReads layout (pin ∷ pins) acc =
      let (s, calls) = inspect_pin dev layout pin in
      let (there, back) = inspect_loop-PinReads layout pins _ in
      let (apart, together) = append-eq-nil acc.errs (opt_list s.failure) in
      let (bare, full) = opt_list-eq-nil s.failure in
      let (reads, fails) = inspect_resolved-PinReads pin (resolve_pin layout pin) in
      (
        λ h.
            let (both, rest) = there h in
            let (none_yet, fine) = apart both in (none_yet, (reads (bare fine), rest)),
        λ (none_yet, (one, rest)). back (together (none_yet, full (fails one)), rest),
      )

  pub inspect_pins-PinReads :
      (layout : Layout) (pins : List Pin)
      → ((inspect_pins dev layout pins).errs ≡ []) ↔ All (PinReads (layout_or_default layout)) pins
  unfolding inspect_pins
  inspect_pins-PinReads layout pins =
      let (there, back) = inspect_loop-PinReads (layout_or_default layout) pins nothing_yet in
      (λ h. (there h).1, λ h. back (refl, h))

-- The names of the layout, in any case and with space around them; no name is the same.
abbrev pub IsKnown : Bytes → Type 0
IsKnown name =
    one_of (to_lower (trim_space name))
      ([] ∷ codes "rpi-40" ∷ codes "rpi40" ∷ codes "raspi-40" ∷ codes "raspberrypi-40" ∷ [])
    ≡ true

pub layout_by_name-IsKnown : (name : Bytes) → IsOk (layout_by_name name) ↔ IsKnown name
unfolding layout_by_name
layout_by_name-IsKnown name =
    elim (Bool-cases (
      one_of (to_lower (trim_space name))
        ([] ∷ codes "rpi-40" ∷ codes "rpi40" ∷ codes "raspi-40" ∷ codes "raspberrypi-40" ∷ []))) [
          | inl e ↦ rw e (λ h. refl, λ h. (_, refl))
          | inr e ↦ rw e (λ (l, h). absurd (cc h), λ h. absurd (cc h))
        ]
