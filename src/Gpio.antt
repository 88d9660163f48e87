-- ===== src/Gpio.antt =====
-- internal/drivers/gpio/layout.go: the pins that a configuration names, resolved to lines of GPIO chips.
pub mod Resolved
pub mod Validate
pub mod Lines
mod Tests
use drone_os.Base.{
  ℕ, ℤ, pos, eq_ℤ, Bool, true, false, not, ◌||◌, Option, none, some, List, [], ◌∷◌, ◌++◌, map,
  if◌then◌else◌, Bytes, codes, text_eq, one_of, trim_space, to_lower, Result, ok, err,
}
use drone_os.Config.{Pin}

pub record Layout : Type 0 where
  pub name : Bytes
  pub physical_to_bcm : List (ℤ × ℤ)

pub record ResolvedPin : Type 0 where
  pub name : Bytes
  pub chip : Bytes
  pub offset : ℤ
  pub direction : Bytes
  pub active_low : Option Bool
  pub bias : Bytes
  pub drive : Bytes

pub data PinError : Type 0 where
  missing_scheme : Bytes → PinError
  requires_chip unsupported_scheme : Bytes → Bytes → PinError
  not_mapped : Bytes → ℤ → Bytes → PinError

abbrev pub default_gpio_chip : Bytes
default_gpio_chip = codes "gpiochip0"

abbrev pin_pair : ℕ × ℕ → ℤ × ℤ
pin_pair (p, b) = (pos p, pos b)

-- `rpi40PhysicalToBCM`
pub rpi40_physical_to_bcm : List (ℤ × ℤ)
rpi40_physical_to_bcm = map pin_pair (
    (3, 2)
    ∷ (5, 3)
    ∷ (7, 4)
    ∷ (8, 14)
    ∷ (10, 15)
    ∷ (11, 17)
    ∷ (12, 18)
    ∷ (13, 27)
    ∷ (15, 22)
    ∷ (16, 23)
    ∷ (18, 24)
    ∷ (19, 10)
    ∷ (21, 9)
    ∷ (22, 25)
    ∷ (23, 11)
    ∷ (24, 8)
    ∷ (26, 7)
    ∷ (27, 0)
    ∷ (28, 1)
    ∷ (29, 5)
    ∷ (31, 6)
    ∷ (32, 12)
    ∷ (33, 13)
    ∷ (35, 19)
    ∷ (36, 16)
    ∷ (37, 26)
    ∷ (38, 20)
    ∷ (40, 21)
    ∷ [])

pub default_layout : Layout
unfolding rpi40_physical_to_bcm
default_layout = record { name = codes "rpi-40"; physical_to_bcm = rpi40_physical_to_bcm }

-- An unknown name is the error.
unfoldable pub layout_by_name : Bytes → Result Bytes Layout
layout_by_name name =
    if one_of (to_lower (trim_space name))
      ([] ∷ codes "rpi-40" ∷ codes "rpi40" ∷ codes "raspi-40" ∷ codes "raspberrypi-40" ∷ [])
    then ok default_layout
    else err name

pub bcm_of : ℤ → List (ℤ × ℤ) → Option ℤ
bcm_of p [] = none
bcm_of p ((k, b) ∷ m) = if eq_ℤ k p then some b else bcm_of p m

abbrev pub scheme_chip : Bytes
scheme_chip = codes "chip"

abbrev pub scheme_bcm : Bytes
scheme_bcm = codes "bcm"

abbrev pub scheme_physical : Bytes
scheme_physical = codes "physical"

-- The scheme that a pin states, or the one that its fields show.
pub pin_scheme : Pin → Option Bytes
pin_scheme pin =
    let scheme = to_lower (trim_space pin.scheme) in
    if text_eq scheme []
    then (if not (text_eq (trim_space pin.chip) []) || not (eq_ℤ pin.offset (pos 0))
        then some scheme_chip
        else if not (eq_ℤ pin.number (pos 0))
        then some scheme_bcm
        else none)
    else some scheme

pub chip_or_default : Bytes → Bytes
chip_or_default chip = if text_eq chip [] then default_gpio_chip else chip

-- The pin at a line of a chip, with the rest of its settings.
abbrev pub resolved_at : Pin → Bytes → ℤ → ResolvedPin
resolved_at pin chip offset = record {
  name = pin.name;
  chip = chip;
  offset = offset;
  direction = pin.direction;
  active_low = pin.active_low;
  bias = pin.bias;
  drive = pin.drive;
}

resolve_physical : Layout → Pin → Option ℤ → Result PinError ResolvedPin
resolve_physical layout pin none = err (not_mapped pin.name pin.number layout.name)
resolve_physical layout pin (some b) = ok (resolved_at pin (chip_or_default pin.chip) b)

resolve_scheme : Layout → Pin → Option Bytes → Result PinError ResolvedPin
unfolding resolve_physical
resolve_scheme layout pin none = err (missing_scheme pin.name)
resolve_scheme layout pin (some scheme) =
    if text_eq scheme scheme_chip
    then (if text_eq (trim_space pin.chip) []
        then err (requires_chip pin.name scheme)
        else ok (resolved_at pin pin.chip pin.offset))
    else if text_eq scheme scheme_bcm
    then ok (resolved_at pin (chip_or_default pin.chip) pin.number)
    else if text_eq scheme scheme_physical
    then resolve_physical layout pin (bcm_of pin.number layout.physical_to_bcm)
    else err (unsupported_scheme pin.name scheme)

pub resolve_pin : Layout → Pin → Result PinError ResolvedPin
unfolding resolve_scheme
resolve_pin layout pin = resolve_scheme layout pin (pin_scheme pin)

-- A layout with no name is the default one.
unfoldable pub layout_or_default : Layout → Layout
layout_or_default layout = if text_eq layout.name [] then default_layout else layout

collect :
    Result PinError ResolvedPin
    → List ResolvedPin × List PinError
    → List ResolvedPin × List PinError
collect (ok r) (rs, es) = (rs ++ r ∷ [], es)
collect (err e) (rs, es) = (rs, es ++ e ∷ [])

resolve_loop :
    Layout → List Pin → List ResolvedPin × List PinError → List ResolvedPin × List PinError
unfolding collect
resolve_loop layout [] acc = acc
resolve_loop layout (pin ∷ pins) acc =
    resolve_loop layout pins (collect (resolve_pin layout pin) acc)

-- `ResolvePins`: the resolved pins and the errors.
pub resolve_pins : Layout → List Pin → List ResolvedPin × List PinError
unfolding resolve_loop
resolve_pins layout pins = resolve_loop (layout_or_default layout) pins ([], [])
