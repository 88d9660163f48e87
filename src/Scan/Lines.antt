-- ===== src/Scan/Lines.antt =====
-- internal/drone/device_scan.go: `scanGPIOPins`, with the chips that it opens and closes in their order.
pub mod Ordered
mod Tests
use drone_os.Base.{
  ℕ, zero, suc, ◌+◌, ◌-◌, Bool, Option, none, some, List, [], ◌∷◌, ◌++◌, if◌then◌else◌, ℤ, pos,
  ltb_ℤ, Bytes, codes, text_eq, text_lt, trim_space, sort_by, Result, ok, err,
}
use drone_os.Protocol.Report.{GpioPinState}
use drone_os.Gpio.Validate.{Call, opens, closes}

-- The constants of go-gpiocdev that the code names; the last one stands for the others.
pub data LineDirection : Type 0 where
  line_input line_output other_direction : LineDirection

pub data LineDrive : Type 0 where
  open_drain open_source other_drive : LineDrive

pub data LineBias : Type 0 where
  pull_up pull_down bias_disabled other_bias : LineBias

-- What go-gpiocdev says of a line.
pub record LineState : Type 0 where
  pub name : Bytes
  pub consumer : Bytes
  pub used : Bool
  pub direction : LineDirection
  pub active_low : Bool
  pub drive : LineDrive
  pub bias : LineBias

-- `Chips`, `NewChip`, `Lines` and `LineInfo`.
pub record ScanDev (G : Type 0) : Type 0 where
  pub chips : List Bytes
  pub new_chip : Bytes → Option G
  pub lines : Bytes → ℕ
  pub line_info : Bytes → ℕ → Result G LineState

pub data ScanError (G : Type 0) : Type 0 where
  chip_failed : Bytes → G → ScanError G
  line_failed : Bytes → ℕ → G → ScanError G

pub record Scanned (G : Type 0) : Type 0 where
  pub states : List GpioPinState
  pub errs : List (ScanError G)
  pub calls : List Call

pub gpio_direction : LineDirection → Bytes
gpio_direction line_input = codes "input"
gpio_direction line_output = codes "output"
gpio_direction other_direction = codes "unknown"

pub gpio_drive : LineDrive → Bytes
gpio_drive open_drain = codes "open_drain"
gpio_drive open_source = codes "open_source"
gpio_drive other_drive = codes "push_pull"

pub gpio_bias : LineBias → Bytes
gpio_bias pull_up = codes "pull_up"
gpio_bias pull_down = codes "pull_down"
gpio_bias bias_disabled = codes "disabled"
gpio_bias other_bias = codes "unknown"

pub pin_state : Bytes → ℕ → LineState → GpioPinState
unfolding gpio_direction gpio_drive gpio_bias
pin_state chip offset info = record {
  chip = chip;
  offset = pos offset;
  name = trim_space info.name;
  consumer = trim_space info.consumer;
  used = info.used;
  direction = gpio_direction info.direction;
  active_low = info.active_low;
  drive = gpio_drive info.drive;
  bias = gpio_bias info.bias;
  value = none;
}

abbrev less_line : GpioPinState → GpioPinState → Bool
less_line a b = if text_eq a.chip b.chip then ltb_ℤ a.offset b.offset else text_lt a.chip b.chip

module _ {G : Type 0} where
  -- One round of the loop over the lines of a chip.
  line_round : Bytes → ℕ → Result G LineState → Scanned G → Scanned G
  line_round chip offset (err e) acc = record acc {
    errs = acc.errs ++ line_failed chip offset e ∷ [];
  }
  line_round chip offset (ok info) acc = record acc {
    states = acc.states ++ pin_state chip offset info ∷ [];
  }

  -- The rounds from `offset` on, as many as `count`.
  line_loop : ScanDev G → Bytes → ℕ → ℕ → Scanned G → Scanned G
  unfolding line_round
  line_loop dev chip offset zero acc = acc
  line_loop dev chip offset (suc count) acc =
      line_loop dev chip (suc offset) count (line_round chip offset (dev.line_info chip offset) acc)

  chip_round : ScanDev G → Bytes → Option G → Scanned G → Scanned G
  unfolding line_loop
  chip_round dev chip (some e) acc = record acc { errs = acc.errs ++ chip_failed chip e ∷ [] }
  chip_round dev chip none acc =
      let seen =
        line_loop dev chip 0 (dev.lines chip)
          (record acc { calls = acc.calls ++ opens chip ∷ [] }) in
      record seen { calls = seen.calls ++ closes chip ∷ [] }

  chip_loop : ScanDev G → List Bytes → Scanned G → Scanned G
  unfolding chip_round
  chip_loop dev [] acc = acc
  chip_loop dev (chip ∷ chips) acc =
      chip_loop dev chips (chip_round dev chip (dev.new_chip chip) acc)

  abbrev nothing_scanned : Scanned G
  nothing_scanned = record { states = []; errs = []; calls = [] }

  scan_chips : ScanDev G → List Bytes → Scanned G
  unfolding chip_loop
  scan_chips dev [] = nothing_scanned
  scan_chips dev (chip ∷ chips) =
      let all = chip_loop dev (chip ∷ chips) nothing_scanned in
      record all { states = sort_by less_line all.states }

  pub scan_gpio_pins : ScanDev G → Scanned G
  unfolding scan_chips
  scan_gpio_pins dev = scan_chips dev dev.chips
