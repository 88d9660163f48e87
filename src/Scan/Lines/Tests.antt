-- ===== src/Scan/Lines/Tests.antt =====
-- A chip with two lines, of which one cannot be read, and a chip that does not open.
use drone_os.Base.{
  ℕ, zero, suc, true, false, some, none, [], ◌∷◌, Bytes, codes, text_eq, if◌then◌else◌, Result, ok,
  err,
}
use drone_os.Scan.Lines.{LineState, line_output, open_drain, pull_up, ScanDev, scan_gpio_pins}
use drone_os.Scan.Lines.Ordered.{IsScan, scan_gpio_pins-IsScan}

abbrev led : LineState
led = record {
  name = codes "led ";
  consumer = [];
  used = false;
  direction = line_output;
  active_low = true;
  drive = open_drain;
  bias = pull_up;
}

abbrev line_info : Bytes → ℕ → Result ℕ LineState
line_info chip zero = err 5
line_info chip (suc n) = ok led

abbrev dev : ScanDev ℕ
dev = record {
  chips = codes "gpiochip1" ∷ codes "gpiochip0" ∷ [];
  new_chip = λ chip. if text_eq chip (codes "gpiochip1") then some 13 else none;
  lines = λ chip. 2;
  line_info = line_info;
}

scan_gpio_pins-IsScan_example : IsScan dev dev.chips (scan_gpio_pins dev)
scan_gpio_pins-IsScan_example = scan_gpio_pins-IsScan dev
