-- ===== src/Gpio/Tests.antt =====
-- Pins of a flight controller's header.
use drone_os.Base.{ℕ, pos, true, false, none, some, [], ◌∷◌, codes, ok, All}
use drone_os.Config.{Pin}
use drone_os.Gpio.{default_layout}
use drone_os.Gpio.Validate.{GpioDev, validate_pins}
use drone_os.Gpio.Validate.Requests.{IsFree, validate_pins-IsFree}

abbrev motor : Pin
motor = record {
  name = codes "motor";
  scheme = codes "physical";
  number = pos 12;
  chip = [];
  offset = pos 0;
  direction = codes "output";
  active_low = some true;
  bias = codes "pull_up";
  drive = [];
}

-- A pin with no scheme, number or chip.
abbrev nowhere : Pin
nowhere = record motor { scheme = []; number = pos 0 }

-- A chip whose lines are free and busy on request.
abbrev dev : GpioDev ℕ
dev = record {
  new_chip = λ c. none;
  line_info = λ c n. ok (record { used = false; consumer = [] });
  request_line = λ c n os. some 16;
}

validate_pins-IsFree_example :
    All (IsFree dev) (validate_pins dev default_layout (motor ∷ nowhere ∷ [])).calls
validate_pins-IsFree_example = validate_pins-IsFree dev default_layout (motor ∷ nowhere ∷ [])
