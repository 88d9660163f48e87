-- ===== src/Gpio/Lines.antt =====
-- `lineReqOptions` of internal/drivers/gpio/validate.go: the options of a request for a line.
use drone_os.Base.{
  length, ◌≤◌, ◌∙◌, ◌≡◌, refl, Bool, true, false, Option, none, some, List, [], ◌∷◌, ◌++◌,
  if◌then◌else◌, Bytes, codes, text_eq, trim_space, to_lower, arith,
}
use drone_os.Gpio.{ResolvedPin}

-- The options of go-gpiocdev that are used; `as_output` is `AsOutput(0)`.
pub data LineReqOption : Type 0 where
  as_active_low as_active_high : LineReqOption
  with_pull_up with_pull_down with_bias_disabled with_bias_as_is : LineReqOption
  as_open_drain as_open_source as_push_pull : LineReqOption
  as_input as_output : LineReqOption

level_options : Option Bool → List LineReqOption
level_options none = []
level_options (some true) = as_active_low ∷ []
level_options (some false) = as_active_high ∷ []

bias_options : Bytes → List LineReqOption
bias_options bias =
    if text_eq bias (codes "pull_up")
    then with_pull_up ∷ []
    else if text_eq bias (codes "pull_down")
    then with_pull_down ∷ []
    else if text_eq bias (codes "disabled")
    then with_bias_disabled ∷ []
    else if text_eq bias (codes "as_is")
    then with_bias_as_is ∷ []
    else []

drive_options : Bytes → List LineReqOption
drive_options drive =
    if text_eq drive (codes "open_drain")
    then as_open_drain ∷ []
    else if text_eq drive (codes "open_source")
    then as_open_source ∷ []
    else if text_eq drive (codes "push_pull")
    then as_push_pull ∷ []
    else []

-- `hasDrive`
has_drive : List LineReqOption → Bool
has_drive [] = false
has_drive (o ∷ os) = true

direction_options : Bytes → Bool → List LineReqOption
direction_options direction drive =
    if text_eq direction (codes "input")
    then as_input ∷ []
    else if text_eq direction (codes "output")
    then (if drive then [] else as_output ∷ [])
    else []

pub line_req_options : ResolvedPin → List LineReqOption
unfolding level_options bias_options drive_options has_drive direction_options
line_req_options pin =
    let drive = drive_options (to_lower (trim_space pin.drive)) in
    level_options pin.active_low
    ++ (bias_options (to_lower (trim_space pin.bias))
        ++ (drive ++ direction_options (to_lower (trim_space pin.direction)) (has_drive drive)))

-- The options that make the line an output.
abbrev pub drives : List LineReqOption → List LineReqOption
drives [] = []
drives (as_open_drain ∷ os) = as_open_drain ∷ drives os
drives (as_open_source ∷ os) = as_open_source ∷ drives os
drives (as_push_pull ∷ os) = as_push_pull ∷ drives os
drives (as_output ∷ os) = as_output ∷ drives os
drives (o ∷ os) = drives os

drives-level :
    (o : Option Bool) (rest : List LineReqOption) → drives (level_options o ++ rest) ≡ drives rest
unfolding level_options
drives-level none rest = refl
drives-level (some true) rest = refl
drives-level (some false) rest = refl

drives-bias :
    (b : Bytes) (rest : List LineReqOption) → drives (bias_options b ++ rest) ≡ drives rest
unfolding bias_options
drives-bias b rest = ground arith

drives-drive :
    (b d : Bytes)
    → length (drives (drive_options b ++ direction_options d (has_drive (drive_options b)))) ≤ 1
unfolding drive_options direction_options has_drive
drives-drive b d = ground arith

direction_options-output :
    (b : Bool) → direction_options (codes "output") b ≡ (if b then [] else as_output ∷ [])
unfolding direction_options text_eq
direction_options-output b = refl

drives-output :
    (b : Bytes)
    → length (
        drives
          (drive_options b ++ direction_options (codes "output") (has_drive (drive_options b))))
      ≡ 1
unfolding drive_options direction_options has_drive
drives-output b = ground (arith, direction_options-output (has_drive (drive_options b)))

-- A line is driven in at most one way, and in exactly one if the pin is an output.
pub line_req_options-drives :
    (pin : ResolvedPin)
    → (length (drives (line_req_options pin)) ≤ 1)
      × (to_lower (trim_space pin.direction) ≡ codes "output"
          → length (drives (line_req_options pin)) ≡ 1)
unfolding line_req_options
line_req_options-drives pin =
    let drive = to_lower (trim_space pin.drive) in
    let direction = to_lower (trim_space pin.direction) in
    let tail =
      drive_options drive ++ direction_options direction (has_drive (drive_options drive)) in
    let same : drives (line_req_options pin) ≡ drives tail =
      drives-level pin.active_low _ ∙ drives-bias (to_lower (trim_space pin.bias)) tail in
    (rw same (drives-drive drive direction), λ out. rw same (rw out (drives-output drive)))
