-- ===== src/Controller.antt =====
-- internal/controller/xbox360.go: the game controller's events as actions of the drone, and
-- cmd/base/main.go: the loop that puts them into the command queue. Log lines are left out.
pub mod Clamp
pub mod Devices
pub mod Queued
mod Tests
use drone_os.Base.{
  ℕ, suc, ◌-◌, ◌%◌, ◌^◌, ltb, Bool, true, false, Option, none, some, List, [], ◌∷◌, ◌++◌,
  if◌then◌else◌, ℤ, pos, negsuc, ltb_ℤ, eq_ℤ, Bytes, codes, text_eq, trim_space, equal_fold, Result,
  ok, err,
}
use drone_os.Protocol.Handlers.{ControllerCommand, enqueue_controller_command, find_function}

-- The dynamic types of a payload: bool and int16.
pub data Payload : Type 0 where
  flag : Bool → Payload
  axis : ℤ → Payload

pub record Event (P : Type 0) : Type 0 where
  pub action : Bytes
  pub payload : P

-- The kinds and codes of xpad events that the code names; `other_kind` and `other_code` are the rest.
pub data EventKind : Type 0 where
  ev_key ev_abs other_kind : EventKind

pub data EventCode : Type 0 where
  btn_a btn_b abs_x abs_y abs_rx abs_ry other_code : EventCode

pub record XpadEvent : Type 0 where
  pub kind : EventKind
  pub code : EventCode
  pub value : ℤ

abbrev pub max_int16 : ℤ
max_int16 = pos (2 ^ 15 - 1)

abbrev pub min_int16 : ℤ
min_int16 = negsuc (2 ^ 15 - 1)

-- The int16 whose low 16 bits are those of `m`.
abbrev signed_16 : ℕ → ℤ
signed_16 m = if ltb m (2 ^ 15) then pos m else negsuc (2 ^ 16 - 1 - m)

-- `int16(value)`
pub int16 : ℤ → ℤ
int16 (pos n) = signed_16 (n % 2 ^ 16)
int16 (negsuc n) = signed_16 (2 ^ 16 - 1 - n % 2 ^ 16)

pub clamp_int32_to_int16 : ℤ → ℤ
unfolding int16
clamp_int32_to_int16 value =
    if ltb_ℤ max_int16 value
    then int16 max_int16
    else if ltb_ℤ value min_int16
    then int16 min_int16
    else int16 value

abbrev action_of : Bytes → Payload → Event Payload
action_of action payload = record { action = action; payload = payload }

key_events : EventCode → List (Event Payload)
key_events btn_a = action_of (codes "TAKEOFF") (flag true) ∷ []
key_events btn_b = action_of (codes "LAND") (flag true) ∷ []
key_events _ = []

abs_events : EventCode → ℤ → List (Event Payload)
abs_events abs_x value = action_of (codes "MOVE_X") (axis value) ∷ []
abs_events abs_y value = action_of (codes "MOVE_Y") (axis value) ∷ []
abs_events abs_rx value = action_of (codes "ROTATE") (axis value) ∷ []
abs_events abs_ry value = action_of (codes "ADJUST_ALTITUDE") (axis value) ∷ []
abs_events _ value = []

-- What a round of `readXpadEvents` sends for an event.
pub xpad_events : EventKind → EventCode → ℤ → List (Event Payload)
unfolding key_events abs_events
xpad_events ev_key code value = if eq_ℤ value (pos 0) then [] else key_events code
xpad_events ev_abs code value = abs_events code (clamp_int32_to_int16 value)
xpad_events other_kind code value = []

-- Which error a call ends with: that of the context, or another.
pub data XpadError (X : Type 0) : Type 0 where
  canceled : XpadError X
  other : X → XpadError X

pub data Read (X : Type 0) : Type 0 where
  timed_out : Read X
  read_failed : XpadError X → Read X
  event : XpadEvent → Read X

-- A round of the loop: whether the context is done, and what `ReadEvent` returns.
pub record Round (X : Type 0) : Type 0 where
  pub done : Bool
  pub read : Read X

-- The events sent, and the error of the return; `none` while the loop goes on.
pub read_xpad_events : {X : Type 0} → List (Round X) → List (Event Payload) × Option (XpadError X)
unfolding xpad_events
read_xpad_events [] = ([], none)
read_xpad_events (r ∷ rs) =
    let (later, end) = read_xpad_events rs in
    if r.done then ([], some canceled) else elim r.read [
      | timed_out ↦ (later, end)
      | read_failed e ↦ ([], some e)
      | event ev ↦ (xpad_events ev.kind ev.code ev.value ++ later, end)
    ]

-- A round of `waitForXpad`: what the search finds, and whether the context is done in the pause behind it.
pub record Search (X I : Type 0) : Type 0 where
  pub found : Result X (List I)
  pub done : Bool

-- `none` while the search goes on.
pub wait_for_xpad : {X I : Type 0} → List (Search X I) → Option (Result (XpadError X) I)
wait_for_xpad [] = none
wait_for_xpad (s ∷ ss) =
    let rest = wait_for_xpad ss in
    let pause = if s.done then some (err canceled) else rest in
    elim s.found [ err e ↦ pause | ok [] ↦ pause | ok (i ∷ is) ↦ some (ok i) ]

-- A round of `Xbox360Interface`: the search, what `OpenDevice` returns, whether the context is done in the
-- pause behind a failure, and the rounds of `readXpadEvents`.
pub record Attempt (X I : Type 0) : Type 0 where
  pub searches : List (Search X I)
  pub open_failure : Option X
  pub done : Bool
  pub rounds : List (Round X)

pub data PadCall (I : Type 0) : Type 0 where
  opens closes : I → PadCall I
  sends : Event Payload → PadCall I

abbrev sent : {I : Type 0} → List (Event Payload) → List (PadCall I)
sent [] = []
sent (e ∷ es) = sends e ∷ sent es

abbrev PadRun : Type 0 → Type 0 → Type 0
PadRun X I = List (PadCall I) × Option (XpadError X)

module _ {X I : Type 0} where
  -- The device is closed once the reading ends; `rest` is the loop after that.
  after_events : I → List (Event Payload) × Option (XpadError X) → PadRun X I → PadRun X I
  after_events i (events, none) rest = (opens i ∷ sent events, none)
  after_events i (events, some canceled) rest =
      (opens i ∷ sent events ++ closes i ∷ [], some canceled)
  after_events i (events, some (other e)) (calls, end) =
      (opens i ∷ sent events ++ closes i ∷ calls, end)

  after_open : Attempt X I → I → PadRun X I → Option X → PadRun X I
  unfolding after_events
  after_open a i rest (some e) = if a.done then ([], some canceled) else rest
  after_open a i rest none = after_events i (read_xpad_events a.rounds) rest

  after_wait : Attempt X I → PadRun X I → Option (Result (XpadError X) I) → PadRun X I
  unfolding after_open
  after_wait a rest none = ([], none)
  after_wait a rest (some (err e)) = ([], some e)
  after_wait a rest (some (ok i)) = after_open a i rest a.open_failure

  -- The calls, and the error of the return.
  pub xbox360_interface : List (Attempt X I) → PadRun X I
  unfolding after_wait
  xbox360_interface [] = ([], none)
  xbox360_interface (a ∷ attempts) =
      let rest = xbox360_interface attempts in after_wait a rest (wait_for_xpad a.searches)

-- How `main` of the base goes on with the name of the configuration; `FuncMap` is given by its names.
pub data Choice : Type 0 where
  disabled unknown xbox360 : Choice

pub choose_controller : Bytes → Choice
unfolding find_function
choose_controller configured =
    let name = trim_space configured in
    if text_eq name []
    then disabled
    else if equal_fold name (codes "none")
    then disabled
    else elim (find_function name ((codes "xbox360", xbox360) ∷ [])) [ none ↦ unknown | some c ↦ c ]

-- The command of an event.
abbrev pub command_of : {P : Type 0} → Event P → ControllerCommand P
command_of e = record { action = e.action; payload = e.payload }

-- The loop of `main` over the events that it receives.
pub pump : {P : Type 0} → List (Event P) → List (ControllerCommand P) → List (ControllerCommand P)
unfolding enqueue_controller_command
pump [] q = q
pump (e ∷ es) q = let (q', queued) = enqueue_controller_command (command_of e) q in pump es q'
