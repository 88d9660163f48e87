-- ===== src/Pollers.antt =====
-- cmd/drone/main.go: the drone's two loops over the link to its base. A round is one turn of a loop; the
-- pauses and log lines are left out.
pub mod Taken
mod Tests
use drone_os.Base.{
  ℤ, Bool, true, false, not, Option, none, some, List, [], ◌∷◌, if◌then◌else◌, Bytes, codes,
  text_eq, Result, ok, err,
}
use drone_os.Protocol.{Message}
use drone_os.Protocol.Handlers.{ControllerCommand, ControllerAck}
use drone_os.Protocol.Transport.{CheckError, Sent, Transport}

-- `status` is shared with the controller's loop, `was_connected` is the WiFi loop's own.
pub record WifiState : Type 0 where
  pub status : Bool
  pub was_connected : Bool

-- A round of `startWiFiPoller` behind its tick, for what `CheckWiFi` returns.
pub wifi_round : {N E : Type 0} → WifiState → Result (CheckError N E) Bool → WifiState
wifi_round s (err e) =
    if s.was_connected
    then record { status = false; was_connected = false }
    else record s { status = false }
wifi_round s (ok true) =
    if not s.was_connected
    then record { status = true; was_connected = true }
    else record s { status = true }
wifi_round s (ok false) =
    if s.was_connected
    then record { status = false; was_connected = false }
    else record s { status = false }

-- The rounds up to the end of the context.
pub wifi_rounds : {N E : Type 0} → WifiState → List (Result (CheckError N E) Bool) → WifiState
wifi_rounds s [] = s
wifi_rounds s (r ∷ rs) = wifi_rounds (wifi_round s r) rs

-- How a round of `startControllerPoller` ends.
pub data Polled (P : Type 0) : Type 0 where
  not_connected poll_failed no_command invalid_command : Polled P
  taken : ControllerCommand P → Polled P

-- encoding/json on the drone's side.
pub record PollerJson (E P : Type 0) : Type 0 where
  pub unmarshal_command : Bytes → Result E (ControllerCommand P)
  pub marshal_ack : ControllerAck P → Result E Bytes

module _ {N E P W : Type 0} (j : PollerJson E P) (send : Transport N E W) (id : ℤ) where
  abbrev pub ask_command : Message
  ask_command = record { id = id; cmd = codes "next_command"; data_text = [] }

  abbrev taken_ack : ControllerCommand P → ControllerAck P
  taken_ack c = record {
    action = c.action;
    status = codes "taken";
    payload = some c.payload;
    error_text = [];
  }

  acknowledge : ControllerCommand P → Result E Bytes → W → Polled P × W
  acknowledge c (err e) w = (taken c, w)
  acknowledge c (ok d) w =
      let (answer, w') = send (record { id = id; cmd = codes "controller_ack"; data_text = d }) w in
      (taken c, w')

  take_command : Result E (ControllerCommand P) → W → Polled P × W
  unfolding acknowledge
  take_command (err e) w = (invalid_command, w)
  take_command (ok c) w = acknowledge c (j.marshal_ack (taken_ack c)) w

  after_poll : Sent N E × W → Polled P × W
  unfolding take_command
  after_poll (err e, w) = (poll_failed, w)
  after_poll (ok r, w) =
      if text_eq r.data_text []
      then (no_command, w)
      else take_command (j.unmarshal_command r.data_text) w

  -- A round of `startControllerPoller`.
  pub controller_round : Bool → W → Polled P × W
  unfolding after_poll
  controller_round status w =
      if not status then (not_connected, w) else after_poll (send ask_command w)
