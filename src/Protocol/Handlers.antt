-- ===== src/Protocol/Handlers.antt =====
-- The handlers that `FuncMap` names, and the controller's command queue. Log lines are left out.
use drone_os.Base.{
  ℕ, Bool, true, false, Option, none, some, List, [], ◌∷◌, ◌++◌, ltb, if◌then◌else◌, Bytes, codes,
  text_eq, length, Result, ok, err,
}
use drone_os.Protocol.{Message, Json}
use drone_os.Protocol.Report.{DeviceStateReport}

-- `Payload any` of a command has a type `P` of its own.
pub record ControllerCommand (P : Type 0) : Type 0 where
  pub action : Bytes
  pub payload : P

pub record ControllerAck (P : Type 0) : Type 0 where
  pub action : Bytes
  pub status : Bytes
  pub payload : Option P
  pub error_text : Bytes

-- encoding/json on the types that the handlers exchange.
pub record HandlerJson (E P : Type 0) : Type 0 where
  pub messages : Json E
  pub marshal_command : ControllerCommand P → Result E Bytes
  pub unmarshal_ack : Bytes → Result E (ControllerAck P)
  pub unmarshal_report : Bytes → Result E DeviceStateReport

-- The capacity of `controllerQueue`.
abbrev pub queue_capacity : ℕ
queue_capacity = 100

-- The new queue, and whether the command was taken.
unfoldable pub enqueue_controller_command :
    {P : Type 0}
    → ControllerCommand P
    → List (ControllerCommand P)
    → List (ControllerCommand P) × Bool
enqueue_controller_command c q =
    if ltb (length q) queue_capacity then (q ++ c ∷ [], true) else (q, false)

-- Which case of the `select` in `nextControllerCommand` is taken.
pub data Wake : Type 0 where
  received cancelled timed_out : Wake

pub data Handler : Type 0 where
  ping device_state debug_log next_command controller_ack : Handler

abbrev reply : Message → Bytes → Message
reply m d = record { id = m.id; cmd = m.cmd; data_text = d }

abbrev command_reply : Message → Bytes → Message
command_reply m d = record { id = m.id; cmd = codes "controller_cmd"; data_text = d }

module _ {E P : Type 0} (j : HandlerJson E P) where
  abbrev Queue : Type 0
  Queue = List (ControllerCommand P)

  unfoldable pub command_text : Message → Result E Bytes → Message
  command_text m (ok p) = command_reply m p
  command_text m (err e) = command_reply m []

  -- `none` where the queue is empty: then the receiving case is not ready.
  unfoldable pub next_controller_command : Wake → Message → Queue → Option (Message × Queue)
  unfolding command_text
  next_controller_command received m [] = none
  next_controller_command received m (c ∷ q) = some (command_text m (j.marshal_command c), q)
  next_controller_command cancelled m q = some (command_reply m [], q)
  next_controller_command timed_out m q = some (command_reply m [], q)

  unfoldable pub run_ping : Message → Message
  run_ping m = reply m (codes "pong")

  unfoldable pub run_debug_log : Message → Message
  run_debug_log m = reply m (codes "ok")

  unfoldable pub ack_text : Message → Result E (ControllerAck P) → Message
  ack_text m (ok a) = reply m (codes "ok")
  ack_text m (err e) = reply m (codes "invalid")

  unfoldable pub run_controller_ack : Message → Message
  unfolding ack_text
  run_controller_ack m =
      if text_eq m.data_text []
      then reply m (codes "ok")
      else ack_text m (j.unmarshal_ack m.data_text)

  unfoldable pub report_text : Message → Result E DeviceStateReport → Message
  report_text m (ok r) = reply m (codes "ok")
  report_text m (err e) = reply m (codes "invalid")

  unfoldable pub run_device_state : Message → Message
  unfolding report_text
  run_device_state m =
      if text_eq m.data_text []
      then reply m (codes "empty")
      else report_text m (j.unmarshal_report m.data_text)

  -- The call of a handler.
  unfoldable pub handle : Handler → Wake → Message → Queue → Option (Message × Queue)
  unfolding next_controller_command run_ping run_debug_log run_controller_ack run_device_state
  handle ping w m q = some (run_ping m, q)
  handle device_state w m q = some (run_device_state m, q)
  handle debug_log w m q = some (run_debug_log m, q)
  handle next_command w m q = next_controller_command w m q
  handle controller_ack w m q = some (run_controller_ack m, q)

-- `FuncMap`
abbrev pub func_map : List (Bytes × Handler)
func_map =
    (codes "ping", ping)
    ∷ (codes "device_state", device_state)
    ∷ (codes "debug_log", debug_log)
    ∷ (codes "next_command", next_command)
    ∷ (codes "controller_ack", controller_ack)
    ∷ []

-- The look-up in `utils.CallFunctionByName`; `none` is `function not found`.
unfoldable pub find_function {ℓ} : {A : Type ℓ} → Bytes → List (Bytes × A) → Option A
unfolding text_eq
find_function name [] = none
find_function name ((k, f) ∷ fs) = if text_eq k name then some f else find_function name fs
