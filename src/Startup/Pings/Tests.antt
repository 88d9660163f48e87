-- ===== src/Startup/Pings/Tests.antt =====
-- A transport that hands each request to the base's handlers.
use drone_os.Base.{ℕ, pos, Option, some, none, List, [], ◌∷◌, ok, err}
use drone_os.Protocol.{Message}
use drone_os.Protocol.Pair.{two_messages}
use drone_os.Protocol.Handlers.{
  ControllerCommand, HandlerJson, Handler, cancelled, handle, func_map, find_function,
}
use drone_os.Protocol.Transport.{Sent, Transport, no_transport}
use drone_os.Startup.Pings.{ping_message, confirmation_message}

abbrev handlers : HandlerJson ℕ ℕ
handlers = record {
  messages = two_messages (ping_message (pos 1)) (confirmation_message (pos 1));
  marshal_command = λ c. ok (c.payload ∷ []);
  unmarshal_ack = λ b. err 1;
  unmarshal_report = λ b. err 1;
}

abbrev carried : Option (Message × List (ControllerCommand ℕ)) → Sent ℕ ℕ
carried none = err no_transport
carried (some (r, q)) = ok r

abbrev handed : Message → Option Handler → Sent ℕ ℕ
handed m none = err no_transport
handed m (some h) = carried (handle handlers h cancelled m [])

abbrev send : Transport ℕ ℕ ℕ
send m w = (handed m (find_function m.cmd func_map), w)
