-- ===== src/Startup/Pings/Confirmed.antt =====
-- The pings of the drone against the base's handlers.
use drone_os.Base.{◌≡◌, some, List, ok}
use drone_os.Protocol.{Message}
use drone_os.Protocol.Handlers.{
  ControllerCommand, HandlerJson, Wake, Handler, handle, func_map, find_function,
}
use drone_os.Protocol.Transport.{Transport}

module _ {N E F P W : Type 0} (j : HandlerJson F P) (send : Transport N E W) where
  -- The transport brings the request `m`, sent in the state `w`, to its handler at the base, and the answer
  -- back.
  abbrev pub Reaches : Message → List (ControllerCommand P) → Wake → W → W → Type 0
  Reaches m q wake w w' =
      (h : Handler) (r : Message) (q' : List (ControllerCommand P))
      → find_function m.cmd func_map ≡ some h
      → handle j h wake m q ≡ some (r, q')
      → send m w ≡ (ok r, w')
