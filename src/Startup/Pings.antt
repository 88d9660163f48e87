-- ===== src/Startup/Pings.antt =====
-- cmd/drone/main.go: the loop of `main` that pings the base over the radio. Log lines are left out.
pub mod Confirmed
mod Tests
use drone_os.Base.{
  Bool, true, false, not, ◌&&◌, ◌||◌, List, [], ◌∷◌, if◌then◌else◌, ℤ, eq_ℤ, Bytes, codes, text_eq,
  ok, err,
}
use drone_os.Protocol.{Message}
use drone_os.Protocol.Transport.{SendError, Sent, Transport}

-- How a round behind its tick ends.
pub data Ping (N E : Type 0) : Type 0 where
  skipped confirmed : Ping N E
  ping_failed confirmation_failed : SendError N E → Ping N E
  invalid_pong invalid_confirmation : Message → Ping N E

abbrev pub ping_message : ℤ → Message
ping_message id = record { id = id; cmd = codes "ping"; data_text = [] }

abbrev pub confirmation_message : ℤ → Message
confirmation_message id = record {
  id = id;
  cmd = codes "debug_log";
  data_text = codes "radio ping pong confirmed";
}

-- response.ID != m.ID || response.Cmd != m.Cmd || response.Data != text
pub mismatch : Message → Message → Bytes → Bool
mismatch response m text =
    not (eq_ℤ response.id m.id)
    || not (text_eq response.cmd m.cmd)
    || not (text_eq response.data_text text)

module _ {N E W : Type 0} (send : Transport N E W) (id : ℤ) where
  after_confirmation : Sent N E × W → Ping N E × W
  unfolding mismatch
  after_confirmation (err e, w) = (confirmation_failed e, w)
  after_confirmation (ok r, w) =
      if mismatch r (confirmation_message id) (codes "ok")
      then (invalid_confirmation r, w)
      else (confirmed, w)

  after_ping : Sent N E × W → Ping N E × W
  unfolding after_confirmation
  after_ping (err e, w) = (ping_failed e, w)
  after_ping (ok r, w) =
      if mismatch r (ping_message id) (codes "pong")
      then (invalid_pong r, w)
      else after_confirmation (send (confirmation_message id) w)

  pub ping_round : Bool → Bool → W → Ping N E × W
  unfolding after_ping
  ping_round wifi_connected always_use w =
      if wifi_connected && not always_use
      then (skipped, w)
      else after_ping (send (ping_message id) w)
