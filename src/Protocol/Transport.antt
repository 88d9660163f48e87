-- ===== src/Protocol/Transport.antt =====
-- internal/protocol/transport.go: the client's side of an exchange, over WiFi, radio, or what works.
use drone_os.Base.{
  Bool, true, false, Option, none, some, List, [], ◌∷◌, ◌==◌, if◌then◌else◌, Bytes, codes, text_eq,
  length, ℤ, Result, ok, err, ◌>>=◌, wrap,
}
use drone_os.Protocol.{Message, Json}
use drone_os.Protocol.Codec.{CodecError, encode_message, decode_message, decode_message_bytes}
use drone_os.Lora.{Received, nothing, frame, failed}

pub data SendError (N E : Type 0) : Type 0 where
  address_not_set link_not_set receive_timeout no_transport : SendError N E
  dial_failed write_failed send_failed receive_failed cancelled : N → SendError N E
  codec : CodecError E → SendError N E
  read_failed : CodecError E → SendError N E

-- The network: dialling an address gives a connection, or fails; writing the request to the connection
-- fails, or gives what can be read from it then.
pub record Network (N : Type 0) : Type 0 where
  pub dial : Bytes → Option N
  pub exchange : Bytes → Bytes → Result N Bytes

abbrev pub Sent : Type 0 → Type 0 → Type 0
Sent N E = Result (SendError N E) Message

-- Why `CheckWiFi` fails; `invalid_response` carries an answer other than "pong".
pub data CheckError (N E : Type 0) : Type 0 where
  ping_failed : SendError N E → CheckError N E
  invalid_response : Bytes → CheckError N E

-- One round of the loop in `RadioTransport.Send`: whether the context is done and with what error, what
-- `Receive` returns, and whether the clock is behind the deadline.
pub record Wait (N : Type 0) : Type 0 where
  pub done : Option N
  pub received : Received N
  pub late : Bool

-- A transport is an object with a state `W`; a missing one is nil.
abbrev pub Transport : Type 0 → Type 0 → Type 0 → Type 0
Transport N E W = Message → W → Sent N E × W

pub record AutoTransport (N E W : Type 0) : Type 0 where
  pub wifi : Option (Transport N E W)
  pub radio : Option (Transport N E W)
  pub prefer_wifi : Bool

module _ {N E : Type 0} (j : Json E) where
  read_response : Result N Bytes → Sent N E
  read_response (err e) = err (write_failed e)
  read_response (ok stream) = do (m, rest) ← wrap read_failed (decode_message j stream); ok m

  dialled : Network N → Bytes → Message → Option N → Sent N E
  unfolding read_response
  dialled net addr m (some e) = err (dial_failed e)
  dialled net addr m none = do
    d ← wrap codec (encode_message j m)
    read_response (net.exchange addr d)

  -- `WiFiTransport.Send`
  unfoldable pub wifi_send : Network N → Bytes → Message → Sent N E
  unfolding dialled
  wifi_send net addr m =
      if text_eq addr [] then err address_not_set else dialled net addr m (net.dial addr)

  -- `CheckWiFi`
  unfoldable pub is_pong : Message → Result (CheckError N E) Bool
  is_pong r =
      if text_eq r.data_text (codes "pong") then ok true else err (invalid_response r.data_text)

  unfoldable pub check_wifi : Network N → Bytes → ℤ → Result (CheckError N E) Bool
  unfolding is_pong
  check_wifi net addr id = do
    r ←
        wrap ping_failed
          (wifi_send net addr (record { id = id; cmd = codes "ping"; data_text = [] }))
    is_pong r

  -- What one round says: a result, or that the loop sleeps and goes on.
  unfoldable pub wait_round : Received N → Bool → Option (Sent N E)
  wait_round (failed e) late = if late then some (err (receive_failed e)) else none
  wait_round nothing late = if late then some (err receive_timeout) else none
  wait_round (frame d) late =
      if length d == 0
      then (if late then some (err receive_timeout) else none)
      else some (wrap read_failed (decode_message_bytes j d))

  -- `none`: the rounds end before the loop does.
  unfoldable pub radio_wait : List (Wait N) → Option (Sent N E)
  unfolding wait_round
  radio_wait [] = none
  radio_wait (r ∷ rs) = elim r.done [
    | some e ↦ some (err (cancelled e))
    | none ↦ elim (wait_round r.received r.late) [ some a ↦ some a | none ↦ radio_wait rs ]
  ]

  unfoldable pub radio_sent : Option N → List (Wait N) → Option (Sent N E)
  radio_sent (some e) rs = some (err (send_failed e))
  radio_sent none rs = radio_wait rs

  -- `RadioTransport.Send`; the link, where there is one, says whether it fails to send a packet.
  unfoldable pub radio_send :
      Option (Bytes → Option N) → Message → List (Wait N) → Option (Sent N E)
  unfolding radio_sent
  radio_send none m rs = some (err link_not_set)
  radio_send (some send) m rs = elim (encode_message j m) [
    | err e ↦ some (err (codec e))
    | ok d ↦ radio_sent (send d) rs
  ]

module _ {N E W : Type 0} where
  -- An attempt whose error is dropped.
  abbrev attempt : Bool → Option (Transport N E W) → Message → W → (W → Sent N E × W) → Sent N E × W
  attempt false t m w next = next w
  attempt true none m w next = next w
  attempt true (some t) m w next =
      let (r, w') = t m w in elim r [ ok a ↦ (ok a, w') | err e ↦ next w' ]

  last_resort : Bool → Option (Transport N E W) → Message → W → Sent N E × W
  last_resort true t m w = (err no_transport, w)
  last_resort false none m w = (err no_transport, w)
  last_resort false (some t) m w = t m w

  -- `AutoTransport.Send`
  unfoldable pub auto_send : AutoTransport N E W → Message → W → Sent N E × W
  unfolding last_resort
  auto_send t m w =
      attempt t.prefer_wifi t.wifi m w
        λ w'. attempt true t.radio m w' λ w''. last_resort t.prefer_wifi t.wifi m w''

-- `NewAutoTransport`, whose transports are never nil.
pub new_auto_transport :
    {N E W : Type 0} → Transport N E W → Transport N E W → Bool → AutoTransport N E W
new_auto_transport wifi radio prefer = record {
  wifi = some wifi;
  radio = some radio;
  prefer_wifi = prefer;
}
