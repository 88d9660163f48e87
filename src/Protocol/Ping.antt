-- ===== src/Protocol/Ping.antt =====
-- `CheckWiFi` against the base's `TCPHandler`.
use drone_os.Base.{
  ℤ, ◌≡◌, refl, ap, true, false, none, some, List, [], Bytes, codes, text_eq, is_utf8, utf8_from,
  behind_first, wrap, ok, ◌>>=◌,
}
use drone_os.Protocol.{Message}
use drone_os.Protocol.HandlerLaws.{IsHandlerJson}
use drone_os.Protocol.Codec.{encode_message}
use drone_os.Protocol.Handlers.{
  ControllerCommand, HandlerJson, Wake, ping, handle, run_ping, find_function,
}
use drone_os.Protocol.Server.{tcp_handler}
use drone_os.Protocol.Transport.{Network, ping_failed, check_wifi, is_pong}
use drone_os.Protocol.Exchange.{Handled, wifi_send-tcp_handler}

-- The ping of a drone, and the base's answer to it.
abbrev pub ping_of : ℤ → Message
ping_of id = record { id = id; cmd = codes "ping"; data_text = [] }

abbrev pub pong_of : ℤ → Message
pong_of id = record { id = id; cmd = codes "ping"; data_text = codes "pong" }

module _ {E P : Type 0} (j : HandlerJson E P) (laws : IsHandlerJson j) where
  ping-Handled :
      (id : ℤ) (q : List (ControllerCommand P)) (w : Wake) (d e : Bytes)
      → encode_message j.messages (ping_of id) ≡ ok d
      → encode_message j.messages (pong_of id) ≡ ok e
      → Handled j (ping_of id) q w d (pong_of id) q e
  unfolding find_function text_eq handle run_ping
  ping-Handled id q w d e asks answers = record {
    handler = ping;
    found = refl;
    encodes = asks;
    handles = refl;
    response_encodes = answers;
  }

  -- With a JSON that decodes what it encodes of well-formed strings and encodes the ping and its answer: if the address is set and
  -- can be dialled and the network carries the bytes to `TCPHandler` and its answer back, `CheckWiFi` finds
  -- the base, whatever waits in its queue.
  pub check_wifi-tcp_handler :
      {N : Type 0} (net : Network N) (addr : Bytes) (id : ℤ) (q : List (ControllerCommand P))
      (w : Wake) (d e : Bytes)
      → encode_message j.messages (ping_of id) ≡ ok d
      → encode_message j.messages (pong_of id) ≡ ok e
      → text_eq addr [] ≡ false
      → net.dial addr ≡ none
      → ((a : Bytes) (s : List (ControllerCommand P))
          → tcp_handler j w d q ≡ some (some a, s)
          → net.exchange addr d ≡ ok a)
      → check_wifi j.messages net addr id ≡ ok true
  unfolding check_wifi is_pong text_eq
  check_wifi-tcp_handler net addr id q w d e asks answers named up carries =
      ap (λ r. wrap ping_failed r >>= is_pong j.messages)
        (wifi_send-tcp_handler j laws (ping_of id) (pong_of id) q q w d e
          (record {
            cmd_utf8 = unfold is_utf8 utf8_from behind_first in refl;
            data_utf8 = unfold is_utf8 utf8_from in refl;
          })
          (ping-Handled id q w d e asks answers) net addr named up carries)
