-- ===== src/Protocol/Server.antt =====
-- `TCPHandler` of internal/protocol/main.go and `ServeRadio` of internal/protocol/radio.go: the base's
-- answers to requests. A connection is the bytes that the peer sends, and what is written to it.
use drone_os.Base.{
  ℕ, ◌+◌, ◌%◌, Bool, true, false, Option, none, some, List, [], ◌∷◌, ◌++◌, ◌==◌, if◌then◌else◌,
  Bytes, length, ok, err,
}
use drone_os.Protocol.{Message}
use drone_os.Protocol.Codec.{encode_message, decode_message, decode_message_bytes}
use drone_os.Protocol.Handlers.{
  ControllerCommand, HandlerJson, Wake, Handler, handle, func_map, find_function,
}
use drone_os.Lora.{Received, nothing, frame, failed}

-- One round of `ServeRadio`: whether the context is done, what `link.Receive` returns, and how a long
-- poll ends.
pub record Round (E : Type 0) : Type 0 where
  pub done : Bool
  pub received : Received E
  pub wake : Wake

pub record Serving (P : Type 0) : Type 0 where
  pub consecutive_errors : ℕ
  pub queue : List (ControllerCommand P)
  pub sent : List Bytes
  pub warnings : ℕ

abbrev send_reply : Option Bytes → List Bytes → List Bytes
send_reply none sent = sent
send_reply (some d) sent = sent ++ d ∷ []

after_packet :
    {P : Type 0}
    → Serving P
    → Option (Option Bytes × List (ControllerCommand P))
    → Option (Serving P)
after_packet s none = none
after_packet s (some (r, q)) =
    some (record s { consecutive_errors = 0; queue = q; sent = send_reply r s.sent })

-- Only every hundredth error in a row is logged.
unfoldable pub radio_error : {P : Type 0} → Serving P → Serving P
radio_error s =
    let n = s.consecutive_errors + 1 in
    record s {
      consecutive_errors = n;
      warnings = if n % 100 == 1 then s.warnings + 1 else s.warnings;
    }

module _ {E P : Type 0} (j : HandlerJson E P) where
  abbrev Queue : Type 0
  Queue = List (ControllerCommand P)

  abbrev Reply : Type 0
  Reply = Option (Option Bytes × Queue)

  -- The response as it is written, or nothing where it cannot be encoded.
  encode_reply : Option (Message × Queue) → Reply
  encode_reply none = none
  encode_reply (some (r, q)) = elim (encode_message j.messages r) [
    | err e ↦ some (none, q)
    | ok d ↦ some (some d, q)
  ]

  call_handler : Option Handler → Wake → Message → Queue → Reply
  unfolding encode_reply
  call_handler none w m q = some (none, q)
  call_handler (some f) w m q = encode_reply (handle j f w m q)

  -- What is answered to a decoded request. The outer `none` means that the long poll cannot end by `w`.
  unfoldable pub respond : Wake → Message → Queue → Reply
  unfolding call_handler
  respond w m q = call_handler (find_function m.cmd func_map) w m q

  -- A connection that cannot be decoded is closed with no answer.
  unfoldable pub tcp_handler : Wake → Bytes → Queue → Reply
  tcp_handler w conn q = elim (decode_message j.messages conn) [
    | err e ↦ some (none, q)
    | ok (m, rest) ↦ respond w m q
  ]

  unfoldable pub radio_packet : Wake → Bytes → Queue → Reply
  radio_packet w packet q = elim (decode_message_bytes j.messages packet) [
    | err e ↦ some (none, q)
    | ok m ↦ respond w m q
  ]

  unfoldable pub radio_receive : Serving P → Wake → Received E → Option (Serving P)
  unfolding after_packet radio_error
  radio_receive s w (failed e) = some (radio_error s)
  radio_receive s w nothing = some s
  radio_receive s w (frame d) =
      if length d == 0 then some s else after_packet s (radio_packet w d s.queue)

  -- The rounds up to the one that finds the context done; `none` if a long poll cannot end as stated.
  unfoldable pub serve_radio : Serving P → List (Round E) → Option (Serving P)
  serve_radio s [] = some s
  serve_radio s (r ∷ rs) = elim r.done [
    | true ↦ some s
    | false ↦ elim (radio_receive s r.wake r.received) [ none ↦ none | some s' ↦ serve_radio s' rs ]
  ]
