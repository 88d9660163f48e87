-- ===== src/Protocol/Tests.antt =====
-- A ping between a drone and its base, over a JSON that knows the two messages of the exchange.
use drone_os.Base.{
  ℕ, ◌+◌, ◌≡◌, refl, sym, ap, ◌∙◌, pos, true, false, Option, none, some, List, [], ◌∷◌, ◌++◌, inl,
  inr, Bytes, codes, text_eq, ok, err, arith, is_utf8, utf8_from, behind_first, put_uint32,
}
use drone_os.Protocol.{Message, Json, IsText, IsJson}
use drone_os.Protocol.Pair.{message_eq, marshal, two_messages, two_messages-IsJson}
use drone_os.Protocol.Codec.{
  Framed, encode_message, decode_message, frame_payload, decode_message-encode_message,
  decode_message_sound,
}
use drone_os.Protocol.Handlers.{
  ControllerCommand, HandlerJson, received, cancelled, ping, handle, run_ping, find_function,
}
use drone_os.Protocol.HandlerLaws.{
  IsHandlerJson, QueueOp, offer, poll, History, IsFifo, queue_run, queue_run-IsFifo,
}
use drone_os.Protocol.Server.{Serving, tcp_handler, radio_receive}
use drone_os.Protocol.Transport.{
  Network, Sent, Wait, AutoTransport, wifi_send, auto_send, radio_wait, no_transport,
}
use drone_os.Protocol.Frames.{parse-encode_message}
use drone_os.Lora.Parse.{parse}
use drone_os.Protocol.Exchange.{
  Handled, wifi_send-tcp_handler, tcp_handler-Handled, radio_receive-Handled, tcp_handler_answer,
}
use drone_os.Protocol.RadioExchange.{silent, radio_send-Handled}
use drone_os.Protocol.Transport.{radio_send}
use drone_os.Protocol.Failover.{
  message?, attempts, first_success, auto_send-first_success, radio_wait_ends,
}
use drone_os.Lora.{nothing, frame, failed}

abbrev ask : Message
ask = record { id = pos 1; cmd = codes "ping"; data_text = [] }

abbrev answer : Message
answer = record { id = pos 1; cmd = codes "ping"; data_text = codes "pong" }

abbrev json : Json ℕ
json = two_messages ask answer

ask-IsText : IsText ask
ask-IsText = record {
  cmd_utf8 = unfold is_utf8 utf8_from behind_first in refl;
  data_utf8 = unfold is_utf8 utf8_from behind_first in refl;
}

answer-IsText : IsText answer
answer-IsText = record {
  cmd_utf8 = unfold is_utf8 utf8_from behind_first in refl;
  data_utf8 = unfold is_utf8 utf8_from behind_first in refl;
}

json-IsJson : IsJson json
json-IsJson = two_messages-IsJson ask answer ask-IsText answer-IsText

abbrev asked : Bytes
asked = 0 ∷ 0 ∷ 0 ∷ 1 ∷ 1 ∷ []

abbrev answered : Bytes
answered = 0 ∷ 0 ∷ 0 ∷ 1 ∷ 2 ∷ []

decode_message-encode_message_example : decode_message json (asked ++ (9 ∷ [])) ≡ ok (ask, 9 ∷ [])
decode_message-encode_message_example =
    decode_message-encode_message json ask asked (9 ∷ []) ask-IsText json-IsJson
      (unfold encode_message frame_payload put_uint32 marshal message_eq text_eq in refl)

decode_message_sound_example : Framed json (asked ++ (9 ∷ [])) ask (9 ∷ [])
decode_message_sound_example =
    decode_message_sound json (asked ++ (9 ∷ [])) ask (9 ∷ []) decode_message-encode_message_example

abbrev handlers : HandlerJson ℕ ℕ
handlers = record {
  messages = json;
  marshal_command = λ c. ok (codes "{}");
  unmarshal_ack = λ b. err 1;
  unmarshal_report = λ b. err 1;
}

handlers-IsHandlerJson : IsHandlerJson handlers
handlers-IsHandlerJson = record {
  messages = json-IsJson;
  commands_utf8 = λ c p h.
      let same : codes "{}" ≡ p = cc in rw (← same) (unfold is_utf8 utf8_from behind_first in refl);
}

abbrev stop_now : ControllerCommand ℕ
stop_now = record { action = codes "stop"; payload = 5 }

abbrev empty_queue : History ℕ
empty_queue = record { queue = []; accepted = []; brought = [] }

abbrev traffic : List (QueueOp ℕ)
traffic = offer stop_now ∷ poll cancelled ask ∷ offer stop_now ∷ poll received ask ∷ []

queue_run-IsFifo_example : IsFifo handlers (queue_run handlers empty_queue traffic)
queue_run-IsFifo_example =
    queue_run-IsFifo handlers empty_queue traffic
      (record { taken = []; ordered = refl; told = refl; bounded = omega arith })

ping_Handled : Handled handlers ask (stop_now ∷ []) cancelled asked answer (stop_now ∷ []) answered
unfolding find_function text_eq handle run_ping encode_message frame_payload put_uint32 marshal
    message_eq
ping_Handled = record {
  handler = ping;
  found = refl;
  encodes = refl;
  handles = refl;
  response_encodes = refl;
}

abbrev network : Network ℕ
network = record { dial = λ a. none; exchange = λ a d. ok answered }

carries :
    (a : Bytes) (s : List (ControllerCommand ℕ))
    → tcp_handler handlers cancelled asked (stop_now ∷ []) ≡ some (some a, s)
    → network.exchange (codes "base:80") asked ≡ ok a
carries a s h =
    let e =
      tcp_handler-Handled handlers handlers-IsHandlerJson ask answer (stop_now ∷ []) (stop_now ∷ [])
        cancelled asked answered ask-IsText ping_Handled in
    let same : answered ≡ a = cc (sym e ∙ h) in ap ok same

wifi_send-tcp_handler_example : wifi_send json network (codes "base:80") ask ≡ ok answer
wifi_send-tcp_handler_example =
    wifi_send-tcp_handler handlers handlers-IsHandlerJson ask answer (stop_now ∷ []) (stop_now ∷ [])
      cancelled asked answered ask-IsText ping_Handled network (codes "base:80")
      (unfold text_eq in refl) refl carries

abbrev serving : Serving ℕ
serving = record { consecutive_errors = 3; queue = stop_now ∷ []; sent = []; warnings = 1 }

radio_receive-Handled_example :
    radio_receive handlers serving cancelled (frame asked)
    ≡ some (record serving { consecutive_errors = 0; sent = answered ∷ [] })
radio_receive-Handled_example =
    radio_receive-Handled handlers handlers-IsHandlerJson ask answer (stop_now ∷ []) (stop_now ∷ [])
      cancelled asked answered ask-IsText ping_Handled serving refl

tcp_handler_answer_example :
    (m : Message) × (r : Message) × (rest : Bytes) × (decode_message json asked ≡ ok (m, rest))
    × (decode_message json (answered ++ []) ≡ ok (r, []))
    × (r.id ≡ m.id)
tcp_handler_answer_example =
    tcp_handler_answer handlers handlers-IsHandlerJson cancelled asked answered [] (stop_now ∷ [])
      (stop_now ∷ [])
      (tcp_handler-Handled handlers handlers-IsHandlerJson ask answer (stop_now ∷ [])
        (stop_now ∷ []) cancelled asked answered ask-IsText ping_Handled)

-- WiFi that fails and a radio that answers; the state counts the attempts.
abbrev transports : AutoTransport ℕ ℕ ℕ
transports = record {
  wifi = some (λ m n. (err no_transport, n + 1));
  radio = some (λ m n. (ok answer, n + 1));
  prefer_wifi = true;
}

auto_send-first_success_example :
    ◌≡◌ {A = Option Message × ℕ}
      (message? (auto_send transports ask 0).0, (auto_send transports ask 0).1)
      (first_success (attempts transports) ask 0)
auto_send-first_success_example = auto_send-first_success transports ask 0

abbrev waits : List (Wait ℕ)
waits =
    record { done = none; received = nothing; late = false }
    ∷ record { done = none; received = failed 3; late = true }
    ∷ []

radio_wait_ends_example : (a : Sent ℕ ℕ) × (radio_wait json waits ≡ some a)
radio_wait_ends_example = radio_wait_ends json waits (inr (inr (inl refl)))

parse-encode_message_example : parse (asked ++ (0 ∷ [])) ≡ (some asked, 0 ∷ [])
parse-encode_message_example =
    parse-encode_message json ask asked (0 ∷ []) json-IsJson.marshal-ne-nil
      (unfold encode_message frame_payload put_uint32 marshal message_eq text_eq in refl)

abbrev takes_all : Bytes → Option ℕ
takes_all d = none

abbrev silence : List (Wait ℕ)
silence = record { done = none; received = nothing; late = false } ∷ []

radio_send-Handled_example :
    radio_send json
      (some takes_all)
      ask
      (silence ++ (record { done = none; received = frame answered; late = false } ∷ []))
    ≡ some (ok answer)
radio_send-Handled_example =
    radio_send-Handled handlers handlers-IsHandlerJson ask answer (stop_now ∷ []) (stop_now ∷ [])
      cancelled asked answered ask-IsText ping_Handled takes_all silence [] refl (silent, tt)
