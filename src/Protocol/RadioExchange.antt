-- ===== src/Protocol/RadioExchange.antt =====
-- `RadioTransport.Send` while the base answers over the radio.
use drone_os.Base.{◌≡◌, refl, false, Option, none, some, List, [], ◌∷◌, ◌++◌, Bytes, ok, arith}
use drone_os.Protocol.{Message, IsText}
use drone_os.Protocol.HandlerLaws.{IsHandlerJson}
use drone_os.Protocol.Codec.{encode_message-pos, decode_message_bytes}
use drone_os.Protocol.Handlers.{ControllerCommand, HandlerJson, Wake}
use drone_os.Protocol.Transport.{Wait, wait_round, radio_wait, radio_sent, radio_send}
use drone_os.Protocol.Exchange.{Handled, decode_request, response-IsText}
use drone_os.Lora.{nothing, frame, failed}

-- A round in which no packet arrives, before the deadline and with the context not done.
pub data Quiet {N : Type 0} : Wait N → Type 0 where
  silent : Quiet (record { done = none; received = nothing; late = false })
  disturbed : (e : N) → Quiet (record { done = none; received = failed e; late = false })

abbrev pub AllQuiet : {N : Type 0} → List (Wait N) → Type 0
AllQuiet [] = Unit {0}
AllQuiet (r ∷ rs) = Quiet r × AllQuiet rs

module _ {E P : Type 0} (j : HandlerJson E P) (laws : IsHandlerJson j) where
  module _ (m r : Message) (q q' : List (ControllerCommand P)) (w : Wake) (d e : Bytes)
      (good : IsText m) (h : Handled j m q w d r q' e) where
    wait_round-Handled : {N : Type 0} → wait_round {N = N} j.messages (frame e) false ≡ some (ok r)
    unfolding wait_round decode_message_bytes
    wait_round-Handled = ground (
      arith,
      encode_message-pos j.messages r e laws.messages.marshal-ne-nil h.response_encodes,
      decode_request j laws r e (response-IsText j laws m r q q' w d e good h) h.response_encodes,
    )

    radio_wait-Handled :
        {N : Type 0} (quiet rest : List (Wait N))
        → AllQuiet quiet
        → radio_wait j.messages
            (quiet ++ (record { done = none; received = frame e; late = false } ∷ rest))
          ≡ some (ok r)
    unfolding radio_wait wait_round
    radio_wait-Handled {N} [] rest a = rw (wait_round-Handled {N = N}, radio_wait) refl
    radio_wait-Handled (_ ∷ rs) rest (silent, a) = radio_wait-Handled rs rest a
    radio_wait-Handled (_ ∷ rs) rest (disturbed x, a) = radio_wait-Handled rs rest a

    -- A request of well-formed strings that a handler answers, over a JSON that decodes what it encodes of such
    -- strings: if the link takes the
    -- request, and behind any rounds with no packet, before the deadline, receives what the base's
    -- `ServeRadio` sends for it, then `RadioTransport.Send` returns the response of the handler.
    pub radio_send-Handled :
        {N : Type 0} (send : Bytes → Option N) (quiet rest : List (Wait N))
        → send d ≡ none
        → AllQuiet quiet
        → radio_send j.messages
            (some send)
            m
            (quiet ++ (record { done = none; received = frame e; late = false } ∷ rest))
          ≡ some (ok r)
    unfolding radio_send radio_sent
    radio_send-Handled send quiet rest sent a =
        ground (arith, h.encodes, sent, radio_wait-Handled quiet rest a)
