-- ===== src/Protocol/Exchange.antt =====
-- A request over WiFi or radio meets the base's handlers.
use drone_os.Base.{
  ◌≡◌, sym, ap, ◌∙◌, inl, inr, false, none, some, List, [], ◌∷◌, ◌++◌, arith, append-nil,
  Option-cases, Bytes, text_eq, Result-cases, ok,
}
use drone_os.Protocol.{Message, IsText}
use drone_os.Protocol.Codec.{
  encode_message, decode_message, decode_message_bytes, decode_message-encode_message,
  decode_message_sound, encode_message-pos,
}
use drone_os.Protocol.Handlers.{
  ControllerCommand, HandlerJson, Wake, Handler, next_command, handle, func_map, find_function,
}
use drone_os.Protocol.HandlerLaws.{Answers, handle-Answers, IsHandlerJson, handle-IsText}
use drone_os.Protocol.Server.{respond, tcp_handler, radio_packet, Serving, radio_receive}
use drone_os.Protocol.Transport.{Network, wifi_send}
use drone_os.Lora.{frame}

module _ {E P : Type 0} (j : HandlerJson E P) where
  -- The request `m` is encoded as `d`, handled, and its response `r` encoded as `e`.
  pub record Handled (m : Message) (q : List (ControllerCommand P)) (w : Wake) (d : Bytes)
      (r : Message) (q' : List (ControllerCommand P)) (e : Bytes) : Type 0 where
    pub handler : Handler
    pub found : find_function m.cmd func_map ≡ some handler
    pub encodes : encode_message j.messages m ≡ ok d
    pub handles : handle j handler w m q ≡ some (r, q')
    pub response_encodes : encode_message j.messages r ≡ ok e

Answers-id : (f : Handler) (m r : Message) → Answers f m r → r.id ≡ m.id
Answers-id next_command m r a = a.0
Answers-id _ m r a = a.0

module _ {E P : Type 0} (j : HandlerJson E P) (laws : IsHandlerJson j) where
  pub decode_request :
      (m : Message) (d : Bytes)
      → IsText m
      → encode_message j.messages m ≡ ok d
      → decode_message j.messages d ≡ ok (m, [])
  decode_request m d t h =
      ap (decode_message j.messages) (sym (append-nil d))
      ∙ decode_message-encode_message j.messages m d [] t laws.messages h

  module _ (m r : Message) (q q' : List (ControllerCommand P)) (w : Wake) (d e : Bytes)
      (good : IsText m) (h : Handled j m q w d r q' e) where
    pub response-IsText : IsText r
    response-IsText = handle-IsText j laws h.handler w m q r q' good h.handles

    pub tcp_handler-Handled : tcp_handler j w d q ≡ some (some e, q')
    unfolding tcp_handler respond
    tcp_handler-Handled = ground (arith, decode_request m d good h.encodes)

    radio_packet-Handled : radio_packet j w d q ≡ some (some e, q')
    unfolding radio_packet respond decode_message_bytes
    radio_packet-Handled = ground (arith, decode_request m d good h.encodes)

    -- A request of well-formed strings that a handler answers, with a JSON that decodes what it encodes of such
    -- strings: if the address is set and
    -- can be dialled, and the network carries the bytes to the base's `TCPHandler` and its answer back,
    -- `WiFiTransport.Send` returns the response of the handler.
    pub wifi_send-tcp_handler :
        {N : Type 0} (net : Network N) (addr : Bytes)
        → text_eq addr [] ≡ false
        → net.dial addr ≡ none
        → ((a : Bytes) (s : List (ControllerCommand P))
            → tcp_handler j w d q ≡ some (some a, s)
            → net.exchange addr d ≡ ok a)
        → wifi_send j.messages net addr m ≡ ok r
    unfolding wifi_send
    wifi_send-tcp_handler net addr named up carries = ground (
      arith,
      h.encodes,
      carries e q' tcp_handler-Handled,
      decode_request r e response-IsText h.response_encodes,
    )

    -- A request of well-formed strings that a handler answers, received as a radio packet, with a JSON that
    -- decodes what it encodes of such strings: `ServeRadio` sends the encoded response, keeps
    -- the queue that the handler leaves and counts no errors.
    pub radio_receive-Handled :
        (s : Serving P)
        → s.queue ≡ q
        → radio_receive j s w (frame d)
          ≡ some (record s { consecutive_errors = 0; queue = q'; sent = s.sent ++ e ∷ [] })
    unfolding radio_receive
    radio_receive-Handled s sq = ground (
      arith,
      encode_message-pos j.messages m d laws.messages.marshal-ne-nil h.encodes,
      ap (radio_packet j w d) sq,
      radio_packet-Handled,
    )

  respond_inversion :
      (w : Wake) (m : Message) (q q' : List (ControllerCommand P)) (d : Bytes)
      → IsText m
      → respond j w m q ≡ some (some d, q')
      → (r : Message) × (r.id ≡ m.id) × IsText r × (encode_message j.messages r ≡ ok d)
  unfolding respond
  respond_inversion w m q q' d t h = elim (Option-cases (find_function m.cmd func_map)) [
    | inl e ↦ ground arith
    | inr (f, e) ↦ elim (Option-cases (handle j f w m q)) [
      | inl e' ↦ ground arith
      | inr ((r, s), e') ↦ elim (Result-cases (encode_message j.messages r)) [
        | inr (x, e'') ↦ ground arith
        | inl (b, e'') ↦ (
          r,
          Answers-id f m r (handle-Answers j f w m q e'),
          handle-IsText j laws f w m q r s t e',
          e'' ∙ ap ok (ground arith),
        )
      ]
    ]
  ]

  -- With a JSON that decodes what it encodes of well-formed strings, and decodes and encodes to such, whatever `TCPHandler` writes decodes to one message, which
  -- has the identity of the request that its connection held.
  pub tcp_handler_answer :
      (w : Wake) (conn d t : Bytes) (q q' : List (ControllerCommand P))
      → tcp_handler j w conn q ≡ some (some d, q')
      → (m : Message) × (r : Message) × (rest : Bytes) × (decode_message j.messages conn
          ≡ ok (m, rest))
        × (decode_message j.messages (d ++ t) ≡ ok (r, t))
        × (r.id ≡ m.id)
  unfolding tcp_handler respond
  tcp_handler_answer w conn d t q q' h = elim (Result-cases (decode_message j.messages conn)) [
    | inr (x, e) ↦ ground arith
    | inl ((m, rest), e) ↦
        let f = decode_message_sound j.messages conn m rest e in
        let good = laws.messages.unmarshal-IsText m f.payload f.decodes in
        let (r, answered, text, encoded) = respond_inversion w m q q' d good (ground arith) in
        (
          m,
          r,
          rest,
          e,
          decode_message-encode_message j.messages r d t text laws.messages encoded,
          answered,
        )
  ]
