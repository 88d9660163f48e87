-- ===== src/Protocol/HandlerLaws.antt =====
-- What every handler keeps: the identity of the request, and the order and bound of the command queue.
use drone_os.Base.{
  ◌≤◌, ◌≡◌, refl, sym, subst, text_eq, is_utf8, utf8_from, behind_first, Bytes, Result, ok, err, ap,
  ◌∙◌, Bool, true, false, inl, inr, Option, none, some, List, [], ◌∷◌, ◌++◌, append_assoc,
  append-nil, arith, ltb, Bool-cases, codes, length, length-append,
}
use drone_os.Protocol.{Message, IsText, IsJson}
use drone_os.Protocol.Report.{DeviceStateReport}
use drone_os.Protocol.Handlers.{
  ControllerCommand, ControllerAck, ping, device_state, debug_log, controller_ack, command_text,
  ack_text, report_text, run_ping, run_debug_log, run_device_state, run_controller_ack, HandlerJson,
  queue_capacity, enqueue_controller_command, Wake, received, cancelled, timed_out, Handler,
  next_command, handle, next_controller_command,
}

-- What an answer keeps of the request: its identity, and its command unless a controller command was asked for.
abbrev pub Answers : Handler → Message → Message → Type 0
Answers next_command m r = (r.id ≡ m.id) × (r.cmd ≡ codes "controller_cmd")
Answers _ m r = (r.id ≡ m.id) × (r.cmd ≡ m.cmd)

module _ {E P : Type 0} (j : HandlerJson E P) where
  -- A handler that answers does so under the identity of the request, and under its command, but that
  -- `next_command` answers with `controller_cmd`.
  pub handle-Answers :
      (f : Handler) (w : Wake) (m : Message) (q : List (ControllerCommand P)) {r : Message}
      {q' : List (ControllerCommand P)}
      → handle j f w m q ≡ some (r, q')
      → Answers f m r
  unfolding handle
  handle-Answers next_command received m [] e = cc
  handle-Answers _ w m q e = ground arith

-- What encoding/json documents: the messages as in `IsJson`, and a text it encodes is well-formed UTF-8.
pub record IsHandlerJson {E P : Type 0} (j : HandlerJson E P) : Type 0 where
  pub messages : IsJson j.messages
  pub commands_utf8 :
      (c : ControllerCommand P) (p : Bytes) → j.marshal_command c ≡ ok p → is_utf8 p ≡ true

module _ {E P : Type 0} (j : HandlerJson E P) (laws : IsHandlerJson j) where
  command_text-IsText :
      (m : Message) (p : Result E Bytes)
      → ((b : Bytes) → p ≡ ok b → is_utf8 b ≡ true)
      → IsText (command_text j m p)
  unfolding command_text is_utf8 utf8_from behind_first
  command_text-IsText m (ok b) good = record { cmd_utf8 = refl; data_utf8 = good b refl }
  command_text-IsText m (err e) good = record { cmd_utf8 = refl; data_utf8 = refl }

  ack_text-IsText :
      (m : Message) (a : Result E (ControllerAck P)) → IsText m → IsText (ack_text j m a)
  unfolding ack_text is_utf8 utf8_from behind_first
  ack_text-IsText m (ok a) t = record { cmd_utf8 = t.cmd_utf8; data_utf8 = refl }
  ack_text-IsText m (err e) t = record { cmd_utf8 = t.cmd_utf8; data_utf8 = refl }

  report_text-IsText :
      (m : Message) (r : Result E DeviceStateReport) → IsText m → IsText (report_text j m r)
  unfolding report_text is_utf8 utf8_from behind_first
  report_text-IsText m (ok a) t = record { cmd_utf8 = t.cmd_utf8; data_utf8 = refl }
  report_text-IsText m (err e) t = record { cmd_utf8 = t.cmd_utf8; data_utf8 = refl }

  run_device_state-IsText : (m : Message) → IsText m → IsText (run_device_state j m)
  unfolding run_device_state
  run_device_state-IsText m t = elim (Bool-cases (text_eq m.data_text [])) [
    | inl e ↦ rw e (record {
      cmd_utf8 = t.cmd_utf8;
      data_utf8 = unfold is_utf8 utf8_from behind_first in refl;
    })
    | inr e ↦ rw e (report_text-IsText m (j.unmarshal_report m.data_text) t)
  ]

  run_controller_ack-IsText : (m : Message) → IsText m → IsText (run_controller_ack j m)
  unfolding run_controller_ack
  run_controller_ack-IsText m t = elim (Bool-cases (text_eq m.data_text [])) [
    | inl e ↦ rw e (record {
      cmd_utf8 = t.cmd_utf8;
      data_utf8 = unfold is_utf8 utf8_from behind_first in refl;
    })
    | inr e ↦ rw e (ack_text-IsText m (j.unmarshal_ack m.data_text) t)
  ]

  -- An answer to a well-formed request.
  abbrev WellFormed : Option (Message × List (ControllerCommand P)) → Type 0
  WellFormed none = Unit {0}
  WellFormed (some (r, q)) = IsText r

  handle-WellFormed :
      (f : Handler) (w : Wake) (m : Message) (q : List (ControllerCommand P))
      → IsText m
      → WellFormed (handle j f w m q)
  unfolding handle next_controller_command run_ping run_debug_log is_utf8 utf8_from behind_first
  handle-WellFormed ping w m q t = record { cmd_utf8 = t.cmd_utf8; data_utf8 = refl }
  handle-WellFormed device_state w m q t = run_device_state-IsText m t
  handle-WellFormed debug_log w m q t = record { cmd_utf8 = t.cmd_utf8; data_utf8 = refl }
  handle-WellFormed next_command received m [] t = tt
  handle-WellFormed next_command received m (c ∷ q) t =
      command_text-IsText m (j.marshal_command c) (laws.commands_utf8 c)
  handle-WellFormed next_command cancelled m q t = record { cmd_utf8 = refl; data_utf8 = refl }
  handle-WellFormed next_command timed_out m q t = record { cmd_utf8 = refl; data_utf8 = refl }
  handle-WellFormed controller_ack w m q t = run_controller_ack-IsText m t

  pub handle-IsText :
      (f : Handler) (w : Wake) (m : Message) (q : List (ControllerCommand P)) (r : Message)
      (q' : List (ControllerCommand P))
      → IsText m
      → handle j f w m q ≡ some (r, q')
      → IsText r
  handle-IsText f w m q r q' t h = subst WellFormed h (handle-WellFormed f w m q t)

-- What reaches the queue: a command offered by the base's controller, or a request for one.
pub data QueueOp (P : Type 0) : Type 0 where
  offer : ControllerCommand P → QueueOp P
  poll : Wake → Message → QueueOp P

abbrev pub Queue : Type 0 → Type 0
Queue P = List (ControllerCommand P)

-- The queue, the commands accepted, and the texts that the replies brought, oldest first; a reply with an
-- empty text brings none. An operation that cannot happen, a receive from an empty queue, changes nothing.
pub record History (P : Type 0) : Type 0 where
  pub queue : Queue P
  pub accepted : Queue P
  pub brought : List Bytes

abbrev accept : {P : Type 0} → Bool → ControllerCommand P → Queue P → Queue P
accept true c cs = cs ++ c ∷ []
accept false c cs = cs

abbrev text_of : Bytes → List Bytes
text_of [] = []
text_of (b ∷ s) = (b ∷ s) ∷ []

module _ {E P : Type 0} (j : HandlerJson E P) where
  abbrev encoded : Result E Bytes → List Bytes
  encoded (ok p) = text_of p
  encoded (err e) = []

  -- The texts of the commands that can be encoded.
  abbrev pub texts : Queue P → List Bytes
  texts [] = []
  texts (c ∷ cs) = encoded (j.marshal_command c) ++ texts cs

  texts-append : (cs ds : Queue P) → texts (cs ++ ds) ≡ texts cs ++ texts ds
  texts-append [] ds = refl
  texts-append (c ∷ cs) ds =
      ap (λ l. encoded (j.marshal_command c) ++ l) (texts-append cs ds)
      ∙ sym (append_assoc (encoded (j.marshal_command c)) (texts cs) (texts ds))

  -- What was accepted is what was taken and then what still waits, in this order, and the replies brought
  -- the texts of what was taken.
  pub record IsFifo (s : History P) : Type 0 where
    pub taken : Queue P
    pub ordered : s.accepted ≡ taken ++ s.queue
    pub told : s.brought ≡ texts taken
    pub bounded : length s.queue ≤ queue_capacity

  abbrev polled : History P → Option (Message × Queue P) → History P
  polled s none = s
  polled s (some (r, q)) = record s { queue = q; brought = s.brought ++ text_of r.data_text }

  pub queue_step : History P → QueueOp P → History P
  queue_step s (offer c) =
      let (q, done) = enqueue_controller_command c s.queue in
      record { queue = q; accepted = accept done c s.accepted; brought = s.brought }
  queue_step s (poll w m) = polled s (handle j next_command w m s.queue)

  pub queue_run : History P → List (QueueOp P) → History P
  queue_run s [] = s
  queue_run s (o ∷ os) = queue_run (queue_step s o) os

  command_text-encoded :
      (m : Message) (p : Result E Bytes) → text_of (command_text j m p).data_text ≡ encoded p
  unfolding command_text
  command_text-encoded m (ok p) = refl
  command_text-encoded m (err e) = refl

  -- A reply without a text, and no command taken.
  idle-IsFifo : (s : History P) → IsFifo s → IsFifo (record s { brought = s.brought ++ [] })
  idle-IsFifo s f = record {
    taken = f.taken;
    ordered = f.ordered;
    told = append-nil s.brought ∙ f.told;
    bounded = f.bounded;
  }

  received-IsFifo :
      (s : History P) (m : Message) (q : Queue P)
      → s.queue ≡ q
      → IsFifo s
      → IsFifo (polled s (next_controller_command j received m q))
  unfolding next_controller_command
  received-IsFifo s m [] e f = f
  received-IsFifo s m (c ∷ q) e f = record {
    taken = f.taken ++ c ∷ [];
    ordered = f.ordered ∙ ap (λ x. f.taken ++ x) e ∙ sym (append_assoc f.taken (c ∷ []) q);
    told =
        ap (λ l. l ++ text_of (command_text j m (j.marshal_command c)).data_text) f.told
        ∙ ap (λ l. texts f.taken ++ l)
            (command_text-encoded m (j.marshal_command c)
              ∙ sym (append-nil (encoded (j.marshal_command c))))
        ∙ sym (texts-append f.taken (c ∷ []));
    bounded = omega (arith, f.bounded, ap (length {A = ControllerCommand P}) e);
  }

  queue_step-IsFifo : (s : History P) (o : QueueOp P) → IsFifo s → IsFifo (queue_step s o)
  unfolding queue_step enqueue_controller_command handle next_controller_command
  queue_step-IsFifo s (offer c) f = elim (Bool-cases (ltb (length s.queue) queue_capacity)) [
    | inl room ↦
        rw (room, enqueue_controller_command)
          (record {
            taken = f.taken;
            ordered = ap (λ x. x ++ c ∷ []) f.ordered ∙ append_assoc f.taken s.queue (c ∷ []);
            told = f.told;
            bounded = ground (arith, length-append s.queue (c ∷ []));
          })
    | inr full ↦
        rw (full, enqueue_controller_command)
          (record { taken = f.taken; ordered = f.ordered; told = f.told; bounded = f.bounded })
  ]
  queue_step-IsFifo s (poll received m) f = received-IsFifo s m s.queue refl f
  queue_step-IsFifo s (poll cancelled m) f = idle-IsFifo s f
  queue_step-IsFifo s (poll timed_out m) f = idle-IsFifo s f

  -- From a queue that is in order, over any sequence of offers and requests, the commands are taken in the
  -- order in which they were accepted, each once; the replies bring the texts of those that can be encoded,
  -- in this order, and nothing else; and at most a hundred wait.
  pub queue_run-IsFifo :
      (s : History P) (os : List (QueueOp P)) → IsFifo s → IsFifo (queue_run s os)
  unfolding queue_run
  queue_run-IsFifo s [] f = f
  queue_run-IsFifo s (o ∷ os) f = queue_run-IsFifo (queue_step s o) os (queue_step-IsFifo s o f)
