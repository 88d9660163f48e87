-- ===== src/Pollers/Tests.antt =====
-- A base with two commands in its queue, reached with no loss.
use drone_os.Base.{ℕ, pos, ◌+◌, ◌≡◌, refl, true, [], ◌∷◌, codes, ok, err}
use drone_os.Protocol.Handlers.{ControllerCommand, HandlerJson, handle}
use drone_os.Protocol.Transport.{Transport}
use drone_os.Pollers.{taken, PollerJson, controller_round}
use drone_os.Pollers.Taken.{controller_round-taken}

abbrev lift_off : ControllerCommand ℕ
lift_off = record { action = codes "up"; payload = 5 }

abbrev handlers : HandlerJson ℕ ℕ
handlers = record {
  messages = record { marshal = λ m. err 0; unmarshal = λ b. err 0 };
  marshal_command = λ c. ok (c.payload ∷ []);
  unmarshal_ack = λ b. err 1;
  unmarshal_report = λ b. err 1;
}

abbrev drone : PollerJson ℕ ℕ
drone = record { unmarshal_command = λ b. ok lift_off; marshal_ack = λ a. ok (1 ∷ []) }

-- The answer to the request, whatever is sent.
abbrev link : Transport ℕ ℕ ℕ
link m n = (ok (record { id = pos 1; cmd = codes "controller_cmd"; data_text = 5 ∷ [] }), n + 1)

controller_round-taken_example : (controller_round drone link (pos 1) true 0).0 ≡ taken lift_off
controller_round-taken_example =
    controller_round-taken handlers drone link (pos 1) 0 1 lift_off []
      (record { id = pos 1; cmd = codes "controller_cmd"; data_text = 5 ∷ [] }) (5 ∷ []) refl
      (λ e. cc) refl (unfold handle in refl) refl
