-- ===== src/Pollers/Taken.antt =====
-- What the loops guarantee against the base's handlers.
use drone_os.Base.{
  ℤ, ◌≡◌, ◌≢◌, refl, sym, ap, ◌∙◌, Bool, true, false, some, List, [], ◌∷◌, Bytes, text_eq,
  text_eq_iff, Result, ok, err, arith,
}
use drone_os.Protocol.{Message}
use drone_os.Protocol.Handlers.{ControllerCommand, HandlerJson, received, next_command, handle}
use drone_os.Protocol.Transport.{CheckError, Transport}
use drone_os.Pollers.{
  WifiState, wifi_round, wifi_rounds, taken, PollerJson, ask_command, acknowledge, take_command,
  after_poll, controller_round,
}

-- What a check says of the connection.
abbrev pub connected : {N E : Type 0} → Result (CheckError N E) Bool → Bool
connected (ok b) = b
connected (err e) = false

-- What the last of the checks says.
abbrev pub last_check : {N E : Type 0} → Bool → List (Result (CheckError N E) Bool) → Bool
last_check b [] = b
last_check b (r ∷ rs) = last_check (connected r) rs

wifi_round_lem :
    {N E : Type 0} (s : WifiState) (r : Result (CheckError N E) Bool)
    → s.status ≡ s.was_connected
    → ((wifi_round s r).status ≡ connected r)
      × ((wifi_round s r).status ≡ (wifi_round s r).was_connected)
unfolding wifi_round
wifi_round_lem s (err e) h = ground arith
wifi_round_lem s (ok true) h = ground arith
wifi_round_lem s (ok false) h = ground arith

-- From a loop whose own flag agrees with the shared status, both say after any rounds what the last check
-- said, a failed check being no connection.
pub wifi_rounds-last_check :
    {N E : Type 0} (s : WifiState) (rs : List (Result (CheckError N E) Bool))
    → s.status ≡ s.was_connected
    → ((wifi_rounds s rs).status ≡ last_check s.status rs)
      × ((wifi_rounds s rs).was_connected ≡ last_check s.status rs)
unfolding wifi_rounds
wifi_rounds-last_check s [] h = (refl, sym h)
wifi_rounds-last_check s (r ∷ rs) h =
    let (now, same) = wifi_round_lem s r h in
    let (a, b) = wifi_rounds-last_check (wifi_round s r) rs same in
    (a ∙ ap (λ x. last_check x rs) now, b ∙ ap (λ x. last_check x rs) now)

module _ {N E F P W : Type 0} (j : HandlerJson F P) (k : PollerJson E P) (send : Transport N E W)
    (id : ℤ) where
  -- A command that waits first at the base, is encoded to a text that is not empty and decodes to itself: if
  -- the transport brings the request to `next_command` and its answer back, a connected drone takes it.
  pub controller_round-taken :
      (w w' : W) (c : ControllerCommand P) (q : List (ControllerCommand P)) (r : Message)
      (p : Bytes)
      → j.marshal_command c ≡ ok p
      → p ≢ []
      → k.unmarshal_command p ≡ ok c
      → handle j next_command received (ask_command k send id) (c ∷ q) ≡ some (r, q)
      → send (ask_command k send id) w ≡ (ok r, w')
      → (controller_round k send id true w).0 ≡ taken c
  unfolding controller_round handle after_poll take_command acknowledge
  controller_round-taken w w' c q r p text ne back handled sent =
      let e : r.data_text ≡ p = ground (arith, text) in
      let full : text_eq r.data_text [] ≡ false = ground (arith, text_eq_iff p []) in
      let cmd : k.unmarshal_command r.data_text ≡ ok c = ap k.unmarshal_command e ∙ back in
      ground (arith, sent, full, cmd)
