-- ===== src/Protocol/Failover.antt =====
-- What the transports promise: the order of attempts, and that waiting for a radio packet ends.
use drone_os.Base.{
  ◌≡◌, ◌≢◌, Bool, true, ◌⊎◌, inl, inr, Option, none, some, List, [], ◌∷◌, arith, if◌then◌else◌,
  Option-cases, ok, err,
}
use drone_os.Protocol.{Message, Json}
use drone_os.Protocol.Transport.{
  Sent, Wait, Transport, AutoTransport, auto_send, wait_round, radio_wait,
}
use drone_os.Lora.{Received, nothing, frame, failed}

abbrev pub message? : {N E : Type 0} → Sent N E → Option Message
message? (ok a) = some a
message? (err e) = none

module _ {N E W : Type 0} where
  -- The transports in the order in which they are tried.
  abbrev pub attempts : AutoTransport N E W → List (Option (Transport N E W))
  attempts t = if t.prefer_wifi then t.wifi ∷ t.radio ∷ [] else t.radio ∷ t.wifi ∷ []

  -- The first of them that succeeds, and the state once it has, or the state when all have failed.
  abbrev pub first_success : List (Option (Transport N E W)) → Message → W → Option Message × W
  first_success [] m w = (none, w)
  first_success (none ∷ ts) m w = first_success ts m w
  first_success (some t ∷ ts) m w =
      let (r, w') = t m w in elim r [ ok a ↦ (some a, w') | err e ↦ first_success ts m w' ]

  by_transports :
      (wifi radio : Option (Transport N E W)) (prefer : Bool) (m : Message) (w : W)
      → let t : AutoTransport N E W = record { wifi = wifi; radio = radio; prefer_wifi = prefer } in
        ◌≡◌ {A = Option Message × W}
          (message? (auto_send t m w).0, (auto_send t m w).1)
          (first_success (attempts t) m w)
  unfolding auto_send
  by_transports none none prefer m w = ground arith
  by_transports (some t) none prefer m w = ground arith
  by_transports none (some u) prefer m w = ground arith
  by_transports (some t) (some u) prefer m w = ground arith

  -- The automatic transport returns what the first working transport returns, in the order of
  -- preference, tries none behind it, and fails only if each transport that is there fails.
  pub auto_send-first_success :
      (t : AutoTransport N E W) (m : Message) (w : W)
      → ◌≡◌ {A = Option Message × W}
          (message? (auto_send t m w).0, (auto_send t m w).1)
          (first_success (attempts t) m w)
  auto_send-first_success t m w = by_transports t.wifi t.radio t.prefer_wifi m w

module _ {N E : Type 0} (j : Json E) where
  -- Some round is behind the deadline or finds the context done.
  abbrev pub Expires : List (Wait N) → Type 0
  Expires [] = ⊥
  Expires (r ∷ rs) = (r.late ≡ true) ⊎ ((r.done ≢ none) ⊎ Expires rs)

  wait_round_late : (r : Received N) → wait_round j r true ≢ none
  unfolding wait_round
  wait_round_late (failed e) = ground arith
  wait_round_late nothing = ground arith
  wait_round_late (frame d) = ground arith

  radio_wait-ne-none : (rs : List (Wait N)) → Expires rs → radio_wait j rs ≢ none
  unfolding radio_wait
  radio_wait-ne-none [] h = absurd h
  radio_wait-ne-none (r ∷ rs) (inl late) = ground (arith, wait_round_late r.received)
  radio_wait-ne-none (r ∷ rs) (inr (inl done)) = ground arith
  radio_wait-ne-none (r ∷ rs) (inr (inr later)) = ground (arith, radio_wait-ne-none rs later)

  -- If some round is behind the deadline or finds the context done, the wait for a packet ends with a
  -- result, whatever arrives before it.
  pub radio_wait_ends :
      (rs : List (Wait N)) → Expires rs → (a : Sent N E) × (radio_wait j rs ≡ some a)
  radio_wait_ends rs h = elim (Option-cases (radio_wait j rs)) [
    | inl e ↦ absurd (radio_wait-ne-none rs h e)
    | inr found ↦ found
  ]
