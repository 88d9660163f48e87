-- ===== src/Controller/Devices.antt =====
-- The devices that `Xbox360Interface` opens and closes.
use drone_os.Base.{
  ◌≡◌, refl, if◌then◌else◌, Bool, true, false, Option, none, some, List, [], ◌∷◌, ◌++◌, Result, ok,
  err,
}
use drone_os.Controller.{
  Payload, Event, XpadError, canceled, other, Attempt, PadCall, opens, closes, sends, sent, PadRun,
  read_xpad_events, wait_for_xpad, after_events, after_open, after_wait, xbox360_interface,
}

-- From the open device, if any: a device is opened only while none is, events are sent only while one is
-- open, the open device is the one that is closed, and at a return none is open.
abbrev pub UsesOne : {I : Type 0} → Bool → Option I → List (PadCall I) → Type 0
UsesOne returned none [] = Unit
UsesOne returned (some i) [] = returned ≡ false
UsesOne returned none (opens i ∷ cs) = UsesOne returned (some i) cs
UsesOne returned (some i) (sends e ∷ cs) = UsesOne returned (some i) cs
UsesOne returned (some i) (closes k ∷ cs) = (i ≡ k) × UsesOne returned none cs
UsesOne returned _ _ = ⊥

abbrev pub returns : {E : Type 0} → Option E → Bool
returns none = false
returns (some e) = true

module _ {I : Type 0} where
  UsesOne-sent :
      (b : Bool) (i : I) (es : List (Event Payload)) (cs : List (PadCall I))
      → UsesOne b (some i) cs
      → UsesOne b (some i) (sent es ++ cs)
  UsesOne-sent b i [] cs h = h
  UsesOne-sent b i (e ∷ es) cs h = UsesOne-sent b i es cs h

  UsesOne-sending : (i : I) (es : List (Event Payload)) → UsesOne false (some i) (sent es)
  UsesOne-sending i [] = refl
  UsesOne-sending i (e ∷ es) = UsesOne-sending i es

module _ {X I : Type 0} where
  Fine : PadRun X I → Type 0
  Fine (calls, end) = UsesOne (returns end) none calls

  after_events-Fine :
      (i : I) (r : List (Event Payload) × Option (XpadError X)) (rest : PadRun X I)
      → Fine rest
      → Fine (after_events i r rest)
  unfolding after_events Fine
  after_events-Fine i (events, none) rest h = UsesOne-sending i events
  after_events-Fine i (events, some canceled) rest h = UsesOne-sent true i events _ (refl, tt)
  after_events-Fine i (events, some (other e)) (calls, end) h =
      UsesOne-sent (returns end) i events _ (refl, h)

  after_open-Fine :
      (a : Attempt X I) (i : I) (rest : PadRun X I) (o : Option X)
      → Fine rest
      → Fine (after_open a i rest o)
  unfolding after_open Fine
  after_open-Fine a i rest none h = after_events-Fine i (read_xpad_events a.rounds) rest h
  after_open-Fine a i rest (some e) h = go a.done
    where
      go : (b : Bool) → Fine (if b then ([], some canceled) else rest)
      go true = tt
      go false = h

  after_wait-Fine :
      (a : Attempt X I) (rest : PadRun X I) (o : Option (Result (XpadError X) I))
      → Fine rest
      → Fine (after_wait a rest o)
  unfolding after_wait Fine
  after_wait-Fine a rest none h = tt
  after_wait-Fine a rest (some (err e)) h = tt
  after_wait-Fine a rest (some (ok i)) h = after_open-Fine a i rest a.open_failure h

  -- However the searches, openings and reads go: devices are opened one at a time, events are sent only
  -- while one is open, the one that is open is the one that is closed, and at a return none is open.
  pub xbox360_interface-UsesOne :
      (attempts : List (Attempt X I))
      → let (calls, end) = xbox360_interface attempts in UsesOne (returns end) none calls
  unfolding xbox360_interface Fine
  xbox360_interface-UsesOne [] = tt
  xbox360_interface-UsesOne (a ∷ attempts) =
      after_wait-Fine a _ (wait_for_xpad a.searches) (xbox360_interface-UsesOne attempts)
