-- ===== src/Controller/Tests.antt =====
-- A controller that is unplugged and found again.
use drone_os.Base.{◌≡◌, ℕ, ◌≤ℤ◌, arith, pos, negsuc, true, false, none, List, [], ◌∷◌, ok, err}
use drone_os.Controller.{
  ev_key, btn_a, other, event, timed_out, read_failed, Round, Attempt, max_int16, min_int16,
  clamp_int32_to_int16, xbox360_interface,
}
use drone_os.Controller.Clamp.{clamp_int32_to_int16-IsInt16}
use drone_os.Controller.Devices.{UsesOne, returns, xbox360_interface-UsesOne}

clamp_int32_to_int16-IsInt16_example :
    (min_int16 ≤ℤ clamp_int32_to_int16 (negsuc 40000))
    × (clamp_int32_to_int16 (negsuc 40000) ≤ℤ max_int16)
    × (min_int16 ≤ℤ negsuc 40000
        → negsuc 40000 ≤ℤ max_int16
        → clamp_int32_to_int16 (negsuc 40000) ≡ negsuc 40000)
    × (clamp_int32_to_int16 (negsuc 40000) ≤ℤ clamp_int32_to_int16 (pos 12))
clamp_int32_to_int16-IsInt16_example =
    clamp_int32_to_int16-IsInt16 (negsuc 40000) (pos 12) (omega arith)

abbrev rounds : List (Round ℕ)
rounds =
    record { done = false; read = event (record { kind = ev_key; code = btn_a; value = pos 1 }) }
    ∷ record { done = false; read = timed_out }
    ∷ record { done = false; read = read_failed (other 19) }
    ∷ []

abbrev attempts : List (Attempt ℕ ℕ)
attempts =
    record {
      searches =
          record { found = ok []; done = false }
          ∷ record { found = ok (3 ∷ []); done = false }
          ∷ [];
      open_failure = none;
      done = false;
      rounds = rounds;
    }
    ∷ record {
      searches = record { found = err 2; done = true } ∷ [];
      open_failure = none;
      done = false;
      rounds = [];
    }
    ∷ []

xbox360_interface-UsesOne_example :
    let (calls, end) = xbox360_interface attempts in UsesOne (returns end) none calls
xbox360_interface-UsesOne_example = xbox360_interface-UsesOne attempts
