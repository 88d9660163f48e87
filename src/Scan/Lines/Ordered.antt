-- ===== src/Scan/Lines/Ordered.antt =====
-- What the list of GPIO lines holds, and which chips are opened.
use drone_os.Base.{
  ◌≡◌, refl, ap, ◌∙◌, ℕ, zero, suc, true, false, Option, none, some, List, [], ◌∷◌, ◌++◌,
  append_assoc, append-nil, Permᴰ, arith, Bytes, text_eq_iff, text_lt_asym, text_ge_trans,
  text_ge_antisym, text_lt, ◌⊎◌, ◌≤ℤ◌, IsOrder, Chain, IsSorted-Chain, sort_by-perm,
  sort_by-IsSorted, Result, ok, err,
}
use drone_os.Protocol.Report.{GpioPinState}
use drone_os.Gpio.Validate.{Call, opens, closes}
use drone_os.Scan.Lines.{
  LineState, ScanDev, ScanError, chip_failed, line_failed, Scanned, pin_state, less_line,
  line_round, line_loop, chip_round, chip_loop, nothing_scanned, scan_chips, scan_gpio_pins,
}

less_line_asym : (a b : GpioPinState) → less_line a b ≡ true → less_line b a ≡ false
less_line_asym a b h =
    ground (arith, text_lt_asym a.chip b.chip, text_eq_iff a.chip b.chip, text_eq_iff b.chip a.chip)

less_line_ge_trans :
    (a b c : GpioPinState) → less_line a b ≡ false → less_line b c ≡ false → less_line a c ≡ false
less_line_ge_trans a b c h k = ground (
  arith,
  text_ge_trans a.chip b.chip c.chip,
  text_ge_antisym a.chip b.chip,
  text_ge_antisym b.chip c.chip,
  text_ge_antisym a.chip c.chip,
  text_eq_iff a.chip b.chip,
  text_eq_iff b.chip c.chip,
  text_eq_iff a.chip c.chip,
)

pub less_line-IsOrder : IsOrder less_line
less_line-IsOrder = record { asym = less_line_asym; ge_trans = less_line_ge_trans }

-- By chip, and on a chip by offset.
abbrev pub InOrder : GpioPinState → GpioPinState → Type 0
InOrder a b = (text_lt a.chip b.chip ≡ true) ⊎ ((a.chip ≡ b.chip) × (a.offset ≤ℤ b.offset))

less_line-InOrder : (a b : GpioPinState) → less_line b a ≡ false → InOrder a b
less_line-InOrder a b h =
    ground
      (arith, text_ge_antisym a.chip b.chip, text_eq_iff b.chip a.chip, text_eq_iff a.chip b.chip)

abbrev pub Outcome : Type 0 → Type 0
Outcome G = Result (ScanError G) GpioPinState

module _ {G : Type 0} where
  abbrev pub states_of : List (Outcome G) → List GpioPinState
  states_of [] = []
  states_of (ok s ∷ os) = s ∷ states_of os
  states_of (err e ∷ os) = states_of os

  abbrev pub errors_of : List (Outcome G) → List (ScanError G)
  errors_of [] = []
  errors_of (ok s ∷ os) = errors_of os
  errors_of (err e ∷ os) = e ∷ errors_of os

  abbrev line_outcome : Bytes → ℕ → Result G LineState → Outcome G
  line_outcome chip offset (ok info) = ok (pin_state chip offset info)
  line_outcome chip offset (err e) = err (line_failed chip offset e)

  abbrev line_outcomes : ScanDev G → Bytes → ℕ → ℕ → List (Outcome G)
  line_outcomes dev chip offset zero = []
  line_outcomes dev chip offset (suc count) =
      line_outcome chip offset (dev.line_info chip offset)
      ∷ line_outcomes dev chip (suc offset) count

  abbrev chip_outcomes : ScanDev G → Bytes → Option G → List (Outcome G)
  chip_outcomes dev chip none = line_outcomes dev chip 0 (dev.lines chip)
  chip_outcomes dev chip (some e) = err (chip_failed chip e) ∷ []

  -- What becomes of each line of the chips that open, and of each other chip.
  abbrev pub outcomes : ScanDev G → List Bytes → List (Outcome G)
  outcomes dev [] = []
  outcomes dev (chip ∷ chips) = chip_outcomes dev chip (dev.new_chip chip) ++ outcomes dev chips

  abbrev chip_uses : Bytes → Option G → List Call
  chip_uses chip none = opens chip ∷ closes chip ∷ []
  chip_uses chip (some e) = []

  -- Each chip that opens, closed before the next one is tried.
  abbrev pub uses : ScanDev G → List Bytes → List Call
  uses dev [] = []
  uses dev (chip ∷ chips) = chip_uses chip (dev.new_chip chip) ++ uses dev chips

  abbrev after : Scanned G → List (Outcome G) → List Call → Scanned G
  after acc os calls = record {
    states = acc.states ++ states_of os;
    errs = acc.errs ++ errors_of os;
    calls = acc.calls ++ calls;
  }

  states_of-append :
      (os os' : List (Outcome G)) → states_of (os ++ os') ≡ states_of os ++ states_of os'
  states_of-append [] os' = refl
  states_of-append (ok s ∷ os) os' = ap (◌∷◌ s) (states_of-append os os')
  states_of-append (err e ∷ os) os' = states_of-append os os'

  errors_of-append :
      (os os' : List (Outcome G)) → errors_of (os ++ os') ≡ errors_of os ++ errors_of os'
  errors_of-append [] os' = refl
  errors_of-append (ok s ∷ os) os' = errors_of-append os os'
  errors_of-append (err e ∷ os) os' = ap (◌∷◌ e) (errors_of-append os os')

  after-nil : (acc : Scanned G) → acc ≡ after acc [] []
  after-nil acc = rw (append-nil acc.states, append-nil acc.errs, append-nil acc.calls) refl

  after-after :
      (acc : Scanned G) (os os' : List (Outcome G)) (cs cs' : List Call)
      → after (after acc os cs) os' cs' ≡ after acc (os ++ os') (cs ++ cs')
  after-after acc os os' cs cs' =
      rw
        (
          states_of-append os os',
          errors_of-append os os',
          append_assoc acc.states (states_of os) (states_of os'),
          append_assoc acc.errs (errors_of os) (errors_of os'),
          append_assoc acc.calls cs cs',
        )
        refl

  line_round-after :
      (chip : Bytes) (offset : ℕ) (r : Result G LineState) (acc : Scanned G)
      → line_round chip offset r acc ≡ after acc (line_outcome chip offset r ∷ []) []
  unfolding line_round
  line_round-after chip offset (ok i) acc = rw (append-nil acc.errs, append-nil acc.calls) refl
  line_round-after chip offset (err e) acc = rw (append-nil acc.states, append-nil acc.calls) refl

  module _ (dev : ScanDev G) where
    line_loop-after :
        (chip : Bytes) (offset count : ℕ) (acc : Scanned G)
        → line_loop dev chip offset count acc ≡ after acc (line_outcomes dev chip offset count) []
    unfolding line_loop
    line_loop-after chip offset zero acc = after-nil acc
    line_loop-after chip offset (suc count) acc =
        let o = line_outcome chip offset (dev.line_info chip offset) in
        line_loop-after chip (suc offset) count _
        ∙ ap (λ a. after a (line_outcomes dev chip (suc offset) count) [])
            (line_round-after chip offset (dev.line_info chip offset) acc)
        ∙ after-after acc (o ∷ []) (line_outcomes dev chip (suc offset) count) [] []

    chip_round-after :
        (chip : Bytes) (o : Option G) (acc : Scanned G)
        → chip_round dev chip o acc ≡ after acc (chip_outcomes dev chip o) (chip_uses chip o)
    unfolding chip_round
    chip_round-after chip (some e) acc = rw (append-nil acc.states, append-nil acc.calls) refl
    chip_round-after chip none acc =
        let opened : Scanned G = record acc { calls = acc.calls ++ opens chip ∷ [] } in
        ap (λ (s : Scanned G). record s { calls = s.calls ++ closes chip ∷ [] })
          (line_loop-after chip 0 (dev.lines chip) opened)
        ∙ rw
            (
              append_assoc (acc.calls ++ opens chip ∷ []) [] (closes chip ∷ []),
              append_assoc acc.calls (opens chip ∷ []) (closes chip ∷ []),
            )
            refl

    chip_loop-after :
        (chips : List Bytes) (acc : Scanned G)
        → chip_loop dev chips acc ≡ after acc (outcomes dev chips) (uses dev chips)
    unfolding chip_loop
    chip_loop-after [] acc = after-nil acc
    chip_loop-after (chip ∷ chips) acc =
        let o = dev.new_chip chip in
        chip_loop-after chips _
        ∙ ap (λ a. after a (outcomes dev chips) (uses dev chips)) (chip_round-after chip o acc)
        ∙ after-after acc (chip_outcomes dev chip o) (outcomes dev chips) (chip_uses chip o)
            (uses dev chips)

    abbrev pub IsScan : List Bytes → Scanned G → Type 0
    IsScan chips s =
        Chain InOrder s.states
        × Permᴰ s.states (states_of (outcomes dev chips))
        × (s.errs ≡ errors_of (outcomes dev chips))
        × (s.calls ≡ uses dev chips)

    scan_chips-IsScan : (chips : List Bytes) → IsScan chips (scan_chips dev chips)
    unfolding scan_chips
    scan_chips-IsScan [] = (tt, Permᴰ.nil, refl, refl)
    scan_chips-IsScan (chip ∷ chips) =
        let found = chip_loop dev (chip ∷ chips) nothing_scanned in
        let same = chip_loop-after (chip ∷ chips) nothing_scanned in
        (
          IsSorted-Chain InOrder less_line less_line-InOrder _
              (sort_by-IsSorted less_line less_line-IsOrder found.states),
          rw same (sort_by-perm less_line _),
          ap (λ (s : Scanned G). s.errs) same,
          ap (λ (s : Scanned G). s.calls) same,
        )

    -- The lines are sorted by chip and offset; up to this order there is one for each line that could be
    -- read, of each chip that opens, and an error for each other line and chip. Each chip that opens is
    -- closed before the next one is tried.
    pub scan_gpio_pins-IsScan : IsScan dev.chips (scan_gpio_pins dev)
    unfolding scan_gpio_pins
    scan_gpio_pins-IsScan = scan_chips-IsScan dev.chips
