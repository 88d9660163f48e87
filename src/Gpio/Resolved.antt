-- ===== src/Gpio/Resolved.antt =====
-- What `ResolvePin` and `ResolvePins` guarantee.
use drone_os.Base.{
  ◌≡◌, ◌≢◌, refl, ◌⊎◌, inl, inr, ℤ, pos, ◌≤ℤ◌, eq_ℤ, ltb_ℤ, eq_ℤ_iff, Bool, true, false, not, ◌&&◌,
  Option, none, some, List, [], ◌∷◌, ◌++◌, map, Bytes, text_eq, text_eq_iff, trim_space, trim_left,
  Result, ok, err, arith, Result-cases, append_assoc, append-nil,
}
use drone_os.Config.{Pin}
use drone_os.Gpio.{
  Layout, ResolvedPin, PinError, rpi40_physical_to_bcm, default_layout, bcm_of, pin_scheme,
  chip_or_default, resolved_at, resolve_physical, resolve_scheme, resolve_pin, layout_or_default,
  collect, resolve_loop, resolve_pins,
}

chip_or_default-ne-nil : (chip : Bytes) → chip_or_default chip ≢ []
unfolding chip_or_default
chip_or_default-ne-nil chip = ground (arith, text_eq_iff chip [])

trim_space-nil : (s : Bytes) → text_eq (trim_space s) [] ≡ false → s ≢ []
unfolding trim_space trim_left text_eq
trim_space-nil [] h e = cc
trim_space-nil (c ∷ s) h e = cc

-- Where the line number of a resolved pin comes from.
abbrev pub OffsetFrom : Layout → Pin → ℤ → Type 0
OffsetFrom layout pin n =
    (n ≡ pin.offset) ⊎ ((n ≡ pin.number) ⊎ (bcm_of pin.number layout.physical_to_bcm ≡ some n))

resolve_scheme_lem :
    (layout : Layout) (pin : Pin) (o : Option Bytes) {r : ResolvedPin}
    → resolve_scheme layout pin o ≡ ok r
    → (r.chip ≢ []) × (r ≡ resolved_at pin r.chip r.offset) × OffsetFrom layout pin r.offset
unfolding resolve_scheme resolve_physical
resolve_scheme_lem layout pin none h = cc
resolve_scheme_lem layout pin (some scheme) h = (
  ground (arith, trim_space-nil pin.chip, chip_or_default-ne-nil pin.chip),
  ground arith,
  ground arith,
)

-- A resolved pin names a chip, keeps the settings of the configured one, and its line is the configured
-- offset or number, or what the layout's table gives for the number.
pub resolve_pin_lem :
    (layout : Layout) (pin : Pin) {r : ResolvedPin}
    → resolve_pin layout pin ≡ ok r
    → (r.chip ≢ []) × (r ≡ resolved_at pin r.chip r.offset) × OffsetFrom layout pin r.offset
unfolding resolve_pin
resolve_pin_lem layout pin h = resolve_scheme_lem layout pin (pin_scheme pin) h

abbrev pub oks : List (Result PinError ResolvedPin) → List ResolvedPin
oks [] = []
oks (ok r ∷ rs) = r ∷ oks rs
oks (err e ∷ rs) = oks rs

abbrev pub errs : List (Result PinError ResolvedPin) → List PinError
errs [] = []
errs (ok r ∷ rs) = errs rs
errs (err e ∷ rs) = e ∷ errs rs

-- The results of the pins, one by one.
abbrev pub each : Layout → List Pin → List (Result PinError ResolvedPin)
each layout pins = map (resolve_pin layout) pins

oks-map :
    (layout : Layout) (pins : List Pin) (rs : List ResolvedPin) (es : List PinError)
    → resolve_loop layout pins (rs, es)
      ≡ (rs ++ oks (each layout pins), es ++ errs (each layout pins))
unfolding resolve_loop collect
oks-map layout [] rs es = ground (arith, append-nil rs, append-nil es)
oks-map layout (pin ∷ pins) rs es = elim (Result-cases (resolve_pin layout pin)) [
  | inl (r, e) ↦ rw e (
      rw (oks-map layout pins (rs ++ r ∷ []) es)
        (rw (append_assoc rs (r ∷ []) (oks (each layout pins)))))
  | inr (x, e) ↦ rw e (
      rw (oks-map layout pins rs (es ++ x ∷ []))
        (rw (append_assoc es (x ∷ []) (errs (each layout pins)))))
]

-- Every pin gives one resolved pin or one error, each list in the order of the configuration.
pub resolve_pins-each :
    (layout : Layout) (pins : List Pin)
    → resolve_pins layout pins
      ≡ (oks (each (layout_or_default layout) pins), errs (each (layout_or_default layout) pins))
unfolding resolve_pins
resolve_pins-each layout pins = oks-map (layout_or_default layout) pins [] []

-- No entry of the table gives the line `b`.
lacks : ℤ → List (ℤ × ℤ) → Bool
lacks b [] = true
lacks b ((k, c) ∷ m) = not (eq_ℤ c b) && lacks b m

distinct : List (ℤ × ℤ) → Bool
unfolding lacks
distinct [] = true
distinct ((k, b) ∷ m) = lacks b m && distinct m

lacks-bcm_of : (b p : ℤ) (m : List (ℤ × ℤ)) → lacks b m ≡ true → bcm_of p m ≢ some b
unfolding lacks bcm_of
lacks-bcm_of b p [] h e = cc
lacks-bcm_of b p ((k, c) ∷ m) h e = ground (arith, lacks-bcm_of b p m, eq_ℤ_iff c b, eq_ℤ_iff k p)

distinct-bcm_of :
    (m : List (ℤ × ℤ)) (p q b : ℤ)
    → distinct m ≡ true
    → bcm_of p m ≡ some b
    → bcm_of q m ≡ some b
    → p ≡ q
unfolding distinct bcm_of
distinct-bcm_of [] p q b h e f = cc
distinct-bcm_of ((k, c) ∷ m) p q b h e f = ground (
  arith,
  distinct-bcm_of m p q b,
  lacks-bcm_of c p m,
  lacks-bcm_of c q m,
  eq_ℤ_iff k p,
  eq_ℤ_iff k q,
)

within : List (ℤ × ℤ) → Bool
within [] = true
within ((k, b) ∷ m) = not (ltb_ℤ b (pos 0)) && not (ltb_ℤ (pos 27) b) && within m

within-bcm_of :
    (m : List (ℤ × ℤ)) (p b : ℤ)
    → within m ≡ true
    → bcm_of p m ≡ some b
    → (pos 0 ≤ℤ b) × (b ≤ℤ pos 27)
unfolding within bcm_of
within-bcm_of [] p b h e = cc
within-bcm_of ((k, c) ∷ m) p b h e = ground (arith, within-bcm_of m p b)

-- On the header of the default layout, two pins never share a line, and every line is one of the 28 of
-- the processor.
pub rpi40_lines :
    (p q b : ℤ)
    → bcm_of p default_layout.physical_to_bcm ≡ some b
    → bcm_of q default_layout.physical_to_bcm ≡ some b
    → (p ≡ q) × (pos 0 ≤ℤ b) × (b ≤ℤ pos 27)
unfolding default_layout distinct within
rpi40_lines p q b e f =
    let (lo, hi) = within-bcm_of rpi40_physical_to_bcm p b refl e in
    (distinct-bcm_of rpi40_physical_to_bcm p q b refl e f, lo, hi)
