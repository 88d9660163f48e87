-- ===== src/Runner/Console.antt =====
-- cmd/dev/pi_runner/main.go: `copyRawConsoleInput`, which hands on what is typed up to the interrupt.
mod Tests
use drone_os.Base.{
  ◌≡◌, refl, sym, ap, ◌∙◌, ℕ, ◌==◌, ◌||◌, Bool, true, false, Bool-cases, inl, inr, Option, none,
  some, List, [], ◌∷◌, ◌++◌, append_assoc, append-nil, if◌then◌else◌, Bytes, length, arith,
}

-- What `input.Read` gives.
pub record Typed (E : Type 0) : Type 0 where
  pub bytes : Bytes
  pub failure : Option E

pub data ConsoleEnd (E : Type 0) : Type 0 where
  read_ended write_failed : E → ConsoleEnd E
  canceled short_write : ConsoleEnd E

abbrev pub interrupt : ℕ
interrupt = 3

pub has_interrupt : Bytes → Bool
has_interrupt [] = false
has_interrupt (c ∷ s) = c == interrupt || has_interrupt s

-- The bytes in front of the interrupt, or all.
pub before_interrupt : Bytes → Bytes
before_interrupt [] = []
before_interrupt (c ∷ s) = let rest = before_interrupt s in if c == interrupt then [] else c ∷ rest

-- `eof` is the error of a reader that has no more; a write may depend on what was written before.
module _ {E : Type 0} (eof : E) (write : List Bytes → Bytes → ℕ × Option E) where
  write_error : Bytes → ℕ × Option E → Option (ConsoleEnd E)
  write_error d (n, some e) = some (write_failed e)
  write_error d (n, none) = if n == length d then none else some short_write

  -- The error of writing, if the bytes are not empty, and what was written so far.
  hand_on : Bytes → List Bytes → Option (ConsoleEnd E) × List Bytes
  unfolding write_error
  hand_on [] sent = (none, sent)
  hand_on (c ∷ d) sent = (write_error (c ∷ d) (write sent (c ∷ d)), sent ++ (c ∷ d) ∷ [])

  -- How the read ends, where an interrupt comes before an error.
  read_end : Bool → Option E → Option (ConsoleEnd E)
  read_end true failure = some canceled
  read_end false none = none
  read_end false (some e) = some (read_ended e)

  go_on :
      Option (ConsoleEnd E)
      → Option (ConsoleEnd E) × List Bytes
      → (List Bytes → ConsoleEnd E × List Bytes)
      → ConsoleEnd E × List Bytes
  go_on end (some e, sent) later = (e, sent)
  go_on (some e) (none, sent) later = (e, sent)
  go_on none (none, sent) later = later sent

  pub copy_raw_console_input : List (Typed E) → List Bytes → ConsoleEnd E × List Bytes
  unfolding hand_on read_end go_on has_interrupt before_interrupt
  copy_raw_console_input [] sent = (read_ended eof, sent)
  copy_raw_console_input (r ∷ rs) sent =
      go_on (read_end (has_interrupt r.bytes) r.failure) (hand_on (before_interrupt r.bytes) sent)
        (λ sent. copy_raw_console_input rs sent)

-- The bytes of the reads up to the first that fails.
abbrev pub received : {E : Type 0} → List (Typed E) → Bytes
received [] = []
received (r ∷ rs) =
    let rest = received rs in elim r.failure [ none ↦ r.bytes ++ rest | some e ↦ r.bytes ]

abbrev pub joined_text : List Bytes → Bytes
joined_text [] = []
joined_text (d ∷ ds) = d ++ joined_text ds

joined_text-append :
    (xs ys : List Bytes) → joined_text (xs ++ ys) ≡ joined_text xs ++ joined_text ys
joined_text-append [] ys = refl
joined_text-append (d ∷ ds) ys =
    ap (λ l. d ++ l) (joined_text-append ds ys)
    ∙ sym (append_assoc d (joined_text ds) (joined_text ys))

before_interrupt-append :
    (s t : Bytes)
    → before_interrupt (s ++ t)
      ≡ (if has_interrupt s then before_interrupt s else s ++ before_interrupt t)
unfolding before_interrupt has_interrupt
before_interrupt-append [] t = refl
before_interrupt-append (c ∷ s) t = ground (arith, before_interrupt-append s t)

has_interrupt-append : (s t : Bytes) → has_interrupt (s ++ t) ≡ has_interrupt s || has_interrupt t
unfolding has_interrupt
has_interrupt-append [] t = refl
has_interrupt-append (c ∷ s) t = ground (arith, has_interrupt-append s t)

before_interrupt-none : (s : Bytes) → has_interrupt s ≡ false → before_interrupt s ≡ s
unfolding before_interrupt has_interrupt
before_interrupt-none [] h = refl
before_interrupt-none (c ∷ s) h = ground (arith, before_interrupt-none s)

module _ {E : Type 0} (eof : E) (write : List Bytes → Bytes → ℕ × Option E)
    (takes_all : (sent : List Bytes) (d : Bytes) → write sent d ≡ (length d, none)) where
  hand_on-all :
      (d : Bytes) (sent : List Bytes)
      → ((hand_on eof write d sent).0 ≡ none)
        × (joined_text (hand_on eof write d sent).1 ≡ joined_text sent ++ d)
  unfolding hand_on write_error
  hand_on-all [] sent = (refl, sym (append-nil (joined_text sent)))
  hand_on-all (c ∷ d) sent = (
    hand_on-none,
    joined_text-append sent ((c ∷ d) ∷ []) ∙ ap (λ l. joined_text sent ++ l) (append-nil (c ∷ d)),
  )
    where
      hand_on-none : write_error eof write (c ∷ d) (write sent (c ∷ d)) ≡ none
      hand_on-none = let all = takes_all sent (c ∷ d) in rw all (ground arith)

  go_on-none :
      (b rest : Bytes) (sent s : List Bytes) (later : List Bytes → ConsoleEnd E × List Bytes)
      → joined_text s ≡ joined_text sent ++ before_interrupt b
      → ((s : List Bytes) → joined_text (later s).1 ≡ joined_text s ++ before_interrupt rest)
      → joined_text (go_on eof write (read_end eof write (has_interrupt b) none) (none, s) later).1
        ≡ joined_text sent ++ before_interrupt (b ++ rest)
  unfolding go_on read_end
  go_on-none b rest sent s later so_far after = elim (Bool-cases (has_interrupt b)) [
    | inl h ↦
        let split = before_interrupt-append b rest in
        let split' : before_interrupt (b ++ rest) ≡ before_interrupt b = ground arith in
        rw (h, split') so_far
    | inr h ↦
        let split = before_interrupt-append b rest in
        let split' : before_interrupt (b ++ rest) ≡ b ++ before_interrupt rest = ground arith in
        rw (h, split', after s, so_far, before_interrupt-none b h)
          (append_assoc (joined_text sent) b (before_interrupt rest))
  ]

  go_on-some :
      (b : Bytes) (e : E) (sent s : List Bytes) (later : List Bytes → ConsoleEnd E × List Bytes)
      → joined_text s ≡ joined_text sent ++ before_interrupt b
      → joined_text
          (go_on eof write (read_end eof write (has_interrupt b) (some e)) (none, s) later).1
        ≡ joined_text sent ++ before_interrupt b
  unfolding go_on read_end
  go_on-some b e sent s later so_far = elim (Bool-cases (has_interrupt b)) [
    | inl h ↦ rw h so_far
    | inr h ↦ rw h so_far
  ]

  go_on-joined :
      (b rest : Bytes) (failure : Option E) (sent : List Bytes)
      (p : Option (ConsoleEnd E) × List Bytes) (later : List Bytes → ConsoleEnd E × List Bytes)
      → p.0 ≡ none
      → joined_text p.1 ≡ joined_text sent ++ before_interrupt b
      → ((s : List Bytes) → joined_text (later s).1 ≡ joined_text s ++ before_interrupt rest)
      → joined_text (go_on eof write (read_end eof write (has_interrupt b) failure) p later).1
        ≡ joined_text sent ++ before_interrupt (elim failure [ none ↦ b ++ rest | some e ↦ b ])
  go_on-joined b rest failure sent (some e, s) later fine so_far after = absurd (cc fine)
  go_on-joined b rest none sent (none, s) later fine so_far after =
      go_on-none b rest sent s later so_far after
  go_on-joined b rest (some e) sent (none, s) later fine so_far after =
      go_on-some b e sent s later so_far

  -- Where writes take all, the copy hands on exactly the bytes in front of the first interrupt, out of all that
  -- is read up to the first read that fails, however they are cut into reads.
  pub copy_raw_console_input-before_interrupt :
      (rs : List (Typed E)) (sent : List Bytes)
      → joined_text (copy_raw_console_input eof write rs sent).1
        ≡ joined_text sent ++ before_interrupt (received rs)
  unfolding copy_raw_console_input before_interrupt
  copy_raw_console_input-before_interrupt [] sent = sym (append-nil (joined_text sent))
  copy_raw_console_input-before_interrupt (r ∷ rs) sent =
      let handed = hand_on-all (before_interrupt r.bytes) sent in
      go_on-joined r.bytes (received rs) r.failure sent
        (hand_on eof write (before_interrupt r.bytes) sent)
        (λ sent. copy_raw_console_input eof write rs sent) handed.0 handed.1
        (λ s. copy_raw_console_input-before_interrupt rs s)
