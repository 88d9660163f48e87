-- ===== src/Runner/Session.antt =====
-- cmd/dev/pi_runner/main.go: the shell session over the serial line: writing, waiting for texts, and logging in.
use drone_os.Base.{
  ℕ, Bool, true, false, not, ◌&&◌, ◌||◌, Option, none, some, List, [], ◌∷◌, ◌++◌, ◌==◌,
  if◌then◌else◌, ℤ, Bytes, codes, text_eq, Result, ok, err, length,
}
use drone_os.Runner.{AppendError, Mirror, append}

-- What a read gives: bytes, and an error other than the end of the file.
pub record Turn (E : Type 0) : Type 0 where
  pub bytes : Bytes
  pub failure : Option E

-- The end of the output, the reads that come before the context is done, and what was written so far. The
-- context has a timeout, so that the reads come to an end.
pub record Session (E : Type 0) : Type 0 where
  pub recent : Bytes
  pub reads : List (Turn E)
  pub sent : List Bytes

-- `at` is an error with the text in front.
pub data RunError (E : Type 0) : Type 0 where
  context_done read_failed write_failed print_failed : E → RunError E
  append_failed : AppendError E → RunError E
  short_write no_user no_password : RunError E
  refused : Bytes → RunError E
  exited : ℤ → RunError E
  at : Bytes → RunError E → RunError E

-- What the rest of the system does: why the context is done, what a write to the port gives, which may
-- depend on what was written before, and the mirror of the output.
pub record Terminal (E : Type 0) : Type 0 where
  pub cause : E
  pub write : List Bytes → Bytes → ℕ × Option E
  pub mirror : Mirror E (Unit {0})

-- strings.HasPrefix
unfoldable pub starts_with : Bytes → Bytes → Bool
starts_with s [] = true
starts_with [] (y ∷ p) = false
starts_with (x ∷ s) (y ∷ p) = x == y && starts_with s p

-- strings.Contains
unfoldable pub contains : Bytes → Bytes → Bool
unfolding starts_with
contains [] p = starts_with [] p
contains (x ∷ s) p = let later = contains s p in starts_with (x ∷ s) p || later

-- Whether one of the needles that are not empty is there.
unfoldable pub any_needle : Bytes → List Bytes → Bool
unfolding contains text_eq
any_needle text [] = false
any_needle text (n ∷ ns) = not (text_eq n []) && contains text n || any_needle text ns

abbrev pub carriage_return : ℕ
carriage_return = 13

-- What a wait gives, with the end of the output and the reads that are left.
abbrev pub Waited : Type 0 → Type 0 → Type 0
Waited E A = Result (RunError E) A × Bytes × List (Turn E)

abbrev pub Ran : Type 0 → Type 0 → Type 0
Ran E A = Result (RunError E) A × Session E

module _ {E : Type 0} where
  abbrev pub resumed : {A : Type 0} → Session E → Waited E A → Result (RunError E) A × Session E
  resumed s (r, recent, reads) = (r, record s { recent = recent; reads = reads })

  unfoldable pub reset : Session E → Session E
  reset s = record s { recent = [] }

  -- The text stands in front of an error where there is one.
  abbrev pub explain : Bytes → RunError E → RunError E
  explain text e = if text_eq text [] then e else at text e

  unfoldable pub then_run :
      {A : Type 0} → Bytes → Option (RunError E) × Session E → (Session E → Ran E A) → Ran E A
  then_run text (some e, s) go = (err (explain text e), s)
  then_run text (none, s) go = go s

  unfoldable pub then_with : {A B : Type 0} → Bytes → Ran E A → (A → Session E → Ran E B) → Ran E B
  then_with text (err e, s) go = (err (explain text e), s)
  then_with text (ok a, s) go = go a s

module _ {E : Type 0} (t : Terminal E) where
  abbrev Read : Type 0
  Read = Option (RunError E) × Bytes

  read_error : Option E → Option (RunError E)
  read_error none = none
  read_error (some e) = some (read_failed e)

  after_append : Option E → Option (AppendError E) × Bytes × Unit {0} → Read
  unfolding read_error
  after_append failure (some e, recent, w) = (some (append_failed e), recent)
  after_append failure (none, recent, w) = (read_error failure, recent)

  read_bytes : Bytes → Bytes → Option E → Read
  unfolding after_append
  read_bytes recent [] failure = (read_error failure, recent)
  read_bytes recent (b ∷ bs) failure = after_append failure (append t.mirror recent (b ∷ bs) tt)

  -- The part of a round behind the test of the context: the error, and the new end of the output.
  unfoldable pub take_read : Bytes → Turn E → Read
  unfolding read_bytes
  take_read recent r = read_bytes recent r.bytes r.failure

  read_on : {A : Type 0} → Read → List (Turn E) → Waited E A → Waited E A
  read_on (some e, recent) reads later = (err e, recent, reads)
  read_on (none, recent) reads later = later

  -- A loop that looks at the output, gives up if the context is done, and reads.
  unfoldable pub wait_for : {A : Type 0} → (Bytes → Option A) → Bytes → List (Turn E) → Waited E A
  unfolding take_read read_on
  wait_for look recent [] = elim (look recent) [
    | some a ↦ (ok a, recent, [])
    | none ↦ (err (context_done t.cause), recent, [])
  ]
  wait_for look recent (r ∷ rs) =
      let got = take_read recent r in
      let later = wait_for look got.1 rs in
      elim (look recent) [ some a ↦ (ok a, recent, r ∷ rs) | none ↦ read_on got rs later ]

  look_needles : List Bytes → Bytes → Option Bytes
  unfolding any_needle
  look_needles needles text = if any_needle text needles then some text else none

  -- `expect`; the text that it returns with an error is not looked at.
  unfoldable pub expect : List Bytes → Session E → Result (RunError E) Bytes × Session E
  unfolding wait_for look_needles
  expect needles s = resumed s (wait_for (look_needles needles) s.recent s.reads)

  -- `write`
  wrote : Bytes → ℕ × Option E → Option (RunError E)
  wrote line (n, some e) = some (write_failed e)
  wrote line (n, none) = if n == length line then none else some short_write

  unfoldable pub write_raw : Bytes → Session E → Option (RunError E) × Session E
  unfolding wrote
  write_raw line s = (wrote line (t.write s.sent line), record s { sent = s.sent ++ line ∷ [] })

  unfoldable pub write_line : Bytes → Session E → Option (RunError E) × Session E
  unfolding write_raw
  write_line line s = write_raw (line ++ carriage_return ∷ []) s

  -- `confirmShell`, with the marker that it makes from the clock.
  unfoldable pub confirm_shell : Bytes → Session E → Ran E (Unit {0})
  unfolding then_run then_with write_line expect
  confirm_shell marker s =
      then_run [] (write_line (codes "printf '\\n" ++ marker ++ codes "\\n'") s) (λ s.
        then_with (codes "login succeeded but shell marker was not observed")
          (expect (marker ∷ []) s) (λ text s. (ok tt, s)))

  enter_password : Bytes → Bytes → Session E → Ran E (Unit {0})
  unfolding confirm_shell
  enter_password marker password s =
      if text_eq password []
      then (err no_password, s)
      else then_run [] (write_line password s) (confirm_shell marker)

  enter_user : Bytes → Bytes → Bytes → Session E → Ran E (Unit {0})
  unfolding enter_password
  enter_user marker user password s =
      if text_eq user []
      then (err no_user, s)
      else then_run [] (write_line user s) (λ s.
        then_with (codes "wait for password prompt") (expect (codes "Password:" ∷ []) s)
          (λ text s. enter_password marker password s))

  prompted : Bytes → Bytes → Bytes → Bytes → Session E → Ran E (Unit {0})
  unfolding enter_user contains
  prompted marker user password text s =
      if contains text (codes "$ ") || contains text (codes "# ")
      then confirm_shell marker s
      else if contains text (codes "login:")
      then enter_user marker user password s
      else enter_password marker password s

  -- `login`
  unfoldable pub login : Bytes → Bytes → Bytes → Session E → Ran E (Unit {0})
  unfolding prompted
  login marker user password s =
      then_run (codes "wake login prompt") (write_raw (carriage_return ∷ []) s) (λ s.
        then_with (codes "wait for login prompt")
          (expect (codes "login:" ∷ codes "Password:" ∷ codes "$ " ∷ codes "# " ∷ []) s)
          (prompted marker user password))
