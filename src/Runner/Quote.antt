-- ===== src/Runner/Quote.antt =====
-- What a POSIX shell reads from a quoted word.
use drone_os.Base.{
  ℕ, ◌≡◌, refl, Option, none, some, [], ◌∷◌, ◌++◌, append_assoc, arith, ◌==◌, if◌then◌else◌,
  Bool-cases, Bytes, inl, inr,
}
use drone_os.Runner.{quote, backslash, escape_quotes, shell_quote}

-- Between words and quotes, in single quotes, or behind a backslash.
pub data Mode : Type 0 where
  plain single escaped : Mode

abbrev prefix : ℕ → Option (Bytes × Bytes) → Option (Bytes × Bytes)
prefix c none = none
prefix c (some (w, rest)) = some (c ∷ w, rest)

-- The rest of the word that a shell reads, by the rules for single quotes and backslashes, up to the
-- first blank, semicolon, bracket or end outside quotes; `none` for a quote that is not closed. No other
-- special character stands outside the quotes in a word of `shellQuote`.
pub shell_word : Mode → Bytes → Option (Bytes × Bytes)
shell_word single [] = none
shell_word single (c ∷ s) =
    let closed = shell_word plain s in
    let more = shell_word single s in if c == quote then closed else prefix c more
shell_word escaped [] = none
shell_word escaped (c ∷ s) = prefix c (shell_word plain s)
shell_word plain [] = some ([], [])
shell_word plain (c ∷ s) =
    let quoted = shell_word single s in
    let literal = shell_word escaped s in
    let more = shell_word plain s in
    if c == quote
    then quoted
    else if c == backslash
    then literal
    else if c == 32
    then some ([], c ∷ s)
    else if c == 59
    then some ([], c ∷ s)
    else if c == 41
    then some ([], c ∷ s)
    else prefix c more

-- The word ends where it is quoted.
pub data Ends : Bytes → Type 0 where
  at_end : Ends []
  at_blank : (s : Bytes) → Ends (32 ∷ s)
  at_semicolon : (s : Bytes) → Ends (59 ∷ s)
  at_bracket : (s : Bytes) → Ends (41 ∷ s)

shell_word-Ends : (rest : Bytes) → Ends rest → shell_word plain rest ≡ some ([], rest)
unfolding shell_word
shell_word-Ends [] at_end = refl
shell_word-Ends _ (at_blank s) = refl
shell_word-Ends _ (at_semicolon s) = refl
shell_word-Ends _ (at_bracket s) = refl

shell_word-escape_quotes :
    (v rest : Bytes)
    → Ends rest
    → shell_word single (escape_quotes v ++ (quote ∷ rest)) ≡ some (v, rest)
unfolding shell_word escape_quotes
shell_word-escape_quotes [] rest e = shell_word-Ends rest e
shell_word-escape_quotes (c ∷ v) rest e = elim (Bool-cases (c == quote)) [
  | inl same ↦
      let k : c ≡ quote = ground arith in rw k (rw (shell_word-escape_quotes v rest e) refl)
  | inr other ↦ rw (other, shell_word) (rw (other) (rw (shell_word-escape_quotes v rest e) refl))
]

-- Where the text behind a quoted value ends a word, a shell reads the value back as one word, whatever
-- bytes it holds, and goes on behind it.
pub shell_word-shell_quote :
    (v rest : Bytes) → Ends rest → shell_word plain (shell_quote v ++ rest) ≡ some (v, rest)
unfolding shell_word shell_quote
shell_word-shell_quote v rest e =
    rw (append_assoc (escape_quotes v) (quote ∷ []) rest) (shell_word-escape_quotes v rest e)
