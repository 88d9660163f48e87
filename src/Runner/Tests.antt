-- ===== src/Runner/Tests.antt =====
-- Output in pieces, an awkward file name, and an upload of one line and a half.
use drone_os.Base.{
  ℕ, ◌≡◌, refl, Option, none, some, List, [], ◌∷◌, ◌++◌, Bytes, codes, length, replicate, arith,
}
use drone_os.Runner.{Mirror, shell_quote}
use drone_os.Runner.Buffer.{last_part, concat, append_all, append_all-last_part}
use drone_os.Runner.Quote.{plain, shell_word, at_semicolon, shell_word-shell_quote}
use drone_os.Runner.Upload.{LineWriter}
use drone_os.Runner.Upload.Wrapped.{IsSink, IsValid, pending, joined}
use drone_os.Runner.Upload.Whole.{Sends, write_pieces, write_pieces-Sends}

abbrev mirror : Mirror ℕ Bytes
mirror = some (λ b w. ((length b, none), w ++ b))

append_all-last_part_example :
    (w' : Bytes) × (append_all mirror (1 ∷ []) ((2 ∷ 3 ∷ []) ∷ (4 ∷ []) ∷ []) []
      ≡ some (last_part ((1 ∷ []) ++ concat ((2 ∷ 3 ∷ []) ∷ (4 ∷ []) ∷ [])), w'))
append_all-last_part_example =
    append_all-last_part mirror (1 ∷ []) ((2 ∷ 3 ∷ []) ∷ (4 ∷ []) ∷ []) [] (λ b w. refl)
      (omega arith)

shell_word-shell_quote_example :
    shell_word plain (shell_quote (codes "it's; rm") ++ codes "; stty echo")
    ≡ some (codes "it's; rm", codes "; stty echo")
shell_word-shell_quote_example =
    shell_word-shell_quote (codes "it's; rm") (codes "; stty echo")
      (at_semicolon (codes " stty echo"))

abbrev sink : Bytes → Bytes → (ℕ × Option ℕ) × Bytes
sink d w = ((length d, none), w ++ d)

sink-IsSink : IsSink sink
sink-IsSink = record { seen = λ w. w; takes = λ d w. refl; keeps = λ d w. refl }

abbrev empty_writer : LineWriter
empty_writer = record { line = replicate 76 0; filled = 0 }

empty_writer-IsValid : IsValid empty_writer
empty_writer-IsValid = record { sized = refl; open_ = omega arith }

abbrev pieces : List Bytes
pieces = replicate 50 65 ∷ replicate 64 66 ∷ []

write_pieces-Sends_example :
    Sends sink sink-IsSink
      (pending empty_writer)
      (joined pieces)
      []
      (write_pieces sink empty_writer pieces [])
write_pieces-Sends_example =
    write_pieces-Sends sink sink-IsSink empty_writer pieces [] empty_writer-IsValid
