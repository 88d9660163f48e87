-- ===== src/Runner/Upload/Whole.antt =====
-- The calls of one upload: the encoder's writes, then `Close`.
use drone_os.Base.{
  ℕ, ◌+◌, ◌<◌, ◌≡◌, refl, sym, ap, ◌∙◌, inl, inr, Option, none, some, List, [], ◌∷◌, ◌++◌,
  append_assoc, append-nil, arith, ◌==◌, Bool-cases, Bytes, length, take, All, All-append,
  length-take,
}
use drone_os.Runner.Upload.{line_length, LineWriter, WriteError, Written, write_text, close, closed}
use drone_os.Runner.Upload.Wrapped.{
  IsSink, IsValid, pending, joined, with_returns, Loops, write_loop-Loops, send_line_lem,
}

-- What `Close` sends of the bytes held.
abbrev pub closing : Bytes → Bytes
closing [] = []
closing (c ∷ s) = (c ∷ s) ++ (13 ∷ [])

closing_ne : (p : Bytes) → 0 < length p → closing p ≡ p ++ (13 ∷ [])
closing_ne [] h = absurd (omega arith)
closing_ne (c ∷ p) h = refl

joined-append : (ls ms : List Bytes) → joined (ls ++ ms) ≡ joined ls ++ joined ms
joined-append [] ms = refl
joined-append (l ∷ ls) ms =
    ap (λ x. l ++ x) (joined-append ls ms) ∙ sym (append_assoc l (joined ls) (joined ms))

with_returns-append :
    (ls ms : List Bytes) → with_returns (ls ++ ms) ≡ with_returns ls ++ with_returns ms
with_returns-append [] ms = refl
with_returns-append (l ∷ ls) ms =
    ap (λ x. l ++ (13 ∷ x)) (with_returns-append ls ms)
    ∙ sym (append_assoc l (13 ∷ with_returns ls) (with_returns ms))

module _ {E W : Type 0} (write : Bytes → W → (ℕ × Option E) × W) where
  abbrev pub Closed : Type 0
  Closed = Option (Option (WriteError E) × LineWriter × W)

  go_on : Written write → (LineWriter → W → Closed) → Closed
  go_on none f = none
  go_on (some ((n, some e), lw, w)) f = some (some e, lw, w)
  go_on (some ((n, none), lw, w)) f = f lw w

  -- The writes, up to one that fails, and then `Close`.
  pub write_pieces : LineWriter → List Bytes → W → Closed
  unfolding go_on
  write_pieces lw [] w = close write lw w
  write_pieces lw (d ∷ ds) w = go_on (write_text write lw d w) (λ lw' w'. write_pieces lw' ds w')

module _ {E W : Type 0} (write : Bytes → W → (ℕ × Option E) × W) (k : IsSink write) where
  open k use {seen}

  -- From the bytes `p` held, the text `d` is sent in full lines and one shorter one.
  pub record Sends (p d : Bytes) (w : W) (o : Closed write) : Type 0 where
    pub writer : LineWriter
    pub end : W
    pub lines : List Bytes
    pub last : Bytes
    pub outcome : o ≡ some (none, writer, end)
    pub splits : p ++ d ≡ joined lines ++ last
    pub full : All (λ l. length l ≡ line_length) lines
    pub short : length last < line_length
    pub sent : seen end ≡ seen w ++ (with_returns lines ++ closing last)

  close-Sends : (lw : LineWriter) (w : W) → IsValid lw → Sends (pending lw) [] w (close write lw w)
  unfolding close closed
  close-Sends lw w v = elim (Bool-cases (lw.filled == 0)) [
    | inl nothing ↦
        let z : lw.filled ≡ 0 = ground arith in
        let e : pending lw ≡ [] = ap (λ n. take n lw.line) z in
        rw nothing (record {
          writer = lw;
          end = w;
          lines = [];
          last = [];
          outcome = refl;
          splits = ap (λ p. p ++ []) e;
          full = tt;
          short = omega arith;
          sent = sym (append-nil (seen w));
        })
    | inr some_left ↦
        let (w', one, saw) = send_line_lem write k (pending lw) w in
        rw some_left (record {
          writer = record lw { filled = 0 };
          end = w';
          lines = [];
          last = pending lw;
          outcome = ap (closed write lw) one;
          splits = append-nil (pending lw);
          full = tt;
          short = omega (arith, length-take lw.filled lw.line, v.open_);
          sent =
              saw
              ∙ ap (λ x. seen w ++ x)
                  (sym (
                    closing_ne (pending lw)
                      (ground (arith, length-take lw.filled lw.line, v.sized))));
        })
  ]

  then_Sends :
      (lw : LineWriter) (d ds : Bytes) (w : W) (o : Written write)
      (f : LineWriter → W → Closed write) (l : Loops write k lw 0 d w o)
      → Sends (pending l.after) ds l.end (f l.after l.end)
      → Sends (pending lw) (d ++ ds) w (go_on write o f)
  unfolding go_on
  then_Sends lw d ds w o f l s = record {
    writer = s.writer;
    end = s.end;
    lines = l.lines ++ s.lines;
    last = s.last;
    outcome = ap (λ x. go_on write x f) l.outcome ∙ s.outcome;
    splits =
        sym (append_assoc (pending lw) d ds)
        ∙ ap (λ x. x ++ ds) l.cuts.splits
        ∙ append_assoc (joined l.lines) (pending l.after) ds
        ∙ ap (λ x. joined l.lines ++ x) s.splits
        ∙ sym (append_assoc (joined l.lines) (joined s.lines) s.last)
        ∙ ap (λ x. x ++ s.last) (sym (joined-append l.lines s.lines));
    full = All-append _ l.lines s.lines l.cuts.full s.full;
    short = s.short;
    sent =
        s.sent
        ∙ ap (λ x. x ++ (with_returns s.lines ++ closing s.last)) l.sent
        ∙ append_assoc (seen w) (with_returns l.lines) (with_returns s.lines ++ closing s.last)
        ∙ ap (λ x. seen w ++ x)
            (sym (append_assoc (with_returns l.lines) (with_returns s.lines) (closing s.last))
              ∙ ap (λ x. x ++ closing s.last) (sym (with_returns-append l.lines s.lines)));
  }

  -- To a destination that takes all it is given, from a writer whose line is not full, however the encoder
  -- cuts its text into writes: what is sent is the bytes held and the text in lines of 76 bytes, the last
  -- one shorter, each with a carriage return behind it; no write and not `Close` fails.
  pub write_pieces-Sends :
      (lw : LineWriter) (ds : List Bytes) (w : W)
      → IsValid lw
      → Sends (pending lw) (joined ds) w (write_pieces write lw ds w)
  unfolding write_pieces write_text
  write_pieces-Sends lw [] w v = close-Sends lw w v
  write_pieces-Sends lw (d ∷ ds) w v =
      let l = write_loop-Loops write k (length d + 2) lw 0 d w v (omega arith) in
      then_Sends lw d (joined ds) w _ (λ lw' w'. write_pieces write lw' ds w') l
        (write_pieces-Sends l.after ds l.end l.valid)
