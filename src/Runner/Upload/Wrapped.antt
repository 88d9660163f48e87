-- ===== src/Runner/Upload/Wrapped.antt =====
-- The lines that reach the destination.
use drone_os.Base.{
  ℕ, zero, suc, ◌+◌, ◌-◌, ◌≤◌, ◌<◌, ◌≡◌, refl, sym, ap, ◌∙◌, inl, inr, Option, none, some, List, [],
  ◌∷◌, ◌++◌, append_assoc, append-nil, arith, ◌==◌, Bool-cases, Bytes, length, take, drop, copy_at,
  All, length-copy_at, slice-copy_at, length-take, length-drop, take-append-drop, drop_all,
  take_all,
}
use drone_os.Runner.Upload.{
  line_length, LineWriter, Written, write_all_loop, write_all, send_line, room, filled_up,
  write_loop, and_then, line_sent,
}

-- A destination that takes all it is given, where `seen` is what it was given.
pub record IsSink {E W : Type 0} (write : Bytes → W → (ℕ × Option E) × W) : Type 0 where
  pub seen : W → Bytes
  pub takes : (d : Bytes) (w : W) → (write d w).0 ≡ (length d, none)
  pub keeps : (d : Bytes) (w : W) → seen (write d w).1 ≡ seen w ++ d

module _ {E W : Type 0} (write : Bytes → W → (ℕ × Option E) × W) (k : IsSink write) where
  open k use {seen}

  write_all_lem :
      (d : Bytes) (w : W)
      → (w' : W) × (write_all write d w ≡ some (none, w')) × (seen w' ≡ seen w ++ d)
  unfolding write_all
  write_all_lem [] w = (w, refl, sym (append-nil (seen w)))
  write_all_lem (c ∷ d) w =
      let w' = (write (c ∷ d) w).1 in
      let rest : write_all_loop write (suc (length d)) (drop (suc (length d)) (c ∷ d)) w'
          ≡ some (none, w') =
        rw (drop_all (suc (length d)) (c ∷ d) (omega arith), write_all_loop) refl in
      (w', ground (arith, k.takes (c ∷ d) w, rest), k.keeps (c ∷ d) w)

  pub send_line_lem :
      (l : Bytes) (w : W)
      → (w' : W) × (send_line write l w ≡ some (none, w')) × (seen w' ≡ seen w ++ (l ++ 13 ∷ []))
  unfolding send_line
  send_line_lem l w =
      let (w', one, saw) = write_all_lem l w in
      let (w'', two, saw') = write_all_lem (13 ∷ []) w' in
      (
        w'',
        ap (λ r. and_then write r (λ u. write_all write (13 ∷ []) u)) one ∙ two,
        saw' ∙ ap (λ x. x ++ 13 ∷ []) saw ∙ append_assoc (seen w) l (13 ∷ []),
      )

-- The text of some lines, each behind the other.
abbrev pub joined : List Bytes → Bytes
joined [] = []
joined (l ∷ ls) = l ++ joined ls

-- The same, each with a carriage return behind it.
abbrev pub with_returns : List Bytes → Bytes
with_returns [] = []
with_returns (l ∷ ls) = l ++ (13 ∷ with_returns ls)

-- A writer between two calls: the line is not full.
pub record IsValid (lw : LineWriter) : Type 0 where
  pub sized : length lw.line ≡ line_length
  pub open_ : lw.filled < line_length

abbrev pub pending : LineWriter → Bytes
pending lw = take lw.filled lw.line

filled_up_lem :
    (lw : LineWriter) (d : Bytes)
    → IsValid lw
    → (length (filled_up lw d).line ≡ line_length)
      × (pending (filled_up lw d) ≡ pending lw ++ take (room lw d) d)
unfolding filled_up
filled_up_lem lw d v =
    let n = room lw d in
    let size : length (take n d) ≡ n = omega (arith, length-take n d) in
    let fits : lw.filled + length (take n d) ≤ length lw.line = omega (arith, v.sized, v.open_) in
    (
      length-copy_at lw.line lw.filled (take n d) fits ∙ v.sized,
      (let e : lw.filled + n ≡ lw.filled + length (take n d) - 0 = omega arith in
          let e' : lw.filled - 0 ≡ lw.filled = omega arith in
          ap (λ i. take i (copy_at lw.line lw.filled (take n d))) e
          ∙ slice-copy_at lw.line 0 lw.filled (take n d) (omega arith) fits
          ∙ ap (λ i. take i lw.line ++ take n d) e'),
    )

-- From the bytes `p` held, the bytes `d` make the lines, and leave the bytes `q`.
pub record Cuts (p d : Bytes) (lines : List Bytes) (q : Bytes) : Type 0 where
  pub splits : p ++ d ≡ joined lines ++ q
  pub full : All (λ l. length l ≡ line_length) lines

Cuts-nil : (p : Bytes) → Cuts p [] [] p
Cuts-nil p = record { splits = append-nil p; full = tt }

Cuts-more :
    (p p' d q : Bytes) (n : ℕ) (ls : List Bytes)
    → p' ≡ p ++ take n d
    → Cuts p' (drop n d) ls q
    → Cuts p d ls q
Cuts-more p p' d q n ls e c = record {
  splits =
      ap (λ x. p ++ x) (sym (take-append-drop n d))
      ∙ sym (append_assoc p (take n d) (drop n d))
      ∙ ap (λ x. x ++ drop n d) (sym e)
      ∙ c.splits;
  full = c.full;
}

Cuts-line :
    (p l d q : Bytes) (n : ℕ) (ls : List Bytes)
    → l ≡ p ++ take n d
    → length l ≡ line_length
    → Cuts [] (drop n d) ls q
    → Cuts p d (l ∷ ls) q
Cuts-line p l d q n ls e size c = record {
  splits =
      ap (λ x. p ++ x) (sym (take-append-drop n d))
      ∙ sym (append_assoc p (take n d) (drop n d))
      ∙ ap (λ x. x ++ drop n d) (sym e)
      ∙ ap (λ x. l ++ x) c.splits
      ∙ sym (append_assoc l (joined ls) q);
  full = (size, c.full);
}

module _ {E W : Type 0} (write : Bytes → W → (ℕ × Option E) × W) (k : IsSink write) where
  open k use {seen}

  -- The outcome of a loop that started with `consumed` bytes consumed.
  pub record Loops (lw : LineWriter) (consumed : ℕ) (d : Bytes) (w : W) (o : Written write)
      : Type 0 where
    pub after : LineWriter
    pub end : W
    pub lines : List Bytes
    pub outcome : o ≡ some ((consumed + length d, none), after, end)
    pub valid : IsValid after
    pub sent : seen end ≡ seen w ++ with_returns lines
    pub cuts : Cuts (pending lw) d lines (pending after)

  Loops-nil :
      (lw : LineWriter) (n : ℕ) (w : W) → IsValid lw → Loops lw n [] w (some ((n, none), lw, w))
  Loops-nil lw n w v = record {
    after = lw;
    end = w;
    lines = [];
    outcome = ap (λ i. some ((i, none), lw, w)) (omega arith);
    valid = v;
    sent = sym (append-nil (seen w));
    cuts = Cuts-nil (pending lw);
  }

  pub write_loop-Loops :
      (fuel : ℕ) (lw : LineWriter) (n : ℕ) (d : Bytes) (w : W)
      → IsValid lw
      → length d < fuel
      → Loops lw n d w (write_loop write fuel lw n d w)
  unfolding write_loop filled_up line_sent
  write_loop-Loops zero lw n d w v enough = absurd (omega arith)
  write_loop-Loops (suc fuel) lw n [] w v enough = Loops-nil lw n w v
  write_loop-Loops (suc fuel) lw n (c ∷ s) w v enough =
      let d = c ∷ s in
      let m = room lw d in
      let (size, held) = filled_up_lem lw d v in
      let left : length (drop m d) ≡ length d - m = length-drop m d in
      elim (Bool-cases (lw.filled + m == line_length)) [
        | inr more ↦
            let r =
              write_loop-Loops fuel (filled_up lw d) (n + m) (drop m d) w
                (record { sized = size; open_ = ground (arith, v.open_) })
                (omega (arith, v.open_)) in
            rw more (record {
              after = r.after;
              end = r.end;
              lines = r.lines;
              outcome = r.outcome ∙ ap (λ i. some ((i, none), r.after, r.end)) (omega arith);
              valid = r.valid;
              sent = r.sent;
              cuts = Cuts-more (pending lw) _ d (pending r.after) m r.lines held r.cuts;
            })
        | inl full ↦
            let l = (filled_up lw d).line in
            let fits : length l ≤ lw.filled + m = ground (arith, size) in
            let whole : take (lw.filled + m) l ≡ l = take_all (lw.filled + m) l fits in
            let (w', one, saw) = send_line_lem write k l w in
            let r =
              write_loop-Loops fuel (record { line = l; filled = 0 }) (n + m) (drop m d) w'
                (record { sized = size; open_ = omega arith }) (omega (arith, v.open_)) in
            rw full (record {
              after = r.after;
              end = r.end;
              lines = l ∷ r.lines;
              outcome =
                  ap
                    (λ x. line_sent write (filled_up lw d) (n + m) x (λ u.
                      write_loop write fuel (record { line = l; filled = 0 }) (n + m) (drop m d) u))
                    one
                  ∙ r.outcome
                  ∙ ap (λ i. some ((i, none), r.after, r.end)) (omega arith);
              valid = r.valid;
              sent =
                  r.sent
                  ∙ ap (λ x. x ++ with_returns r.lines) saw
                  ∙ append_assoc (seen w) (l ++ 13 ∷ []) (with_returns r.lines)
                  ∙ ap (λ x. seen w ++ x) (append_assoc l (13 ∷ []) (with_returns r.lines));
              cuts =
                  Cuts-line (pending lw) l d (pending r.after) m r.lines (sym whole ∙ held) size
                    r.cuts;
            })
      ]
