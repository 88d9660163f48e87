-- ===== src/Runner/Upload/Total.antt =====
-- The fuel of the line writer is enough, whatever the destination does.
use drone_os.Base.{
  ◌≡◌, ◌≢◌, refl, ap, ◌∙◌, ℕ, zero, suc, ◌+◌, ◌≤◌, ◌<◌, ◌==◌, if◌then◌else◌, inl, inr, Bool-cases,
  Option, none, some, [], ◌∷◌, Bytes, length, length-drop, drop, take, arith,
}
use drone_os.Runner.Upload.{
  line_length, LineWriter, WriteError, Done, Written, write_round, write_all_loop, write_all,
  send_line, and_then, room, filled_up, line_sent, write_loop, write_text, closed, close,
}

-- A line that is not overfull.
abbrev pub Fitting : LineWriter → Type 0
Fitting lw = lw.filled ≤ line_length

filled_up-Fitting : (lw : LineWriter) (d : Bytes) → Fitting lw → Fitting (filled_up lw d)
unfolding filled_up
filled_up-Fitting lw d fits = omega (arith, fits)

-- The rounds that are left after one.
left-lt :
    (fuel : ℕ) (lw : LineWriter) (c : ℕ) (d : Bytes)
    → Fitting lw
    → length (c ∷ d) + (if lw.filled == line_length then 1 else 0) < suc fuel
    → length (drop (room lw (c ∷ d)) (c ∷ d)) < fuel
left-lt fuel lw c d fits h = ground (arith, length-drop (room lw (c ∷ d)) (c ∷ d))

module _ {E W : Type 0} (write : Bytes → W → (ℕ × Option E) × W) where
  write_round-Returns :
      (a : (ℕ × Option E) × W) (rest : Option (Done write))
      → (a.0.0 ≢ 0 → (r : Done write) × (rest ≡ some r))
      → (r : Done write) × (write_round write a rest ≡ some r)
  unfolding write_round
  write_round-Returns ((n, some e), w) rest go = (_, refl)
  write_round-Returns ((n, none), w) rest go = elim (Bool-cases (n == 0)) [
    | inl stuck ↦ rw stuck (_, refl)
    | inr more ↦ rw more (go (ground arith))
  ]

  write_all_loop-Returns :
      (fuel : ℕ) (d : Bytes) (w : W)
      → length d < fuel
      → (r : Done write) × (write_all_loop write fuel d w ≡ some r)
  unfolding write_all_loop
  write_all_loop-Returns zero d w h = absurd (omega (arith, h))
  write_all_loop-Returns (suc fuel) [] w h = (_, refl)
  write_all_loop-Returns (suc fuel) (c ∷ d) w h =
      let a = write (c ∷ d) w in
      write_round-Returns a (write_all_loop write fuel (drop a.0.0 (c ∷ d)) a.1) (λ n.
        write_all_loop-Returns fuel (drop a.0.0 (c ∷ d)) a.1
          (ground (arith, length-drop a.0.0 (c ∷ d))))

  pub write_all-Returns : (d : Bytes) (w : W) → (r : Done write) × (write_all write d w ≡ some r)
  unfolding write_all
  write_all-Returns d w = write_all_loop-Returns (suc (length d)) d w (omega arith)

  and_then-Returns :
      (a : Option (Done write)) (f : W → Option (Done write)) (b : Done write)
      → a ≡ some b
      → ((w : W) → (r : Done write) × (f w ≡ some r))
      → (r : Done write) × (and_then write a f ≡ some r)
  and_then-Returns a f (some e, w) h go = (_, ap (λ r. and_then write r f) h)
  and_then-Returns a f (none, w) h go = ((go w).0, ap (λ r. and_then write r f) h ∙ (go w).1)

  send_line-Returns : (l : Bytes) (w : W) → (r : Done write) × (send_line write l w ≡ some r)
  unfolding send_line
  send_line-Returns l w =
      let one = write_all-Returns l w in
      and_then-Returns (write_all write l w) (λ w'. write_all write (13 ∷ []) w') one.0 one.1
        (λ w'. write_all-Returns (13 ∷ []) w')

  -- A call that ends, with a line that is not overfull.
  abbrev pub WriteEnds : Written write → Type 0
  WriteEnds a = (r : (ℕ × Option (WriteError E)) × LineWriter × W) × (a ≡ some r) × Fitting r.1

  line_sent-Ends :
      (lw : LineWriter) (k : ℕ) (a : Option (Done write)) (f : W → Written write) (b : Done write)
      → a ≡ some b
      → Fitting lw
      → ((w : W) → WriteEnds (f w))
      → WriteEnds (line_sent write lw k a f)
  unfolding line_sent
  line_sent-Ends lw k a f (some e, w) h fits go = (_, ap (λ r. line_sent write lw k r f) h, fits)
  line_sent-Ends lw k a f (none, w) h fits go =
      ((go w).0, ap (λ r. line_sent write lw k r f) h ∙ (go w).1, (go w).2)

  -- Each round takes a byte, but for one with a full line.
  write_loop-Ends :
      (fuel : ℕ) (lw : LineWriter) (k : ℕ) (d : Bytes) (w : W)
      → Fitting lw
      → length d + (if lw.filled == line_length then 1 else 0) < fuel
      → WriteEnds (write_loop write fuel lw k d w)
  unfolding write_loop
  write_loop-Ends zero lw k d w fits h = absurd (omega (arith, h))
  write_loop-Ends (suc fuel) lw k [] w fits h = (_, refl, fits)
  write_loop-Ends (suc fuel) lw k (c ∷ d) w fits h =
      elim (Bool-cases ((filled_up lw (c ∷ d)).filled == line_length)) [
        | inl full ↦
            let sent = send_line-Returns (filled_up lw (c ∷ d)).line w in
            rw full (
              line_sent-Ends (filled_up lw (c ∷ d)) (k + room lw (c ∷ d))
                (send_line write (filled_up lw (c ∷ d)).line w)
                (λ w'.
                  write_loop write fuel (record (filled_up lw (c ∷ d)) { filled = 0 })
                    (k + room lw (c ∷ d)) (drop (room lw (c ∷ d)) (c ∷ d)) w')
                sent.0 sent.1 (filled_up-Fitting lw (c ∷ d) fits)
                (λ w'.
                  write_loop-Ends fuel (record (filled_up lw (c ∷ d)) { filled = 0 })
                    (k + room lw (c ∷ d)) (drop (room lw (c ∷ d)) (c ∷ d)) w' (omega arith)
                    (let l = left-lt fuel lw c d fits h in omega (arith, l))))
        | inr more ↦ rw more (
            write_loop-Ends fuel (filled_up lw (c ∷ d)) (k + room lw (c ∷ d))
              (drop (room lw (c ∷ d)) (c ∷ d)) w (filled_up-Fitting lw (c ∷ d) fits)
              (let l = left-lt fuel lw c d fits h in ground arith))
      ]

  pub write_text-Ends :
      (lw : LineWriter) (d : Bytes) (w : W) → Fitting lw → WriteEnds (write_text write lw d w)
  unfolding write_text
  write_text-Ends lw d w fits = write_loop-Ends (length d + 2) lw 0 d w fits (ground arith)

  closed-Returns :
      (lw : LineWriter) (a : Option (Done write)) (b : Done write)
      → a ≡ some b
      → (r : Option (WriteError E) × LineWriter × W) × (closed write lw a ≡ some r)
  unfolding closed
  closed-Returns lw a (some e, w) h = (_, ap (λ r. closed write lw r) h)
  closed-Returns lw a (none, w) h = (_, ap (λ r. closed write lw r) h)

  pub close-Ends :
      (lw : LineWriter) (w : W)
      → (r : Option (WriteError E) × LineWriter × W) × (close write lw w ≡ some r)
  unfolding close
  close-Ends lw w =
      let sent = send_line-Returns (take lw.filled lw.line) w in
      elim (Bool-cases (lw.filled == 0)) [
        | inl empty ↦ rw empty (_, refl)
        | inr some_left ↦
            rw some_left
              (closed-Returns lw (send_line write (take lw.filled lw.line) w) sent.0 sent.1)
      ]
