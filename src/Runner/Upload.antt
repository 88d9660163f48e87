-- ===== src/Runner/Upload.antt =====
-- cmd/dev/pi_runner/main.go: `base64LineWriter`, which cuts the text of an upload into lines, and `writeAll`.
pub mod Wrapped
pub mod Whole
pub mod Total
use drone_os.Base.{
  ℕ, zero, suc, ◌+◌, ◌-◌, Option, none, some, List, [], ◌∷◌, ◌==◌, if◌then◌else◌, Bytes, length,
  take, drop, min, copy_at,
}

abbrev pub line_length : ℕ
line_length = 76

pub record LineWriter : Type 0 where
  pub line : Bytes
  pub filled : ℕ

pub data WriteError (E : Type 0) : Type 0 where
  write_failed : E → WriteError E
  short_write : WriteError E

-- `copy(w.line[w.length:], data)`, and the number of bytes copied.
abbrev pub room : LineWriter → Bytes → ℕ
room lw d = min (line_length - lw.filled) (length d)

pub filled_up : LineWriter → Bytes → LineWriter
filled_up lw d = record {
  line = copy_at lw.line lw.filled (take (room lw d) d);
  filled = lw.filled + room lw d;
}

-- A destination in a state `W`; a write answers how many bytes it took, and its error.
module _ {E W : Type 0} (write : Bytes → W → (ℕ × Option E) × W) where
  abbrev pub Done : Type 0
  Done = Option (WriteError E) × W

  -- One round of `writeAll`, where `rest` is the loop behind it.
  write_round : (ℕ × Option E) × W → Option Done → Option Done
  write_round ((n, some e), w) rest = some (some (write_failed e), w)
  write_round ((n, none), w) rest = if n == 0 then some (some short_write, w) else rest

  -- The outer `none` means that the fuel ran out.
  pub write_all_loop : ℕ → Bytes → W → Option Done
  unfolding write_round
  write_all_loop zero data_left w = none
  write_all_loop (suc fuel) [] w = some (none, w)
  write_all_loop (suc fuel) (c ∷ d) w =
      let r = write (c ∷ d) w in write_round r (write_all_loop fuel (drop r.0.0 (c ∷ d)) r.1)

  -- `writeAll`: each round that goes on takes a byte.
  pub write_all : Bytes → W → Option Done
  unfolding write_all_loop
  write_all d w = write_all_loop (suc (length d)) d w

  abbrev and_then : Option Done → (W → Option Done) → Option Done
  and_then none f = none
  and_then (some (some e, w)) f = some (some e, w)
  and_then (some (none, w)) f = f w

  -- A line and its carriage return.
  pub send_line : Bytes → W → Option Done
  send_line l w = and_then (write_all l w) (λ w'. write_all (13 ∷ []) w')

  -- The bytes consumed, the error, the writer and the destination behind a call of `Write`.
  abbrev pub Written : Type 0
  Written = Option ((ℕ × Option (WriteError E)) × LineWriter × W)

  line_sent : LineWriter → ℕ → Option Done → (W → Written) → Written
  line_sent lw consumed none f = none
  line_sent lw consumed (some (some e, w)) f = some ((consumed, some e), lw, w)
  line_sent lw consumed (some (none, w)) f = f w

  pub write_loop : ℕ → LineWriter → ℕ → Bytes → W → Written
  unfolding filled_up send_line line_sent
  write_loop zero lw consumed d w = none
  write_loop (suc fuel) lw consumed [] w = some ((consumed, none), lw, w)
  write_loop (suc fuel) lw consumed (c ∷ d) w =
      let lw' = filled_up lw (c ∷ d) in
      let k = consumed + room lw (c ∷ d) in
      let left = drop (room lw (c ∷ d)) (c ∷ d) in
      let more = write_loop fuel lw' k left w in
      let full =
        line_sent lw' k (send_line lw'.line w)
          (λ w'. write_loop fuel (record lw' { filled = 0 }) k left w') in
      if lw'.filled == line_length then full else more

  -- `base64LineWriter.Write`: every round takes a byte, but for one that finds the line full.
  pub write_text : LineWriter → Bytes → W → Written
  unfolding write_loop
  write_text lw d w = write_loop (length d + 2) lw 0 d w

  closed : LineWriter → Option Done → Option (Option (WriteError E) × LineWriter × W)
  closed lw none = none
  closed lw (some (some e, w)) = some (some e, lw, w)
  closed lw (some (none, w)) = some (none, record lw { filled = 0 }, w)

  -- `base64LineWriter.Close`
  pub close : LineWriter → W → Option (Option (WriteError E) × LineWriter × W)
  unfolding closed send_line
  close lw w =
      if lw.filled == 0
      then some (none, lw, w)
      else closed lw (send_line (take lw.filled lw.line) w)
