-- ===== src/Lora/Tests.antt =====
-- A HAT as it is opened, and lines that deliver a frame in pieces.
use drone_os.Base.{
  ℕ, ◌+◌, ◌-◌, ◌≡◌, refl, none, some, List, [], ◌∷◌, ◌++◌, arith, Bytes, length, replicate,
  length-replicate,
}
use drone_os.Lora.{
  max_frame_size, LoRaHat, next_frame, next_frame_loop, next_frame_round, fill, after_read, store,
  answer, compact_receive_buffer, SerialRead, receive, bad_length, payload_length, consume,
}
use drone_os.Lora.Parse.{parse}
use drone_os.Lora.Refine.{IsValid, pending, next_frame-parse}
use drone_os.Lora.Stream.{Ends, receive_spec, receive-Ends}
use drone_os.Base.{be_uint32, copy_at}
use drone_os.Lora.Chunks.{Line, read_chunk, poll, Emits, poll-Emits, Comparable, poll-Comparable}

zeros : Bytes
zeros = replicate max_frame_size 0

length-zeros : length zeros ≡ max_frame_size
unfolding zeros
length-zeros = length-replicate {A = ℕ} max_frame_size 0

-- The buffer that `NewLoRaHAT` makes.
abbrev fresh : LoRaHat
fresh = record { receive_buf = zeros; receive_start = 0; receive_end = 0 }

fresh-IsValid : IsValid fresh
fresh-IsValid = record { ordered = omega arith; within = omega arith; sized = length-zeros }

-- A junk byte, a frame of two bytes and the front of another one.
abbrev noise : Bytes
noise = 255 ∷ 0 ∷ 0 ∷ 0 ∷ 2 ∷ 7 ∷ 8 ∷ 0 ∷ 0 ∷ []

abbrev in_two : Line ℕ
in_two = record { incoming = noise; chunks = (3, none) ∷ (6, none) ∷ [] }

abbrev with_error : Line ℕ
with_error = record { incoming = noise; chunks = (3, none) ∷ (0, some 5) ∷ (6, none) ∷ [] }

poll-Emits_example :
    (h' : LoRaHat) × (fs : List Bytes) × (l' : Line ℕ) × (poll 4 fresh with_error
      ≡ some (h', fs, l'))
    × IsValid h'
    × Emits (pending fresh ++ noise) fs (pending h' ++ l'.incoming)
poll-Emits_example = poll-Emits 4 fresh with_error fresh-IsValid

-- A buffer that holds the stream `noise`, and one byte consumed before it.
held : Bytes
held = 9 ∷ 255 ∷ 0 ∷ 0 ∷ 0 ∷ 2 ∷ 7 ∷ 8 ∷ 0 ∷ 0 ∷ replicate (max_frame_size - 10) 0

length-held : length held ≡ max_frame_size
unfolding held
length-held = omega (arith, length-replicate {A = ℕ} (max_frame_size - 10) 0)

abbrev busy : LoRaHat
busy = record { receive_buf = held; receive_start = 1; receive_end = 10 }

busy-IsValid : IsValid busy
busy-IsValid = record {
  ordered = omega arith;
  within = omega (arith, length-held);
  sized = length-held;
}

next_frame-parse_example :
    (h' : LoRaHat) × (next_frame busy ≡ some (h', (parse (pending busy)).0))
    × IsValid h'
    × (pending h' ≡ (parse (pending busy)).1)
next_frame-parse_example = next_frame-parse busy busy-IsValid

-- A port that has one byte, and one that has none.
abbrev one_byte : ℕ → ℕ → SerialRead ℕ × ℕ
one_byte n w = (record { bytes = []; failure = none }, w + 1)

receive-Ends_example : Ends (receive one_byte busy 0) (receive_spec one_byte (pending busy) 0)
receive-Ends_example = receive-Ends one_byte busy 0 busy-IsValid (λ n w. omega arith)

abbrev one_frame : List Bytes
one_frame = (0 ∷ 0 ∷ 0 ∷ 2 ∷ 7 ∷ 8 ∷ []) ∷ []

in_two_polled : (k : LoRaHat) × (j : Line ℕ) × (poll 3 fresh in_two ≡ some (k, one_frame, j))
unfolding poll receive next_frame next_frame_loop next_frame_round fill after_read store
    compact_receive_buffer copy_at be_uint32 read_chunk bad_length payload_length consume answer
in_two_polled = (_, _, refl)

with_error_polled :
    (k : LoRaHat) × (j : Line ℕ) × (poll 4 fresh with_error ≡ some (k, one_frame, j))
unfolding poll receive next_frame next_frame_loop next_frame_round fill after_read store
    compact_receive_buffer copy_at be_uint32 read_chunk bad_length payload_length consume answer
with_error_polled = (_, _, refl)

poll-Comparable_example : Comparable one_frame one_frame
poll-Comparable_example =
    poll-Comparable 3 4 fresh fresh in_two with_error in_two_polled.0 with_error_polled.0 one_frame
      one_frame in_two_polled.1 with_error_polled.1 fresh-IsValid fresh-IsValid refl in_two_polled.2
      with_error_polled.2
