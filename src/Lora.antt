-- ===== src/Lora.antt =====
-- internal/drivers/radio/SX1262/main.go: the receive buffer of the LoRa HAT and the frames cut from it.
-- The array keeps its full length; `receive_start` and `receive_end` bound the bytes not yet consumed.
pub mod Parse
pub mod Refine
pub mod Stream
pub mod Chunks
pub mod Device
pub mod Hat
mod Tests
use drone_os.Base.{
  ℕ, zero, suc, ◌+◌, ◌-◌, ◌*◌, ◌≤◌, ◌≡◌, Bool, true, false, ◌||◌, Option, none, some, List, [], ◌∷◌,
  ltb, leb, ◌==◌, if◌then◌else◌, Bytes, be_uint32, slice, copy_at, length, take, drop,
}

abbrev pub max_frame_payload_size : ℕ
max_frame_payload_size = 64 * 1024

abbrev pub max_frame_size : ℕ
max_frame_size = 4 + max_frame_payload_size

pub record LoRaHat : Type 0 where
  pub receive_buf : Bytes
  pub receive_start : ℕ
  pub receive_end : ℕ

-- payloadLength == 0 || payloadLength > maxFramePayloadSize
unfoldable pub bad_length : ℕ → Bool
bad_length n = n == 0 || ltb max_frame_payload_size n

-- The length field at the front of the bytes not yet consumed.
pub payload_length : LoRaHat → ℕ
payload_length h = be_uint32 (slice h.receive_buf h.receive_start (h.receive_start + 4))

-- Both indices go back to the front once every byte is consumed.
pub consume : LoRaHat → ℕ → LoRaHat
consume h n =
    if h.receive_start + n == h.receive_end
    then record h { receive_start = 0; receive_end = 0 }
    else record h { receive_start = h.receive_start + n }

-- One round of the loop of `nextFrame` behind its test, where `rest` is the loop after a skipped byte.
next_frame_round : LoRaHat → Option (LoRaHat × Option Bytes) → Option (LoRaHat × Option Bytes)
unfolding bad_length payload_length consume
next_frame_round h rest =
    let n = payload_length h in
    if bad_length n
    then rest
    else if ltb (h.receive_end - h.receive_start) (4 + n)
    then some (h, none)
    else some
        (consume h (4 + n), some (slice h.receive_buf h.receive_start (h.receive_start + (4 + n))))

-- `none` means that the fuel ran out.
pub next_frame_loop : ℕ → LoRaHat → Option (LoRaHat × Option Bytes)
next_frame_loop zero h = none
next_frame_loop (suc fuel) h =
    let rest = next_frame_loop fuel (record h { receive_start = h.receive_start + 1 }) in
    let round = next_frame_round h rest in
    if leb 4 (h.receive_end - h.receive_start) then round else some (h, none)

-- A round that goes on skips a byte, so the loop makes at most one round for each byte.
pub next_frame : LoRaHat → Option (LoRaHat × Option Bytes)
next_frame h = next_frame_loop (suc (h.receive_end - h.receive_start)) h

pub compact_receive_buffer : LoRaHat → LoRaHat
compact_receive_buffer h = if h.receive_start == 0 then h else record {
  receive_buf = copy_at h.receive_buf 0 (slice h.receive_buf h.receive_start h.receive_end);
  receive_start = 0;
  receive_end = h.receive_end - h.receive_start;
}

-- What `serial.Read` delivers: bytes, and the error that may come with them.
pub record SerialRead (E : Type 0) : Type 0 where
  pub bytes : Bytes
  pub failure : Option E

-- What `Receive` returns: `nil, nil`, a frame, or an error of the port.
pub data Received (E : Type 0) : Type 0 where
  nothing : Received E
  frame : Bytes → Received E
  failed : E → Received E

-- The bytes read stand behind those that the buffer held.
pub store : LoRaHat → Bytes → LoRaHat
store h b = record h {
  receive_buf = copy_at h.receive_buf h.receive_end b;
  receive_end = h.receive_end + length b;
}

abbrev pub of_frame : {E : Type 0} → Option Bytes → Received E
of_frame none = nothing
of_frame (some f) = frame f

-- The serial port is an object of its own: `read n` reads into a slice of length `n`.
module _ {E W : Type 0} (read : ℕ → W → SerialRead E × W) where
  answer : Option (LoRaHat × Option Bytes) → W → Option (LoRaHat × Received E × W)
  answer none w = none
  answer (some (h, f)) w = some (h, of_frame f, w)

  after_read : LoRaHat → SerialRead E → W → Option (LoRaHat × Received E × W)
  unfolding answer
  after_read h r w = elim r.failure [
    | some e ↦ some (store h r.bytes, failed e, w)
    | none ↦
        if length r.bytes == 0
        then some (store h r.bytes, nothing, w)
        else answer (next_frame (store h r.bytes)) w
  ]

  fill : LoRaHat → W → Option (LoRaHat × Received E × W)
  unfolding after_read
  fill h w = let (r, w') = read (max_frame_size - h.receive_end) w in after_read h r w'

  pub receive : LoRaHat → W → Option (LoRaHat × Received E × W)
  unfolding fill
  receive h w = elim (next_frame h) [
    | none ↦ none
    | some (h', some f) ↦ some (h', frame f, w)
    | some (h', none) ↦ fill (compact_receive_buffer h') w
  ]
