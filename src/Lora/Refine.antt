-- ===== src/Lora/Refine.antt =====
-- `nextFrame` and `compactReceiveBuffer` on the array do what `parse` does on the bytes between the
-- two indices.
use drone_os.Base.{
  ℕ, zero, suc, ◌+◌, ◌-◌, ◌≤◌, ◌<◌, ◌≡◌, refl, sym, ap, ◌∙◌, inl, inr, Option, none, some, ◌++◌,
  arith, ltb, leb, ◌==◌, Bool-cases, Bytes, be_uint32, slice, copy_at, length, take, drop,
  length-take, length-drop, drop-drop, drop-take, take-take, drop_all, length-copy_at,
  slice-copy_at,
}
use drone_os.Lora.{
  max_frame_size, bad_length, LoRaHat, payload_length, consume, next_frame_round, next_frame_loop,
  next_frame, compact_receive_buffer, store,
}
use drone_os.Lora.Parse.{
  parse, parse_short, parse_bad, parse_incomplete, parse_frame, be_uint32-take,
}

-- The indices bound a part of the array.
pub record IsValid (h : LoRaHat) : Type 0 where
  pub ordered : h.receive_start ≤ h.receive_end
  pub within : h.receive_end ≤ length h.receive_buf
  pub sized : length h.receive_buf ≡ max_frame_size

-- The bytes received and not yet consumed.
abbrev pub pending : LoRaHat → Bytes
pending h = slice h.receive_buf h.receive_start h.receive_end

length-slice : (b : Bytes) (lo hi : ℕ) → hi ≤ length b → length (slice b lo hi) ≡ hi - lo
length-slice b lo hi h = omega (arith, length-take (hi - lo) (drop lo b), length-drop lo b)

drop-slice : (b : Bytes) (lo hi n : ℕ) → drop n (slice b lo hi) ≡ slice b (lo + n) hi
drop-slice b lo hi n =
    drop-take n (hi - lo) (drop lo b)
    ∙ (let e : hi - lo - n ≡ hi - (lo + n) = omega arith in rw (e, drop-drop n lo (lo + n) b refl))

take-slice : (b : Bytes) (lo hi n : ℕ) → lo + n ≤ hi → take n (slice b lo hi) ≡ slice b lo (lo + n)
take-slice b lo hi n h =
    take-take n (hi - lo) (drop lo b) (omega arith)
    ∙ (let e : n ≡ lo + n - lo = omega arith in ap (λ k. take k (drop lo b)) e)

module _ (h : LoRaHat) (v : IsValid h) where
  open h use {receive_buf, receive_start, receive_end}

  pub length-pending : length (pending h) ≡ receive_end - receive_start
  length-pending = length-slice receive_buf receive_start receive_end v.within

  payload_length-pending : 4 ≤ length (pending h) → payload_length h ≡ be_uint32 (pending h)
  unfolding payload_length
  payload_length-pending le =
      ap be_uint32
        (sym (take-slice receive_buf receive_start receive_end 4 (omega (arith, length-pending))))
      ∙ be_uint32-take (pending h) le

  pending-consume :
      (n : ℕ)
      → receive_start + n ≤ receive_end
      → IsValid (consume h n) × (pending (consume h n) ≡ drop n (pending h))
  unfolding consume
  pending-consume n le = elim (Bool-cases (receive_start + n == receive_end)) [
    | inl e ↦ rw e (
      record { ordered = omega arith; within = omega arith; sized = v.sized },
      sym (drop_all n (pending h) (ground (arith, length-pending))),
    )
    | inr e ↦ rw e (
      record { ordered = omega arith; within = v.within; sized = v.sized },
      sym (drop-slice receive_buf receive_start receive_end n),
    )
  ]

-- The outcome `o` of the loop from `h` is that of `parse` on the bytes that `h` holds.
record Cuts (h : LoRaHat) (o : Option (LoRaHat × Option Bytes)) : Type 0 where
  next : LoRaHat
  outcome : o ≡ some (next, (parse (pending h)).0)
  valid : IsValid next
  left : pending next ≡ (parse (pending h)).1

module _ (h : LoRaHat) (v : IsValid h) where
  Cuts-stop :
      (o : Option (LoRaHat × Option Bytes))
      → o ≡ some (h, none)
      → parse (pending h) ≡ (none, pending h)
      → Cuts h o
  Cuts-stop o e p = record { next = h; outcome = rw p e; valid = v; left = rw p refl }

  Cuts-skip :
      (o : Option (LoRaHat × Option Bytes)) (h' : LoRaHat)
      → parse (pending h) ≡ parse (pending h')
      → Cuts h' o
      → Cuts h o
  Cuts-skip o h' p c = record {
    next = c.next;
    outcome = rw p c.outcome;
    valid = c.valid;
    left = rw p c.left;
  }

  Cuts-consume :
      (o : Option (LoRaHat × Option Bytes)) (n : ℕ)
      → h.receive_start + n ≤ h.receive_end
      → o ≡ some (consume h n, some (slice h.receive_buf h.receive_start (h.receive_start + n)))
      → parse (pending h) ≡ (some (take n (pending h)), drop n (pending h))
      → Cuts h o
  Cuts-consume o n le e p =
      let (valid, left) = pending-consume h v n le in
      record {
        next = consume h n;
        outcome = rw p (
            e
            ∙ ap (λ f. some (consume h n, some f))
                (sym (take-slice h.receive_buf h.receive_start h.receive_end n le)));
        valid = valid;
        left = rw p left;
      }

  -- One round, when at least a length field is there.
  Cuts-round :
      (rest : Option (LoRaHat × Option Bytes))
      → h.receive_start + 4 ≤ h.receive_end
      → Cuts (record h { receive_start = h.receive_start + 1 }) rest
      → Cuts h (next_frame_round h rest)
  unfolding next_frame_round
  Cuts-round rest le c =
      let len = length-pending h v in
      let n = payload_length-pending h v (omega arith) in
      elim (Bool-cases (bad_length (payload_length h))) [
        | inl bad ↦ rw bad (
            Cuts-skip rest _
              (parse_bad (pending h) (omega arith) (rw n at bad)
                ∙ ap parse (drop-slice h.receive_buf h.receive_start h.receive_end 1))
              c)
        | inr good ↦
            rw good
              (elim (Bool-cases (ltb (h.receive_end - h.receive_start) (4 + payload_length h))) [
                | inl more ↦ rw more (
                    Cuts-stop _ refl
                      (parse_incomplete (pending h) (omega arith) (rw n at good) (ground arith)))
                | inr whole ↦ rw whole (
                    Cuts-consume _ (4 + payload_length h) (ground arith) refl
                      (rw n (parse_frame (pending h) (rw n at good) (ground arith))))
              ])
      ]

Cuts-loop :
    (fuel : ℕ) (h : LoRaHat)
    → IsValid h
    → h.receive_end - h.receive_start < fuel
    → Cuts h (next_frame_loop fuel h)
unfolding next_frame_loop
Cuts-loop zero h v enough = absurd (omega arith)
Cuts-loop (suc fuel) h v enough = elim (Bool-cases (leb 4 (h.receive_end - h.receive_start))) [
  | inl le ↦ rw le (
      Cuts-round h v _ (ground arith) (
        Cuts-loop fuel (record h { receive_start = h.receive_start + 1 })
          (record { ordered = ground arith; within = v.within; sized = v.sized }) (ground arith)))
  | inr short ↦
      rw short (Cuts-stop h v _ refl (parse_short (pending h) (ground (arith, length-pending h v))))
]

-- On a valid buffer, `nextFrame` never runs out of fuel and returns the frame that `parse` finds in the
-- bytes held, or none where it finds none; it leaves a valid buffer with the bytes that `parse` leaves.
pub next_frame-parse :
    (h : LoRaHat)
    → IsValid h
    → (h' : LoRaHat) × (next_frame h ≡ some (h', (parse (pending h)).0))
      × IsValid h'
      × (pending h' ≡ (parse (pending h)).1)
unfolding next_frame
next_frame-parse h v =
    let c = Cuts-loop (suc (h.receive_end - h.receive_start)) h v (omega arith) in
    (c.next, c.outcome, c.valid, c.left)

compacted :
    (h : LoRaHat)
    → IsValid h
    → let held = slice h.receive_buf h.receive_start h.receive_end in
      let b = copy_at h.receive_buf 0 held in
      let n = h.receive_end - h.receive_start in
      IsValid (record { receive_buf = b; receive_start = 0; receive_end = n })
      × (slice b 0 n ≡ held)
      × ◌≡◌ {A = ℕ} 0 0
compacted h v =
    let len = length-pending h v in
    let fits : 0 + length (pending h) ≤ length h.receive_buf = omega (arith, v.within) in
    let size = length-copy_at h.receive_buf 0 (pending h) fits in
    let e : h.receive_end - h.receive_start ≡ 0 + length (pending h) = omega arith in
    (
      record { ordered = omega arith; within = omega (arith, v.within); sized = size ∙ v.sized },
      ap (λ k. slice (copy_at h.receive_buf 0 (pending h)) 0 k) e
          ∙ slice-copy_at h.receive_buf 0 0 (pending h) (omega arith) fits,
      refl,
    )

-- On a valid buffer, compaction keeps the bytes held and the buffer valid, and moves them to the front.
pub compact_receive_buffer_lem :
    (h : LoRaHat)
    → IsValid h
    → IsValid (compact_receive_buffer h)
      × (pending (compact_receive_buffer h) ≡ pending h)
      × ((compact_receive_buffer h).receive_start ≡ 0)
unfolding compact_receive_buffer
compact_receive_buffer_lem h v = elim (Bool-cases (h.receive_start == 0)) [
  | inl front ↦ rw front (v, refl, ground arith)
  | inr later ↦ rw later (compacted h v)
]

-- A read that fits goes behind the bytes that the buffer holds.
pub store_lem :
    (h : LoRaHat) (b : Bytes)
    → IsValid h
    → h.receive_end + length b ≤ max_frame_size
    → IsValid (store h b) × (pending (store h b) ≡ pending h ++ b)
unfolding store
store_lem h b v fits =
    let within : h.receive_end + length b ≤ length h.receive_buf = omega arith in
    let size = length-copy_at h.receive_buf h.receive_end b within in
    (
      record { ordered = omega arith; within = omega arith; sized = size ∙ v.sized },
      slice-copy_at h.receive_buf h.receive_start h.receive_end b v.ordered within,
    )
