-- ===== src/Lora/Stream.antt =====
-- `Receive` over the bytes of the serial line, whatever chunks the port delivers them in.
use drone_os.Base.{
  ℕ, ◌+◌, ◌-◌, ◌≤◌, ◌<◌, ◌≡◌, refl, ap, ◌∙◌, inl, inr, Option, none, some, ◌++◌, arith, ◌==◌,
  if◌then◌else◌, Bool-cases, Option-cases, Bytes, length,
}
use drone_os.Lora.{
  max_frame_size, LoRaHat, next_frame, compact_receive_buffer, store, SerialRead, Received, nothing,
  frame, failed, of_frame, answer, after_read, fill, receive,
}
use drone_os.Lora.Parse.{parse, parse-none_short}
use drone_os.Lora.Refine.{
  IsValid, pending, length-pending, next_frame-parse, compact_receive_buffer_lem, store_lem,
}

-- Whenever `nextFrame` finds no frame in a valid buffer, there is room behind the compacted bytes: the
-- buffer never jams.
pub receive_room :
    (h h' : LoRaHat)
    → IsValid h
    → next_frame h ≡ some (h', none)
    → (compact_receive_buffer h').receive_end < max_frame_size
receive_room h h' v e =
    let (k, cut, kv, left) = next_frame-parse h v in
    let (cv, kept, front) = compact_receive_buffer_lem k kv in
    let same : k ≡ h' = cc in
    let short = parse-none_short (pending h) (parse (pending h)).1 (cc) in
    rw (← same) (
      omega (
        arith,
        short,
        length-pending _ cv,
        ap (length {A = ℕ}) kept,
        ap (length {A = ℕ}) left,
        front,
      ))

-- A read behind the bytes `p`: the answer and the bytes kept.
unfoldable pub refill : {E : Type 0} → Bytes → SerialRead E → Received E × Bytes
refill p r = elim r.failure [
  | some e ↦ (failed e, p ++ r.bytes)
  | none ↦
      if length r.bytes == 0
      then (nothing, p ++ r.bytes)
      else (of_frame (parse (p ++ r.bytes)).0, (parse (p ++ r.bytes)).1)
]

-- `o` is a successful end with the answer and the port of `a`, and the bytes held that it names.
pub record Ends {E W : Type 0} (o : Option (LoRaHat × Received E × W)) (a : Received E × Bytes × W)
    : Type 0 where
  pub hat : LoRaHat
  pub outcome : o ≡ some (hat, a.0, a.2)
  pub valid : IsValid hat
  pub holds : pending hat ≡ a.1

module _ {E W : Type 0} (read : ℕ → W → SerialRead E × W) where
  -- `Receive` on the bytes held, with no array and no indices.
  unfoldable pub receive_spec : Bytes → W → Received E × Bytes × W
  receive_spec p w = elim (parse p).0 [
    | some f ↦ (frame f, (parse p).1, w)
    | none ↦
        let (r, w') = read (max_frame_size - length (parse p).1) w in
        ((refill (parse p).1 r).0, (refill (parse p).1 r).1, w')
  ]

  after_read-Ends :
      (h : LoRaHat) (b : Bytes) (f : Option E) (w : W)
      → IsValid h
      → h.receive_end + length b ≤ max_frame_size
      → let r : SerialRead E = record { bytes = b; failure = f } in
        Ends (after_read read h r w) ((refill (pending h) r).0, (refill (pending h) r).1, w)
  unfolding after_read refill answer
  after_read-Ends h b (some e) w v fits =
      let (valid, holds) = store_lem h b v fits in
      record { hat = store h b; outcome = refl; valid = valid; holds = holds }
  after_read-Ends h b none w v fits =
      let (valid, holds) = store_lem h b v fits in
      elim (Bool-cases (length b == 0)) [
        | inl e ↦ rw e (record { hat = store h b; outcome = refl; valid = valid; holds = holds })
        | inr e ↦
            let (h', cut, valid', left) = next_frame-parse (store h b) valid in
            rw (e, cut, holds)
              (record { hat = h'; outcome = refl; valid = valid'; holds = rw holds at left })
      ]

  fill_at :
      (h : LoRaHat)
      → IsValid h
      → (q : Bytes) (w : W) → ((n : ℕ) (u : W) → length (read n u).0.bytes ≤ n)
      → pending h ≡ q
      → let (r, w') = read (max_frame_size - length q) w in
        Ends (fill read (compact_receive_buffer h) w) ((refill q r).0, (refill q r).1, w')
  unfolding fill
  fill_at h v q w fits e =
      let c = compact_receive_buffer h in
      let (cv, kept, front) = compact_receive_buffer_lem h v in
      let size : length q ≡ c.receive_end =
        omega (arith, length-pending c cv, ap (length {A = ℕ}) (kept ∙ e), front) in
      let (r, w') = read (max_frame_size - c.receive_end) w in
      let room = fits (max_frame_size - c.receive_end) w in
      rw size (
        rw (← (kept ∙ e))
          (after_read-Ends c r.bytes r.failure w' cv (omega (arith, room, cv.within, cv.sized))))

  -- From a valid buffer, with a port that returns no more bytes than it is asked for, `Receive` on the
  -- array always ends, with the answer, the port and the bytes held that `receive_spec` has for the bytes
  -- held before, and keeps the buffer valid.
  pub receive-Ends :
      (h : LoRaHat) (w : W)
      → IsValid h
      → ((n : ℕ) (u : W) → length (read n u).0.bytes ≤ n)
      → Ends (receive read h w) (receive_spec (pending h) w)
  unfolding receive receive_spec fill
  receive-Ends h w v fits =
      let (h', cut, v', left) = next_frame-parse h v in
      elim (Option-cases (parse (pending h)).0) [
        | inr (f, e) ↦
            rw (cut, receive, e, receive_spec)
              (record { hat = h'; outcome = refl; valid = v'; holds = left })
        | inl e ↦
            rw (cut, receive, e, receive_spec) (fill_at h' v' (parse (pending h)).1 w fits left)
      ]
