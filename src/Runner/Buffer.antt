-- ===== src/Runner/Buffer.antt =====
-- The buffer of serial output holds the end of the stream, however it arrives.
use drone_os.Base.{
  ℕ, ◌-◌, ◌≤◌, ◌≡◌, refl, sym, ap, ◌∙◌, inl, inr, Option, none, some, List, [], ◌∷◌, ◌++◌,
  append_assoc, append-nil, arith, leb, Bool-cases, Bytes, length, drop, length-append, length-drop,
  drop-append, drop-drop,
}
use drone_os.Runner.{max_buffer, Appended, Mirror, remember, append, mirrored}

-- The last `max_buffer` bytes.
abbrev pub last_part : Bytes → Bytes
last_part s = drop (length s - max_buffer) s

remember_lem : (r b : Bytes) → remember r b ≡ last_part (r ++ b)
unfolding remember
remember_lem r b = elim (Bool-cases (leb (length (r ++ b)) max_buffer)) [
  | inl small ↦ let e : length (r ++ b) - max_buffer ≡ 0 = ground arith in rw (small, e) refl
  | inr big ↦ rw big refl
]

-- What was forgotten before does not matter.
last_part-append : (s b : Bytes) → last_part (last_part s ++ b) ≡ last_part (s ++ b)
last_part-append s b =
    let k = length s - max_buffer in
    let e : drop k (s ++ b) ≡ drop k s ++ b = drop-append k s b (omega arith) in
    ap last_part (sym e)
    ∙ drop-drop (length (drop k (s ++ b)) - max_buffer) k (length (s ++ b) - max_buffer) (s ++ b)
        (omega (arith, length-append s b, length-drop k (s ++ b)))

pub concat : List Bytes → Bytes
concat [] = []
concat (b ∷ bs) = b ++ concat bs

abbrev chained :
    {E W : Type 0} → Appended E W → (Bytes → W → Option (Bytes × W)) → Option (Bytes × W)
chained (some x, r, w) f = none
chained (none, r, w) f = f r w

-- The contents of the buffer behind the appends of several reads; `none` where one reports an error.
pub append_all : {E W : Type 0} → Mirror E W → Bytes → List Bytes → W → Option (Bytes × W)
append_all m recent [] w = some (recent, w)
append_all m recent (b ∷ bs) w = chained (append m recent b w) (λ r w'. append_all m r bs w')

-- A mirror that takes all it is given.
abbrev pub Accepts : {E W : Type 0} → Mirror E W → Type 0
Accepts none = Unit {0}
Accepts {W = W} (some write) = (b : Bytes) (w : W) → (write b w).0 ≡ (length b, none)

append-Accepts :
    {E W : Type 0} (m : Mirror E W) (recent b : Bytes) (w : W)
    → Accepts m
    → (w' : W) × (append m recent b w ≡ (none, last_part (recent ++ b), w'))
unfolding append mirrored
append-Accepts none recent b w h = (w, ap (λ r. (none, r, w)) (remember_lem recent b))
append-Accepts (some write) recent b w h =
    let w' = (write b w).1 in
    (w', ap (λ x. mirrored recent b (x, w')) (h b w) ∙ ground (arith, remember_lem recent b))

-- With a mirror that takes all output, or none, and from a buffer of at most 64 KiB, appending never fails, and the buffer holds the last
-- 64 KiB of the output, however it was cut into reads.
pub append_all-last_part :
    {E W : Type 0} (m : Mirror E W) (recent : Bytes) (bs : List Bytes) (w : W)
    → Accepts m
    → length recent ≤ max_buffer
    → (w' : W) × (append_all m recent bs w ≡ some (last_part (recent ++ concat bs), w'))
unfolding append_all concat
append_all-last_part m recent [] w h small =
    let e : length (recent ++ []) - max_buffer ≡ 0 =
      omega (arith, ap (length {A = ℕ}) (append-nil recent)) in
    (w, ap (λ r. some (r, w)) (rw e (sym (append-nil recent))))
append_all-last_part m recent (b ∷ bs) w h small =
    let (w', one) = append-Accepts m recent b w h in
    let size : length (last_part (recent ++ b)) ≤ max_buffer =
      omega (arith, length-drop (length (recent ++ b) - max_buffer) (recent ++ b)) in
    let (w'', rest) = append_all-last_part m (last_part (recent ++ b)) bs w' h size in
    (
      w'',
      ap (λ x. chained x (λ r u. append_all m r bs u)) one
          ∙ (rest
              ∙ ap (λ r. some (r, w''))
                  (last_part-append (recent ++ b) (concat bs)
                    ∙ ap last_part (append_assoc recent b (concat bs)))),
    )
