-- ===== src/Lora/Parse.antt =====
-- The frames of a byte stream, with no buffer: what `nextFrame` is meant to cut from the bytes received.
use drone_os.Base.{
  ◌+◌, ◌≤◌, ◌<◌, ◌≡◌, refl, sym, ap, ◌∙◌, true, false, Option, none, some, [], ◌∷◌, ◌++◌, arith,
  ◌⊎◌, inl, inr, ltb, if◌then◌else◌, Bytes, be_uint32, length, take, drop, length-append,
  length-take, take-append-drop, take-append, drop-append,
}
use drone_os.Lora.{max_frame_size, bad_length}

-- The front of a stream `s`, where `rest` is the outcome for the stream behind its first byte.
pub cut : Bytes → Option Bytes × Bytes → Option Bytes × Bytes
unfolding bad_length
cut s rest =
    let n = be_uint32 s in
    if ltb (length s) 4
    then (none, s)
    else if bad_length n
    then rest
    else if ltb (length s) (4 + n)
    then (none, s)
    else (some (take (4 + n) s), drop (4 + n) s)

-- The next frame and the bytes behind it; `none` with the bytes that more input may complete.
pub parse : Bytes → Option Bytes × Bytes
parse [] = (none, [])
parse (x ∷ xs) = cut (x ∷ xs) (parse xs)

be_uint32-append : (s q : Bytes) → 4 ≤ length s → be_uint32 (s ++ q) ≡ be_uint32 s
unfolding be_uint32
be_uint32-append (a ∷ b ∷ c ∷ d ∷ s) q h = refl
be_uint32-append [] q h = absurd (omega arith)
be_uint32-append (a ∷ []) q h = absurd (omega arith)
be_uint32-append (a ∷ b ∷ []) q h = absurd (omega arith)
be_uint32-append (a ∷ b ∷ c ∷ []) q h = absurd (omega arith)

-- More input does not change a frame that is complete.
cut-append_some :
    (s q : Bytes) (rest rest' : Option Bytes × Bytes) (f r : Bytes)
    → (rest ≡ (some f, r) → rest' ≡ (some f, r ++ q))
    → cut s rest ≡ (some f, r)
    → cut (s ++ q) rest' ≡ (some f, r ++ q)
unfolding cut
cut-append_some s q rest rest' f r ih e = ground (
  arith,
  ih,
  length-append s q,
  be_uint32-append s q,
  take-append (4 + be_uint32 s) s q,
  drop-append (4 + be_uint32 s) s q,
)

pub parse-append_some :
    (s q f r : Bytes) → parse s ≡ (some f, r) → parse (s ++ q) ≡ (some f, r ++ q)
unfolding parse
parse-append_some [] q f r e = cc
parse-append_some (x ∷ xs) q f r e =
    cut-append_some (x ∷ xs) q (parse xs) (parse (xs ++ q)) f r (parse-append_some xs q f r) e

-- A stream with no frame is kept whole, or begins with a byte that is skipped.
cut-eq-none :
    (s : Bytes) (rest : Option Bytes × Bytes) (r : Bytes)
    → cut s rest ≡ (none, r)
    → (r ≡ s) ⊎ ((4 ≤ length s) × (bad_length (be_uint32 s) ≡ true) × (rest ≡ (none, r)))
unfolding cut
cut-eq-none s rest r e = ground arith

pub cut_bad :
    (s : Bytes) (rest : Option Bytes × Bytes)
    → 4 ≤ length s
    → bad_length (be_uint32 s) ≡ true
    → cut s rest ≡ rest
unfolding cut
cut_bad s rest le bad = ground arith

-- The bytes that were skipped stay skipped.
pub parse-append_none : (s q r : Bytes) → parse s ≡ (none, r) → parse (s ++ q) ≡ parse (r ++ q)
unfolding parse
parse-append_none [] q r e = let h : [] ≡ r = cc in rw (← h)
parse-append_none (x ∷ xs) q r e = elim (cut-eq-none (x ∷ xs) (parse xs) r e) [
  | inl kept ↦ rw kept
  | inr (le, bad, later) ↦
      cut_bad ((x ∷ xs) ++ q) (parse (xs ++ q)) (omega (arith, length-append xs q))
        (rw (be_uint32-append (x ∷ xs) q le) bad)
      ∙ parse-append_none xs q r later
]

pub parse-none_short : (s r : Bytes) → parse s ≡ (none, r) → length r < max_frame_size
unfolding parse cut
parse-none_short [] r e = ground arith
parse-none_short (x ∷ xs) r e = ground (arith, parse-none_short xs r)

-- `parse` by the four outcomes of a round, with no mention of the first byte.
pub parse_short : (s : Bytes) → length s < 4 → parse s ≡ (none, s)
unfolding parse cut
parse_short [] h = refl
parse_short (x ∷ xs) h = ground arith

pub parse_bad :
    (s : Bytes) → 4 ≤ length s → bad_length (be_uint32 s) ≡ true → parse s ≡ parse (drop 1 s)
unfolding parse
parse_bad [] h bad = absurd (omega arith)
parse_bad (x ∷ xs) h bad = cut_bad (x ∷ xs) (parse xs) h bad

pub parse_incomplete :
    (s : Bytes)
    → 4 ≤ length s
    → bad_length (be_uint32 s) ≡ false
    → length s < 4 + be_uint32 s
    → parse s ≡ (none, s)
unfolding parse cut bad_length
parse_incomplete [] h good less = absurd (omega arith)
parse_incomplete (x ∷ xs) h good less = ground arith

pub parse_frame :
    (s : Bytes)
    → bad_length (be_uint32 s) ≡ false
    → 4 + be_uint32 s ≤ length s
    → parse s ≡ (some (take (4 + be_uint32 s) s), drop (4 + be_uint32 s) s)
unfolding parse cut bad_length
parse_frame [] good le = absurd (omega arith)
parse_frame (x ∷ xs) good le = ground arith

pub be_uint32-take : (s : Bytes) → 4 ≤ length s → be_uint32 (take 4 s) ≡ be_uint32 s
be_uint32-take s h =
    sym (be_uint32-append (take 4 s) (drop 4 s) (omega (arith, length-take 4 s)))
    ∙ ap be_uint32 (take-append-drop 4 s)
