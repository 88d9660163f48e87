-- ===== src/Runner/Status/Reported.antt =====
-- The exit status that is found is the one that the shell printed.
use drone_os.Base.{
  ◌≡◌, refl, sym, ap, ◌∙◌, subst, ℕ, zero, suc, ◌+◌, ◌%◌, ◌/◌, ◌≤◌, ◌<◌, ◌^◌, arith, true, false,
  ◌||◌, Bool-cases, Option-cases, inl, inr, none, some, length, [], ◌∷◌, ◌++◌, ◌==◌, ltb, pos, All,
  All-append, reverse, reverse-cons, reverse-reverse, Bytes, is_space, trim_left, trim_space, atoi,
  atoi_digits, digits_value, digits, decimal, digits_value-digits,
}
use drone_os.Runner.Session.{carriage_return, starts_with}
use drone_os.Runner.Status.{
  newline, behind, find_behind, first_line, status_or, status_loop, exit_status_in,
}

abbrev IsDigit : ℕ → Type 0
IsDigit c = (b'0' ≤ c) × (c ≤ b'9')

digits-IsDigit : (fuel n : ℕ) (rest : Bytes) → All IsDigit rest → All IsDigit (digits fuel n rest)
unfolding digits
digits-IsDigit zero n rest h = h
digits-IsDigit (suc fuel) n rest h = elim (Bool-cases (ltb n 10)) [
  | inl e ↦ rw e ((omega arith, ground arith), h)
  | inr e ↦
      rw e (digits-IsDigit fuel (n / 10) ((b'0' + n % 10) ∷ rest) ((omega arith, omega arith), h))
]

decimal-IsDigit : (n : ℕ) → All IsDigit (decimal n)
unfolding decimal
decimal-IsDigit n = digits-IsDigit (suc n) n [] tt

trim_left-IsDigit : (s : Bytes) → All IsDigit s → trim_left s ≡ s
unfolding trim_left is_space
trim_left-IsDigit [] h = refl
trim_left-IsDigit (c ∷ s) ((lo, hi), h) = ground arith

All-reverse : (s : Bytes) → All IsDigit s → All IsDigit (reverse s)
All-reverse [] h = tt
All-reverse (c ∷ s) (d, h) =
    rw (reverse-cons c s) (All-append IsDigit (reverse s) (c ∷ []) (All-reverse s h) (d, tt))

trim_space-IsDigit : (s : Bytes) → All IsDigit s → trim_space s ≡ s
unfolding trim_space
trim_space-IsDigit s h =
    ap (λ x. reverse (trim_left (reverse x))) (trim_left-IsDigit s h)
    ∙ ap reverse (trim_left-IsDigit (reverse s) (All-reverse s h))
    ∙ reverse-reverse s

first_line-IsDigit :
    (s : Bytes) (c : ℕ) (after : Bytes)
    → All IsDigit s
    → (c == carriage_return || c == newline) ≡ true
    → first_line (s ++ c ∷ after) ≡ some (s, after)
unfolding first_line
first_line-IsDigit [] c after h e = rw e refl
first_line-IsDigit (d ∷ s) c after ((lo, hi), h) e =
    let plain : (d == carriage_return || d == newline) ≡ false = ground arith in
    rw (plain, first_line-IsDigit s c after h e) refl

digits_cons :
    (fuel n c : ℕ) (rest : Bytes) → (d : ℕ) × (s : Bytes) × (digits fuel n (c ∷ rest) ≡ d ∷ s)
unfolding digits
digits_cons zero n c rest = (c, rest, refl)
digits_cons (suc fuel) n c rest = elim (Bool-cases (ltb n 10)) [
  | inl e ↦ (b'0' + n, c ∷ rest, rw e refl)
  | inr e ↦ let (d, s, h) = digits_cons fuel (n / 10) (b'0' + n % 10) (c ∷ rest) in (d, s, rw e h)
]

decimal_cons : (n : ℕ) → (d : ℕ) × (s : Bytes) × (decimal n ≡ d ∷ s)
unfolding decimal digits
decimal_cons n = elim (Bool-cases (ltb n 10)) [
  | inl e ↦ (b'0' + n, [], rw e refl)
  | inr e ↦ let (d, s, h) = digits_cons n (n / 10) (b'0' + n % 10) [] in (d, s, rw e h)
]

decimal-value : (n : ℕ) → digits_value 0 (decimal n) ≡ some n
unfolding decimal digits_value
decimal-value n = digits_value-digits (suc n) n [] (omega arith)

-- A decimal number is read back.
atoi-decimal : (n : ℕ) → n < 2 ^ 63 → atoi (decimal n) ≡ some (pos n)
atoi-decimal n small =
    let (c, s, e) = decimal_cons n in
    let all : All IsDigit (c ∷ s) = subst (All IsDigit) e (decimal-IsDigit n) in
    ap atoi e
    ∙ atoi_digits c s n all.0.0 all.0.1 (ap (digits_value 0) (sym e) ∙ decimal-value n) small

-- Where the first marker in the output is followed by a number of less than 2 ^ 63 and the end of a line,
-- that number is the exit status.
pub exit_status_in-decimal :
    (prefix text after : Bytes) (n c : ℕ)
    → n < 2 ^ 63
    → (c == carriage_return || c == newline) ≡ true
    → find_behind prefix text ≡ some (decimal n ++ c ∷ after)
    → exit_status_in prefix text ≡ some (pos n)
unfolding exit_status_in status_loop status_or
exit_status_in-decimal prefix text after n c small ends found =
    rw (exit_status_in, status_loop, found)
      (rw (first_line-IsDigit (decimal n) c after (decimal-IsDigit n) ends)
        (rw (trim_space-IsDigit (decimal n) (decimal-IsDigit n), atoi-decimal n small) refl))

length-behind : (s p : Bytes) → length (behind s p) ≤ length s
unfolding behind
length-behind s [] = omega arith
length-behind [] (y ∷ p) = omega arith
length-behind (x ∷ s) (y ∷ p) = omega (arith, length-behind s p)

find_behind-length : (p s line : Bytes) → find_behind p s ≡ some line → length line ≤ length s
unfolding find_behind
find_behind-length p [] line h = elim (Bool-cases (starts_with [] p)) [
  | inl e ↦ let k : some (behind [] p) ≡ some line = rw e at h in ground (arith, length-behind [] p)
  | inr e ↦ absurd (let k : none ≡ some line = rw e at h in cc)
]
find_behind-length p (x ∷ s) line h = elim (Bool-cases (starts_with (x ∷ s) p)) [
  | inl e ↦
      let k : some (behind (x ∷ s) p) ≡ some line = rw e at h in
      ground (arith, length-behind (x ∷ s) p)
  | inr e ↦
      let k : find_behind p s ≡ some line = rw e at h in
      omega (arith, find_behind-length p s line k)
]

first_line-length :
    (s : Bytes) (first after : Bytes) → first_line s ≡ some (first, after) → length after < length s
unfolding first_line
first_line-length [] first after h = absurd (cc h)
first_line-length (c ∷ s) first after h = elim (Bool-cases (c == carriage_return || c == newline)) [
  | inl e ↦ let k : some ([], s) ≡ some (first, after) = rw e at h in ground arith
  | inr e ↦ elim (Option-cases (first_line s)) [
    | inl n ↦ absurd (ground arith)
    | inr ((f, a), k) ↦
        let same : some (c ∷ f, a) ≡ some (first, after) = rw (e, k) at h in
        ground (arith, first_line-length s f a k)
  ]
]

-- Any fuel above the length of the output gives the same answer: the loop does not run out of it.
pub status_loop-fuel :
    (m n : ℕ) (prefix text : Bytes)
    → length text < m
    → length text < n
    → status_loop m prefix text ≡ status_loop n prefix text
unfolding status_loop
status_loop-fuel zero n prefix text h k = absurd (omega arith)
status_loop-fuel (suc m) zero prefix text h k = absurd (omega arith)
status_loop-fuel (suc m) (suc n) prefix text h k = elim (Option-cases (find_behind prefix text)) [
  | inl e ↦ rw (status_loop, e) refl
  | inr (line, e) ↦ elim (Option-cases (first_line line)) [
    | inl e' ↦ rw (status_loop, e) (rw e' refl)
    | inr ((first, after), e') ↦
        let a = find_behind-length prefix text line e in
        let b = first_line-length line first after e' in
        rw (status_loop, e)
          (rw e' (
            ap (status_or (atoi (trim_space first)))
              (status_loop-fuel m n prefix after (omega arith) (omega arith))))
  ]
]
