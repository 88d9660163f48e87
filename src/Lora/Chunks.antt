-- ===== src/Lora/Chunks.antt =====
-- The frames that repeated calls of `Receive` return, for a serial line that delivers a byte stream in
-- chunks of any sizes and reports errors at any reads.
use drone_os.Base.{
  ℕ, zero, suc, ◌-◌, ◌≤◌, ◌≡◌, refl, sym, ap, ◌∙◌, ◌⊎◌, inl, inr, Option, none, some, List, [], ◌∷◌,
  ◌++◌, append_assoc, arith, ◌==◌, Bool-cases, Option-cases, Bytes, length, take, drop, min,
  length-take, take-append-drop,
}
use drone_os.Lora.{
  max_frame_size, LoRaHat, SerialRead, Received, nothing, frame, failed, receive, of_frame,
}
use drone_os.Lora.Parse.{parse, parse-append_some, parse-append_none}
use drone_os.Lora.Refine.{IsValid, pending}
use drone_os.Lora.Stream.{refill, receive_spec, receive-Ends}

-- The bytes still to come, and for each read to come how many are ready and what error is reported.
pub record Line (E : Type 0) : Type 0 where
  pub incoming : Bytes
  pub chunks : List (ℕ × Option E)

-- A read with no chunk left times out with no bytes.
unfoldable pub read_chunk : {E : Type 0} → List (ℕ × Option E) → ℕ → Bytes → SerialRead E × Line E
read_chunk [] n s = (record { bytes = []; failure = none }, record { incoming = s; chunks = [] })
read_chunk ((k, e) ∷ cs) n s = (
  record { bytes = take (min n k) s; failure = e },
  record { incoming = drop (min n k) s; chunks = cs },
)

abbrev pub read_line : {E : Type 0} → ℕ → Line E → SerialRead E × Line E
read_line n l = read_chunk l.chunks n l.incoming

abbrev frames_of : {E : Type 0} → Received E → List Bytes → List Bytes
frames_of (frame f) fs = f ∷ fs
frames_of nothing fs = fs
frames_of (failed e) fs = fs

-- A number of calls of `Receive`, with the frames that they return.
unfoldable pub poll : {E : Type 0} → ℕ → LoRaHat → Line E → Option (LoRaHat × List Bytes × Line E)
poll zero h l = some (h, [], l)
poll (suc n) h l = elim (receive read_line h l) [
  | none ↦ none
  | some (h', a, l') ↦ elim (poll n h' l') [
    | none ↦ none
    | some (h'', fs, l'') ↦ some (h'', frames_of a fs, l'')
  ]
]

-- `fs` are the next frames of the stream `s`, and `r` is what remains, up to bytes that are skipped.
pub data Emits : Bytes → List Bytes → Bytes → Type 0 where
  same : {s r : Bytes} → ((q : Bytes) → parse (s ++ q) ≡ parse (r ++ q)) → Emits s [] r
  next :
      {s s' f r : Bytes} {fs : List Bytes}
      → ((q : Bytes) → parse (s ++ q) ≡ (some f, s' ++ q))
      → Emits s' fs r
      → Emits s (f ∷ fs) r

Emits-same :
    {s s' r : Bytes} {fs : List Bytes}
    → ((q : Bytes) → parse (s ++ q) ≡ parse (s' ++ q))
    → Emits s' fs r
    → Emits s fs r
Emits-same h (same e) = same (λ q. h q ∙ e q)
Emits-same h (next e t) = next (λ q. h q ∙ e q) t

-- What one answer says of the stream: `s` before the call, `s'` behind it.
abbrev Advances : {E : Type 0} → Received E → Bytes → Bytes → Type 0
Advances (frame f) s s' = (q : Bytes) → parse (s ++ q) ≡ (some f, s' ++ q)
Advances nothing s s' = (q : Bytes) → parse (s ++ q) ≡ parse (s' ++ q)
Advances (failed e) s s' = (q : Bytes) → parse (s ++ q) ≡ parse (s' ++ q)

Emits-frames_of :
    {E : Type 0} (a : Received E) {s s' r : Bytes} {fs : List Bytes}
    → Advances a s s'
    → Emits s' fs r
    → Emits s (frames_of a fs) r
Emits-frames_of (frame f) h t = next h t
Emits-frames_of nothing h t = Emits-same h t
Emits-frames_of (failed e) h t = Emits-same h t

-- The answer about the bytes `p`, with any stream behind them.
of_frame-Advances :
    (E : Type 0) (p : Bytes) (o : Option Bytes) (r t : Bytes)
    → parse p ≡ (o, r)
    → Advances {E = E} (of_frame o) (p ++ t) (r ++ t)
of_frame-Advances E p none r t e =
    λ q. rw (append_assoc p t q, append_assoc r t q) (parse-append_none p (t ++ q) r e)
of_frame-Advances E p (some f) r t e =
    λ q. rw (append_assoc p t q, append_assoc r t q) (parse-append_some p (t ++ q) f r e)

read_chunk_splits :
    {E : Type 0} (cs : List (ℕ × Option E)) (n : ℕ) (s : Bytes)
    → (read_chunk cs n s).0.bytes ++ (read_chunk cs n s).1.incoming ≡ s
unfolding read_chunk
read_chunk_splits [] n s = refl
read_chunk_splits ((k, e) ∷ cs) n s = take-append-drop (min n k) s

read_chunk_fits :
    {E : Type 0} (cs : List (ℕ × Option E)) (n : ℕ) (s : Bytes)
    → length (read_chunk cs n s).0.bytes ≤ n
unfolding read_chunk
read_chunk_fits [] n s = omega arith
read_chunk_fits ((k, e) ∷ cs) n s = omega (arith, length-take (min n k) s)

refill-Advances :
    {E : Type 0} (p b t : Bytes) (f : Option E)
    → let r : SerialRead E = record { bytes = b; failure = f } in
      Advances (refill p r).0 (p ++ (b ++ t)) ((refill p r).1 ++ t)
unfolding refill
refill-Advances p b t (some e) = λ q. rw (append_assoc p b t)
refill-Advances {E} p b t none = elim (Bool-cases (length b == 0)) [
  | inl e ↦ rw e (λ q. rw (append_assoc p b t))
  | inr e ↦ rw e (
      rw (← append_assoc p b t)
        (of_frame-Advances E (p ++ b) (parse (p ++ b)).0 (parse (p ++ b)).1 t refl))
]

Advances-same :
    {E : Type 0} (a : Received E) (s s' t : Bytes)
    → ((q : Bytes) → parse (s ++ q) ≡ parse (s' ++ q))
    → Advances a s' t
    → Advances a s t
Advances-same (frame f) s s' t h g = λ q. h q ∙ g q
Advances-same nothing s s' t h g = λ q. h q ∙ g q
Advances-same (failed e) s s' t h g = λ q. h q ∙ g q

receive_spec-Advances :
    {E : Type 0} (p : Bytes) (l : Line E)
    → Advances
        (receive_spec read_line p l).0
        (p ++ l.incoming)
        ((receive_spec read_line p l).1 ++ (receive_spec read_line p l).2.incoming)
unfolding receive_spec
receive_spec-Advances {E} p l = elim (Option-cases (parse p).0) [
  | inr (f, e) ↦
      rw (e, receive_spec)
        (of_frame-Advances E p (some f) (parse p).1 l.incoming (ap (λ o. (o, (parse p).1)) e))
  | inl e ↦
      let r = (parse p).1 in
      let (d, l') = read_line (max_frame_size - length r) l in
      let split : d.bytes ++ l'.incoming ≡ l.incoming =
        read_chunk_splits l.chunks (max_frame_size - length r) l.incoming in
      let skipped = of_frame-Advances E p none r l.incoming (ap (λ o. (o, r)) e) in
      rw (e, receive_spec)
        (Advances-same (refill r d).0 _ _ _ skipped
          (rw split at (refill-Advances r d.bytes l'.incoming d.failure)))
]

-- The state of the receiver and of the line after some calls, as one stream of bytes.
abbrev stream : {E : Type 0} → LoRaHat → Line E → Bytes
stream h l = pending h ++ l.incoming

record Polled {E : Type 0} (s : Bytes) (o : Option (LoRaHat × List Bytes × Line E)) : Type 0 where
  hat : LoRaHat
  frames : List Bytes
  line : Line E
  outcome : o ≡ some (hat, frames, line)
  valid : IsValid hat
  emits : Emits s frames (stream hat line)

poll-Polled :
    {E : Type 0} (n : ℕ) (h : LoRaHat) (l : Line E) → IsValid h → Polled (stream h l) (poll n h l)
unfolding poll
poll-Polled zero h l v = record {
  hat = h;
  frames = [];
  line = l;
  outcome = refl;
  valid = v;
  emits = same (λ q. refl);
}
poll-Polled (suc n) h l v =
    let ends = receive-Ends read_line h l v (λ k u. read_chunk_fits u.chunks k u.incoming) in
    let (a, q, l') = receive_spec read_line (pending h) l in
    let rest = poll-Polled n ends.hat l' ends.valid in
    rw (ends.outcome, poll)
      (rw (rest.outcome, poll)
        (record {
          hat = rest.hat;
          frames = frames_of a rest.frames;
          line = rest.line;
          outcome = refl;
          valid = rest.valid;
          emits =
              Emits-frames_of a (receive_spec-Advances (pending h) l) (rw ends.holds at rest.emits);
        }))

-- From a valid buffer, however the line cuts the stream into chunks, and whatever errors it reports
-- between them, any number of calls of `Receive` ends in a valid buffer and returns frames of the stream
-- in their order, with none lost, made up or torn.
pub poll-Emits :
    {E : Type 0} (n : ℕ) (h : LoRaHat) (l : Line E)
    → IsValid h
    → (h' : LoRaHat) × (fs : List Bytes) × (l' : Line E) × (poll n h l ≡ some (h', fs, l'))
      × IsValid h'
      × Emits (pending h ++ l.incoming) fs (pending h' ++ l'.incoming)
poll-Emits n h l v =
    let p = poll-Polled n h l v in (p.hat, p.frames, p.line, p.outcome, p.valid, p.emits)

-- The shorter of two lists is the front of the other.
abbrev pub Comparable : List Bytes → List Bytes → Type 0
Comparable fs gs = (k : List Bytes) × ((fs ++ k ≡ gs) ⊎ (gs ++ k ≡ fs))

Emits-Comparable :
    {s s' r r' : Bytes} {fs gs : List Bytes}
    → ((q : Bytes) → parse (s ++ q) ≡ parse (s' ++ q))
    → Emits s fs r
    → Emits s' gs r'
    → Comparable fs gs
Emits-Comparable {gs = gs} h (same e) d = (gs, inl refl)
Emits-Comparable {fs = fs} h (next e t) (same e') = (fs, inr refl)
Emits-Comparable h (next {s' = a} {f = f} e t) (next {s' = b} {f = g} e' t') =
    let both : (q : Bytes) → ◌≡◌ {A = Option Bytes × Bytes} (some f, a ++ q) (some g, b ++ q) =
      λ q. sym (e q) ∙ h q ∙ e' q in
    let same_frame : f ≡ g = cc (both []) in
    let (k, split) = Emits-Comparable (λ q. ap (λ p. parse p.1) (both q)) t t' in
    elim split [ inl x ↦ (k, inl (cc)) | inr x ↦ (k, inr (cc)) ]

-- Two receivers with valid buffers that are given the same bytes, in any chunks, return the same frames
-- over any numbers of calls: one may only be ahead of the other.
pub poll-Comparable :
    {E F : Type 0} (m n : ℕ) (h h' : LoRaHat) (l : Line E) (l' : Line F) (k k' : LoRaHat)
    (fs gs : List Bytes) (j : Line E) (j' : Line F)
    → IsValid h
    → IsValid h'
    → pending h ++ l.incoming ≡ pending h' ++ l'.incoming
    → poll m h l ≡ some (k, fs, j)
    → poll n h' l' ≡ some (k', gs, j')
    → Comparable fs gs
poll-Comparable m n h h' l l' k k' fs gs j j' v v' e p q =
    let a = poll-Polled m h l v in
    let b = poll-Polled n h' l' v' in
    let x : a.frames ≡ fs = cc (sym a.outcome ∙ p) in
    let y : b.frames ≡ gs = cc (sym b.outcome ∙ q) in
    rw (← x, ← y) (Emits-Comparable (λ t. ap (λ s. parse (s ++ t)) e) a.emits b.emits)
