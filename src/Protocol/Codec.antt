-- ===== src/Protocol/Codec.antt =====
-- internal/protocol/codec.go: a message is sent as a length of four bytes and its JSON text.
use drone_os.Base.{
  ℕ, ◌*◌, ◌≤◌, ◌<◌, ◌≡◌, ◌≢◌, refl, sym, ap, ◌∙◌, ◌||◌, inl, inr, [], ◌∷◌, ◌++◌, append_assoc,
  append-nil, arith, ltb, leb, ◌==◌, if◌then◌else◌, Bool-cases, Bytes, length, take, drop,
  length-append, length-take, take-append-drop, take-append_length, drop-append_length, be_uint32,
  put_uint32, be_uint32-put_uint32, Result, ok, err, ◌>>=◌, wrap, bind-eq-ok, wrap-eq-ok,
}
use drone_os.Protocol.{Message, Json, IsText, IsJson}

abbrev pub max_payload_size : ℕ
max_payload_size = 64 * 1024

-- io.EOF and io.ErrUnexpectedEOF
pub data ReadError : Type 0 where
  eof unexpected_eof : ReadError

pub data CodecError (E : Type 0) : Type 0 where
  encode_failed decode_failed : E → CodecError E
  too_large invalid_length : ℕ → CodecError E
  read_length read_payload : ReadError → CodecError E

-- io.ReadFull: the first `n` bytes of what a reader holds, and what it holds behind them.
unfoldable pub read_full : ℕ → Bytes → Result ReadError (Bytes × Bytes)
read_full n r =
    if leb n (length r)
    then ok (take n r, drop n r)
    else if length r == 0
    then err eof
    else err unexpected_eof

module _ {E : Type 0} (j : Json E) where
  unfoldable pub frame_payload : Bytes → Result (CodecError E) Bytes
  frame_payload p =
      if ltb max_payload_size (length p)
      then err (too_large (length p))
      else ok (put_uint32 (length p) ++ p)

  unfoldable pub encode_message : Message → Result (CodecError E) Bytes
  unfolding frame_payload
  encode_message m = do p ← wrap encode_failed (j.marshal m); frame_payload p

  unfoldable pub decode_payload : ℕ → Bytes → Result (CodecError E) (Message × Bytes)
  decode_payload n r = if n == 0 || ltb max_payload_size n then err (invalid_length n) else do
    (p, rest) ← wrap read_payload (read_full n r)
    m ← wrap decode_failed (j.unmarshal p)
    ok (m, rest)

  -- The message, and what the reader holds behind it.
  unfoldable pub decode_message : Bytes → Result (CodecError E) (Message × Bytes)
  unfolding decode_payload
  decode_message r = do
    (header, rest) ← wrap read_length (read_full 4 r)
    decode_payload (be_uint32 header) rest

  unfoldable pub decode_message_bytes : Bytes → Result (CodecError E) Message
  decode_message_bytes b = do (m, rest) ← decode_message b; ok m

-- What a decoder needs of a stream to return `m` and leave `rest`.
pub record Framed {E : Type 0} (j : Json E) (s : Bytes) (m : Message) (rest : Bytes) : Type 0 where
  pub header : Bytes
  pub payload : Bytes
  pub splits : s ≡ header ++ (payload ++ rest)
  pub header_size : length header ≡ 4
  pub payload_size : be_uint32 header ≡ length payload
  pub size_pos : 0 < length payload
  pub size_max : length payload ≤ max_payload_size
  pub decodes : j.unmarshal payload ≡ ok m

length_pos : (p : Bytes) → p ≢ [] → 0 < length p
length_pos [] h = absurd (h refl)
length_pos (x ∷ p) h = omega arith

read_full-append : (n : ℕ) (a b : Bytes) → n ≡ length a → read_full n (a ++ b) ≡ ok (a, b)
unfolding read_full
read_full-append n a b h =
    rw (take-append_length n a b h, drop-append_length n a b h) (ground (arith, length-append a b))

read_full-eq-ok :
    (n : ℕ) (s a b : Bytes) → read_full n s ≡ ok (a, b) → (s ≡ a ++ b) × (length a ≡ n)
unfolding read_full
read_full-eq-ok n s a b h = elim (Bool-cases (leb n (length s))) [
  | inl le ↦
      let e : ◌≡◌ {A = Result ReadError (Bytes × Bytes)} (ok (take n s, drop n s)) (ok (a, b)) =
        rw le at h in
      let ea : take n s ≡ a = cc in
      let eb : drop n s ≡ b = cc in
      (
        sym (take-append-drop n s) ∙ (rw (ea, eb)),
        ground (arith, length-take n s, ap (length {A = ℕ}) ea),
      )
  | inr short ↦ ground arith
]

module _ {E : Type 0} (j : Json E) where
  -- Every framed stream is decoded, and the reader is left at the byte behind the frame.
  pub decode_message_complete :
      (s : Bytes) (m : Message) (rest : Bytes)
      → Framed j s m rest
      → decode_message j s ≡ ok (m, rest)
  unfolding decode_message decode_payload
  decode_message_complete s m rest f = ground (
    arith,
    read_full-append 4 f.header (f.payload ++ rest),
    read_full-append (be_uint32 f.header) f.payload rest,
  )

  decode_payload_sound :
      (n : ℕ) (r : Bytes) (m : Message) (rest : Bytes)
      → decode_payload j n r ≡ ok (m, rest)
      → (p : Bytes) × (r ≡ p ++ rest)
        × (n ≡ length p)
        × (0 < n)
        × (n ≤ max_payload_size)
        × (j.unmarshal p ≡ ok m)
  unfolding decode_payload
  decode_payload_sound n r m rest e = elim (Bool-cases (n == 0 || ltb max_payload_size n)) [
    | inl bad ↦ ground arith
    | inr good ↦
        let ((p, q), read, more) =
          bind-eq-ok (wrap read_payload (read_full n r)) _ (rw good at e) in
        let (m', decoded, same) = bind-eq-ok (wrap decode_failed (j.unmarshal p)) _ more in
        let (splits, size) =
          read_full-eq-ok n r p q (wrap-eq-ok read_payload (read_full n r) read) in
        let e1 : m' ≡ m = cc in
        let e2 : q ≡ rest = cc in
        (
          p,
          splits ∙ ap (λ x. p ++ x) e2,
          sym size,
          ground arith,
          ground arith,
          wrap-eq-ok decode_failed (j.unmarshal p) decoded ∙ ap ok e1,
        )
  ]

  -- A stream from which a message is decoded begins with a frame of it: a length from 1 to 64 KiB, and as
  -- many bytes that decode to the message; what is left is behind them.
  pub decode_message_sound :
      (s : Bytes) (m : Message) (rest : Bytes)
      → decode_message j s ≡ ok (m, rest)
      → Framed j s m rest
  unfolding decode_message
  decode_message_sound s m rest e =
      let ((h, r), read, more) = bind-eq-ok (wrap read_length (read_full 4 s)) _ e in
      let (splits, size) = read_full-eq-ok 4 s h r (wrap-eq-ok read_length (read_full 4 s) read) in
      let (p, splits', n, pos, max, decodes) = decode_payload_sound (be_uint32 h) r m rest more in
      record {
        header = h;
        payload = p;
        splits = splits ∙ ap (λ x. h ++ x) splits';
        header_size = size;
        payload_size = n;
        size_pos = omega arith;
        size_max = omega arith;
        decodes = decodes;
      }

  frame_payload-eq-ok :
      (p d : Bytes)
      → frame_payload j p ≡ ok d
      → (d ≡ put_uint32 (length p) ++ p) × (length p ≤ max_payload_size)
  unfolding frame_payload
  frame_payload-eq-ok p d e = ground arith

  -- What `EncodeMessage` writes is a frame of the message, with any bytes behind it.
  pub encode_message-Framed :
      (m : Message) (d rest : Bytes)
      → IsText m
      → IsJson j
      → encode_message j m ≡ ok d
      → Framed j (d ++ rest) m rest
  unfolding encode_message
  encode_message-Framed m d rest good laws e =
      let (p, marshalled, framed) = bind-eq-ok (wrap encode_failed (j.marshal m)) _ e in
      let text = wrap-eq-ok encode_failed (j.marshal m) marshalled in
      let (whole, max) = frame_payload-eq-ok p d framed in
      let size = rw append-nil at (be_uint32-put_uint32 (length p) [] (omega arith)) in
      record {
        header = put_uint32 (length p);
        payload = p;
        splits = ap (λ x. x ++ rest) whole ∙ append_assoc (put_uint32 (length p)) p rest;
        header_size = unfold put_uint32 in refl;
        payload_size = size;
        size_pos = length_pos p (laws.marshal-ne-nil m p text);
        size_max = max;
        decodes = laws.unmarshal-marshal m p good text;
      }

  -- With a JSON that decodes what it encodes of well-formed strings, a message of such strings that could be
  -- encoded is read back from the stream that holds it, and the reader is left at the byte behind it.
  pub decode_message-encode_message :
      (m : Message) (d rest : Bytes)
      → IsText m
      → IsJson j
      → encode_message j m ≡ ok d
      → decode_message j (d ++ rest) ≡ ok (m, rest)
  decode_message-encode_message m d rest good laws e =
      decode_message_complete (d ++ rest) m rest (encode_message-Framed m d rest good laws e)

  -- No encoding is empty.
  abbrev pub NotEmpty : Type 0
  NotEmpty = (m : Message) (p : Bytes) → j.marshal m ≡ ok p → p ≢ []

  -- What `EncodeMessage` writes is a length and a payload of that length.
  pub encode_message-payload :
      (m : Message) (d : Bytes)
      → NotEmpty
      → encode_message j m ≡ ok d
      → (p : Bytes) × (d ≡ put_uint32 (length p) ++ p)
        × (0 < length p)
        × (length p ≤ max_payload_size)
  unfolding encode_message
  encode_message-payload m d laws e =
      let (p, marshalled, framed) = bind-eq-ok (wrap encode_failed (j.marshal m)) _ e in
      let (whole, max) = frame_payload-eq-ok p d framed in
      let text = wrap-eq-ok encode_failed (j.marshal m) marshalled in
      (p, whole, length_pos p (laws m p text), max)

  pub encode_message-pos :
      (m : Message) (d : Bytes) → NotEmpty → encode_message j m ≡ ok d → 0 < length d
  encode_message-pos m d laws e =
      let (p, whole, pos, max) = encode_message-payload m d laws e in
      omega (arith, ap (length {A = ℕ}) whole, length-append (put_uint32 (length p)) p)
