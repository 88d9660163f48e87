-- ===== src/Protocol/Frames.antt =====
-- The codec's messages are the frames that the LoRa receiver cuts.
use drone_os.Base.{
  ◌+◌, ◌*◌, ◌≤◌, ◌<◌, ◌≡◌, refl, ap, ◌∙◌, some, ◌++◌, append_assoc, arith, Bytes, length,
  length-append, take-append_length, drop-append_length, be_uint32, put_uint32,
  be_uint32-put_uint32, ok, false,
}
use drone_os.Protocol.{Message, Json}
use drone_os.Protocol.Codec.{NotEmpty, encode_message, encode_message-payload}
use drone_os.Lora.{bad_length}
use drone_os.Lora.Parse.{parse, parse_frame}

put_uint32-frame :
    (p rest : Bytes)
    → 0 < length p
    → length p ≤ 64 * 1024
    → parse ((put_uint32 (length p) ++ p) ++ rest) ≡ (some (put_uint32 (length p) ++ p), rest)
unfolding bad_length
put_uint32-frame p rest pos max =
    let n = length p in
    let d = put_uint32 n ++ p in
    let four : length (put_uint32 n) ≡ 4 = unfold put_uint32 in refl in
    let field : be_uint32 (d ++ rest) ≡ n =
      ap be_uint32 (append_assoc (put_uint32 n) p rest)
      ∙ be_uint32-put_uint32 n (p ++ rest) (omega arith) in
    let size : 4 + n ≡ length d = omega (arith, length-append (put_uint32 n) p) in
    let good : bad_length (be_uint32 (d ++ rest)) ≡ false = rw field (ground arith) in
    parse_frame (d ++ rest) good (omega (arith, length-append d rest))
    ∙ rw field
        (rw (take-append_length (4 + n) d rest size, drop-append_length (4 + n) d rest size) refl)

-- With a JSON whose encodings are not empty, an encoded message in front of any bytes is the frame that the
-- LoRa receiver cuts from them.
pub parse-encode_message :
    {E : Type 0} (j : Json E) (m : Message) (d rest : Bytes)
    → NotEmpty j
    → encode_message j m ≡ ok d
    → parse (d ++ rest) ≡ (some d, rest)
parse-encode_message j m d rest laws e =
    let (p, whole, pos, max) = encode_message-payload j m d laws e in
    rw whole (put_uint32-frame p rest pos max)
