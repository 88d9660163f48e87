-- ===== src/Protocol.antt =====
-- internal/protocol: the messages between drone and base, their frames, and the base's handlers.
pub mod Codec
pub mod Report
pub mod Handlers
pub mod HandlerLaws
pub mod Server
pub mod Transport
pub mod Exchange
pub mod RadioLaws
pub mod Failover
pub mod Frames
pub mod Ping
pub mod RadioExchange
pub mod Pair
mod Tests
use drone_os.Base.{ℤ, Bytes, Result, List, ℕ, ◌≡◌, ◌≢◌, [], ok, true, is_utf8}

pub record Message : Type 0 where
  pub id : ℤ
  pub cmd : Bytes
  pub data_text : Bytes

-- `json.Marshal` and `json.Unmarshal` on messages, with the errors that they report.
pub record Json (E : Type 0) : Type 0 where
  pub marshal : Message → Result E Bytes
  pub unmarshal : Bytes → Result E Message

-- A message whose strings are well-formed UTF-8.
pub record IsText (m : Message) : Type 0 where
  pub cmd_utf8 : is_utf8 m.cmd ≡ true
  pub data_utf8 : is_utf8 m.data_text ≡ true

-- What encoding/json documents: a message that was encoded is decoded to itself where its strings are
-- well-formed (bytes that are not are replaced), what is decoded is well-formed, and no encoding is empty.
pub record IsJson {E : Type 0} (j : Json E) : Type 0 where
  pub unmarshal-marshal :
      (m : Message) (p : Bytes) → IsText m → j.marshal m ≡ ok p → j.unmarshal p ≡ ok m
  pub unmarshal-IsText : (m : Message) (p : Bytes) → j.unmarshal p ≡ ok m → IsText m
  pub marshal-ne-nil : (m : Message) (p : Bytes) → j.marshal m ≡ ok p → p ≢ []
