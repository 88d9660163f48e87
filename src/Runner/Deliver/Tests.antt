-- ===== src/Runner/Deliver/Tests.antt =====
-- An upload whose file cannot be read to its end, on a shell that is logged in.
use drone_os.Base.{ℕ, none, some, [], ◌∷◌, Bytes, codes, length}
use drone_os.Runner.Session.{Turn, Session, Terminal}
use drone_os.Runner.Deliver.{Source, UploadOptions}

abbrev terminal : Terminal ℕ
terminal = record { cause = 110; write = λ sent line. (length line, none); mirror = none }

abbrev shown : Bytes → Turn ℕ
shown bytes = record { bytes = bytes; failure = none }

abbrev session : Session ℕ
session = record {
  recent = [];
  reads =
      shown (codes "pi@drone:~$ ")
      ∷ shown (codes "__READY__")
      ∷ shown (codes "__DRONEOS_UPLOAD_READY_7__")
      ∷ shown (codes "ignored")
      ∷ [];
  sent = [];
}

abbrev source : Source ℕ
source = record {
  pieces = codes "QUJD" ∷ codes "REVG" ∷ [];
  failure = some 5;
  last = codes "Rw==" ∷ [];
  digest = codes "00";
}

abbrev options : UploadOptions
options = record { user = codes "admin"; password = codes "secret"; remote = codes "/opt/app" }
