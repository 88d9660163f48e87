-- ===== src/Runner/Exec/Tests.antt =====
-- A command that fails on a shell that is logged in.
use drone_os.Base.{ℕ, none, [], ◌∷◌, Bytes, codes, length}
use drone_os.Runner.Session.{Turn, Session, Terminal}
use drone_os.Runner.Exec.{ExecOptions}

abbrev terminal : Terminal ℕ
terminal = record { cause = 110; write = λ sent line. (length line, none); mirror = none }

abbrev shown : Bytes → Turn ℕ
shown bytes = record { bytes = bytes; failure = none }

abbrev session : Session ℕ
session = record {
  recent = [];
  reads =
      shown (codes "pi@drone:~$ ")
      ∷ shown (codes "__READY__")
      ∷ shown (codes "__DRONEOS_EXEC_READY_7__")
      ∷ shown (codes "no such file\n__DRONEOS_CMD_7__EXIT:")
      ∷ shown (codes "2\r\n")
      ∷ [];
  sent = [];
}

abbrev options : ExecOptions
options = record { user = codes "admin"; password = codes "secret"; command = codes "ls nothing" }
