-- ===== src/Runner/Waits.antt =====
-- cmd/dev/pi_runner/main.go: `runWait` and `runLoopback`, with the marker that is made from the clock. The
-- goroutine that sends carriage returns while `runWait` waits is left out; `quoted` is what `%q` prints.
use drone_os.Base.{Option, none, some, [], ◌∷◌, ◌++◌, Bytes, codes, ok, err}
use drone_os.Runner.Session.{
  print_failed, at, Session, Terminal, Ran, expect, then_run, then_with, write_raw,
}

module _ {E : Type 0} (t : Terminal E) (print : Bytes → Option E) (quoted : Bytes → Bytes) where
  -- What is said on the standard error at the end.
  said : Bytes → Option E → Session E → Ran E (Unit {0})
  said text none s = (ok tt, s)
  said text (some e) s = (err (at text (print_failed e)), s)

  pub run_wait : Bytes → Session E → Ran E (Unit {0})
  unfolding expect then_with said
  run_wait marker s =
      then_with (codes "wait for " ++ quoted marker) (expect t (marker ∷ []) s) (λ text s.
        said (codes "write wait status") (print (codes "\nfound " ++ quoted marker ++ codes "\n"))
          s)

  pub run_loopback : Bytes → Session E → Ran E (Unit {0})
  unfolding expect then_run then_with said write_raw
  run_loopback marker s = then_run [] (write_raw t (codes "\r\n" ++ marker ++ codes "\r\n") s) (λ s.
      then_with (codes "loopback marker was not echoed; short adapter TX to RX and retry")
        (expect t (marker ∷ []) s)
        (λ text s.
          said (codes "write loopback status")
            (print (codes "\nserial loopback OK: " ++ marker ++ codes "\n")) s))
