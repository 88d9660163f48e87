-- ===== src/Runner/Status/Tests.antt =====
-- The end of the output of a command.
use drone_os.Base.{◌≡◌, refl, arith, pos, some, [], ◌∷◌, codes, decimal, digits}
use drone_os.Runner.Session.{carriage_return, starts_with}
use drone_os.Runner.Status.{newline, find_behind, behind, exit_status_in}
use drone_os.Runner.Status.Reported.{exit_status_in-decimal}

exit_status_in-decimal_example :
    exit_status_in (codes "EXIT:") (codes "done\nEXIT:127\r\n") ≡ some (pos 127)
exit_status_in-decimal_example =
    exit_status_in-decimal (codes "EXIT:") (codes "done\nEXIT:127\r\n") (newline ∷ []) 127
      carriage_return (omega arith) refl
      (unfold find_behind behind starts_with decimal digits in refl)
