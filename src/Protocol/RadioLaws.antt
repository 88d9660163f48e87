-- ===== src/Protocol/RadioLaws.antt =====
-- How `ServeRadio` counts and logs the errors of its link.
use drone_os.Base.{suc, ◌+◌, ◌/◌, ◌≡◌, refl, false, some, List, [], ◌∷◌, arith, length, ap, ◌∙◌}
use drone_os.Protocol.Handlers.{HandlerJson}
use drone_os.Protocol.Server.{Round, Serving, radio_error, radio_receive, serve_radio}
use drone_os.Lora.{failed}

-- Rounds whose link fails, while the context is not done.
abbrev pub AllFail : {E : Type 0} → List (Round E) → Type 0
AllFail [] = Unit {0}
AllFail {E} (r ∷ rs) = (r.done ≡ false) × ((e : E) × (r.received ≡ failed e)) × AllFail rs

radio_error_warns :
    {P : Type 0} (s : Serving P)
    → (radio_error s).warnings + (s.consecutive_errors + 99) / 100
      ≡ s.warnings + (s.consecutive_errors + 1 + 99) / 100
unfolding radio_error
radio_error_warns s = ground arith

radio_error_counts :
    {P : Type 0} (s : Serving P)
    → ((radio_error s).consecutive_errors ≡ s.consecutive_errors + 1)
      × ((radio_error s).sent ≡ s.sent)
      × ((radio_error s).queue ≡ s.queue)
unfolding radio_error
radio_error_counts s = (refl, refl, refl)

module _ {E P : Type 0} (j : HandlerJson E P) where
  -- A run of rounds whose link fails, with the context not done, is counted, answers nothing, and warns on the first and then on each hundredth error:
  -- one warning is due for each hundred errors begun.
  pub serve_radio_errors :
      (rs : List (Round E)) (s : Serving P)
      → AllFail rs
      → (s' : Serving P) × (serve_radio j s rs ≡ some s')
        × (s'.consecutive_errors ≡ s.consecutive_errors + length rs)
        × (s'.warnings + (s.consecutive_errors + 99) / 100
            ≡ s.warnings + (s.consecutive_errors + length rs + 99) / 100)
        × (s'.sent ≡ s.sent)
        × (s'.queue ≡ s.queue)
  unfolding serve_radio radio_receive
  serve_radio_errors [] s h = (s, refl, omega arith, omega arith, refl, refl)
  serve_radio_errors (r ∷ rs) s (open_, (e, fails), later) =
      let (s', run, count, warned, sent, kept) = serve_radio_errors rs (radio_error s) later in
      let (one, sent', kept') = radio_error_counts s in
      let w = radio_error_warns s in
      let shift : (radio_error s).consecutive_errors + length rs + 99
          ≡ s.consecutive_errors + suc (length rs) + 99 =
        omega arith in
      let base : (radio_error s).consecutive_errors + 99 ≡ s.consecutive_errors + 1 + 99 =
        omega arith in
      (
        s',
        rw (open_, serve_radio) (rw (fails, radio_receive) run),
        omega arith,
        omega (arith, ap (λ x. x / 100) shift, ap (λ x. x / 100) base),
        sent ∙ sent',
        kept ∙ kept',
      )
