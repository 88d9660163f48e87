-- ===== src/Scan/Reporter/Delivered.antt =====
-- The report against the base's handler.
use drone_os.Base.{
  ◌≡◌, ◌≢◌, refl, ap, ◌∙◌, true, false, none, some, List, [], ◌∷◌, ◌++◌, ℤ, arith, Bytes, codes,
  decimal_ℤ, text_eq, text_eq_iff, is_utf8, utf8_from, behind_first, Result, ok,
}
use drone_os.Config.{Config}
use drone_os.Protocol.HandlerLaws.{IsHandlerJson}
use drone_os.Protocol.Codec.{encode_message}
use drone_os.Protocol.Report.{DeviceStateReport}
use drone_os.Protocol.Handlers.{
  ControllerCommand, HandlerJson, Wake, device_state, handle, run_device_state, find_function,
}
use drone_os.Protocol.Server.{tcp_handler}
use drone_os.Protocol.Transport.{Network}
use drone_os.Protocol.Exchange.{Handled, wifi_send-tcp_handler}
use drone_os.Scan.Detect.Values.{Value}
use drone_os.Scan.Probe.{World, collect_device_state}
use drone_os.Scan.Reporter.{answered, base_addr, report_message, report_round, send_report}

named_base : {V : Type 0} (settings : Config V) → text_eq (base_addr settings) [] ≡ false
unfolding text_eq
named_base settings = go settings.base.host
  where
    go : (host : Bytes) → text_eq (host ++ codes ":" ++ decimal_ℤ settings.base.port) [] ≡ false
    go [] = refl
    go (c ∷ host) = refl

module _ {E P : Type 0} (j : HandlerJson E P) (laws : IsHandlerJson j) where
  pub report-Handled :
      (id : ℤ) (p : Bytes) (r : DeviceStateReport) (q : List (ControllerCommand P)) (w : Wake)
      (d e : Bytes)
      → p ≢ []
      → j.unmarshal_report p ≡ ok r
      → encode_message j.messages (report_message id p) ≡ ok d
      → encode_message j.messages (report_message id (codes "ok")) ≡ ok e
      → Handled j (report_message id p) q w d (report_message id (codes "ok")) q e
  unfolding find_function text_eq handle run_device_state
  report-Handled id p r q w d e ne reads asks answers = record {
    handler = device_state;
    found = refl;
    encodes = asks;
    handles = ground (arith, reads, text_eq_iff p []);
    response_encodes = answers;
  }

  -- With a JSON that decodes what it encodes of well-formed strings, a report that is encoded to a
  -- well-formed text that is not empty and that the base can decode: if the base can be dialled and the network carries the bytes to
  -- `TCPHandler` and its answer back, a round of a connected drone ends with the base's answer `ok`,
  -- whatever waits in the base's queue.
  pub report_round-tcp_handler :
      {N F I G : Type 0} (net : Network N) (world : World F I G) (settings : Config (Value F))
      (marshal : DeviceStateReport → Result E Bytes) (p : Bytes) (r : DeviceStateReport)
      (q : List (ControllerCommand P)) (w : Wake) (d e : Bytes)
      → marshal (collect_device_state world (some settings)).0 ≡ ok p
      → is_utf8 p ≡ true
      → p ≢ []
      → j.unmarshal_report p ≡ ok r
      → encode_message j.messages (report_message settings.drone.id p) ≡ ok d
      → encode_message j.messages (report_message settings.drone.id (codes "ok")) ≡ ok e
      → net.dial (base_addr settings) ≡ none
      → ((a : Bytes) (s : List (ControllerCommand P))
          → tcp_handler j w d q ≡ some (some a, s)
          → net.exchange (base_addr settings) d ≡ ok a)
      → report_round j.messages marshal net world settings true
        ≡ answered (ok (report_message settings.drone.id (codes "ok")))
  unfolding report_round send_report
  report_round-tcp_handler net world settings marshal p r q w d e told utf8 ne reads asks answers up
        carries =
      let id = settings.drone.id in
      ap (send_report j.messages marshal net (base_addr settings) id) told
      ∙ ap answered (
          wifi_send-tcp_handler j laws (report_message id p) (report_message id (codes "ok")) q q w
            d e
            (record { cmd_utf8 = unfold is_utf8 utf8_from behind_first in refl; data_utf8 = utf8 })
            (report-Handled id p r q w d e ne reads asks answers) net (base_addr settings)
            (named_base settings) up carries)
