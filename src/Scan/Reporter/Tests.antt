-- ===== src/Scan/Reporter/Tests.antt =====
-- A base that takes the report of a drone with no devices.
use drone_os.Base.{
  ◌≡◌, refl, sym, ap, ◌∙◌, ℕ, pos, true, false, some, none, List, [], ◌∷◌, Bytes, codes, text_eq,
  put_uint32, is_utf8, utf8_from, behind_first, ok, err,
}
use drone_os.Config.{Config, Radio}
use drone_os.Protocol.{Message, IsText}
use drone_os.Protocol.HandlerLaws.{IsHandlerJson}
use drone_os.Protocol.Pair.{message_eq, marshal, two_messages, two_messages-IsJson}
use drone_os.Protocol.Codec.{encode_message, frame_payload}
use drone_os.Protocol.Report.{DeviceStateReport}
use drone_os.Protocol.Handlers.{ControllerCommand, HandlerJson, cancelled}
use drone_os.Protocol.Server.{tcp_handler}
use drone_os.Protocol.Transport.{Network}
use drone_os.Protocol.Exchange.{tcp_handler-Handled}
use drone_os.Scan.Detect.Values.{Value}
use drone_os.Scan.Probe.{World}
use drone_os.Scan.Reporter.{answered, base_addr, report_message, report_round}
use drone_os.Scan.Reporter.Delivered.{report-Handled, report_round-tcp_handler}

abbrev sent : Message
sent = report_message (pos 1) (5 ∷ [])

abbrev accepted : Message
accepted = report_message (pos 1) (codes "ok")

abbrev empty_report : DeviceStateReport
empty_report = record {
  drone_id = pos 1;
  timestamp = pos 100;
  usb = record { devices = [] };
  gpio = [];
  devices = [];
  errors = [];
}

abbrev handlers : HandlerJson ℕ ℕ
handlers = record {
  messages = two_messages sent accepted;
  marshal_command = λ c. err 1;
  unmarshal_ack = λ b. err 1;
  unmarshal_report = λ b. ok empty_report;
}

abbrev radio : Radio
radio = record {
  name = codes "none";
  always_use = false;
  pins = [];
  usb_id = [];
  usb_scan = false;
  uart_device = [];
}

abbrev settings : Config (Value ℕ)
settings = record {
  base = record {
    host = codes "base";
    port = pos 80;
    controller = [];
    radio = radio;
    log_level = [];
  };
  drone = record {
    id = pos 1;
    radio = radio;
    always_use_radio = false;
    sensors = [];
    outputs = [];
    control_algorithm_priority = [];
    gpio_layout = [];
    enable_logging = false;
    log_level = [];
  };
}

abbrev world : World ℕ ℕ ℕ
world = record {
  sysfs = record { read_dir = λ path. err 2; read_file = λ path. none; read_link = λ path. none };
  scan = record {
    chips = [];
    new_chip = λ chip. none;
    lines = λ chip. 0;
    line_info = λ chip offset. err 1;
  };
  lines = record {
    new_chip = λ chip. some 13;
    line_info = λ chip offset. err 5;
    request_line = λ chip offset options. none;
  };
  probing = record {
    numbers = record { float_to_int = λ f. pos f; parse_int = λ s. none };
    bus = record {
      open_bus = λ path. some 2;
      select = λ calls addr. none;
      write_byte = λ calls reg. none;
      read_byte = λ calls. err 5;
    };
    i2c_text = λ e. codes "i2c";
    stat = λ path. ok true;
  };
  now = pos 100;
  gpio_text = λ e. codes "gpio";
  text = λ e. codes "failed";
}

abbrev asked : Bytes
asked = 0 ∷ 0 ∷ 0 ∷ 1 ∷ 1 ∷ []

abbrev reply : Bytes
reply = 0 ∷ 0 ∷ 0 ∷ 1 ∷ 2 ∷ []

abbrev network : Network ℕ
network = record { dial = λ a. none; exchange = λ a d. ok reply }

sent-IsText : IsText sent
sent-IsText = record {
  cmd_utf8 = unfold is_utf8 utf8_from behind_first in refl;
  data_utf8 = unfold is_utf8 utf8_from behind_first in refl;
}

accepted-IsText : IsText accepted
accepted-IsText = record {
  cmd_utf8 = unfold is_utf8 utf8_from behind_first in refl;
  data_utf8 = unfold is_utf8 utf8_from behind_first in refl;
}

handlers-IsHandlerJson : IsHandlerJson handlers
handlers-IsHandlerJson = record {
  messages = two_messages-IsJson sent accepted sent-IsText accepted-IsText;
  commands_utf8 = λ c p h. cc;
}

asked-encodes : encode_message handlers.messages sent ≡ ok asked
unfolding encode_message frame_payload put_uint32 marshal message_eq text_eq
asked-encodes = refl

reply-encodes : encode_message handlers.messages accepted ≡ ok reply
unfolding encode_message frame_payload put_uint32 marshal message_eq text_eq
reply-encodes = refl

carries :
    (a : Bytes) (s : List (ControllerCommand ℕ))
    → tcp_handler handlers cancelled asked [] ≡ some (some a, s)
    → network.exchange (base_addr settings) asked ≡ ok a
carries a s h =
    let laws = handlers-IsHandlerJson in
    let request =
      report-Handled handlers laws (pos 1) (5 ∷ []) empty_report [] cancelled asked reply (λ z. cc)
        refl asked-encodes reply-encodes in
    let e =
      tcp_handler-Handled handlers laws sent accepted [] [] cancelled asked reply sent-IsText
        request in
    let same : reply ≡ a = cc (sym e ∙ h) in ap ok same

report_round-tcp_handler_example :
    report_round handlers.messages (λ r. ok (5 ∷ [])) network world settings true
    ≡ answered (ok accepted)
report_round-tcp_handler_example =
    report_round-tcp_handler handlers handlers-IsHandlerJson network world settings
      (λ r. ok (5 ∷ [])) (5 ∷ []) empty_report [] cancelled asked reply refl
      (unfold is_utf8 utf8_from behind_first in refl) (λ z. cc) refl asked-encodes reply-encodes
      refl carries
