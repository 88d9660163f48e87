-- ===== src/Lib.antt =====
-- droneOS: a drone and its base on the ground, which talk over WiFi or LoRa radio.
--
-- The drone asks the base for commands and reports its devices; the base answers. A message is a length of
-- four bytes and a JSON text. Over WiFi it goes through a TCP connection, over radio through a serial port
-- whose bytes arrive in pieces and have to be cut into frames again. On the drone, control algorithms share
-- the motors under a mutex with priorities, a part of the work may run under real-time scheduling, and pins
-- that the settings name are resolved to lines of GPIO chips. A tool for development drives the drone's
-- shell over a serial line.
--
-- The files, and the code that each is about (paths from the root of the repository):
--   Lora            internal/drivers/radio/SX1262/main.go. `LoRaHat` is the struct `LoRaHAT` with its array and
--                   the two indices; `next_frame`, `compact_receive_buffer`, `receive` are the methods. Parse has
--                   the frames of a byte stream with no buffer, Refine relates the array to it, Stream is about
--                   one call of `Receive`, Chunks about many calls; Device is the choice of the serial device, Hat
--                   the opening and closing of the HAT (`NewLoRaHAT`, `Main`, `Send`, `Close`), Held what it
--                   holds.
--   Protocol        internal/protocol. Codec: codec.go; Handlers and Report: the handlers of `FuncMap`, with
--                   `find_function` for internal/utils/main.go; Server: `TCPHandler` and `ServeRadio`; Transport:
--                   transport.go and `CheckWiFi`. HandlerLaws, Exchange, RadioLaws, Failover, Frames, Ping
--                   and RadioExchange prove what the parts do together;
--                   Pair is a JSON for the tests.
--   Control         internal/drone/control/main.go. `PriorityMutex`: Order is about one `Unlock`, Exclusion about
--                   any interleaving of calls.
--   Realtime        internal/realtime/realtime_linux.go. The configuration; Runtime: `Prepare` and `Run`; Restore
--                   and Restored: what `Run` keeps; Granted: what a setup that succeeds has set; Kernel: the
--                   detection of a real-time kernel.
--   Config          internal/config/config.go: the types of the settings.
--   Gpio            internal/drivers/gpio. layout.go, with its laws in Resolved; Validate: `InspectPins` and
--                   `ValidatePins` of validate.go; Lines: `lineReqOptions`.
--   Controller      internal/controller/xbox360.go: `xbox360_interface` with its searches, reads and clamping
--                   of axes, and from cmd/base/main.go the loop (`pump`) into the command queue.
--   Scan            internal/drone. Usb and Lines: the scans of device_scan.go; Detect: device_detect.go and
--                   i2c_probe.go, with Values for the values of the settings and I2c for the bus; Configured: what
--                   a number of the settings is; Probe: the configured devices and the report, Inspected
--                   when their pins have no error; Reporter: device_reporter.go.
--   Runner          cmd/dev/pi_runner/main.go: the buffer of serial output, shell words, and Upload, the line
--                   writer of uploads; Session: writing, waiting for texts and logging in; Status: the exit
--                   status in the output; Exec: `runExec`; Options: `parseFlags` and the environment, with
--                   the laws in Checked; Waits: `runWait` and `runLoopback`; Console: what the console
--                   copies; Deliver: `runUploadWithToken`, with what it leaves behind in Cleaned.
--   Pollers         cmd/drone/main.go: the loops that check the WiFi and ask for commands.
--   Startup         cmd/base/main.go and cmd/drone/main.go: log level and radio link; Gate: the real-time
--                   checks; Preflight: the log of the pins; Pings: the loop of radio pings; Dispatch: the
--                   calls by reflection of internal/utils/main.go, with the types that it checks.
--   Base            shared helpers. Each Tests module applies the theorems to concrete inputs.
--
-- State is passed on explicitly: a serial port, a transport, an operating system is a function that takes
-- and gives a state of its own type. Errors are values; an error that Go wraps keeps what it wraps. Machine
-- integers are written out where they wrap (`to_uint32`) or are bounded (`atoi`, 64 bits); array indices
-- stay below 2 ^ 17, so that their sums do not overflow.
--
-- Fuel: `next_frame` makes one round for each byte held and one more, `write_all` and `write_text` one for
-- each byte and one or two more, the search of the exit status one for each byte of the output and one
-- more; the theorems about them say that this is enough. The other loops run over a list of rounds, which
-- stands for what the clock and the peers do; where a context has a timeout, it is done at its end.
--
-- Parameters, with what is asked of them: encoding/json (`Json`, `IsJson`, `IsHandlerJson`: a message whose
-- strings are well-formed UTF-8 and that was encoded is decoded to itself, what is decoded or encoded is
-- well-formed, and no encoding is empty), the scheduling calls of Linux (`SystemCalls`, `IsKernel`: what was
-- read of a thread can be set again, though a call may set less than it was asked for),
-- go-gpiocdev, xpad-go, package flag, the network, the file system and sysfs, the I2C bus, the destination of
-- an upload (`IsSink`), the encoding of its file and its digest, the parsing of durations, the parsing of
-- numbers in the values of a device, and the texts of wrapped errors.
--
-- Not modelled: logging but for the preflight of pins, the durations of pauses, the YAML and environment
-- files, the order in which the mains start their goroutines, the goroutines of the console
-- and the poke of the serial runner, the search of its devices, the making of its tokens, and the drivers and
-- control algorithms that are stubs. Texts of the settings are taken to be ASCII, for `ToLower` and
-- `TrimSpace`. Integers of the settings are unbounded in the types.
pub mod Base
pub mod Lora
pub mod Protocol
pub mod Control
pub mod Realtime
pub mod Config
pub mod Gpio
pub mod Controller
pub mod Scan
pub mod Runner
pub mod Pollers
pub mod Startup
