-- ===== src/Startup.antt =====
-- cmd/base/main.go and cmd/drone/main.go: what both programs do when they start.
pub mod Links
pub mod Gate
pub mod Preflight
pub mod Pings
pub mod Dispatch
use drone_os.Base.{
  ℕ, Bool, true, false, ◌||◌, Option, none, some, List, [], ◌∷◌, if◌then◌else◌, Bytes, codes,
  text_eq, trim_space, to_lower, equal_fold, Result, ok, err,
}
use drone_os.Protocol.Handlers.{find_function}
use drone_os.Config.{Radio}

-- The levels of zerolog.
pub data Level : Type 0 where
  trace debug info warn error fatal panic : Level

named_level : Bytes → List (Bytes × Level) → Level
named_level name [] = warn
named_level name ((k, l) ∷ ls) = if text_eq name k then l else named_level name ls

abbrev levels : List (Bytes × Level)
levels =
    (codes "panic", panic)
    ∷ (codes "fatal", fatal)
    ∷ (codes "error", error)
    ∷ (codes "warn", warn)
    ∷ (codes "warning", warn)
    ∷ (codes "info", info)
    ∷ (codes "debug", debug)
    ∷ (codes "trace", trace)
    ∷ []

-- `setLogLevel` of the base; that of the drone has the same text.
pub set_log_level : Bytes → Level
unfolding named_level
set_log_level level =
    let level' = trim_space level in
    named_level (to_lower (if text_eq level' [] then codes "warn" else level')) levels

-- A value that a driver's `Main` returns: a radio link or nil, an error, or something else.
pub data Output (L E : Type 0) : Type 0 where
  link_value : Option L → Output L E
  error_value : E → Output L E
  other_value : Output L E

pub data LinkError (E : Type 0) : Type 0 where
  unknown_driver unexpected_link : Bytes → LinkError E
  too_few_values : Bytes → LinkError E
  driver_failed : E → LinkError E

module _ {L E : Type 0} where
  expect_link : Bytes → Output L E → Result (LinkError E) (Option L)
  expect_link name (link_value (some l)) = ok (some l)
  expect_link name _ = err (unexpected_link name)

  read_outputs : Bytes → List (Output L E) → Result (LinkError E) (Option L)
  unfolding expect_link
  read_outputs name [] = err (too_few_values name)
  read_outputs name (a ∷ []) = err (too_few_values name)
  read_outputs name (a ∷ error_value e ∷ rest) = err (driver_failed e)
  read_outputs name (a ∷ _ ∷ rest) = expect_link name a

  called : Bytes → Option (Radio → List (Output L E)) → Radio → Result (LinkError E) (Option L)
  unfolding read_outputs
  called name none cfg = err (unknown_driver name)
  called name (some f) cfg = read_outputs name (f cfg)

  -- `initRadioLink` of the drone; that of the base has the same text. The drivers are those of
  -- `RadioFuncMap`.
  pub init_radio_link :
      List (Bytes × (Radio → List (Output L E))) → Bytes → Radio → Result (LinkError E) (Option L)
  unfolding called
  init_radio_link drivers name cfg =
      if text_eq (trim_space name) [] || equal_fold name (codes "none")
      then ok none
      else called name (find_function name drivers) cfg
