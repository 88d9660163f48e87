-- ===== src/Startup/Dispatch.antt =====
-- internal/utils/main.go and cmd/drone/main.go: the calls of sensors, control algorithms and motors by name,
-- with the types that reflection checks.
mod Tests
use drone_os.Base.{
  ◌≡◌, ◌≢◌, refl, sym, inl, inr, Bool-cases, ◌↔◌, arith, ℕ, suc, ◌+◌, ◌≤◌, leb, ◌&&◌, Bool, true,
  false, Option, none, some, List, [], ◌∷◌, length, if◌then◌else◌, Bytes, codes, text_eq,
  text_eq_iff, All, ◌==◌,
}
use drone_os.Protocol.Handlers.{find_function}

-- The types of the parameters and the arguments.
pub data GoType : Type 0 where
  context device_ptr config_ptr int_type mutex_ptr event_chan_ptr event_chans_ptr task_chan_ptr :
      GoType

type_code : GoType → ℕ
type_code context = 0
type_code device_ptr = 1
type_code config_ptr = 2
type_code int_type = 3
type_code mutex_ptr = 4
type_code event_chan_ptr = 5
type_code event_chans_ptr = 6
type_code task_chan_ptr = 7

-- Whether `reflect.Value.Call` takes the arguments.
accepts : List GoType → List GoType → Bool
unfolding type_code
accepts [] [] = true
accepts (t ∷ ts) (u ∷ us) = type_code t == type_code u && accepts ts us
accepts _ _ = false

pub data Called : Type 0 where
  not_found panics called : Called

-- The functions of a map, by the types of their parameters.
abbrev pub FuncMap : Type 0
FuncMap = List (Bytes × List GoType)

called_with : List GoType → Option (List GoType) → Called
unfolding accepts
called_with args none = not_found
called_with args (some params) = if accepts params args then called else panics

pub call_function_by_name : FuncMap → Bytes → List GoType → Called
unfolding called_with find_function
call_function_by_name func_map name inputs =
    called_with (context ∷ inputs) (find_function name func_map)

abbrev sensor_params : List GoType
sensor_params = context ∷ device_ptr ∷ event_chan_ptr ∷ []

abbrev pub sensor_func_map : FuncMap
sensor_func_map =
    (codes "frienda_obstacle_431S", context ∷ device_ptr ∷ event_chans_ptr ∷ [])
    ∷ (codes "GT_U7", sensor_params)
    ∷ (codes "HC_SR04", sensor_params)
    ∷ (codes "MPU_6050", sensor_params)
    ∷ []

abbrev control_params : List GoType
control_params = context ∷ config_ptr ∷ int_type ∷ mutex_ptr ∷ event_chan_ptr ∷ task_chan_ptr ∷ []

abbrev pub control_func_map : FuncMap
control_func_map =
    (codes "obstacle_avoidance", control_params) ∷ (codes "pilot", control_params) ∷ []

abbrev motor_params : List GoType
motor_params = context ∷ device_ptr ∷ task_chan_ptr ∷ []

abbrev pub motor_func_map : FuncMap
motor_func_map = (codes "hawks_work_ESC", motor_params) ∷ (codes "MG90S", motor_params) ∷ []

-- The call for a sensor.
pub start_sensor : Bytes → Called
unfolding call_function_by_name
start_sensor name = call_function_by_name sensor_func_map name (device_ptr ∷ event_chans_ptr ∷ [])

-- The call for a control algorithm.
pub start_control : Bytes → Called
unfolding call_function_by_name
start_control name =
    call_function_by_name control_func_map name
      (config_ptr ∷ int_type ∷ mutex_ptr ∷ event_chan_ptr ∷ task_chan_ptr ∷ [])

-- The call for a task.
pub start_motor : Bytes → Called
unfolding call_function_by_name
start_motor name = call_function_by_name motor_func_map name (config_ptr ∷ task_chan_ptr ∷ [])

-- Which control algorithms are called, each with its priority, for the number of the sensors' channels.
pub control_starts : ℕ → ℕ → List Bytes → List (ℕ × Bytes)
control_starts channels index [] = []
control_starts channels index (name ∷ names) =
    let rest = control_starts channels (index + 1) names in
    if leb channels index then rest else (index + 1, name) ∷ rest

control_called :
    (a b : Bool)
    → called_with
        (context ∷ config_ptr ∷ int_type ∷ mutex_ptr ∷ event_chan_ptr ∷ task_chan_ptr ∷ [])
        (if a then some control_params else if b then some control_params else none)
      ≢ panics
unfolding called_with accepts type_code
control_called true b = λ h. cc h
control_called false true = λ h. cc h
control_called false false = λ h. cc h

motor_called :
    (a b : Bool)
    → called_with
        (context ∷ config_ptr ∷ task_chan_ptr ∷ [])
        (if a then some motor_params else if b then some motor_params else none)
      ≢ called
unfolding called_with accepts type_code
motor_called true b = λ h. cc h
motor_called false true = λ h. cc h
motor_called false false = λ h. cc h

sensor_called :
    (a b c d : Bool)
    → (called_with (context ∷ device_ptr ∷ event_chans_ptr ∷ []) (
          if a
          then some (context ∷ device_ptr ∷ event_chans_ptr ∷ [])
          else if b
          then some sensor_params
          else if c
          then some sensor_params
          else if d
          then some sensor_params
          else none)
        ≡ called)
      ↔ (a ≡ true)
unfolding called_with accepts type_code
sensor_called true b c d = (λ h. refl, λ h. refl)
sensor_called false true c d = (λ h. absurd (cc h), λ h. absurd (cc h))
sensor_called false false true d = (λ h. absurd (cc h), λ h. absurd (cc h))
sensor_called false false false true = (λ h. absurd (cc h), λ h. absurd (cc h))
sensor_called false false false false = (λ h. absurd (cc h), λ h. absurd (cc h))

-- No call of a control algorithm by its name panics; a sensor is called only if its name is
-- frienda_obstacle_431S, and a motor never is.
pub start_types :
    (name : Bytes)
    → (start_control name ≢ panics)
      × ((start_sensor name ≡ called) ↔ (name ≡ codes "frienda_obstacle_431S"))
      × (start_motor name ≢ called)
unfolding start_control start_sensor start_motor find_function call_function_by_name
start_types name =
    let known = λ (k : Bytes). text_eq k name in
    let (there, back) =
      sensor_called (known (codes "frienda_obstacle_431S")) (known (codes "GT_U7"))
        (known (codes "HC_SR04")) (known (codes "MPU_6050")) in
    let (same, same') = text_eq_iff (codes "frienda_obstacle_431S") name in
    (
      control_called (known (codes "obstacle_avoidance")) (known (codes "pilot")),
      (λ h. sym (same (there h)), λ h. back (same' (sym h))),
      motor_called (known (codes "hawks_work_ESC")) (known (codes "MG90S")),
    )

-- A control algorithm that is called locks at a priority from 1 to the number of the sensors.
pub control_starts-priority :
    (channels index : ℕ) (names : List Bytes)
    → All (λ s. (1 ≤ s.0) × (s.0 ≤ channels)) (control_starts channels index names)
unfolding control_starts
control_starts-priority channels index [] = tt
control_starts-priority channels index (name ∷ names) = elim (Bool-cases (leb channels index)) [
  | inl e ↦ rw e (control_starts-priority channels (index + 1) names)
  | inr e ↦ rw e ((omega arith, ground arith), control_starts-priority channels (index + 1) names)
]
