-- ===== src/Startup/Dispatch/Tests.antt =====
-- The name of a control algorithm.
use drone_os.Base.{◌≡◌, ◌≢◌, ◌↔◌, codes}
use drone_os.Startup.Dispatch.{
  panics, called, start_control, start_sensor, start_motor, start_types,
}

start_types_example :
    (start_control (codes "pilot") ≢ panics)
    × ((start_sensor (codes "pilot") ≡ called) ↔ (codes "pilot" ≡ codes "frienda_obstacle_431S"))
    × (start_motor (codes "pilot") ≢ called)
start_types_example = start_types (codes "pilot")
