-- ===== src/Engine/Starting.antt =====
-- Starting and stopping the engine.
use change_of_system.Base.{◌≡◌, refl, true, false, List, [], ◌∷◌, All, arith}
use change_of_system.Monitor.{Monitor, start, stop}
use change_of_system.Engine.{Engine, start_monitors, stop_monitors, start_all, stop_all}

abbrev pub Idle : List Monitor → Type 0
Idle = All (λ m. m.running ≡ false)

start_monitors-available :
    (ms : List Monitor) → Idle ms → All (λ m. m.running ≡ m.is_available) (start_monitors ms)
unfolding start_monitors start
start_monitors-available [] h = tt
start_monitors-available (m ∷ ms) h = (ground (arith, h.0), start_monitors-available ms h.1)

stop_monitors-Idle : (ms : List Monitor) → Idle (stop_monitors ms)
unfolding stop_monitors stop
stop_monitors-Idle [] = tt
stop_monitors-Idle (m ∷ ms) = (ground arith, stop_monitors-Idle ms)

-- Starting an engine that is not running, with its monitors idle, makes exactly the available
-- monitors run. Stopping it makes every monitor idle and closes the storage, and once it is started again the storage
-- is still closed.
pub start_all-stop_all :
    {P : Type 0} (g : Engine P)
    → g.running ≡ false
    → Idle g.monitors
    → let started = (start_all g).1 in
      let stopped = (stop_all started).1 in
      All (λ m. m.running ≡ m.is_available) started.monitors
      × Idle stopped.monitors
      × (stopped.running ≡ false)
      × ((start_all stopped).1.running ≡ true)
      × ((start_all stopped).1.storage_open ≡ false)
unfolding start_all stop_all
start_all-stop_all g off idle = rw off (
  start_monitors-available g.monitors idle,
  stop_monitors-Idle (start_monitors g.monitors),
  refl,
  refl,
  refl,
)
