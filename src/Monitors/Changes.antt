-- ===== src/Monitors/Changes.antt =====
-- The comparison of two maps that the monitors of environment_monitor.cpp, package_monitor.cpp and
-- process_monitor.cpp make, loop by loop, and the events that they emit for it.
pub mod Replay
pub mod Ordered
pub mod Calls
use change_of_system.Base.{
  ℕ, suc, Bool, List, [], ◌∷◌, ◌++◌, Option, none, some, Key, Dict, lookup, if◌then◌else◌,
}
use change_of_system.Event.{Event, Timestamp}
use change_of_system.Monitor.{Monitor, emit}

-- What one pass of a loop found.
pub data Change (K : Type 0) (V : Type 0) : Type 0 where
  appeared : K → V → Change K V
  vanished : K → V → Change K V
  altered : K → V → V → Change K V

module _ {K V : Type 0} ⦃o : Key K⦄ where
  abbrev pub if_new : K → V → Option V → List (Change K V) → List (Change K V)
  if_new k v none rest = appeared k v ∷ rest
  if_new k v (some w) rest = rest

  -- The first loop, over the current map.
  unfoldable pub appearances : Dict K V → Dict K V → List (Change K V)
  unfolding lookup
  appearances last [] = []
  appearances last ((k, v) ∷ current) = if_new k v (lookup k last) (appearances last current)

  abbrev pub if_gone : K → V → Option V → List (Change K V) → List (Change K V)
  if_gone k v none rest = vanished k v ∷ rest
  if_gone k v (some w) rest = rest

  -- The second loop, over the last map.
  unfoldable pub vanishings : Dict K V → Dict K V → List (Change K V)
  unfolding lookup
  vanishings current [] = []
  vanishings current ((k, v) ∷ last) = if_gone k v (lookup k current) (vanishings current last)

  -- The third loop, over the current map.
  module _ (differs : V → V → Bool) where
    abbrev pub if_altered : K → V → Option V → List (Change K V) → List (Change K V)
    if_altered k v none rest = rest
    if_altered k v (some w) rest = if differs w v then altered k w v ∷ rest else rest

    unfoldable pub alterations : Dict K V → Dict K V → List (Change K V)
    unfolding lookup
    alterations last [] = []
    alterations last ((k, v) ∷ current) = if_altered k v (lookup k last) (alterations last current)

    unfoldable pub changes : Dict K V → Dict K V → List (Change K V)
    unfolding appearances vanishings alterations
    changes last current =
        appearances last current ++ (vanishings current last ++ alterations last current)

-- Each event reads the clock when it is made; `clock i` is the reading of the event number i.
unfoldable pub rendered :
    {C : Type 0} → (Timestamp → C → Event) → (ℕ → Timestamp) → ℕ → List C → List Event
rendered render clock i [] = []
rendered render clock i (c ∷ cs) = render (clock i) c ∷ rendered render clock (suc i) cs

unfoldable pub emit_all : List Event → Monitor → Monitor
unfolding emit
emit_all [] m = m
emit_all (e ∷ es) m = emit_all es (emit e m)
