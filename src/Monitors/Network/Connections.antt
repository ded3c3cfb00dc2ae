-- ===== src/Monitors/Network/Connections.antt =====
-- What a tick reports of the connections that it finds again.
use change_of_system.Base.{
  ℕ, ◌≡◌, refl, ap, ◌∙◌, true, List, [], ◌∷◌, ◌++◌, Bool-cases, inl, inr, Text, All, Option,
  contains, map, text_key,
}
use change_of_system.Event.{Timestamp}
use change_of_system.Monitors.Changes.{rendered, emit_all}
use change_of_system.Monitors.Network.{
  NetworkConnection, NetworkMonitor, others, make_key, opened, closed, snapshot_connections,
  connection_event, connection_events, tick,
}

-- Each key of the connections is among the keys.
abbrev pub Known : List Text → List NetworkConnection → Type 0
Known keys cs = All (λ c. contains keys (make_key c) ≡ true) cs

others-nil : (keys : List Text) (cs : List NetworkConnection) → Known keys cs → others keys cs ≡ []
unfolding others
others-nil keys [] h = refl
others-nil keys (c ∷ cs) h = rw h.0 (others-nil keys cs h.1)

-- A tick that finds the connections of the scan before reports nothing, whatever state they are in
-- now.
pub tick-same_keys :
    (platform hostname : Text) (clock : ℕ → Timestamp) (files : Text → Option (List Text))
    (m : NetworkMonitor)
    → Known (map make_key m.previous_connections) (snapshot_connections files)
    → Known (map make_key (snapshot_connections files)) m.previous_connections
    → (tick platform hostname clock files m).base ≡ m.base
unfolding tick emit_all connection_events rendered
tick-same_keys platform hostname clock files m h i = elim (Bool-cases m.first_scan) [
  | inl first ↦ rw first refl
  | inr later ↦ rw later (
      let current = snapshot_connections files in
      let before = m.previous_connections in
      let report = rendered (connection_event platform hostname) clock 0 in
      ap
        (λ cs.
          emit_all (report (map opened cs ++ map closed (others (map make_key current) before)))
            m.base)
        (others-nil (map make_key before) current h)
      ∙ ap (λ cs. emit_all (report (map closed cs)) m.base)
          (others-nil (map make_key current) before i))
]
