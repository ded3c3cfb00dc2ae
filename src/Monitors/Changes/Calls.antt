-- ===== src/Monitors/Changes/Calls.antt =====
-- The events that the callbacks of a monitor get.
use mathlib.Core.List.{append-nil, append_assoc, map-append}
use change_of_system.Base.{ℕ, ◌≡◌, refl, sym, ap, ◌∙◌, List, [], ◌∷◌, ◌++◌, map}
use change_of_system.Event.{Event}
use change_of_system.Monitor.{Monitor, emit}
use change_of_system.Monitors.Changes.{emit_all}

-- The events that the callbacks got.
abbrev pub event_of : ℕ × Event → Event
event_of call = call.1

abbrev pub events_of : Monitor → List Event
events_of m = map event_of m.delivered

pub callbacks-emit_all : (es : List Event) (m : Monitor) → (emit_all es m).callbacks ≡ m.callbacks
unfolding emit_all emit
callbacks-emit_all [] m = refl
callbacks-emit_all (e ∷ es) m = callbacks-emit_all es (emit e m)

events_of-emit :
    (cb : ℕ) (e : Event) (m : Monitor)
    → m.callbacks ≡ cb ∷ []
    → events_of (emit e m) ≡ events_of m ++ e ∷ []
unfolding emit
events_of-emit cb e m h =
    map-append event_of m.delivered (map (λ c. (c, e)) m.callbacks)
    ∙ ap (λ cs. events_of m ++ map event_of (map (λ c. (c, e)) cs)) h

pub events_of-emit_all :
    (cb : ℕ) (es : List Event) (m : Monitor)
    → m.callbacks ≡ cb ∷ []
    → events_of (emit_all es m) ≡ events_of m ++ es
unfolding emit_all
events_of-emit_all cb [] m h = sym (append-nil (events_of m))
events_of-emit_all cb (e ∷ es) m h =
    events_of-emit_all cb es (emit e m) (callbacks-emit_all (e ∷ []) m ∙ h)
    ∙ ap (λ xs. xs ++ es) (events_of-emit cb e m h)
    ∙ append_assoc (events_of m) (e ∷ []) es
