-- ===== src/Monitor/Lifecycle.antt =====
-- The life of a monitor under any sequence of calls.
use change_of_system.Base.{
  ◌≡◌, refl, sym, ◌∙◌, inl, inr, Bool, Bool-cases, true, false, List, [], ◌∷◌, ◌++◌, ℕ,
}
use change_of_system.Event.{Event}
use change_of_system.Monitor.{Monitor, Hook, on_start, on_stop, start, stop, on_event, emit}

-- One call of the interface, and any number of them.
pub data Step : Monitor → Monitor → Type 0 where
  starting : (m : Monitor) → Step m (start m).1
  stopping : (m : Monitor) → Step m (stop m).1
  listening : (cb : ℕ) (m : Monitor) → Step m (on_event cb m)
  emitting : (e : Event) (m : Monitor) → Step m (emit e m)

pub data Reaches (m : Monitor) : Monitor → Type 0 where
  here : Reaches m m
  then_step : {k l : Monitor} → Reaches m k → Step k l → Reaches m l

-- The hooks lead from `before` to `after`: a monitor that does not run is started, one that runs is
-- stopped.
abbrev pub Alternates : Bool → List Hook → Bool → Type 0
Alternates before [] after = before ≡ after
Alternates before (on_start ∷ hooks) after = (before ≡ false) × Alternates true hooks after
Alternates before (on_stop ∷ hooks) after = (before ≡ true) × Alternates false hooks after

Alternates-started :
    (b c : Bool) (hooks : List Hook)
    → Alternates b hooks c
    → c ≡ false
    → Alternates b (hooks ++ on_start ∷ []) true
Alternates-started b c [] h e = (h ∙ e, refl)
Alternates-started b c (on_start ∷ hooks) h e = (h.0, Alternates-started true c hooks h.1 e)
Alternates-started b c (on_stop ∷ hooks) h e = (h.0, Alternates-started false c hooks h.1 e)

Alternates-stopped :
    (b c : Bool) (hooks : List Hook)
    → Alternates b hooks c
    → c ≡ true
    → Alternates b (hooks ++ on_stop ∷ []) false
Alternates-stopped b c [] h e = (h ∙ e, refl)
Alternates-stopped b c (on_start ∷ hooks) h e = (h.0, Alternates-stopped true c hooks h.1 e)
Alternates-stopped b c (on_stop ∷ hooks) h e = (h.0, Alternates-stopped false c hooks h.1 e)

Step-Alternates :
    {m l : Monitor}
    → Step m l
    → Alternates false m.hooks m.running
    → Alternates false l.hooks l.running
unfolding start stop on_event emit
Step-Alternates (starting m) h = elim (Bool-cases m.running) [
  | inl runs ↦ rw runs (rw runs at h)
  | inr idle ↦ rw idle (Alternates-started false m.running m.hooks h idle)
]
Step-Alternates (stopping m) h = elim (Bool-cases m.running) [
  | inl runs ↦ rw runs (Alternates-stopped false m.running m.hooks h runs)
  | inr idle ↦ rw idle (rw idle at h)
]
Step-Alternates (listening cb m) h = h
Step-Alternates (emitting e m) h = h

-- Whatever calls are made to a monitor that is new, in any order, its derived class sees `on_start` and
-- `on_stop` by turns, `on_start` first, and the monitor runs exactly if the last one was `on_start`.
pub Reaches-Alternates :
    {m l : Monitor}
    → Reaches m l
    → m.hooks ≡ []
    → m.running ≡ false
    → Alternates false l.hooks l.running
Reaches-Alternates {m} here none_yet idle = rw none_yet (sym idle)
Reaches-Alternates (then_step r s) none_yet idle =
    Step-Alternates s (Reaches-Alternates r none_yet idle)
