-- ===== src/Monitors/Processes/Ticks.antt =====
-- What a tick reports and what it does not.
use change_of_system.Base.{
  ℕ, ◌≡◌, refl, ap, ◌∙◌, true, List, [], ◌∷◌, ◌++◌, Bool-cases, inl, inr, Text, Dict, nat_key,
  lookup, arith,
}
use change_of_system.Event.{Timestamp}
use change_of_system.Monitors.Changes.{rendered, emit_all}
use change_of_system.Monitors.Changes.Replay.{is_some}
use change_of_system.Monitors.Processes.{
  ProcessInfo, ProcessMonitor, by_pid, starts, stops, process_events, process_event, tick,
}

-- Every process id of the one map is one of the other.
abbrev pub Covers : Dict ℕ ProcessInfo → Dict ℕ ProcessInfo → Type 0
Covers m xs = (pid : ℕ) → is_some (lookup pid xs) ≡ true → is_some (lookup pid m) ≡ true

Covers-tail : (m xs : Dict ℕ ProcessInfo) (e : ℕ × ProcessInfo) → Covers m (e ∷ xs) → Covers m xs
unfolding lookup
Covers-tail m xs e h = λ pid seen. h pid (ground (arith, seen))

Covers-head :
    (m xs : Dict ℕ ProcessInfo) (pid : ℕ) (info : ProcessInfo)
    → Covers m ((pid, info) ∷ xs)
    → is_some (lookup pid m) ≡ true
unfolding lookup
Covers-head m xs pid info h = h pid (ground (arith, nat_key.equals_iff pid pid))

starts-nil : (prev xs : Dict ℕ ProcessInfo) → Covers prev xs → starts prev xs ≡ []
unfolding starts
starts-nil prev [] h = refl
starts-nil prev ((pid, info) ∷ xs) h =
    grind (
      arith,
      Covers-head prev xs pid info h,
      starts-nil prev xs (Covers-tail prev xs (pid, info) h),
    )

stops-nil : (current xs : Dict ℕ ProcessInfo) → Covers current xs → stops current xs ≡ []
unfolding stops
stops-nil current [] h = refl
stops-nil current ((pid, info) ∷ xs) h = grind (
  arith,
  Covers-head current xs pid info h,
  stops-nil current xs (Covers-tail current xs (pid, info) h),
)

process_events-nil :
    (platform hostname : Text) (clock : ℕ → Timestamp) (prev current : Dict ℕ ProcessInfo)
    → Covers prev current
    → Covers current prev
    → process_events platform hostname clock prev current ≡ []
unfolding process_events rendered
process_events-nil platform hostname clock prev current h i =
    ap (λ cs. rendered (process_event platform hostname) clock 0 (cs ++ stops current prev))
      (starts-nil prev current h)
    ∙ ap (rendered (process_event platform hostname) clock 0) (stops-nil current prev i)

-- A tick that finds the process ids of the scan before reports nothing, whatever processes have them
-- now.
pub tick-same_pids :
    (platform hostname : Text) (clock : ℕ → Timestamp) (current : List ProcessInfo)
    (m : ProcessMonitor)
    → Covers m.previous (by_pid current [])
    → Covers (by_pid current []) m.previous
    → (tick platform hostname clock current m).base ≡ m.base
unfolding tick emit_all
tick-same_pids platform hostname clock current m h i = elim (Bool-cases m.first_scan) [
  | inl first ↦ rw first refl
  | inr later ↦ rw later (
      ap (λ es. emit_all es m.base)
        (process_events-nil platform hostname clock m.previous (by_pid current []) h i))
]
