-- ===== src/Monitors/Environment/Following.antt =====
-- What the listeners of the monitor can tell from its events.
use change_of_system.Base.{
  ℕ, suc, ◌≡◌, refl, ap, ◌∙◌, ◌+◌, take, drop, find_text, lookup-insert, lookup-erase, List, [],
  ◌∷◌, ◌++◌, Option, none, some, Text, codes, Dict, insert, erase, lookup, value_or, text_key,
  text_beq, text_less, text_beq_iff, ◌==◌, if◌then◌else◌, arith,
}
use change_of_system.Config.Store.{insert_all}
use change_of_system.Event.{Event, Timestamp}
use change_of_system.Monitors.Changes.{Change, appeared, vanished, altered, changes, rendered}
use change_of_system.Monitors.Changes.Replay.{apply, replay, IsMap, kept, lookup-replay-changes}
use change_of_system.Monitors.Changes.Ordered.{Sorted, insert-Sorted, Sorted-IsMap}
use change_of_system.Monitors.Environment.{
  EnvironmentMonitor, value_differs, variable_event, variable_events, snapshot_environment,
  entries_from, put_entry,
}

-- What a listener that keeps a copy of the environment does with an event.
abbrev attribute : Text → Event → Text
attribute key e = value_or [] (lookup key e.attributes)

unfoldable pub follow : Event → Dict Text Text → Dict Text Text
unfolding lookup text_beq
follow e m =
    if attribute (codes "action") e == codes "set"
    then insert e.target (attribute (codes "value") e) m
    else if attribute (codes "action") e == codes "unset"
    then erase e.target m
    else insert e.target (attribute (codes "new_value") e) m

unfoldable pub follow_all : List Event → Dict Text Text → Dict Text Text
unfolding follow
follow_all [] m = m
follow_all (e ∷ es) m = follow_all es (follow e m)

follow-variable_event :
    (now : Timestamp) (c : Change Text Text) (m : Dict Text Text)
    → follow (variable_event now c) m ≡ apply c m
unfolding follow variable_event apply lookup insert insert_all text_beq text_less
follow-variable_event now (appeared k v) m = refl
follow-variable_event now (vanished k v) m = refl
follow-variable_event now (altered k v w) m = refl

follow_all-rendered :
    (clock : ℕ → Timestamp) (i : ℕ) (cs : List (Change Text Text)) (m : Dict Text Text)
    → follow_all (rendered variable_event clock i cs) m ≡ replay cs m
unfolding follow_all rendered replay
follow_all-rendered clock i [] m = refl
follow_all-rendered clock i (c ∷ cs) m =
    ap (follow_all (rendered variable_event clock (suc i) cs)) (follow-variable_event (clock i) c m)
    ∙ follow_all-rendered clock (suc i) cs (apply c m)

kept-value_differs : (old new : Option Text) → kept value_differs old new ≡ new
kept-value_differs none new = refl
kept-value_differs (some v) none = refl
kept-value_differs (some v) (some w) = ground (arith, text_beq_iff v w)

entries_from-Sorted :
    (m : EnvironmentMonitor) (environ : List Text) (result : Dict Text Text)
    → Sorted result
    → Sorted (entries_from m environ result)
unfolding entries_from
entries_from-Sorted m [] result h = h
entries_from-Sorted m (entry ∷ rest) result h =
    entries_from-Sorted m rest (put_entry m entry (find_text entry (codes "=")) result)
      (put_entry-Sorted (find_text entry (codes "=")))
  where
    put_entry-Sorted : (at : Option ℕ) → Sorted (put_entry m entry at result)
    put_entry-Sorted none = h
    put_entry-Sorted (some i) =
        ground (arith, h, insert-Sorted (take i entry) (drop (i + 1) entry) result h)

pub snapshot-IsMap :
    (m : EnvironmentMonitor) (environ : List Text) → IsMap (snapshot_environment m environ)
unfolding snapshot_environment
snapshot-IsMap m environ =
    Sorted-IsMap (entries_from m environ []) (entries_from-Sorted m environ [] tt)

-- A listener whose copy says the same as the last snapshot says the same as the next one.
lookup-follow :
    (j : Text) (e : Event) (d last : Dict Text Text)
    → ((k : Text) → lookup k d ≡ lookup k last)
    → lookup j (follow e d) ≡ lookup j (follow e last)
unfolding follow
lookup-follow j e d last h =
    let action = attribute (codes "action") e in
    let value = attribute (codes "value") e in
    let new = attribute (codes "new_value") e in
    grind (
      arith,
      h j,
      lookup-insert j e.target value d,
      lookup-insert j e.target value last,
      lookup-insert j e.target new d,
      lookup-insert j e.target new last,
      lookup-erase j e.target d,
      lookup-erase j e.target last,
    )

pub lookup-follow_all :
    (es : List Event) (j : Text) (d last : Dict Text Text)
    → ((k : Text) → lookup k d ≡ lookup k last)
    → lookup j (follow_all es d) ≡ lookup j (follow_all es last)
unfolding follow_all
lookup-follow_all [] j d last h = h j
lookup-follow_all (e ∷ es) j d last h =
    lookup-follow_all es j (follow e d) (follow e last) (λ k. lookup-follow k e d last h)

pub follow_all-append :
    (es fs : List Event) (m : Dict Text Text)
    → follow_all (es ++ fs) m ≡ follow_all fs (follow_all es m)
unfolding follow_all
follow_all-append [] fs m = refl
follow_all-append (e ∷ es) fs m = follow_all-append es fs (follow e m)

pub lookup-follow_all-events :
    (clock : ℕ → Timestamp) (j : Text) (last current : Dict Text Text)
    → IsMap current
    → lookup j (follow_all (variable_events clock last current) last) ≡ lookup j current
unfolding variable_events
lookup-follow_all-events clock j last current h =
    ap (lookup j) (follow_all-rendered clock 0 (changes value_differs last current) last)
    ∙ lookup-replay-changes value_differs j last current h
    ∙ kept-value_differs (lookup j last) (lookup j current)
