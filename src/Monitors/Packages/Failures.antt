-- ===== src/Monitors/Packages/Failures.antt =====
-- A poll that cannot ask the package manager.
use mathlib.Core.List.{append-nil, map-append}
use change_of_system.Base.{
  ℕ, suc, ◌≡◌, refl, ap, ◌∙◌, List, [], ◌∷◌, ◌++◌, Option, none, some, Text, Dict, text_key, codes,
  value_or, map, text_beq, text_less, insert, lookup,
}
use change_of_system.Config.Store.{insert_all}
use change_of_system.Monitors.Changes.Calls.{events_of, events_of-emit_all, callbacks-emit_all}
use change_of_system.Event.{Event, Timestamp}
use change_of_system.Monitors.Changes.{
  Change, appeared, vanished, changes, appearances, vanishings, alterations, rendered, emit_all,
}
use change_of_system.Monitors.Packages.{
  PackageInfo, PackageMonitor, version_differs, package_event, snapshot_packages, command_of,
  command_packages, poll,
}

-- Each package of the map as removed.
abbrev pub removals : Dict Text PackageInfo → List (Change Text PackageInfo)
removals [] = []
removals ((name, info) ∷ rest) = vanished name info ∷ removals rest

vanishings-removals : (last : Dict Text PackageInfo) → vanishings [] last ≡ removals last
unfolding vanishings lookup
vanishings-removals [] = refl
vanishings-removals ((name, info) ∷ rest) =
    ap (λ cs. vanished name info ∷ cs) (vanishings-removals rest)

-- Each package of the map as installed.
abbrev pub installs : Dict Text PackageInfo → List (Change Text PackageInfo)
installs [] = []
installs ((name, info) ∷ rest) = appeared name info ∷ installs rest

appearances-installs : (current : Dict Text PackageInfo) → appearances [] current ≡ installs current
unfolding appearances lookup
appearances-installs [] = refl
appearances-installs ((name, info) ∷ rest) =
    ap (λ cs. appeared name info ∷ cs) (appearances-installs rest)

alterations-nil : (current : Dict Text PackageInfo) → alterations version_differs [] current ≡ []
unfolding alterations lookup
alterations-nil [] = refl
alterations-nil ((name, info) ∷ rest) = alterations-nil rest

changes-removals : (last : Dict Text PackageInfo) → changes version_differs last [] ≡ removals last
unfolding changes appearances alterations
changes-removals last = append-nil (vanishings [] last) ∙ vanishings-removals last

changes-installs :
    (current : Dict Text PackageInfo) → changes version_differs [] current ≡ installs current
unfolding changes vanishings
changes-installs current =
    ap (λ cs. appearances [] current ++ cs) (alterations-nil current)
    ∙ append-nil (appearances [] current)
    ∙ appearances-installs current

abbrev pub no_pipe : Text → Option (List Text)
no_pipe command = none

snapshot_packages-no_pipe : (m : PackageMonitor) → snapshot_packages no_pipe m ≡ []
unfolding snapshot_packages
snapshot_packages-no_pipe m = no_packages (command_of m.package_manager)
  where
    no_packages : (command : Option Text) → command_packages no_pipe command ≡ []
    no_packages none = refl
    no_packages (some command) = refl

-- What a poll does that finds such changes.
abbrev pub reporting :
    (ℕ → Timestamp)
    → List (Change Text PackageInfo)
    → Dict Text PackageInfo
    → PackageMonitor
    → PackageMonitor × Dict Text PackageInfo
reporting clock cs current m =
    (record m { base = emit_all (rendered package_event clock 0 cs) m.base }, current)

poll-no_pipe :
    (clock : ℕ → Timestamp) (last : Dict Text PackageInfo) (m : PackageMonitor)
    → poll clock no_pipe last m ≡ reporting clock (removals last) [] m
unfolding poll
poll-no_pipe clock last m =
    ap (λ current. reporting clock (changes version_differs last current) current m)
      (snapshot_packages-no_pipe m)
    ∙ ap (λ cs. reporting clock cs [] m) (changes-removals last)

poll-first :
    (clock : ℕ → Timestamp) (run : Text → Option (List Text)) (m : PackageMonitor)
    → poll clock run [] m
      ≡ reporting clock (installs (snapshot_packages run m)) (snapshot_packages run m) m
unfolding poll
poll-first clock run m =
    ap (λ cs. reporting clock cs (snapshot_packages run m) m)
      (changes-installs (snapshot_packages run m))

reporting-twice :
    (clock clock' : ℕ → Timestamp) (run : Text → Option (List Text)) (last : Dict Text PackageInfo)
    (m : PackageMonitor)
    → poll clock' run (poll clock no_pipe last m).1 (poll clock no_pipe last m).0
      ≡ reporting clock'
          (installs (snapshot_packages run m))
          (snapshot_packages run m)
          (reporting clock (removals last) [] m).0
unfolding snapshot_packages
reporting-twice clock clock' run last m =
    ap (λ done. poll clock' run done.1 done.0) (poll-no_pipe clock last m)
    ∙ poll-first clock' run (reporting clock (removals last) [] m).0

-- What a reader sees of an event.
pub record Notice : Type 0 where
  pub target : Text
  pub action : Text
  pub summary : Text

abbrev pub notice : Event → Notice
notice e = record {
  target = e.target;
  action = value_or [] (lookup (codes "action") e.attributes);
  summary = e.summary;
}

abbrev pub removed : Text × PackageInfo → Notice
removed (name, info) = record {
  target = name;
  action = codes "remove";
  summary = codes "Package removed: " ++ name ++ codes " " ++ info.version;
}

abbrev pub installed : Text × PackageInfo → Notice
installed (name, info) = record {
  target = name;
  action = codes "install";
  summary = codes "Package installed: " ++ name ++ codes " " ++ info.version;
}

notices-removals :
    (clock : ℕ → Timestamp) (i : ℕ) (last : Dict Text PackageInfo)
    → map notice (rendered package_event clock i (removals last)) ≡ map removed last
unfolding rendered package_event lookup insert insert_all text_beq text_less
notices-removals clock i [] = refl
notices-removals clock i ((name, info) ∷ rest) =
    ap (λ ns. removed (name, info) ∷ ns) (notices-removals clock (suc i) rest)

notices-installs :
    (clock : ℕ → Timestamp) (i : ℕ) (current : Dict Text PackageInfo)
    → map notice (rendered package_event clock i (installs current)) ≡ map installed current
unfolding rendered package_event lookup insert insert_all text_beq text_less
notices-installs clock i [] = refl
notices-installs clock i ((name, info) ∷ rest) =
    ap (λ ns. installed (name, info) ∷ ns) (notices-installs clock (suc i) rest)

-- What a callback has seen of the events that it got.
abbrev pub seen : PackageMonitor → List Notice
seen m = map notice (events_of m.base)

seen-reporting :
    (cb : ℕ) (clock : ℕ → Timestamp) (cs : List (Change Text PackageInfo))
    (current : Dict Text PackageInfo) (m : PackageMonitor)
    → m.base.callbacks ≡ cb ∷ []
    → seen (reporting clock cs current m).0
      ≡ seen m ++ map notice (rendered package_event clock 0 cs)
seen-reporting cb clock cs current m h =
    ap (map notice) (events_of-emit_all cb (rendered package_event clock 0 cs) m.base h)
    ∙ map-append notice (events_of m.base) (rendered package_event clock 0 cs)

-- A poll that gets no pipe tells a callback that each package of the last snapshot was removed, and
-- the poll behind it that each package that it finds was installed, also those that were there all
-- the time: in the target, the action and the summary of the events, where there is one callback.
pub poll-poll-no_pipe :
    (cb : ℕ) (clock clock' : ℕ → Timestamp) (run : Text → Option (List Text))
    (last : Dict Text PackageInfo) (m : PackageMonitor)
    → m.base.callbacks ≡ cb ∷ []
    → seen (poll clock' run (poll clock no_pipe last m).1 (poll clock no_pipe last m).0).0
      ≡ (seen m ++ map removed last) ++ map installed (snapshot_packages run m)
poll-poll-no_pipe cb clock clock' run last m h =
    let lost = (reporting clock (removals last) [] m).0 in
    let current = snapshot_packages run m in
    ap (λ done. seen done.0) (reporting-twice clock clock' run last m)
    ∙ seen-reporting cb clock' (installs current) current lost
        (callbacks-emit_all (rendered package_event clock 0 (removals last)) m.base ∙ h)
    ∙ ap (λ ns. seen lost ++ ns) (notices-installs clock' 0 current)
    ∙ ap (λ ns. ns ++ map installed current)
        (seen-reporting cb clock (removals last) [] m h
          ∙ ap (λ ns. seen m ++ ns) (notices-removals clock 0 last))
