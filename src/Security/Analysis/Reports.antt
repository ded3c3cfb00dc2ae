-- ===== src/Security/Analysis/Reports.antt =====
-- What `process_event` of the auditor leaves in the history and gives to the callbacks.
use change_of_system.Base.{
  ℕ, ◌+◌, ◌^◌, ◌≤◌, ◌<◌, ◌≡◌, ◌∙◌, List, [], ◌∷◌, ◌++◌, map, arith, length, All,
}
use change_of_system.Event.{Event, EventCategory}
use change_of_system.Security.Types.{SecurityEvent, SecurityAuditor, Readings}
use change_of_system.Security.Auditor.{report_security_event}
use change_of_system.Security.Auditor.Reports.{IsValid, report_security_event-IsValid}
use change_of_system.Security.Analysis.{
  file_findings, process_findings, network_findings, system_findings, findings, report_all,
  process_event,
}

abbrev NoId : ℕ × SecurityEvent → Type 0
NoId d = d.1.id ≡ 0

-- The security events that were delivered carry no id.
abbrev pub Unnumbered : SecurityAuditor → Type 0
Unnumbered a = All NoId a.delivered

abbrev Blank : List (Readings × SecurityEvent) → Type 0
Blank fs = (length fs ≤ 2) × All (λ f. f.1.id ≡ 0) fs

findings-Blank : (now : ℕ → Readings) (e : Event) (c : EventCategory) → Blank (findings now e c)
unfolding findings file_findings process_findings network_findings system_findings
findings-Blank now e EventCategory.filesystem = ground arith
findings-Blank now e EventCategory.process = ground arith
findings-Blank now e EventCategory.network = ground arith
findings-Blank now e EventCategory.system_config = ground arith
findings-Blank now e EventCategory.hardware = (omega arith, tt)
findings-Blank now e EventCategory.system = (omega arith, tt)
findings-Blank now e EventCategory.unknown = (omega arith, tt)

All-append : {A : Type 0} (P : A → Type 0) (xs ys : List A) → All P xs → All P ys → All P (xs ++ ys)
All-append P [] ys h k = k
All-append P (x ∷ xs) ys h k = (h.0, All-append P xs ys h.1 k)

All-calls : (e : SecurityEvent) (cbs : List ℕ) → e.id ≡ 0 → All NoId (map (λ cb. (cb, e)) cbs)
All-calls e [] h = tt
All-calls e (cb ∷ cbs) h = (h, All-calls e cbs h)

report_all-IsValid :
    (fs : List (Readings × SecurityEvent)) (a : SecurityAuditor)
    → All (λ f. f.1.id ≡ 0) fs
    → IsValid a
    → Unnumbered a
    → a.next_event_id + length fs < 2 ^ 64
    → let b = report_all fs a in
      IsValid b × Unnumbered b × (b.next_event_id ≡ a.next_event_id + length fs)
unfolding report_all
report_all-IsValid [] a h v u room = (v, u, omega arith)
report_all-IsValid ((now, e) ∷ fs) a h v u room =
    let (v1, next, same, calls) = report_security_event-IsValid now e a v (omega arith) in
    let (v2, u2, n2) =
      report_all-IsValid fs (report_security_event now e a) h.1 v1
        (rw calls (
          All-append NoId a.delivered (map (λ cb. (cb, e)) a.callbacks) u
            (All-calls e a.callbacks h.0)))
        (omega (arith, next, room)) in
    (v2, u2, n2 ∙ omega (arith, next))

-- As long as the 64-bit ids do not run out, processing an event keeps at most 1000 security events,
-- whose ids rise strictly from 1 on and lie below the next id, and takes at most two new ids; yet
-- every security event that a callback gets has the id 0.
pub process_event-Unnumbered :
    (now : ℕ → Readings) (e : Event) (a : SecurityAuditor)
    → IsValid a
    → Unnumbered a
    → a.next_event_id + 2 < 2 ^ 64
    → let b = process_event now e a in
      IsValid b × Unnumbered b × (b.next_event_id ≤ a.next_event_id + 2)
unfolding process_event
process_event-Unnumbered now e a v u room =
    let (few, blank) = findings-Blank now e e.category in
    let (v', u', n') =
      report_all-IsValid (findings now e e.category) a blank v u (omega (arith, few, room)) in
    (v', u', omega (arith, few, n'))
