-- ===== src/Engine/Recent.antt =====
-- The recent events, of which the engine keeps the last ones.
use change_of_system.Base.{
  ℕ, zero, suc, ◌+◌, ◌-◌, ◌≤◌, ◌≡◌, refl, sym, ap, ◌∙◌, Bool, true, false, List, [], ◌∷◌, ◌++◌,
  length, length-append, length-drop, drop, arith, if◌then◌else◌,
}
use mathlib.Core.List.{append-nil, append_assoc}
use change_of_system.Event.{Event}
use change_of_system.Engine.{max_recent_events, push_recent}

pub push_recent_bound :
    (e : Event) (es : List Event) → length (push_recent e es) ≤ max_recent_events
unfolding push_recent
push_recent_bound e es =
    omega (arith, length-drop (length (es ++ e ∷ []) - max_recent_events) (es ++ e ∷ []))

-- The last entries that the engine keeps.
abbrev pub latest : List Event → List Event
latest es = drop (length es - max_recent_events) es

drop-append : (k : ℕ) (es fs : List Event) → k ≤ length es → drop k (es ++ fs) ≡ drop k es ++ fs
drop-append zero es fs h = refl
drop-append (suc k) [] fs h = absurd (omega arith)
drop-append (suc k) (e ∷ es) fs h = drop-append k es fs (omega arith)

drop-nil : (n : ℕ) → drop {A = Event} n [] ≡ []
drop-nil zero = refl
drop-nil (suc n) = refl

drop-drop : (j k : ℕ) (es : List Event) → drop j (drop k es) ≡ drop (k + j) es
drop-drop j zero es = ap (λ n. drop n es) (omega arith)
drop-drop j (suc k) [] = drop-nil j ∙ sym (drop-nil (suc k + j))
drop-drop j (suc k) (e ∷ es) =
    let next : suc (k + j) ≡ suc k + j = omega arith in
    drop-drop j k es ∙ ap (λ n. drop n (e ∷ es)) next

pub latest-append : (es fs : List Event) → latest (latest es ++ fs) ≡ latest (es ++ fs)
latest-append es fs =
    ap (λ l. drop (length (latest es ++ fs) - max_recent_events) l)
      (sym (drop-append (length es - max_recent_events) es fs (omega arith)))
    ∙ drop-drop (length (latest es ++ fs) - max_recent_events) (length es - max_recent_events)
        (es ++ fs)
    ∙ ap (λ n. drop n (es ++ fs))
        (omega (
          arith,
          length-append (latest es) fs,
          length-append es fs,
          length-drop (length es - max_recent_events) es,
        ))

pub latest-short : (es : List Event) → length es ≤ max_recent_events → latest es ≡ es
latest-short es h =
    let few : length es - max_recent_events ≡ 0 = omega arith in ap (λ n. drop n es) few

pub if_appended-nil : (b : Bool) (es : List Event) → es ≡ (if b then es ++ [] else es)
if_appended-nil true es = sym (append-nil es)
if_appended-nil false es = refl

pub if_appended-append :
    (b : Bool) (q es fs : List Event)
    → (if b then (if b then q ++ es else q) ++ fs else (if b then q ++ es else q))
      ≡ (if b then q ++ (es ++ fs) else q)
if_appended-append true q es fs = append_assoc q es fs
if_appended-append false q es fs = refl

pub if_first-append :
    (b : Bool) (e : Event) (es : List Event)
    → (if b then e ∷ [] else []) ++ es ≡ (if b then e ∷ es else es)
if_first-append true e es = refl
if_first-append false e es = refl
