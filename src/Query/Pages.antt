-- ===== src/Query/Pages.antt =====
-- What a query prints and returns.
use Prim.Native.Nat.{min}
use change_of_system.Base.{
  ℕ, ◌+◌, ◌-◌, ◌≤◌, ◌<◌, ◌⊎◌, ◌↔◌, has_text, to_lower, is_empty, ◌==◌, not, ◌&&◌, ◌≡◌, refl, sym,
  ap, ◌∙◌, Bool, true, false, List, [], ◌∷◌, All, length, length-drop, select, take, drop, take-all,
  drop-all, count_if, leb, arith, Bool-cases, inl, inr, if◌then◌else◌, Text,
}
use change_of_system.Base.Int.{ℤ, pos, pos_part, ltb_ℤ, ◌≤ℤ◌, int_of-pos}
use change_of_system.Event.{Event, EventCategory, Timestamp, unknown, to_unix_ms, category_key}
use change_of_system.Query.{
  QueryOptions, matches, insert_recent, sort_recent, found, limit_of, end_of, contains_ci,
  parse_category, page, run_events, none_left, printed_page,
}

-- No event comes behind an older one.
abbrev pub Recent : List Event → Type 0
Recent [] = Unit
Recent (e ∷ es) = All (λ x. x.timestamp ≤ e.timestamp) es × Recent es

All-insert_recent :
    (n : ℕ) (e : Event) (xs : List Event)
    → e.timestamp ≤ n
    → All (λ x. x.timestamp ≤ n) xs
    → All (λ x. x.timestamp ≤ n) (insert_recent e xs)
unfolding insert_recent
All-insert_recent n e [] h a = (h, tt)
All-insert_recent n e (x ∷ xs) h a = ground (arith, h, a, All-insert_recent n e xs h a.1)

All-older :
    (m n : ℕ) (xs : List Event)
    → m ≤ n
    → All (λ x. x.timestamp ≤ m) xs
    → All (λ x. x.timestamp ≤ n) xs
All-older m n [] h a = tt
All-older m n (x ∷ xs) h a = (omega (arith, h, a.0), All-older m n xs h a.1)

insert_recent-Recent : (e : Event) (xs : List Event) → Recent xs → Recent (insert_recent e xs)
unfolding insert_recent
insert_recent-Recent e [] h = (tt, tt)
insert_recent-Recent e (x ∷ xs) h = ground (
  arith,
  h,
  insert_recent-Recent e xs h.1,
  All-insert_recent x.timestamp e xs,
  All-older x.timestamp e.timestamp xs,
)

sort_recent-Recent : (xs : List Event) → Recent (sort_recent xs)
unfolding sort_recent
sort_recent-Recent [] = tt
sort_recent-Recent (x ∷ xs) = insert_recent-Recent x (sort_recent xs) (sort_recent-Recent xs)

count-insert_recent :
    (p : Event → Bool) (e : Event) (xs : List Event)
    → count_if p (insert_recent e xs) ≡ count_if p (e ∷ xs)
unfolding insert_recent
count-insert_recent p e [] = refl
count-insert_recent p e (x ∷ xs) = ground (arith, count-insert_recent p e xs)

count-sort_recent :
    (p : Event → Bool) (xs : List Event) → count_if p (sort_recent xs) ≡ count_if p xs
unfolding sort_recent
count-sort_recent p [] = refl
count-sort_recent p (x ∷ xs) =
    ground (arith, count-insert_recent p x (sort_recent xs), count-sort_recent p xs)

-- The page as the options ask for it: behind the offset, all or as many as the limit says.
abbrev pub asked : QueryOptions → List Event → List Event
asked opts all =
    let rest = drop (pos_part opts.offset) all in
    if ltb_ℤ (pos 0) opts.limit then take (pos_part opts.limit) rest else rest

take-cut :
    (offset limit : ℕ) (all : List Event)
    → take (min (offset + limit) (length all) - offset) (drop offset all)
      ≡ take limit (drop offset all)
take-cut offset limit all =
    let rest : List Event = drop offset all in
    let left : length rest ≡ length all - offset = length-drop offset all in
    elim (Bool-cases (leb limit (length rest))) [
      | inl inside ↦ ap (λ n. take n rest) (ground (arith, inside, left))
      | inr beyond ↦
          take-all (min (offset + limit) (length all) - offset) rest (ground (arith, beyond, left))
          ∙ sym (take-all limit rest (ground (arith, beyond)))
    ]

-- The sum of offset and limit is an `int`.
abbrev pub Fits : QueryOptions → List Event → Type 0
Fits opts all = pos_part opts.offset + limit_of opts (length all) < 2147483648

page-asked :
    (opts : QueryOptions) (all : List Event)
    → Fits opts all
    → take (end_of opts (length all) - pos_part opts.offset) (drop (pos_part opts.offset) all)
      ≡ asked opts all
page-asked opts all fits =
    ap
      (λ n.
        take (min (pos_part n) (length all) - pos_part opts.offset)
          (drop (pos_part opts.offset) all))
      (int_of-pos (pos_part opts.offset + limit_of opts (length all)) fits)
    ∙ elim (Bool-cases (ltb_ℤ (pos 0) opts.limit)) [
      | inl limited ↦ rw limited (take-cut (pos_part opts.offset) (pos_part opts.limit) all)
      | inr unlimited ↦ rw unlimited (
          take-cut (pos_part opts.offset) (length all) all
          ∙ take-all (length all) (drop (pos_part opts.offset) all)
              (ground (arith, length-drop (pos_part opts.offset) all)))
    ]

-- A bound on the time that is positive holds, the category is the one that the options name, if they
-- name one, and each text that is not empty is in a field of the event, in any case of the letters:
-- the source in the source, the keyword in the summary, the target or the source.
pub record Wanted (opts : QueryOptions) (e : Event) : Type 0 where
  pub from : opts.from_unix_ms ≤ℤ pos 0 ⊎ opts.from_unix_ms ≤ℤ pos (to_unix_ms e.timestamp)
  pub to : opts.to_unix_ms ≤ℤ pos 0 ⊎ pos (to_unix_ms e.timestamp) ≤ℤ opts.to_unix_ms
  pub category :
      (parse_category opts.category ≡ unknown) ⊎ (e.category ≡ parse_category opts.category)
  pub source : (opts.source ≡ []) ⊎ (has_text (to_lower e.source) (to_lower opts.source) ≡ true)
  pub keyword :
      (opts.keyword ≡ [])
      ⊎ (has_text (to_lower e.summary) (to_lower opts.keyword) ≡ true)
      ⊎ (has_text (to_lower e.target) (to_lower opts.keyword) ≡ true)
      ⊎ (has_text (to_lower e.source) (to_lower opts.keyword) ≡ true)

-- The conjuncts of `matches`.
from_iff :
    (bound : ℤ) (ms : ℕ)
    → (not (ltb_ℤ (pos 0) bound && ltb_ℤ (pos ms) bound) ≡ true)
      ↔ (bound ≤ℤ pos 0 ⊎ bound ≤ℤ pos ms)
from_iff bound ms = ground arith

to_iff :
    (bound : ℤ) (ms : ℕ)
    → (not (ltb_ℤ (pos 0) bound && ltb_ℤ bound (pos ms)) ≡ true)
      ↔ (bound ≤ℤ pos 0 ⊎ pos ms ≤ℤ bound)
to_iff bound ms = ground arith

category_iff :
    (asked_for given : EventCategory)
    → (not (not (asked_for == unknown) && not (given == asked_for)) ≡ true)
      ↔ ((asked_for ≡ unknown) ⊎ (given ≡ asked_for))
category_iff asked_for given =
    ground
      (arith, category_key.equals_iff asked_for unknown, category_key.equals_iff given asked_for)

source_iff :
    (text needle : Text)
    → (not (not (is_empty needle) && not (contains_ci text needle)) ≡ true)
      ↔ ((needle ≡ []) ⊎ (has_text (to_lower text) (to_lower needle) ≡ true))
unfolding contains_ci
source_iff text [] = ground arith
source_iff text (c ∷ needle) = ground arith

keyword_iff :
    (s t u needle : Text)
    → (not (
          not (is_empty needle)
          && not (contains_ci s needle)
          && not (contains_ci t needle)
          && not (contains_ci u needle))
        ≡ true)
      ↔ ((needle ≡ [])
          ⊎ (has_text (to_lower s) (to_lower needle) ≡ true)
          ⊎ (has_text (to_lower t) (to_lower needle) ≡ true)
          ⊎ (has_text (to_lower u) (to_lower needle) ≡ true))
unfolding contains_ci
keyword_iff s t u [] = ground arith
keyword_iff s t u (c ∷ needle) = ground arith

all_true :
    (a b c d e : Bool)
    → ((a && b && c && d && e) ≡ true)
      ↔ ((a ≡ true) × (b ≡ true) × (c ≡ true) × (d ≡ true) × (e ≡ true))
all_true a b c d e = ground arith

matches-Wanted : (opts : QueryOptions) (e : Event) → (matches opts e ≡ true) ↔ Wanted opts e
unfolding matches
matches-Wanted opts e =
    let ms = to_unix_ms e.timestamp in
    let from = from_iff opts.from_unix_ms ms in
    let to = to_iff opts.to_unix_ms ms in
    let category = category_iff (parse_category opts.category) e.category in
    let source = source_iff e.source opts.source in
    let keyword = keyword_iff e.summary e.target e.source opts.keyword in
    (
      λ h.
          let (a, b, c, d, k) = (all_true _ _ _ _ _).0 h in
          record {
            from = from.0 a;
            to = to.0 b;
            category = category.0 c;
            source = source.0 d;
            keyword = keyword.0 k;
          },
      λ w.
          (all_true _ _ _ _ _).1 (
            from.1 w.from,
            to.1 w.to,
            category.1 w.category,
            source.1 w.source,
            keyword.1 w.keyword,
          ),
    )

-- The page of a query is what its options ask for, out of the events that they want, in an order in
-- which none comes behind an older one: as many as the limit says, all if that is not positive,
-- behind as many as the offset says. The sum of offset and limit is an `int`.
pub page-found :
    (opts : QueryOptions) (events : List Event)
    → Fits opts (found opts events)
    → (page opts events ≡ asked opts (found opts events))
      × Recent (found opts events)
      × ((p : Event → Bool)
          → count_if p (found opts events) ≡ count_if p (select (matches opts) events))
      × ((e : Event) → (matches opts e ≡ true) ↔ Wanted opts e)
unfolding page found
page-found opts events fits = (
  page-asked opts (found opts events) fits,
  sort_recent-Recent (select (matches opts) events),
  λ p. count-sort_recent p (select (matches opts) events),
  λ e. matches-Wanted opts e,
)

page-none :
    (opts : QueryOptions) (events : List Event)
    → leb (length (found opts events)) (pos_part opts.offset) ≡ true
    → page opts events ≡ []
unfolding page
page-none opts events h =
    let rest : drop (pos_part opts.offset) (found opts events) ≡ [] =
      drop-all (pos_part opts.offset) (found opts events) (ground (arith, h)) in
    let cut : end_of opts (length (found opts events)) - pos_part opts.offset ≡ 0 =
      ground (arith, h) in
    ap (λ n. take n (drop (pos_part opts.offset) (found opts events))) cut

printed-if : (b : Bool) (x y : Text × ℕ) → (if b then x else y).1 ≡ (if b then x.1 else y.1)
printed-if true x y = refl
printed-if false x y = refl

-- A query returns the number of the events that it prints as text, and 0 where it prints JSON.
pub run_events-returns :
    (format_ts : Timestamp → Text) (opts : QueryOptions) (events : List Event)
    → (run_events format_ts opts events).1
      ≡ (if opts.json_output then 0 else length (page opts events))
unfolding run_events
run_events-returns format_ts opts events =
    let size : ℕ = length (found opts events) in
    let left : Text × ℕ = none_left format_ts opts size in
    let printed : Text × ℕ = printed_page format_ts opts (page opts events) size in
    printed-if (leb size (pos_part opts.offset)) left printed
    ∙ elim (Bool-cases (leb size (pos_part opts.offset))) [
      | inl behind ↦ rw behind (ground (arith, ap length (page-none opts events behind)))
      | inr inside ↦ rw inside (printed-if opts.json_output _ _)
    ]
