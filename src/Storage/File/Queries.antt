-- ===== src/Storage/File/Queries.antt =====
-- What a query of the storage returns.
use Prim.Native.Nat.{max}
use change_of_system.Base.{
  ℕ, zero, suc, ◌-◌, ◌≤◌, ◌≡◌, refl, sym, ap, ◌∙◌, inl, inr, Bool-cases, Bool, not, true, false,
  List, [], ◌∷◌, take, drop, select, length, length-take, arith, if◌then◌else◌,
}
use change_of_system.Base.Int.{ℤ, pos, pos_part, ltb_ℤ, leb_ℤ}
use change_of_system.Event.{Event, Timestamp}
use change_of_system.Storage.File.{FileStorage, QueryFilter, accepts, query_from, query, iterate}

module _ {A : Type 0} (x : A) (xs : List A) where
  take-next : (n m : ℕ) → suc m ≡ n → take n (x ∷ xs) ≡ x ∷ take m xs
  take-next n m h = ap (λ i. take i (x ∷ xs)) (sym h)

  drop-next : (n m : ℕ) → suc m ≡ n → drop n (x ∷ xs) ≡ drop m xs
  drop-next n m h = ap (λ i. drop i (x ∷ xs)) (sym h)

  drop-none : (n : ℕ) → n ≡ 0 → drop n (x ∷ xs) ≡ x ∷ xs
  drop-none n h = ap (λ i. drop i (x ∷ xs)) h

-- One accepted event of the loop, where `found` is what the loop goes on to find.
page_step :
    (limit offset : ℤ) (seen pushed : ℕ) (ev : Event) (rest found : List Event)
    → found ≡ (
        if ltb_ℤ (pos seen) offset
        then take (max 1 (pos_part limit - pushed)) (drop (pos_part offset - suc seen) rest)
        else take (max 1 (pos_part limit - suc pushed)) (drop (pos_part offset - suc seen) rest))
    → (if ltb_ℤ (pos seen) offset
        then found
        else ev ∷ (if leb_ℤ limit (pos (suc pushed)) then [] else found))
      ≡ take (max 1 (pos_part limit - pushed)) (drop (pos_part offset - seen) (ev ∷ rest))
page_step limit offset seen pushed ev rest found h = elim (Bool-cases (ltb_ℤ (pos seen) offset)) [
  | inl early ↦ ground (
    arith,
    h,
    early,
    drop-next ev rest (pos_part offset - seen) (pos_part offset - suc seen) (ground (arith, early)),
  )
  | inr due ↦ elim (Bool-cases (leb_ℤ limit (pos (suc pushed)))) [
    | inl last ↦ ground (
      arith,
      h,
      due,
      last,
      drop-none ev rest (pos_part offset - seen) (ground (arith, due)),
      take-next ev rest (max 1 (pos_part limit - pushed)) 0 (ground (arith, last)),
    )
    | inr more ↦ ground (
      arith,
      h,
      due,
      more,
      drop-none ev rest (pos_part offset - seen) (ground (arith, due)),
      drop-none ev rest (pos_part offset - seen) (ground (arith, due)),
      take-next ev rest (max 1 (pos_part limit - pushed)) (max 1 (pos_part limit - suc pushed))
          (ground (arith, more)),
    )
  ]
]

-- What the loop goes on to find behind an accepted event.
counted :
    (filter : QueryFilter) (seen pushed : ℕ) (rest : List Event) (skipped : Bool)
    (page : ℕ → List Event)
    → query_from filter (suc seen) pushed rest ≡ page pushed
    → query_from filter (suc seen) (suc pushed) rest ≡ page (suc pushed)
    → query_from filter (suc seen) (if not skipped then suc pushed else pushed) rest
      ≡ (if skipped then page pushed else page (suc pushed))
counted filter seen pushed rest true page h k = h
counted filter seen pushed rest false page h k = k

nothing : (n m : ℕ) → [] ≡ take n (drop {A = Event} m [])
nothing zero m = refl
nothing (suc n) zero = refl
nothing (suc n) (suc m) = refl

query_from-page :
    (filter : QueryFilter) (seen pushed : ℕ) (events : List Event)
    → query_from filter seen pushed events
      ≡ take
          (max 1 (pos_part filter.limit - pushed))
          (drop (pos_part filter.offset - seen) (select (accepts filter) events))
unfolding query_from
query_from-page filter seen pushed [] =
    nothing (max 1 (pos_part filter.limit - pushed)) (pos_part filter.offset - seen)
query_from-page filter seen pushed (ev ∷ rest) =
    let skipped : Bool = ltb_ℤ (pos seen) filter.offset in
    let later : List Event = select (accepts filter) rest in
    let page : ℕ → List Event = λ (n : ℕ).
      take (max 1 (pos_part filter.limit - n)) (drop (pos_part filter.offset - suc seen) later) in
    elim (Bool-cases (accepts filter ev)) [
      | inl accepted ↦ rw accepted (
          page_step filter.limit filter.offset seen pushed ev later
            (query_from filter (suc seen) (if not skipped then suc pushed else pushed) rest)
            (counted filter seen pushed rest skipped page
              (query_from-page filter (suc seen) pushed rest)
              (query_from-page filter (suc seen) (suc pushed) rest)))
      | inr refused ↦ rw refused (query_from-page filter seen pushed rest)
    ]

-- A query returns a page of the accepted events of the file, in their order: it passes over as many
-- of them as the offset says and returns as many of the next ones as the limit says, but one at
-- least, even under a limit that is not positive.
pub query-page :
    (clock : ℕ → Timestamp) (filter : QueryFilter) (s : FileStorage)
    → query clock filter s
      ≡ take
          (max 1 (pos_part filter.limit))
          (drop (pos_part filter.offset) (select (accepts filter) (iterate clock s)))
unfolding query
query-page clock filter s =
    let found : List Event = select (accepts filter) (iterate clock s) in
    let minus_zero : (n : ℕ) → n - 0 ≡ n = λ n. omega arith in
    query_from-page filter 0 0 (iterate clock s)
    ∙ ap (λ n. take (max 1 n) (drop (pos_part filter.offset - 0) found))
        (minus_zero (pos_part filter.limit))
    ∙ ap (λ n. take (max 1 (pos_part filter.limit)) (drop n found))
        (minus_zero (pos_part filter.offset))

-- A query returns no more events than its limit, or one where the limit is not positive.
pub length-query :
    (clock : ℕ → Timestamp) (filter : QueryFilter) (s : FileStorage)
    → length (query clock filter s) ≤ max 1 (pos_part filter.limit)
length-query clock filter s = ground (
  arith,
  query-page clock filter s,
  length-take (max 1 (pos_part filter.limit))
      (drop (pos_part filter.offset) (select (accepts filter) (iterate clock s))),
)
