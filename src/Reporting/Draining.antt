-- ===== src/Reporting/Draining.antt =====
-- How the queue empties.
use change_of_system.Base.{
  ℕ, zero, suc, ◌+◌, ◌*◌, ◌≡◌, refl, sym, ap, ◌∙◌, false, List, [], ◌∷◌, ◌++◌, take, drop, take-all,
  drop-all, take-sum, drop-sum, length, is_empty, ltb, arith, if◌then◌else◌, Bool-cases, inl, inr,
}
use native.Mathlib.Nat.{suc-mul, zero-mul}
use change_of_system.Base.Int.{pos}
use change_of_system.Event.{Event}
use change_of_system.Reporting.{Reporter, flush_batch, flushed, batch, batch_end, take_batch, stop}

-- `tick` after `tick`: what is sent in all, and the reporter behind them.
abbrev pub flushes : ℕ → Reporter → List Event × Reporter
flushes zero r = ([], r)
flushes (suc k) r =
    let (sent, next) = flush_batch r in let (more, last) = flushes k next in (sent ++ more, last)

-- A reporter that can send, in batches of `n`.
pub record Sends (n : ℕ) (r : Reporter) : Type 0 where
  pub batch_of : r.batch_size ≡ pos n
  pub endpoint : is_empty r.endpoint ≡ false

module _ {A : Type 0} where
  -- The end of a batch is cut off at the end of the queue.
  take-end : (n : ℕ) (xs : List A) → take (batch_end (pos n) (length xs)) xs ≡ take n xs
  take-end n xs = elim (Bool-cases (ltb n (length xs))) [
    | inl more ↦ rw more refl
    | inr fewer ↦
        rw fewer
          (take-all (length xs) xs (omega arith) ∙ sym (take-all n xs (ground (arith, fewer))))
  ]

  drop-end : (n : ℕ) (xs : List A) → drop (batch_end (pos n) (length xs)) xs ≡ drop n xs
  drop-end n xs = elim (Bool-cases (ltb n (length xs))) [
    | inl more ↦ rw more refl
    | inr fewer ↦
        rw fewer
          (drop-all (length xs) xs (omega arith) ∙ sym (drop-all n xs (ground (arith, fewer))))
  ]

flushed-sent :
    (es : List Event) (r : Reporter) → is_empty r.endpoint ≡ false → flushed es r ≡ (es, r)
flushed-sent [] r h = refl
flushed-sent (e ∷ es) r h = rw h refl

-- One flush of a reporter that can send takes the first batch out of the queue and sends it.
flush_batch-Sends :
    (n : ℕ) (r : Reporter)
    → Sends n r
    → flush_batch r ≡ (take n r.queue, record r { queue = drop n r.queue })
unfolding flush_batch batch take_batch
flush_batch-Sends n r h =
    flushed-sent (batch r) (take_batch r) h.endpoint
    ∙ ap
        (λ b. (
          take (batch_end b (length r.queue)) r.queue,
          record r { queue = drop (batch_end b (length r.queue)) r.queue },
        ))
        h.batch_of
    ∙ ap (λ xs. (xs, record r { queue = drop (batch_end (pos n) (length r.queue)) r.queue }))
        (take-end n r.queue)
    ∙ ap (λ xs. (take n r.queue, record r { queue = xs })) (drop-end n r.queue)

abbrev and_then : ℕ → List Event × Reporter → List Event × Reporter
and_then k (sent, next) = (sent ++ (flushes k next).0, (flushes k next).1)

-- A reporter with an endpoint that flushes `k` times in batches of `n` sends the first `k * n` events
-- of its queue, in their order, and keeps the others: it sends all when they are no more.
pub flushes-Sends :
    (k n : ℕ) (r : Reporter)
    → Sends n r
    → flushes k r ≡ (take (k * n) r.queue, record r { queue = drop (k * n) r.queue })
flushes-Sends zero n r h =
    ap (λ i. (take i r.queue, record r { queue = drop i r.queue })) (sym (zero-mul n))
flushes-Sends (suc k) n r h =
    let next : Reporter = record r { queue = drop n r.queue } in
    let later : flushes k next
        ≡ (take (k * n) next.queue, record r { queue = drop (k * n) next.queue }) =
      flushes-Sends k n next (record { batch_of = h.batch_of; endpoint = h.endpoint }) in
    let sum : n + k * n ≡ suc k * n = omega (arith, suc-mul k n) in
    ap (and_then k) (flush_batch-Sends n r h)
    ∙ ap (λ l. (take n r.queue ++ l.0, l.1)) later
    ∙ ap (λ xs. (xs, record r { queue = drop (k * n) next.queue })) (take-sum n (k * n) r.queue)
    ∙ ap (λ xs. (take (n + k * n) r.queue, record r { queue = xs })) (drop-sum n (k * n) r.queue)
    ∙ ap (λ i. (take i r.queue, record r { queue = drop i r.queue })) sum

-- Stopping a running reporter with an endpoint sends one batch and leaves the rest of the queue
-- behind; a reporter that does not run sends nothing.
pub stop-Sends :
    (n : ℕ) (r : Reporter)
    → Sends n r
    → stop r ≡ (
        if r.running
        then (take n r.queue, record r { queue = drop n r.queue; running = false })
        else ([], r))
unfolding stop
stop-Sends n r h = elim (Bool-cases r.running) [
  | inl on ↦ rw on (
      flush_batch-Sends n (record r { running = false })
        (record { batch_of = h.batch_of; endpoint = h.endpoint }))
  | inr off ↦ rw off refl
]
