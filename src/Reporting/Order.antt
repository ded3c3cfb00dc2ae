-- ===== src/Reporting/Order.antt =====
-- No event is lost, sent twice or sent out of order while events come in between the two locked
-- blocks of `flush_batch`.
use mathlib.Core.List.{append-nil, append_assoc}
use change_of_system.Base.{
  ◌≡◌, refl, sym, ap, ◌∙◌, Bool-cases, inl, inr, true, false, List, [], ◌∷◌, ◌++◌, take-drop,
  if◌then◌else◌,
}
use change_of_system.Event.{Event}
use change_of_system.Reporting.{
  Reporter, enqueue, enqueue_batch, batch, batch_end, take_batch, requeue, queue_size,
  send_http_post,
}

-- The reporter, the batch that `flush_batch` has in its hands between its locked blocks, and what
-- has been accepted and sent so far.
pub record World : Type 0 where
  pub reporter : Reporter
  pub in_flight : List Event
  pub accepted : List Event
  pub sent : List Event

abbrev pub initial : Reporter → World
initial r = record { reporter = r; in_flight = []; accepted = r.queue; sent = [] }

abbrev pub accepted_by : Reporter → List Event → List Event
accepted_by r events = if r.enabled then events else []

-- The locked blocks of the source, one at a time: any thread may put events in, and one thread
-- flushes.
pub data Step : World → World → Type 0 where
  enqueued :
      (w : World) (e : Event)
      → Step w (record w {
        reporter = enqueue e w.reporter;
        accepted = w.accepted ++ accepted_by w.reporter (e ∷ []);
      })
  enqueued_batch :
      (w : World) (es : List Event)
      → Step w (record w {
        reporter = enqueue_batch es w.reporter;
        accepted = w.accepted ++ accepted_by w.reporter es;
      })
  taken :
      (w : World)
      → w.in_flight ≡ []
      → Step w (record w { reporter = take_batch w.reporter; in_flight = batch w.reporter })
  posted :
      (w : World)
      → send_http_post w.reporter ≡ true
      → Step w (record w { in_flight = []; sent = w.sent ++ w.in_flight })
  failed :
      (w : World)
      → send_http_post w.reporter ≡ false
      → Step w (record w { reporter = requeue w.in_flight w.reporter; in_flight = [] })

pub data Reaches : World → World → Type 0 where
  here : (w : World) → Reaches w w
  then : (u v w : World) → Reaches u v → Step v w → Reaches u w

abbrev InOrder : World → Type 0
InOrder w = w.sent ++ (w.in_flight ++ w.reporter.queue) ≡ w.accepted

enqueue_batch-queue :
    (es : List Event) (r : Reporter) → (enqueue_batch es r).queue ≡ r.queue ++ accepted_by r es
unfolding enqueue_batch
enqueue_batch-queue es r = elim (Bool-cases r.enabled) [
  | inl on ↦ rw on refl
  | inr off ↦ rw off (sym (append-nil r.queue))
]

enqueue-batch : (e : Event) (r : Reporter) → enqueue e r ≡ enqueue_batch (e ∷ []) r
unfolding enqueue enqueue_batch
enqueue-batch e r = refl

put_in :
    (w : World) (es : List Event)
    → InOrder w
    → w.sent ++ (w.in_flight ++ (enqueue_batch es w.reporter).queue)
      ≡ w.accepted ++ accepted_by w.reporter es
put_in w es h =
    let more : List Event = accepted_by w.reporter es in
    ap (λ q. w.sent ++ (w.in_flight ++ q)) (enqueue_batch-queue es w.reporter)
    ∙ ap (λ q. w.sent ++ q) (sym (append_assoc w.in_flight w.reporter.queue more))
    ∙ sym (append_assoc w.sent (w.in_flight ++ w.reporter.queue) more)
    ∙ ap (λ a. a ++ more) h

Step-InOrder : (v w : World) → Step v w → InOrder v → InOrder w
unfolding take_batch batch requeue
Step-InOrder v _ (Step.enqueued w e) h =
    ap (λ r. w.sent ++ (w.in_flight ++ r.queue)) (enqueue-batch e w.reporter) ∙ put_in w (e ∷ []) h
Step-InOrder v _ (Step.enqueued_batch w es) h = put_in w es h
Step-InOrder v _ (Step.taken w idle) h =
    ap (λ q. w.sent ++ q)
      (take-drop (batch_end w.reporter.batch_size (queue_size w.reporter)) w.reporter.queue)
    ∙ ap (λ f. w.sent ++ (f ++ w.reporter.queue)) (sym idle)
    ∙ h
Step-InOrder v _ (Step.posted w ok) h = append_assoc w.sent w.in_flight w.reporter.queue ∙ h
Step-InOrder v _ (Step.failed w bad) h = h

-- Whatever is put in and whenever a batch is taken, sent or put back, the events that were accepted
-- are, in their order, those that were sent, the batch that is on its way and the queue.
pub Reaches-InOrder :
    (r : Reporter) (w : World)
    → Reaches (initial r) w
    → w.sent ++ (w.in_flight ++ w.reporter.queue) ≡ w.accepted
Reaches-InOrder r w (Reaches.here _) = refl
Reaches-InOrder r w (Reaches.then _ v _ h step) = Step-InOrder v w step (Reaches-InOrder r v h)
