-- ===== src/Tests/ReportingTests.antt =====
-- A reporter with three events in its queue, and a text with a quote and a control byte.
use change_of_system.Base.{◌≡◌, refl, true, false, some, [], ◌∷◌, ◌++◌, Text, codes}
use change_of_system.Base.Int.{pos, negsuc}
use change_of_system.Json.{json_escape_str, escape_json}
use change_of_system.Json.Reader.{Reading, read_string}
use change_of_system.Json.Strings.{read_string-escaped}
use change_of_system.Reporting.{
  Reporter, new_reporter, flush_batch, stop, take_batch, batch, enqueue,
}
use change_of_system.Reporting.Order.{World, initial, Step, Reaches, Reaches-InOrder}
use change_of_system.Reporting.Draining.{flushes, Sends, flushes-Sends, stop-Sends}
use change_of_system.Tests.Data.{shadow_event}

abbrev busy : Reporter
busy = record new_reporter {
  endpoint = codes "http://h";
  batch_size = pos 1;
  enabled = true;
  running = true;
  queue = shadow_event ∷ shadow_event ∷ shadow_event ∷ [];
}

busy-Sends : Sends 1 busy
busy-Sends = record { batch_of = refl; endpoint = refl }

flushes-Sends_example :
    flushes 2 busy ≡ (shadow_event ∷ shadow_event ∷ [], record busy { queue = shadow_event ∷ [] })
flushes-Sends_example = flushes-Sends 2 1 busy busy-Sends

stop-Sends_example :
    stop busy
    ≡ (shadow_event ∷ [], record busy { running = false; queue = shadow_event ∷ shadow_event ∷ [] })
stop-Sends_example = stop-Sends 1 busy busy-Sends

-- A batch size of 0 sends nothing, a negative one sends all.
no_batch :
    flush_batch (record busy { batch_size = pos 0 }) ≡ ([], record busy { batch_size = pos 0 })
unfolding flush_batch
no_batch = refl

whole_queue : (flush_batch (record busy { batch_size = negsuc 0 })).0 ≡ busy.queue
unfolding flush_batch
whole_queue = refl

-- A batch is taken and put back, and an event comes in between.
abbrev taken : World
taken = record (initial busy) { reporter = take_batch busy; in_flight = batch busy }

abbrev joined : World
joined = record taken {
  reporter = enqueue shadow_event taken.reporter;
  accepted = taken.accepted ++ shadow_event ∷ [];
}

joined-Reaches : Reaches (initial busy) joined
unfolding take_batch batch enqueue
joined-Reaches =
    Reaches.then (initial busy) taken joined
      (Reaches.then (initial busy) (initial busy) taken (Reaches.here (initial busy))
        (Step.taken (initial busy) refl))
      (Step.enqueued taken shadow_event)

Reaches-InOrder_example :
    joined.sent ++ (joined.in_flight ++ joined.reporter.queue)
    ≡ shadow_event ∷ shadow_event ∷ shadow_event ∷ shadow_event ∷ []
Reaches-InOrder_example = Reaches-InOrder busy joined joined-Reaches

abbrev awkward : Text
awkward = b'"' ∷ 7 ∷ b'a' ∷ []

read_string-escaped_example :
    (read_string Reading.plain (json_escape_str awkward ++ b'"' ∷ codes ",")
      ≡ some (awkward, codes ","))
    × (read_string Reading.plain (escape_json awkward ++ b'"' ∷ codes ",")
        ≡ some (awkward, codes ","))
read_string-escaped_example = read_string-escaped awkward (codes ",")

escaped : json_escape_str awkward ≡ codes "\\\"\\u0007a"
unfolding json_escape_str
escaped = refl
