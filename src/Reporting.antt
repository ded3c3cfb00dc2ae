-- ===== src/Reporting.antt =====
-- src/reporting/reporter.h and reporter.cpp: `Reporter`, its queue and its batches. The thread that
-- calls `tick` is the environment; the post is only logged by the source, so it is no state here.
pub mod Order
pub mod Draining
use change_of_system.Base.{
  ℕ, Bool, true, false, not, ◌&&◌, List, [], ◌∷◌, ◌++◌, Text, is_empty, length, take, drop, ltb,
  codes, decimal, if◌then◌else◌,
}
use change_of_system.Base.Int.{ℤ, pos, negsuc}
use change_of_system.Event.{Event, to_unix_ms, category_name, type_name}
use change_of_system.Json.{json_escape_str}

pub record Reporter : Type 0 where
  pub endpoint : Text
  pub api_key : Text
  pub batch_size : ℤ
  pub interval_ms : ℤ
  pub enabled : Bool
  pub running : Bool
  pub queue : List Event

abbrev pub new_reporter : Reporter
new_reporter = record {
  endpoint = [];
  api_key = [];
  batch_size = pos 100;
  interval_ms = pos 10000;
  enabled = false;
  running = false;
  queue = [];
}

abbrev pub configure : Text → Text → ℤ → ℤ → Reporter → Reporter
configure endpoint api_key batch_size interval_ms r = record r {
  endpoint = endpoint;
  api_key = api_key;
  batch_size = batch_size;
  interval_ms = interval_ms;
}

abbrev pub set_enabled : Bool → Reporter → Reporter
set_enabled enabled r = record r { enabled = enabled }

unfoldable pub enqueue : Event → Reporter → Reporter
enqueue event r = if r.enabled then record r { queue = r.queue ++ event ∷ [] } else r

unfoldable pub enqueue_batch : List Event → Reporter → Reporter
enqueue_batch events r = if r.enabled then record r { queue = r.queue ++ events } else r

abbrev pub queue_size : Reporter → ℕ
queue_size r = length r.queue

-- The number of events of a batch out of a queue of so many. A negative batch size, converted to
-- `std::size_t`, is larger than any queue.
abbrev pub batch_end : ℤ → ℕ → ℕ
batch_end (pos n) queued = if ltb n queued then n else queued
batch_end (negsuc n) queued = queued

-- The first locked block of `flush_batch`: the batch that it takes out.
unfoldable pub batch : Reporter → List Event
batch r = take (batch_end r.batch_size (queue_size r)) r.queue

unfoldable pub take_batch : Reporter → Reporter
take_batch r = record r { queue = drop (batch_end r.batch_size (queue_size r)) r.queue }

-- The second locked block of `flush_batch`: the batch that was not sent goes back in front.
unfoldable pub requeue : List Event → Reporter → Reporter
requeue events r = record r { queue = events ++ r.queue }

-- `send_http_post`, which posts nothing yet: whether it reports success.
abbrev pub send_http_post : Reporter → Bool
send_http_post r = not (is_empty r.endpoint)

-- `flush_batch`: what it sends, and the reporter behind it.
abbrev pub flushed : List Event → Reporter → List Event × Reporter
flushed [] r = ([], r)
flushed (e ∷ es) r = if send_http_post r then (e ∷ es, r) else ([], requeue (e ∷ es) r)

unfoldable pub flush_batch : Reporter → List Event × Reporter
unfolding batch take_batch requeue
flush_batch r = flushed (batch r) (take_batch r)

abbrev pub tick : Reporter → List Event × Reporter
tick r = flush_batch r

unfoldable pub start : Reporter → Reporter
start r = record r { running = true }

unfoldable pub stop : Reporter → List Event × Reporter
unfolding flush_batch
stop r =
    let result = flush_batch (record r { running = false }) in if r.running then result else ([], r)

-- The text of one event of a payload.
abbrev string_member : Text → Text → Text
string_member name value =
    codes "\"" ++ name ++ codes "\":\"" ++ json_escape_str value ++ codes "\""

abbrev serialize_event : Event → Text
serialize_event e =
    codes "  {\n    \"ts\":"
    ++ decimal (to_unix_ms e.timestamp)
    ++ codes ","
    ++ string_member (codes "category") (category_name e.category)
    ++ codes ","
    ++ string_member (codes "type") (type_name e.type)
    ++ codes ","
    ++ string_member (codes "source") e.source
    ++ codes ","
    ++ string_member (codes "target") e.target
    ++ codes ","
    ++ string_member (codes "host") e.host
    ++ codes ","
    ++ string_member (codes "platform") e.platform
    ++ codes ","
    ++ string_member (codes "summary") e.summary
    ++ codes "\n  }"

unfoldable pub serialize_rest : List Event → Text
serialize_rest [] = []
serialize_rest (e ∷ es) =
    serialize_event e ++ (if is_empty es then [] else codes ",") ++ codes "\n" ++ serialize_rest es

unfoldable pub serialize : List Event → Text
unfolding serialize_rest
serialize events = codes "[\n" ++ serialize_rest events ++ codes "]\n"
