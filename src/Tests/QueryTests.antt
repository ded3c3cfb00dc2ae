-- ===== src/Tests/QueryTests.antt =====
-- Two events, and queries that ask for one of them.
use change_of_system.Base.{
  ◌≡◌, ◌↔◌, arith, refl, Bool, true, false, List, [], ◌∷◌, codes, count_if, select, to_lower,
  has_text, starts_with, text_beq,
}
use change_of_system.Base.Int.{pos, negsuc, int_of}
use change_of_system.Event.{Event, to_unix_ms}
use change_of_system.Query.{QueryOptions, matches, found, page, run_events}
use change_of_system.Query.Pages.{Recent, Wanted, asked, page-found, run_events-returns}
use change_of_system.Tests.Data.{shadow_event}

abbrev later : Event
later = record shadow_event { id = 2; timestamp = 1700000001000000000 }

abbrev events : List Event
events = shadow_event ∷ later ∷ []

abbrev newest : QueryOptions
newest = record {
  keyword = codes "SHADOW";
  category = codes "FileSystem";
  source = [];
  from_unix_ms = pos 5;
  to_unix_ms = pos 0;
  limit = pos 1;
  offset = negsuc 2;
  json_output = false;
}

page_of_newest : page newest events ≡ later ∷ []
unfolding page matches to_unix_ms to_lower has_text starts_with text_beq mathlib.Core.Bool.decide
    int_of change_of_system.Event.EventCategory-discrete
page_of_newest = refl

page-found_example :
    (page newest events ≡ asked newest (found newest events))
    × Recent (found newest events)
    × ((p : Event → Bool)
        → count_if p (found newest events) ≡ count_if p (select (matches newest) events))
    × ((e : Event) → (matches newest e ≡ true) ↔ Wanted newest e)
page-found_example = page-found newest events (omega arith)

run_events-returns_example :
    (run_events (λ t. codes "t") (record newest { json_output = true }) events).1 ≡ 0
run_events-returns_example =
    run_events-returns (λ t. codes "t") (record newest { json_output = true }) events
