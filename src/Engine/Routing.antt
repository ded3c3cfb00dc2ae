-- ===== src/Engine/Routing.antt =====
-- Where the events go that the engine routes.
use change_of_system.Base.{
  ℕ, ◌≤◌, ◌<◌, All, Bool, true, false, arith, ◌≡◌, refl, sym, ap, ◌∙◌, inl, inr, Bool-cases, Option,
  Option-cases, some, none, some_inj, none_ne_some, List, [], ◌∷◌, ◌++◌, length, if◌then◌else◌,
}
use mathlib.Core.Path.{subst}
use mathlib.Core.List.{append-nil, append_assoc}
use change_of_system.Event.{Event}
use change_of_system.Regex.{Regex}
use change_of_system.Filter.{EventFilter, process}
use change_of_system.Alert.Types.{AlertManager}
use change_of_system.Alert.Message.{◌>>=◌}
use change_of_system.Alert.Manager.{process_event}
use change_of_system.Alert.Message.Termination.{braces}
use change_of_system.Alert.Manager.Returns.{Plain, process_event-finishes}
use change_of_system.Engine.{Engine, Readings, max_recent_events, push_recent, routed, route_event}
use change_of_system.Engine.Recent.{
  push_recent_bound, latest, latest-append, latest-short, if_appended-nil, if_appended-append,
  if_first-append,
}

module _ (re : Regex) where
  open re use {Pattern}

  -- The events that the filter lets through, as it leaves them.
  abbrev pub passed : List (Readings × Event) → EventFilter → List Event
  passed [] f = []
  passed ((now, e) ∷ rest) f =
      let (allowed, e', f') = process re e f in
      let later = passed rest f' in if allowed then e' ∷ later else later

  unfoldable pub route_all : ℕ → List (Readings × Event) → Engine Pattern → Option (Engine Pattern)
  route_all fuel [] g = some g
  route_all fuel ((now, e) ∷ rest) g = route_event re fuel now e g >>= route_all fuel rest

  -- `b` is `a` after those events have come through.
  pub record Received (es : List Event) (a b : Engine Pattern) : Type 0 where
    pub stored : b.stored ≡ (if a.storage_open then a.stored ++ es else a.stored)
    pub enqueued : b.enqueued ≡ (if a.reporter_enabled then a.enqueued ++ es else a.enqueued)
    pub recent : b.recent ≡ latest (a.recent ++ es)
    pub storage_open : b.storage_open ≡ a.storage_open
    pub reporter_enabled : b.reporter_enabled ≡ a.reporter_enabled
    pub running : b.running ≡ a.running

  Received-nil :
      (g : Engine Pattern) (f : EventFilter)
      → length g.recent ≤ max_recent_events
      → Received [] g (record g { event_filter = f })
  Received-nil g f bounded = record {
    stored = if_appended-nil g.storage_open g.stored;
    storage_open = refl;
    enqueued = if_appended-nil g.reporter_enabled g.enqueued;
    recent = sym (ap latest (append-nil g.recent) ∙ latest-short g.recent bounded);
    reporter_enabled = refl;
    running = refl;
  }

  -- One event, let through or not.
  abbrev Routed : Readings → Event → Engine Pattern → Engine Pattern → Type 0
  Routed now e g g' =
      let (allowed, e', f') = process re e g.event_filter in
      Received (if allowed then e' ∷ [] else []) g g' × (g'.event_filter ≡ f')

  route_event-Routed :
      (fuel : ℕ) (now : Readings) (e : Event) (g g' : Engine Pattern)
      → length g.recent ≤ max_recent_events
      → route_event re fuel now e g ≡ some g'
      → Routed now e g g' × (length g'.recent ≤ max_recent_events)
  unfolding route_event push_recent
  route_event-Routed fuel now e g g' bounded h = elim (Bool-cases (process re e g.event_filter).0) [
    | inl allowed ↦ elim (Option-cases (process_event re fuel now.at_rule e' g.alert_manager)) [
      | inl stuck ↦
          let result : route_event re fuel now e g ≡ none = rw allowed (ap bind stuck) in
          absurd (none_ne_some (sym result ∙ h))
      | inr (alerts, done) ↦
          let result : route_event re fuel now e g ≡ some (routed now e' g1 alerts) =
            rw allowed (ap bind done) in
          rw allowed (
            subst (λ x. Result (e' ∷ []) x) (some_inj (sym result ∙ h))
              (
                (
                  record {
                    stored = refl;
                    storage_open = refl;
                    enqueued = refl;
                    recent = refl;
                    reporter_enabled = refl;
                    running = refl;
                  },
                  refl,
                ),
                push_recent_bound e' g.recent,
              ))
    ]
    | inr denied ↦
        let result : route_event re fuel now e g ≡ some g1 = rw denied refl in
        rw denied (
          subst (λ x. Result [] x) (some_inj (sym result ∙ h))
            ((Received-nil g (process re e g.event_filter).2 bounded, refl), bounded))
  ]
    where
      e' : Event
      e' = (process re e g.event_filter).1

      g1 : Engine Pattern
      g1 = record g { event_filter = (process re e g.event_filter).2 }

      bind : Option (AlertManager Pattern) → Option (Engine Pattern)
      bind o = o >>= λ alerts. some (routed now e' g1 alerts)

      Result : List Event → Engine Pattern → Type 0
      Result es x =
          (Received es g x × (x.event_filter ≡ (process re e g.event_filter).2))
          × (length x.recent ≤ max_recent_events)

  Received-trans :
      (es fs : List Event) (a b c : Engine Pattern)
      → Received es a b
      → Received fs b c
      → Received (es ++ fs) a c
  Received-trans es fs a b c r s = record {
    stored =
        s.stored
        ∙ ap (λ x. if x then b.stored ++ fs else b.stored) r.storage_open
        ∙ ap (λ q. if a.storage_open then q ++ fs else q) r.stored
        ∙ if_appended-append a.storage_open a.stored es fs;
    storage_open = s.storage_open ∙ r.storage_open;
    enqueued =
        s.enqueued
        ∙ ap (λ x. if x then b.enqueued ++ fs else b.enqueued) r.reporter_enabled
        ∙ ap (λ q. if a.reporter_enabled then q ++ fs else q) r.enqueued
        ∙ if_appended-append a.reporter_enabled a.enqueued es fs;
    recent =
        s.recent
        ∙ ap (λ l. latest (l ++ fs)) r.recent
        ∙ latest-append (a.recent ++ es) fs
        ∙ ap latest (append_assoc a.recent es fs);
    reporter_enabled = s.reporter_enabled ∙ r.reporter_enabled;
    running = s.running ∙ r.running;
  }

  routed_all-Received :
      (fuel : ℕ) (es : List (Readings × Event)) (g g' : Engine Pattern)
      → length g.recent ≤ max_recent_events
      → route_all fuel es g ≡ some g'
      → Received (passed es g.event_filter) g g'
  unfolding route_all
  routed_all-Received fuel [] g g' bounded h =
      subst (λ x. Received [] g x) (some_inj h) (Received-nil g g.event_filter bounded)
  routed_all-Received fuel ((now, e) ∷ rest) g g' bounded h =
      elim (Option-cases (route_event re fuel now e g)) [
        | inl stuck ↦ absurd (none_ne_some (sym (ap bind stuck) ∙ h))
        | inr (g1, done) ↦
            let ((first, filtered), bounded1) = route_event-Routed fuel now e g g1 bounded done in
            let later = routed_all-Received fuel rest g1 g' bounded1 (sym (ap bind done) ∙ h) in
            subst (λ l. Received l g g')
              (if_first-append (process re e g.event_filter).0 (process re e g.event_filter).1 _)
              (Received-trans _ _ g g1 g' first
                (subst (λ f. Received (passed rest f) g1 g') filtered later))
      ]
    where
      bind : Option (Engine Pattern) → Option (Engine Pattern)
      bind o = o >>= route_all fuel rest

  -- Enough fuel for every template.
  abbrev pub Enough : ℕ → Engine Pattern → Type 0
  Enough fuel g = All (λ r. braces r.message_template < fuel) g.alert_manager.rules

  route_event-returns :
      (fuel : ℕ) (now : Readings) (e : Event) (g : Engine Pattern)
      → Enough fuel g
      → ((process re e g.event_filter).0 ≡ true → Plain (process re e g.event_filter).1)
      → (g' : Engine Pattern) × (route_event re fuel now e g ≡ some g') × Enough fuel g'
  unfolding route_event
  route_event-returns fuel now e g enough plain =
      elim (Bool-cases (process re e g.event_filter).0) [
        | inl allowed ↦
            let (alerts, done, same) =
              process_event-finishes re fuel now.at_rule e' g.alert_manager enough
                (plain allowed) in
            (
              routed now e' g1 alerts,
              rw allowed (ap bind done),
              subst (λ rules. All (λ r. braces r.message_template < fuel) rules) (sym same) enough,
            )
        | inr denied ↦ (g1, rw denied refl, enough)
      ]
    where
      e' : Event
      e' = (process re e g.event_filter).1

      g1 : Engine Pattern
      g1 = record g { event_filter = (process re e g.event_filter).2 }

      bind : Option (AlertManager Pattern) → Option (Engine Pattern)
      bind o = o >>= λ alerts. some (routed now e' g1 alerts)

  first-Plain :
      (b : Bool) (e : Event) (later : List Event)
      → All Plain (if b then e ∷ later else later)
      → (b ≡ true → Plain e) × All Plain later
  first-Plain true e later h = (λ _. h.0, h.1)
  first-Plain false e later h = (λ no_. absurd (ground (arith, no_)), h)

  route_all-returns :
      (fuel : ℕ) (es : List (Readings × Event)) (g : Engine Pattern)
      → length g.recent ≤ max_recent_events
      → Enough fuel g
      → All Plain (passed es g.event_filter)
      → (g' : Engine Pattern) × (route_all fuel es g ≡ some g')
  unfolding route_all
  route_all-returns fuel [] g bounded enough plain = (g, refl)
  route_all-returns fuel ((now, e) ∷ rest) g bounded enough plain =
      let (first, later) = first-Plain (process re e g.event_filter).0 _ _ plain in
      let (g1, done, enough1) = route_event-returns fuel now e g enough first in
      let ((received, filtered), bounded1) = route_event-Routed fuel now e g g1 bounded done in
      let (g', others) =
        route_all-returns fuel rest g1 bounded1 enough1
          (subst (λ f. All Plain (passed rest f)) (sym filtered) later) in
      (g', ap (λ o. o >>= route_all fuel rest) done ∙ others)

  -- Routing a sequence of events returns, and then an open storage has got exactly the events that
  -- the filter lets through, as it leaves them and in their order, the queue of an enabled reporter
  -- too, and the recent events are the last 5000 of what they were and those. The events that are let
  -- through have no opening brace in the texts that messages quote, the fuel exceeds the opening
  -- braces of every template, and there are at most 5000 recent events before.
  pub route_all-Received :
      (fuel : ℕ) (es : List (Readings × Event)) (g : Engine Pattern)
      → length g.recent ≤ max_recent_events
      → Enough fuel g
      → All Plain (passed es g.event_filter)
      → (g' : Engine Pattern) × (route_all fuel es g ≡ some g')
        × Received (passed es g.event_filter) g g'
  route_all-Received fuel es g bounded enough plain =
      let (g', done) = route_all-returns fuel es g bounded enough plain in
      (g', done, routed_all-Received fuel es g g' bounded done)
