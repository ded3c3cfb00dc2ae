-- ===== src/Alert/Manager/Cooldown.antt =====
-- The cooldown of a rule over any sequence of events.
use mathlib.Core.Path.{ap₂, subst}
use mathlib.Core.List.{append-nil}
use change_of_system.Base.{
  ℕ, ◌<◌, ◌≡◌, refl, sym, ap, ◌∙◌, inl, inr, Bool, Bool-cases, true, false, not, ◌&&◌, Option, none,
  some, List, [], ◌∷◌, ◌++◌, map, find_named, Text, text_beq, text_beq_iff, arith, length, select,
  All, if◌then◌else◌,
}
use change_of_system.Base.Int.{ltb_ℤ, leb_ℤ, int_of}
use change_of_system.Event.{Event, Timestamp}
use change_of_system.Regex.{Regex}
use change_of_system.Alert.Types.{Alert, AlertRule, AlertManager, Readings}
use change_of_system.Alert.Message.{◌>>=◌}
use change_of_system.Alert.Message.Termination.{braces, format_message-Filled}
use change_of_system.Alert.Manager.{
  rule_name, elapsed_ms, is_in_cooldown, process_rules, process_event,
}
use change_of_system.Alert.Manager.Rules.{rule_of, last_of}
use change_of_system.Alert.Manager.Returns.{Plain}
use change_of_system.Alert.Manager.Outcomes.{
  Outcome, applies, times_now, fires, new_alert, process_rule-outcome,
}

-- The calls of callbacks with an alert of the rule of that name.
abbrev pub is_of : Text → ℕ × Alert → Bool
is_of n call = text_beq call.1.rule_name n

abbrev pub calls_of : {P : Type 0} → Text → AlertManager P → List (ℕ × Alert)
calls_of n m = select (is_of n) m.delivered

select-append :
    (p : ℕ × Alert → Bool) (xs ys : List (ℕ × Alert))
    → select p (xs ++ ys) ≡ select p xs ++ select p ys
select-append p [] ys = refl
select-append p (x ∷ xs) ys = ground (arith, select-append p xs ys)

calls-nil :
    (n : Text) (a : Alert) (cbs : List ℕ)
    → text_beq a.rule_name n ≡ false
    → select (is_of n) (map (λ cb. (cb, a)) cbs) ≡ []
calls-nil n a [] h = refl
calls-nil n a (cb ∷ cbs) h = rw h (calls-nil n a cbs h)

calls-append :
    (n : Text) (a : Alert) (cbs : List ℕ) (before : List (ℕ × Alert))
    → text_beq a.rule_name n ≡ false
    → select (is_of n) (before ++ map (λ cb. (cb, a)) cbs) ≡ select (is_of n) before
calls-append n a cbs before h =
    select-append (is_of n) before (map (λ cb. (cb, a)) cbs)
    ∙ ap (λ r. select (is_of n) before ++ r) (calls-nil n a cbs h)
    ∙ append-nil (select (is_of n) before)

module _ (re : Regex) where
  open re use {Pattern}

  abbrev cooldown_test : Timestamp → Option Timestamp → Option (AlertRule Pattern) → Bool
  cooldown_test now last held = elim last [
    | none ↦ false
    | some t ↦ elim held [ none ↦ false | some rule ↦ ltb_ℤ (elapsed_ms now t) rule.cooldown_ms ]
  ]

  -- The rule of that name has raised its last alert at `t`, and is held with that cooldown.
  record Cools (n : Text) (t : Timestamp) (held : AlertRule Pattern) (m : AlertManager Pattern)
      : Type 0 where
    last : last_of n m ≡ some t
    rule : rule_of n m ≡ some held

  record Silent (n : Text) (m m' : AlertManager Pattern) : Type 0 where
    rules : m'.rules ≡ m.rules
    last : last_of n m' ≡ last_of n m
    calls : calls_of n m' ≡ calls_of n m

  is_in_cooldown-Cools :
      (n : Text) (t now : Timestamp) (held : AlertRule Pattern) (m : AlertManager Pattern)
      → Cools n t held m
      → is_in_cooldown n now m ≡ ltb_ℤ (elapsed_ms now t) held.cooldown_ms
  unfolding is_in_cooldown
  is_in_cooldown-Cools n t now held m c = ap₂ (cooldown_test now) c.last c.rule

  Outcome-Silent :
      (n : Text) (t : Timestamp) (held : AlertRule Pattern) (now : Readings)
      (rule : AlertRule Pattern) (e : Event) (message : Text) (m m' : AlertManager Pattern)
      → Cools n t held m
      → (rule.name ≡ n → ltb_ℤ (elapsed_ms now.at_cooldown t) held.cooldown_ms ≡ true)
      → Outcome re now rule e m message m'
      → Silent n m m'
  Outcome-Silent n t held now rule e message m m' c soon o =
      elim (Bool-cases (text_beq rule.name n)) [
        | inl same ↦
            let named : rule.name ≡ n = (text_beq_iff rule.name n).0 same in
            let cooling : is_in_cooldown rule.name now.at_cooldown m ≡ true =
              ap (λ k. is_in_cooldown k now.at_cooldown m) named
              ∙ is_in_cooldown-Cools n t now.at_cooldown held m c
              ∙ soon named in
            let quiet : fires re now rule e m ≡ false =
              quiet_if (applies re now rule e m)
                (leb_ℤ rule.threshold_count (int_of (length (times_now re now rule e m))))
                cooling in
            record {
              rules = o.rules;
              last = o.last n ∙ rw quiet refl;
              calls = ap (select (is_of n)) o.calls ∙ rw quiet refl;
            }
        | inr other ↦ record {
          rules = o.rules;
          last = o.last n ∙ unchanged _ _ (fires re now rule e m) _ other;
          calls =
              ap (select (is_of n)) o.calls
              ∙ select-if _ _ (fires re now rule e m) (
                  calls-append n (new_alert re now rule e m message) m.callbacks m.delivered other);
        }
      ]
    where
      quiet_if :
          {cool : Bool} (applied reached : Bool)
          → cool ≡ true
          → (applied && reached && not cool) ≡ false
      quiet_if applied reached h = ground (arith, h)

      unchanged :
          (x y : Option Timestamp) (b other : Bool)
          → other ≡ false
          → (if b && other then x else y) ≡ y
      unchanged x y b other h = ground (arith, h)

      select-if :
          (xs ys : List (ℕ × Alert)) (b : Bool)
          → select (is_of n) xs ≡ select (is_of n) ys
          → select (is_of n) (if b then xs else ys) ≡ select (is_of n) ys
      select-if xs ys true h = h
      select-if xs ys false h = refl

  Silent-trans :
      {n : Text} {a b c : AlertManager Pattern} → Silent n a b → Silent n b c → Silent n a c
  Silent-trans h k = record {
    rules = k.rules ∙ h.rules;
    last = k.last ∙ h.last;
    calls = k.calls ∙ h.calls;
  }

  Silent-Cools :
      {n : Text} {t : Timestamp} {held : AlertRule Pattern} {m m' : AlertManager Pattern}
      → Silent n m m'
      → Cools n t held m
      → Cools n t held m'
  Silent-Cools {n = n} s c = record {
    last = s.last ∙ c.last;
    rule = ap (find_named rule_name n) s.rules ∙ c.rule;
  }

  module _ (fuel : ℕ) (n : Text) (t : Timestamp) (held : AlertRule Pattern) where
    -- A reading that comes before the cooldown of the rule has passed.
    abbrev pub Soon : (Text → Readings) → Type 0
    Soon now = ltb_ℤ (elapsed_ms (now n).at_cooldown t) held.cooldown_ms ≡ true

    abbrev pub Enough : List (AlertRule Pattern) → Type 0
    Enough rules = All (λ r. braces r.message_template < fuel) rules

    process_rules-Silent :
        (now : Text → Readings) (e : Event) (rules : List (AlertRule Pattern))
        (m : AlertManager Pattern)
        → Cools n t held m
        → Soon now
        → Plain e
        → Enough rules
        → (m' : AlertManager Pattern) × (process_rules re fuel now rules e m ≡ some m')
          × Silent n m m'
    unfolding process_rules
    process_rules-Silent now e [] m c soon plain enough =
        (m, refl, record { rules = refl; last = refl; calls = refl })
    process_rules-Silent now e (rule ∷ rest) m c soon plain (enough, later) =
        let (message, made, few) =
          format_message-Filled fuel rule.message_template e rule enough plain.source plain.target
            plain.summary in
        let (m1, first, o) = process_rule-outcome re (now rule.name) rule e m fuel message made in
        let silent : Silent n m m1 =
          Outcome-Silent n t held (now rule.name) rule e message m m1 c
            (λ named.
              subst (λ k. ltb_ℤ (elapsed_ms (now k).at_cooldown t) held.cooldown_ms ≡ true)
                (sym named) soon)
            o in
        let (m2, others, silent2) =
          process_rules-Silent now e rest m1 (Silent-Cools silent c) soon plain later in
        (
          m2,
          ap (λ x. x >>= process_rules re fuel now rest e) first ∙ others,
          Silent-trans silent silent2,
        )

    -- The events that the manager processes, each with the readings of the clock for it.
    abbrev pub Feed : Type 0
    Feed = List ((Text → Readings) × Event)

    abbrev pub process_all : Feed → AlertManager Pattern → Option (AlertManager Pattern)
    process_all [] m = some m
    process_all ((now, e) ∷ rest) m = process_event re fuel now e m >>= process_all rest

    abbrev pub SoonAndPlain : Feed → Type 0
    SoonAndPlain feed = All (λ x. Soon x.0 × Plain x.1) feed

    process_all-Silent :
        (feed : Feed) (m : AlertManager Pattern)
        → Cools n t held m
        → Enough m.rules
        → SoonAndPlain feed
        → (m' : AlertManager Pattern) × (process_all feed m ≡ some m') × Silent n m m'
    unfolding process_event
    process_all-Silent [] m c enough h =
        (m, refl, record { rules = refl; last = refl; calls = refl })
    process_all-Silent ((now, e) ∷ rest) m c enough ((soon, plain), h) =
        let (m1, first, silent) = process_rules-Silent now e m.rules m c soon plain enough in
        let (m2, others, silent2) =
          process_all-Silent rest m1 (Silent-Cools silent c)
            (subst Enough (sym silent.rules) enough) h in
        (m2, ap (λ x. x >>= process_all rest) first ∙ others, Silent-trans silent silent2)

    -- After an alert of a rule at the time `t`, processing events returns, and no callback gets an
    -- alert of the rule, however many events there are, as long as for each the time since `t` is less
    -- than the cooldown of the rule that is held under its name. The events have no opening brace in the
    -- texts that messages quote, and the fuel exceeds the opening braces of every template.
    pub process_all-cooldown :
        (feed : Feed) (m : AlertManager Pattern)
        → last_of n m ≡ some t
        → rule_of n m ≡ some held
        → Enough m.rules
        → SoonAndPlain feed
        → (m' : AlertManager Pattern) × (process_all feed m ≡ some m')
          × (calls_of n m' ≡ calls_of n m)
          × (last_of n m' ≡ some t)
    process_all-cooldown feed m last rule enough h =
        let (m', done, silent) =
          process_all-Silent feed m (record { last = last; rule = rule }) enough h in
        (m', done, silent.calls, silent.last ∙ last)
