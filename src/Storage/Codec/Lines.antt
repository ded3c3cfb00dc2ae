-- ===== src/Storage/Codec/Lines.antt =====
-- The line of an event has no end of line in it.
use change_of_system.Base.{
  ℕ, zero, suc, ◌+◌, ◌/◌, ◌%◌, ◌≡◌, refl, ap, false, [], ◌∷◌, ◌++◌, Text, nat_key, contains,
  is_empty, decimal, digits_onto, arith,
}
use change_of_system.Event.{Event, EventCategory, EventType, to_unix_ms, category_name, type_name}
use change_of_system.Config.Codec.RoundTrip.{Without, Without-append}
use change_of_system.Config.Store.Access.{decimal-first}
use change_of_system.Storage.Codec.{serialize_event, one_line, attrs_onto}

-- A line that a file can hold: it is not empty and has no end of line in it.
abbrev pub Line : Text → Type 0
Line line = Without b'\n' line × (is_empty line ≡ false)

-- An event whose texts have no end of line in them.
pub record OneLine (event : Event) : Type 0 where
  pub source : Without b'\n' event.source
  pub target : Without b'\n' event.target
  pub host : Without b'\n' event.host
  pub platform : Without b'\n' event.platform

one_line-Without : (s : Text) → Without b'\n' (one_line s)
unfolding contains
one_line-Without [] = refl
one_line-Without (c ∷ s) = ground (arith, one_line-Without s)

category_name-line : (c : EventCategory) → Without b'\n' (category_name c)
unfolding category_name contains
category_name-line EventCategory.unknown = refl
category_name-line _ = refl

type_name-line : (t : EventType) → Without b'\n' (type_name t)
unfolding type_name contains
type_name-line EventType.unknown = refl
type_name-line _ = refl

digits_onto-line : (fuel n : ℕ) (s : Text) → Without b'\n' s → Without b'\n' (digits_onto fuel n s)
unfolding digits_onto contains
digits_onto-line zero n s h = h
digits_onto-line (suc fuel) n s h =
    ground (arith, h, digits_onto-line fuel (n / 10) ((48 + n % 10) ∷ s) (ground (arith, h)))

decimal-line : (n : ℕ) → Without b'\n' (decimal n)
unfolding decimal contains
decimal-line n = digits_onto-line (suc n) n [] refl

column : (s t : Text) → Without b'\n' s → Without b'\n' t → Without b'\n' (s ++ b'\t' ∷ t)
unfolding contains
column s t h k = Without-append b'\n' s (b'\t' ∷ t) h k

append-full : (s t : Text) → is_empty s ≡ false → is_empty (s ++ t) ≡ false
append-full [] t h = absurd (ground (arith, h))
append-full (c ∷ s) t h = refl

decimal-full : (n : ℕ) → is_empty (decimal n) ≡ false
decimal-full n = let (d, rest, digit, e) = decimal-first n in ap is_empty e

-- The line of an event is not empty, and has no end of line in it where the source, the target, the
-- host and the platform have none.
pub serialize_event-Line : (event : Event) → OneLine event → Line (serialize_event event)
unfolding serialize_event
serialize_event-Line event v =
    let attributes : Text = one_line (attrs_onto [] event.attributes) in
    let ms : Text = decimal (to_unix_ms event.timestamp) in
    let behind_platform : Without b'\n' (attributes ++ b'\t' ∷ one_line event.summary) =
      column attributes (one_line event.summary) (one_line-Without (attrs_onto [] event.attributes))
        (one_line-Without event.summary) in
    (
      column ms _ (decimal-line (to_unix_ms event.timestamp)) (
          column (category_name event.category) _ (category_name-line event.category) (
            column (type_name event.type) _ (type_name-line event.type) (
              column event.source _ v.source (
                column event.target _ v.target (
                  column event.host _ v.host
                    (column event.platform _ v.platform behind_platform)))))),
      append-full ms _ (decimal-full (to_unix_ms event.timestamp)),
    )
