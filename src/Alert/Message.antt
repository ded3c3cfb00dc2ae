-- ===== src/Alert/Message.antt =====
-- `format_message`: the placeholders of a message template.
pub mod Termination
pub mod Divergence
use change_of_system.Base.{
  ℕ, zero, suc, ◌+◌, Bool, Option, none, some, List, [], ◌∷◌, ◌++◌, Text, codes, take, drop,
  find_text, decimal, is_empty, if◌then◌else◌,
}
use change_of_system.Base.Int.{to_string, ℤ, pos, negsuc}
use change_of_system.Event.{Event, category_name, type_name}
use change_of_system.Alert.Types.{AlertRule}

-- `s.replace(pos, width, value)`.
unfoldable pub replace_at : ℕ → ℕ → Text → Text → Text
replace_at at width value s = take at s ++ (value ++ drop (at + width) s)

-- `while ((pos = result.find(key)) != npos) result.replace(pos, width, value)`, for at most `fuel`
-- rounds; `none` is a loop that has not ended by then.
unfoldable pub replace_all : ℕ → Text → ℕ → Text → Text → Option Text
replace_all zero key width value s = elim (find_text s key) [ none ↦ some s | some at ↦ none ]
replace_all (suc fuel) key width value s = elim (find_text s key) [
  | none ↦ some s
  | some at ↦ replace_all fuel key width value (replace_at at width value s)
]

abbrev pub ◌>>=◌ : {A B : Type 0} → Option A → (A → Option B) → Option B
◌>>=◌ none f = none
◌>>=◌ (some a) f = f a

infixl 5 ◌>>=◌
-- The widths are those that the source writes.
unfoldable pub fill_placeholders : ℕ → Text → Event → ℤ → ℤ → Option Text
fill_placeholders fuel tmpl event threshold_count threshold_window_ms = do
  r1 ← replace_all fuel (codes "{{source}}") 10 event.source tmpl
  r2 ← replace_all fuel (codes "{{target}}") 10 event.target r1
  r3 ← replace_all fuel (codes "{{summary}}") 11 event.summary r2
  r4 ← replace_all fuel (codes "{{category}}") 12 (category_name event.category) r3
  r5 ← replace_all fuel (codes "{{type}}") 8 (type_name event.type) r4
  r6 ← replace_all fuel (codes "{{threshold_count}}") 20 (to_string threshold_count) r5
  replace_all fuel (codes "{{threshold_window_ms}}") 24 (to_string threshold_window_ms) r6

unfoldable pub format_message :
    {Pattern : Type 0} → ℕ → Text → Event → AlertRule Pattern → Option Text
unfolding fill_placeholders
format_message fuel tmpl event rule =
    if is_empty tmpl
    then some (codes "Alert triggered for event: " ++ event.summary)
    else fill_placeholders fuel tmpl event rule.threshold_count rule.threshold_window_ms
