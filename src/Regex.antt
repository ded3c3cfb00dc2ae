-- ===== src/Regex.antt =====
-- `std::regex` (ECMAScript, icase): a parameter of the components that match events against
-- patterns. The constructor may throw `regex_error`; a search says whether a match is found.
use change_of_system.Base.{Bool, Option, Text}

pub record Regex : Type 1 where
  pub Pattern : Type 0
  pub compile : Text → Option Pattern
  pub search : Text → Pattern → Bool
