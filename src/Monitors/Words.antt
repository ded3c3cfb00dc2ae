-- ===== src/Monitors/Words.antt =====
-- `std::istringstream` with `>>` into texts, as package_monitor.cpp and network_monitor.cpp use it.
use change_of_system.Base.{List, [], ◌∷◌, ◌++◌, Text, is_empty, if◌then◌else◌}
use change_of_system.Config.Codec.{is_space}

-- The words that `>>` reads, where `word` is what it has read of the one it is in.
unfoldable pub words_from : Text → Text → List Text
words_from word [] = if is_empty word then [] else word ∷ []
words_from word (c ∷ s) =
    let next = words_from [] s in
    let longer = words_from (word ++ c ∷ []) s in
    if is_space c then if is_empty word then next else word ∷ next else longer
