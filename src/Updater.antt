-- ===== src/Updater.antt =====
-- src/updater/updater.h and updater.cpp in a build with libcurl and without nlohmann/json: versions
-- and their comparison, the reading of an answer, and the check for an update. Asking the user and
-- running git are left out.
pub mod Versions
use change_of_system.Base.{
  ℕ, ◌+◌, Bool, true, false, not, ◌&&◌, ◌||◌, Option, none, some, List, [], ◌∷◌, ◌++◌, map, Text,
  codes, nat_beq, is_empty, length, drop, find_text, value_or, if◌then◌else◌,
}
use change_of_system.Base.Int.{ℤ, pos, negsuc, ltb_ℤ}
use change_of_system.Config.Store.{stoi}

pub record UpdateInfo : Type 0 where
  pub available : Bool
  pub current_version : Text
  pub latest_version : Text
  pub release_url : Text
  pub error : Text

-- What libcurl makes of a request: no handle, a transfer that failed, or an answer.
pub data Download : Type 0 where
  no_handle : Download
  failed : Download
  answered : ℕ → Text → Download

abbrev pub http_get : Download → Text
http_get Download.no_handle = []
http_get Download.failed = []
http_get (Download.answered code body) = if nat_beq code 200 then body else []

abbrev skip_colon : Text → Text
skip_colon [] = []
skip_colon (c ∷ s) =
    let rest = skip_colon s in
    if nat_beq c b' ' || nat_beq c b':' || nat_beq c b'\t' then rest else c ∷ s

-- The loop over the bytes of the string; `escaped` says that the byte behind a backslash comes.
abbrev string_bytes : Bool → Text → Text
string_bytes escaped [] = []
string_bytes true (c ∷ s) = c ∷ string_bytes false s
string_bytes false (c ∷ s) =
    let escapes = nat_beq c b'\\' && not (is_empty s) in
    let rest = string_bytes escapes s in
    if nat_beq c b'"' then [] else if escapes then rest else c ∷ rest

abbrev quoted_string : Text → Text
quoted_string [] = []
quoted_string (c ∷ s) = let bytes = string_bytes false s in if nat_beq c b'"' then bytes else []

abbrev behind : ℕ → Text → Option ℕ → Text
behind size s none = []
behind size s (some at) = quoted_string (skip_colon (drop (at + size) s))

unfoldable pub extract_json_string : Text → Text → Text
extract_json_string json_str key =
    let search = codes "\"" ++ key ++ codes "\"" in
    behind (length search) json_str (find_text json_str search)

abbrev pub strip_v : Text → Text
strip_v [] = []
strip_v (c ∷ s) = if nat_beq c b'v' then s else c ∷ s

abbrev put_first : ℕ → List Text → List Text
put_first c [] = (c ∷ []) ∷ []
put_first c (token ∷ rest) = (c ∷ token) ∷ rest

-- The tokens that `std::getline` reads with a dot as its delimiter.
unfoldable pub dot_tokens : Text → List Text
dot_tokens [] = []
dot_tokens (c ∷ s) =
    let rest = dot_tokens s in if nat_beq c b'.' then [] ∷ rest else put_first c rest

-- The numbers of a version; a token that `std::stoi` throws on is 0.
unfoldable pub parts : Text → List ℤ
unfolding dot_tokens
parts version = map (λ token. value_or (pos 0) (stoi token)) (dot_tokens (strip_v version))

-- One turn of the loop that compares, with what the later ones give.
abbrev pub compare_part : ℤ → ℤ → ℤ → ℤ
compare_part a b rest = if ltb_ℤ b a then pos 1 else if ltb_ℤ a b then negsuc 0 else rest

unfoldable pub compare_parts : List ℤ → List ℤ → ℤ
compare_parts [] [] = pos 0
compare_parts (a ∷ xs) [] = compare_part a (pos 0) (compare_parts xs [])
compare_parts [] (b ∷ ys) = compare_part (pos 0) b (compare_parts [] ys)
compare_parts (a ∷ xs) (b ∷ ys) = compare_part a b (compare_parts xs ys)

unfoldable pub compare_versions : Text → Text → ℤ
unfolding parts compare_parts
compare_versions v1 v2 = compare_parts (parts v1) (parts v2)

abbrev pub no_update : Text → UpdateInfo
no_update current = record {
  available = false;
  current_version = current;
  latest_version = [];
  release_url = [];
  error = [];
}

abbrev pub found_update : Text → Text → Text → UpdateInfo
found_update current tag url = record {
  available = ltb_ℤ (pos 0) (compare_versions tag current);
  current_version = current;
  latest_version = tag;
  release_url = url;
  error = [];
}

abbrev pub releases_url : Text
releases_url = codes "https://api.github.com/repos/diaoyunxi/change-of-system/releases/latest"

abbrev pub tags_url : Text
tags_url = codes "https://api.github.com/repos/diaoyunxi/change-of-system/tags"

-- `check_for_update`, with what libcurl makes of an address.
abbrev pub check_tags : Text → Text → UpdateInfo
check_tags current response =
    let tag = extract_json_string response (codes "name") in
    if is_empty response || is_empty tag
    then no_update current
    else found_update current tag
        (codes "https://github.com/diaoyunxi/change-of-system/releases/tag/" ++ tag)

unfoldable pub check_for_update : (Text → Download) → Text → UpdateInfo
unfolding extract_json_string
check_for_update curl current_version =
    let response = http_get (curl releases_url) in
    let tag = extract_json_string response (codes "tag_name") in
    let url = extract_json_string response (codes "html_url") in
    if is_empty response || is_empty tag
    then check_tags current_version (http_get (curl tags_url))
    else found_update current_version tag url
