-- ===== src/Tests/UpdaterTests.antt =====
-- Versions, and an answer with a newer one.
use change_of_system.Base.{
  ◌≡◌, refl, true, [], Text, codes, text_beq, find_text, starts_with, if◌then◌else◌,
}
use change_of_system.Base.Int.{pos}
use change_of_system.Config.Codec.{trim_start}
use change_of_system.Config.Store.{stoi, digits_from}
use change_of_system.Updater.{
  Download, check_for_update, compare_versions, extract_json_string, parts, compare_parts, tags_url,
}
use change_of_system.Updater.Versions.{Offers, check_for_update-Offers}

abbrev answer : Text → Download
answer url =
    if text_beq url tags_url
    then Download.answered 200 (codes "[{\"name\": \"v1.10\"}]")
    else Download.answered 404 []

newer : (check_for_update answer (codes "1.9")).available ≡ true
unfolding check_for_update text_beq find_text starts_with parts compare_versions compare_parts stoi
    trim_start digits_from
newer = refl

check_for_update-Offers_example : Offers (codes "1.9") (check_for_update answer (codes "1.9"))
check_for_update-Offers_example = check_for_update-Offers answer (codes "1.9")

-- A suffix does not count, and an escape loses its backslash only.
pre_release : compare_versions (codes "1.2.0-rc1") (codes "1.2.0") ≡ pos 0
unfolding compare_versions compare_parts stoi trim_start digits_from
pre_release = refl

unread_escape : extract_json_string (codes "{\"name\":\"a\\nb\"}") (codes "name") ≡ codes "anb"
unfolding extract_json_string find_text starts_with
unread_escape = refl
