-- ===== src/Vault/Markers.antt =====
-- The managed region of an article: `managed_region` of libs/updates/src/article_updates.cpp and
-- `replace_managed_content` of libs/vault/src/rendering.cpp. Exceptions are messages.
pub mod Replace
use wiki.Base.{
  ℕ, ◌+◌, ◌-◌, ◌≡◌, Bool, true, false, not, ◌&&◌, ◌||◌, Option, none, some, List, [], ◌∷◌, ◌++◌,
  Bytes, Result, ok, err, text, codes, ltb, leb, ◌==◌, if◌then◌else◌, length, take, drop, find,
  find_from, ◌>>=◌, ◌>>◌, throw_if,
}

unfoldable pub is_found : Option ℕ → Bool
is_found none = false
is_found (some i) = true

-- A search that throws where nothing is found.
unfoldable pub found_or : Option ℕ → Bytes → Result Bytes ℕ
found_or none message = err message
found_or (some i) message = ok i

unfoldable pub start_marker : Bytes → Bytes
start_marker section_id = codes "<!-- kc:managed:start id=\"" ++ section_id ++ codes "\" -->"

abbrev pub end_marker : Bytes
end_marker = codes "<!-- kc:managed:end -->"

abbrev markers_changed : Bytes
markers_changed =
    text "article ownership markers changed; restore the managed region and compile again"

unfoldable pub managed_region : Bytes → Bytes → Result Bytes Bytes
managed_region content section_id = do
  let start = start_marker section_id
  first ← found_or (find content start) markers_changed
  last ← found_or (find content end_marker) markers_changed
  throw_if
      (ltb last (first + length start)
        || is_found (find_from content start (first + 1))
        || is_found (find_from content end_marker (last + 1)))
      markers_changed
  ok (take (last - first - length start) (drop (first + length start) content))

abbrev one_start : Bytes
one_start = text "existing article must contain exactly one managed start marker"

abbrev one_end : Bytes
one_end = text "existing article must contain exactly one managed end marker"

abbrev pub blank_line : Bytes
blank_line = codes "\n\n"

-- `existing.find(end_marker) < start`; `npos` is above every position
unfoldable pub starts_before : Option ℕ → ℕ → Bool
starts_before none start = false
starts_before (some i) start = ltb i start

unfoldable pub replace_managed_content : Bytes → Bytes → Bytes → Bytes → Result Bytes Bytes
replace_managed_content existing start_text end_text managed_content = do
  start ← found_or (find existing start_text) one_start
  throw_if (is_found (find_from existing start_text (start + length start_text))) one_start
  let managed_start = start + length start_text
  finish ← found_or (find_from existing end_text managed_start) one_end
  throw_if (is_found (find_from existing end_text (finish + length end_text))) one_end
  throw_if (starts_before (find existing end_text) start)
      (text "existing article managed markers are out of order")
  ok (
      take managed_start existing
      ++ (blank_line ++ (managed_content ++ (blank_line ++ drop finish existing))))
