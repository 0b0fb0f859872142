-- ===== src/Domain/Paths.antt =====
-- Paths as texts: what the code reads of `std::filesystem::path` without touching the disk
-- (libs/domain/src/types.cpp, `is_project_relative`).
use wiki.Base.{
  Bool, true, false, not, ◌||◌, List, [], ◌∷◌, ◌++◌, Bytes, text, bytes_eq, ◌==◌, if◌then◌else◌,
  any, is_empty,
}
use wiki.Domain.Unicode.{Unicode, is_valid_source_text}

-- The parts between the separators.
split_loop : Bytes → Bytes → List Bytes
split_loop [] part = part ∷ []
split_loop (c ∷ s) part = elim (c == b'/') [
  | true ↦ part ∷ split_loop s []
  | false ↦ split_loop s (part ++ c ∷ [])
]

unfoldable pub components : Bytes → List Bytes
unfolding split_loop
components path = split_loop path []

unfoldable pub is_absolute : Bytes → Bool
is_absolute [] = false
is_absolute (c ∷ s) = c == b'/'

-- `std::ranges::none_of(path, part == "..")`, negated
unfoldable pub climbs : Bytes → Bool
unfolding components
climbs path = any (λ part. bytes_eq part (text "..")) (components path)

unfoldable pub is_project_relative : Unicode → Bytes → Bool
is_project_relative u path =
    if is_empty path || is_absolute path || not (is_valid_source_text u path)
    then false
    else not (climbs path)
