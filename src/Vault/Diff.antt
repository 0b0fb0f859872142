-- ===== src/Vault/Diff.antt =====
-- `lines` and `rendered_diff` of libs/vault/src/rendering.cpp. A line holds its newline.
pub mod Script
use mathlib.Core.List.{reverse}
use wiki.Base.{
  ℕ, zero, suc, ◌+◌, ◌-◌, ◌*◌, ◌/◌, ◌≡◌, Bool, true, false, not, ◌&&◌, ◌||◌, List, [], ◌∷◌, ◌++◌,
  Bytes, text, codes, bytes_eq, ltb, leb, ◌==◌, if◌then◌else◌, length, is_empty, take, drop, get_or,
  map, to_decimal,
}

-- `lines`: the loop keeps the line that it is reading.
lines_loop : Bytes → Bytes → List Bytes
lines_loop [] [] = []
lines_loop [] (d ∷ line) = (d ∷ line) ∷ []
lines_loop (c ∷ s) line = elim (c == b'\n') [
  | true ↦ (line ++ c ∷ []) ∷ lines_loop s []
  | false ↦ lines_loop s (line ++ c ∷ [])
]

unfoldable pub lines : Bytes → List Bytes
unfolding lines_loop
lines s = lines_loop s []

-- One call of `emit`: the prefix `' '`, `'-'` or `'+'`, and the line.
pub data Edit : Type 0 where
  keep remove add : Bytes → Edit

-- The first loop: how many lines the two texts begin with in common.
unfoldable pub common : List Bytes → List Bytes → ℕ
common [] fresh = 0
common (a ∷ old) [] = 0
common (a ∷ old) (b ∷ fresh) = if bytes_eq a b then suc (common old fresh) else 0

-- One row of the table `lengths`, from the row below it: entry `j` is
-- `cell(i, j)`, and `below` holds `cell(i + 1, j)`, `cell(i + 1, j + 1)` and so on.
unfoldable pub table_row : Bytes → List Bytes → List ℕ → List ℕ
table_row a [] below = 0 ∷ []
table_row a (b ∷ fresh) below =
    let rest = table_row a fresh (drop 1 below) in
    (if bytes_eq a b
      then get_or below 1 0 + 1
      else if ltb (get_or below 0 0) (get_or rest 0 0)
      then get_or rest 0 0
      else get_or below 0 0)
    ∷ rest

unfoldable pub zeros : List Bytes → List ℕ
zeros [] = 0 ∷ []
zeros (b ∷ fresh) = 0 ∷ zeros fresh

-- The rows from the first line of `old` on; the last one is all zero.
unfoldable pub table : List Bytes → List Bytes → List (List ℕ)
table [] fresh = zeros fresh ∷ []
table (a ∷ old) fresh = let rest = table old fresh in table_row a fresh (get_or rest 0 []) ∷ rest

unfoldable pub cell : List (List ℕ) → ℕ → ℕ → ℕ
cell rows i j = get_or (get_or rows i []) j 0

-- The last loop over the middle: `i` and `j` count the lines that are done.
unfoldable pub walk_table : List (List ℕ) → ℕ → ℕ → List Bytes → List Bytes → List Edit
walk_table rows i j [] [] = []
walk_table rows i j [] (b ∷ fresh) = add b ∷ walk_table rows i (j + 1) [] fresh
walk_table rows i j (a ∷ old) [] = remove a ∷ walk_table rows (i + 1) j old []
walk_table rows i j (a ∷ old) (b ∷ fresh) = elim (bytes_eq a b) [
  | true ↦ keep a ∷ walk_table rows (i + 1) (j + 1) old fresh
  | false ↦ elim (leb (cell rows i (j + 1)) (cell rows (i + 1) j)) [
    | true ↦ remove a ∷ walk_table rows (i + 1) j old (b ∷ fresh)
    | false ↦ add b ∷ walk_table rows i (j + 1) (a ∷ old) fresh
  ]
]

abbrev pub maximum_cells : ℕ
maximum_cells = 4000000

-- The changed region: too large for the table, it is replaced whole.
unfoldable pub middle : List Bytes → List Bytes → List Edit
middle old fresh =
    if ltb (maximum_cells / (length fresh + 1)) (length old + 1)
    then map remove old ++ map add fresh
    else walk_table (table old fresh) 0 0 old fresh

-- The lines after the common prefix are compared from the end.
unfoldable pub after_prefix : List Bytes → List Bytes → List Edit
after_prefix old fresh =
    let suffix = common (reverse old) (reverse fresh) in
    middle (take (length old - suffix) old) (take (length fresh - suffix) fresh)
    ++ map keep (drop (length old - suffix) old)

-- All the calls of `emit`.
unfoldable pub script : List Bytes → List Bytes → List Edit
script old fresh =
    let prefix = common old fresh in
    map keep (take prefix old) ++ after_prefix (drop prefix old) (drop prefix fresh)

unfoldable pub ends_with_newline : Bytes → Bool
ends_with_newline [] = false
ends_with_newline (c ∷ []) = c == b'\n'
ends_with_newline (c ∷ d ∷ s) = ends_with_newline (d ∷ s)

unfoldable pub emit_line : ℕ → Bytes → Bytes
emit_line prefix line =
    if ends_with_newline line
    then prefix ∷ line
    else (prefix ∷ line) ++ codes "\n\\ No newline at end of file\n"

unfoldable pub emit : Edit → Bytes
emit (keep line) = emit_line b' ' line
emit (remove line) = emit_line b'-' line
emit (add line) = emit_line b'+' line

unfoldable pub emit_all : List Edit → Bytes
emit_all [] = []
emit_all (e ∷ edits) = emit e ++ emit_all edits

-- `before`, `after` and `destination`; `first` is 0 for an empty side and 1 for another.
first : List Bytes → ℕ
first [] = 0
first (a ∷ old) = 1

unfoldable pub header : Bytes → Bytes → List Bytes → List Bytes → Bytes
unfolding first
header before destination old fresh =
    codes "--- "
    ++ (if is_empty before then codes "/dev/null" else codes "a/" ++ destination)
    ++ codes "\n+++ b/"
    ++ destination
    ++ codes "\n@@ -"
    ++ to_decimal (first old)
    ++ codes ","
    ++ to_decimal (length old)
    ++ codes " +"
    ++ to_decimal (first fresh)
    ++ codes ","
    ++ to_decimal (length fresh)
    ++ codes " @@\n"

unfoldable pub rendered_diff : Bytes → Bytes → Bytes → Bytes
rendered_diff before after destination =
    if bytes_eq before after
    then []
    else header before destination (lines before) (lines after)
      ++ emit_all (script (lines before) (lines after))
