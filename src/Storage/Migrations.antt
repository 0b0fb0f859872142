-- ===== src/Storage/Migrations.antt =====
-- libs/storage/src/migration_runner.cpp: the entries of the migration directory, and which of them are
-- migrations, in which order.
pub mod Order
pub mod Apply
pub mod Steps
pub mod Whole
pub mod History
use wiki.Base.{
  ℕ, ◌+◌, ◌-◌, ◌*◌, ◌<◌, ◌≡◌, Bool, true, false, not, ◌&&◌, ◌||◌, Option, none, some, List, [], ◌∷◌,
  ◌++◌, Bytes, text, codes, Result, ok, err, ◌>>=◌, ◌>>◌, throw_if, ltb, leb, ◌==◌, between,
  if◌then◌else◌, length, is_empty, take, drop, any, all, bytes_eq,
}

-- An entry of the directory; `none` where the file cannot be read.
pub record Entry : Type 0 where
  pub name : Bytes
  pub is_regular : Bool
  pub content : Option Bytes

pub record Migration : Type 0 where
  pub version : ℕ
  pub content : Option Bytes

unfoldable pub read_file : Option Bytes → Result Bytes Bytes
read_file none = err (text "could not read migration")
read_file (some bytes) = ok bytes

unfoldable pub is_digit : ℕ → Bool
is_digit c = between b'0' b'9' c

unfoldable pub is_name_byte : ℕ → Bool
is_name_byte c = between b'A' b'Z' c || between b'a' b'z' c || is_digit c || c == b'_' || c == b'-'

-- `[A-Za-z0-9_-]+\.sql$`; no byte of the class is a dot
unfoldable pub matches_name : Bytes → Bool
matches_name s =
    let stem = take (length s - 4) s in
    ltb 4 (length s) && bytes_eq (drop (length s - 4) s) (codes ".sql") && all is_name_byte stem

-- The digits before the first underscore, with their value.
unfoldable pub match_digits : Bytes → Bool → ℕ → Option ℕ
match_digits [] started value = none
match_digits (c ∷ s) started value =
    let rest = match_digits s true (value * 10 + (c - b'0')) in
    if is_digit c then rest else if started && c == b'_' && matches_name s then some value else none

abbrev pub int_max : ℕ
int_max = 2147483647

-- `std::stoi` throws where the value is no `int`.
unfoldable pub stoi : ℕ → Result Bytes ℕ
stoi value = if ltb int_max value then err (text "stoi") else ok value

unfoldable pub matched : Entry → Option ℕ
matched entry = if entry.is_regular then match_digits entry.name false 0 else none

unfoldable pub discover_loop : List Entry → List ℕ → List Migration → Result Bytes (List Migration)
discover_loop [] seen migrations = ok migrations
discover_loop (entry ∷ entries) seen migrations = elim (matched entry) [
  | none ↦ discover_loop entries seen migrations
  | some value ↦ do
    version ← stoi value
    throw_if (any (λ v. v == version) seen) (text "duplicate migration version")
    discover_loop entries (version ∷ seen)
        (migrations ++ record { version = version; content = entry.content } ∷ [])
]

unfoldable pub insert_sorted : Migration → List Migration → List Migration
insert_sorted m [] = m ∷ []
insert_sorted m (n ∷ ms) =
    let rest = insert_sorted m ms in if leb m.version n.version then m ∷ n ∷ ms else n ∷ rest

-- `std::ranges::sort(migrations, {}, &Migration::version)`
unfoldable pub sort : List Migration → List Migration
sort [] = []
sort (m ∷ ms) = insert_sorted m (sort ms)

-- `none` where there is no such directory.
unfoldable pub discover : Option (List Entry) → Result Bytes (List Migration)
discover none = err (text "migration directory does not exist")
discover (some entries) = do migrations ← discover_loop entries [] []; ok (sort migrations)
