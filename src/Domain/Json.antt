-- ===== src/Domain/Json.antt =====
-- nlohmann::json values as the code reads them, and the reading helpers of
-- libs/domain/src/json.cpp. An object holds its fields in the order of their keys.
pub mod Write
pub mod Read
pub mod Documents
pub mod RoundTrip
pub mod Accepts
use mathlib.Core.Option
use wiki.Base.{
  ℕ, ◌+◌, ◌^◌, ◌-◌, ◌≡◌, Bool, true, false, not, ◌&&◌, ◌||◌, Option, none, some, List, [], ◌∷◌,
  ◌++◌, Bytes, Result, ok, err, text, bytes_eq, ltb, leb, ◌==◌, if◌then◌else◌, any, is_empty, min,
  to_decimal, ◌>>=◌, ◌>>◌, throw_if,
}
use wiki.Domain.Types.{ValidationIssue, Issues, issue}

-- An integer token is unsigned, or signed: `signed n` is n and `negative n` is -(n + 1).
mutual
  pub data Json : Type 0 where
    null : Json
    boolean : Bool → Json
    unsigned : ℕ → Json
    signed : ℕ → Json
    negative : ℕ → Json
    float : Bytes → Json
    string : Bytes → Json
    array : Items → Json
    object : Fields → Json

  pub data Items : Type 0 where
    nil : Items
    item : Json → Items → Items

  pub data Fields : Type 0 where
    end : Fields
    field : Bytes → Json → Fields → Fields

-- `ContractError` carries issues; any other exception has a message.
pub data Thrown : Type 0 where
  contract : Issues → Thrown
  message : Bytes → Thrown

pub data JsonContract : Type 0 where
  project_config extracted_page citation article_proposal : JsonContract

-- `type_name()`, as it stands in the library's messages
unfoldable pub type_name : Json → Bytes
type_name null = text "null"
type_name (boolean b) = text "boolean"
type_name (unsigned n) = text "number"
type_name (signed n) = text "number"
type_name (negative n) = text "number"
type_name (float n) = text "number"
type_name (string s) = text "string"
type_name (array xs) = text "array"
type_name (object fs) = text "object"

-- `document.get<std::string>()`
unfoldable pub get_string : Json → Result Thrown Bytes
get_string (string s) = ok s
get_string document = err (
    message
      (text "[json.exception.type_error.302] type must be string, but is " ++ type_name document))

unfoldable pub find_field : Bytes → Fields → Option Json
unfolding bytes_eq text
find_field key end = none
find_field key (field k v fs) = if bytes_eq k key then some v else find_field key fs

-- A key of what is no object is never found.
unfoldable pub field_of : Json → Bytes → Option Json
unfolding find_field
field_of (object fs) key = find_field key fs
field_of document key = none

unfoldable pub is_some : Option Json → Bool
is_some none = false
is_some (some v) = true

-- `document.contains(key)`
unfoldable pub contains : Json → Bytes → Bool
unfolding field_of is_some
contains document key = is_some (field_of document key)

unfoldable pub found_at : Bytes → Option Json → Result Thrown Json
found_at key none =
    err (message (text "[json.exception.out_of_range.403] key '" ++ key ++ text "' not found"))
found_at key (some v) = ok v

-- `document.at(key)`
unfoldable pub at : Json → Bytes → Result Thrown Json
unfolding field_of found_at
at document key = found_at key (field_of document key)

-- `require_shape(contract, document)` and `require_semantics(value)`
unfoldable pub require_none : Issues → Result Thrown (Unit {0})
require_none [] = ok tt
require_none (i ∷ issues) = err (contract (i ∷ issues))

unfoldable pub checked_number : Bytes → ℕ → ℕ → ℕ → Result Thrown ℕ
checked_number path policy_maximum type_maximum number = do
  throw_if (ltb (min policy_maximum type_maximum) number)
      (message (path ++ text " integer exceeds the supported maximum"))
  ok number

-- `read_unsigned<T>`; `type_maximum` is the largest value of `T`.
unfoldable pub read_unsigned : ℕ → Json → Bytes → ℕ → Result Thrown ℕ
read_unsigned type_maximum (unsigned n) path policy_maximum =
    checked_number path policy_maximum type_maximum n
read_unsigned type_maximum (signed n) path policy_maximum =
    checked_number path policy_maximum type_maximum n
read_unsigned type_maximum document path policy_maximum =
    err (message (path ++ text " must be a nonnegative JSON integer token"))

unfoldable pub require_object : Json → Bytes → Result Thrown Fields
require_object (object fs) path = ok fs
require_object document path = err (message (path ++ text " must be an object"))

-- The first loop of `require_keys`
unfoldable pub all_present : Json → List Bytes → Bytes → Result Thrown (Unit {0})
all_present document [] path = ok tt
all_present document (key ∷ required) path = do
  throw_if (not (contains document key)) (message (path ++ text "/" ++ key ++ text " is required"))
  all_present document required path

-- The second loop, over the object's items
unfoldable pub all_allowed : Fields → List Bytes → List Bytes → Bytes → Result Thrown (Unit {0})
all_allowed end required optional path = ok tt
all_allowed (field key v fs) required optional path = do
  throw_if (not (any (bytes_eq key) required || any (bytes_eq key) optional))
      (message (path ++ text "/" ++ key ++ text " is not allowed"))
  all_allowed fs required optional path

unfoldable pub require_keys : Json → List Bytes → List Bytes → Bytes → Result Thrown (Unit {0})
unfolding require_object all_present all_allowed contains bytes_eq text
require_keys document required optional path = do
  fields ← require_object document path
  all_present document required path
  all_allowed fields required optional path

unfoldable pub choose : {A : Type 0} → List (Bytes × A) → Bytes → Bytes → Result Thrown A
unfolding bytes_eq text
choose [] value path = err (message (path ++ text " has an unsupported value"))
choose ((name, choice) ∷ choices) value path =
    let later = choose choices value path in if bytes_eq name value then ok choice else later

unfoldable pub parse_enum : {A : Type 0} → Json → List (Bytes × A) → Bytes → Result Thrown A
unfolding choose
parse_enum (string s) choices path = choose choices s path
parse_enum document choices path = err (message (path ++ text " must be a string"))

unfoldable pub parse_path : Json → Bytes → Result Thrown Bytes
parse_path (string s) path = ok s
parse_path document path = err (message (path ++ text " must be a string"))

-- `if (!xs.is_array()) throw …`
unfoldable pub require_array : Json → Bytes → Result Thrown Items
require_array (array xs) path = ok xs
require_array document path = err (message (path ++ text " must be an array"))

-- `for (index = 0; index < xs.size(); ++index) values.push_back(parse(xs.at(index), index));`
unfoldable pub parse_items :
    {A : Type 0} → (Json → ℕ → Result Thrown A) → ℕ → Items → Result Thrown (List A)
parse_items parse index nil = ok []
parse_items parse index (item x xs) = do
  value ← parse x index
  values ← parse_items parse (index + 1) xs
  ok (value ∷ values)

-- `ParseResult<T>`
pub record ParseResult (A : Type 0) : Type 0 where
  pub value : Option A
  pub issues : Issues

-- `parse_document`: what was thrown becomes issues.
unfoldable pub parse_document : {A : Type 0} → Result Thrown A → ParseResult A
parse_document (ok a) = record { value = some a; issues = [] }
parse_document (err (contract found)) = record { value = none; issues = found }
parse_document (err (message what)) = record { value = none; issues = issue (text "/") what ∷ [] }
