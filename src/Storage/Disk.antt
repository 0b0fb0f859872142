-- ===== src/Storage/Disk.antt =====
-- The files of one durable file operation (libs/storage/src/file_operation.cpp), the primitive steps
-- on them, and what a crash can leave behind. A path is named by its role in the operation.
pub mod Holds
use wiki.Base.{
  ℕ, zero, suc, ◌+◌, ◌≡◌, Bool, true, false, not, ◌&&◌, ◌||◌, Option, none, some, List, [], ◌∷◌,
  ◌++◌, Bytes, text, bytes_eq, ◌==◌, if◌then◌else◌, take, is_empty,
}

pub data Phase : Type 0 where
  prepared replacing replaced : Phase

-- An entry of `copies`: the number that its paths go by, and the digest of the source.
pub record FileCopy : Type 0 where
  pub index : ℕ
  pub sha256 : Bytes

-- `State::record`, which is the JSON of the journal. The paths in it are the roles below.
pub record Journal : Type 0 where
  pub phase : Phase
  pub before : Option Bytes
  pub before_sha256 : Option Bytes
  pub after : Bytes
  pub after_sha256 : Bytes
  pub copies : List FileCopy

-- `target` is the article; `temporary` is `target.kc-ID.tmp`, and `recovery` that with `.recovery`;
-- `staged` and `published` are the copies of the sources, `retained` the sources themselves;
-- `archived` are the files of `recovery-conflicts`, by their digest.
pub data Slot : Type 0 where
  target temporary recovery backup : Slot
  staged published : ℕ → Slot
  archived : Bytes → Slot

-- What is on the disk; `pending` says whether `journal.pending` is there, which is never read.
pub record Disk : Type 0 where
  pub article : Option Bytes
  pub temporary_file : Option Bytes
  pub recovery_file : Option Bytes
  pub backup_file : Option Bytes
  pub journal : Option Journal
  pub pending : Bool
  pub retained : ℕ → Option Bytes
  pub staged_files : ℕ → Option Bytes
  pub published_files : ℕ → Option Bytes
  pub archive : Bytes → Option Bytes

abbrev pub update : (ℕ → Option Bytes) → ℕ → Option Bytes → ℕ → Option Bytes
update f i v j = if j == i then v else f j

abbrev update_archive : (Bytes → Option Bytes) → Bytes → Option Bytes → Bytes → Option Bytes
update_archive f i v j = if bytes_eq j i then v else f j

-- `current_bytes(path)`
abbrev pub get : Slot → Disk → Option Bytes
get target d = d.article
get temporary d = d.temporary_file
get recovery d = d.recovery_file
get backup d = d.backup_file
get (staged i) d = d.staged_files i
get (published i) d = d.published_files i
get (archived digest) d = d.archive digest

abbrev pub put : Slot → Option Bytes → Disk → Disk
put target v d = record d { article = v }
put temporary v d = record d { temporary_file = v }
put recovery v d = record d { recovery_file = v }
put backup v d = record d { backup_file = v }
put (staged i) v d = record d { staged_files = update d.staged_files i v }
put (published i) v d = record d { published_files = update d.published_files i v }
put (archived digest) v d = record d { archive = update_archive d.archive digest v }

pub data Exit {ℓ} (A : Type ℓ) : Type ℓ where
  done : A → Exit A
  failed : Bytes → Exit A

-- A run: the states that a crash during it can leave, the state at its end, and how it ends.
pub record Run {ℓ} (A : Type ℓ) : Type ℓ where
  pub trace : List Disk
  pub disk : Disk
  pub exit : Exit A

abbrev pub Action {ℓ} : Type ℓ → Type ℓ
Action A = Disk → Run A

abbrev pub continue {ℓ κ} :
    {A : Type ℓ} {B : Type κ} → List Disk → Disk → Exit A → (A → Action B) → Run B
continue trace d (done a) f =
    let r = f a d in record { trace = trace ++ r.trace; disk = r.disk; exit = r.exit }
continue trace d (failed message) f = record { trace = trace; disk = d; exit = failed message }

infixl 5 ◌>>=◌ ◌>>◌
abbrev pub ◌>>=◌ {ℓ κ} : {A : Type ℓ} {B : Type κ} → Action A → (A → Action B) → Action B
◌>>=◌ m f d = let r = m d in continue r.trace r.disk r.exit f

abbrev pub ◌>>◌ {ℓ} : {B : Type ℓ} → Action (Unit {0}) → Action B → Action B
m >> k = m >>= λ _. k

abbrev pub pure {ℓ} : {A : Type ℓ} → A → Action A
pure a d = record { trace = []; disk = d; exit = done a }

abbrev pub throw {ℓ} : {A : Type ℓ} → Bytes → Action A
throw message d = record { trace = []; disk = d; exit = failed message }

abbrev pub current : Slot → Action (Option Bytes)
current slot d = record { trace = []; disk = d; exit = done (get slot d) }

-- A step that is on the disk whole once it returns, and that no crash leaves half done.
abbrev pub atomic : Disk → Run (Unit {0})
atomic d = record { trace = d ∷ []; disk = d; exit = done tt }

abbrev pub fail_at : Disk → Bytes → Run (Unit {0})
fail_at d message = record { trace = []; disk = d; exit = failed message }
