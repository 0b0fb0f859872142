-- ===== src/Storage/Operation.antt =====
-- `FileOperation` and `recover_journal` of libs/storage/src/file_operation.cpp. `cut` is how many
-- bytes of an interrupted write reached the disk, `sha` the digest.
pub mod Recoverable
pub mod Replace
pub mod Recovered
pub mod Cleanup
pub mod Crash
pub mod Clobber
pub mod Survives
use wiki.Base.{
  ℕ, zero, suc, ◌+◌, ◌≡◌, Bool, true, false, not, ◌&&◌, ◌||◌, Option, none, some, List, [], ◌∷◌,
  ◌++◌, Bytes, text, bytes_eq, opt_eq, any, ◌==◌, if◌then◌else◌, take, starts_with,
}
use wiki.Storage.Disk.{
  Phase, prepared, replacing, replaced, FileCopy, Journal, Slot, target, temporary, recovery,
  backup, staged, published, archived, Disk, get, put, Exit, done, failed, Run, Action, continue,
  ◌>>=◌, ◌>>◌, pure, throw, current, atomic, fail_at,
}

-- `read_bytes` throws where there is no file.
unfoldable pub read_bytes : Slot → Action Bytes
read_bytes slot d = elim (get slot d) [
  | none ↦ record { trace = []; disk = d; exit = failed (text "recovery expected a regular file") }
  | some bytes ↦ record { trace = []; disk = d; exit = done bytes }
]

unfoldable pub durable_remove : Slot → Action (Unit {0})
durable_remove slot d = atomic (put slot none d)

unfoldable pub exchange_files : Slot → Slot → Action (Unit {0})
exchange_files a b d = elim (get a d) [
  | none ↦ fail_at d (text "exchange article with staged file")
  | some x ↦ elim (get b d) [
    | none ↦ fail_at d (text "exchange article with staged file")
    | some y ↦ atomic (put a (some y) (put b (some x) d))
  ]
]

unfoldable pub rename_exclusive : Slot → Slot → Action (Unit {0})
rename_exclusive source destination d = elim (get source d) [
  | none ↦ fail_at d (text "publish new file exclusively")
  | some x ↦ elim (get destination d) [
    | none ↦ atomic (put source none (put destination (some x) d))
    | some y ↦ fail_at d (text "publish new file exclusively")
  ]
]

-- The pending file is removed and written, and renamed over the journal.
unfoldable pub atomic_json : Journal → Action (Unit {0})
atomic_json j d = record {
  trace =
      record d { pending = false }
      ∷ record d { pending = true }
      ∷ record d { pending = false; journal = some j }
      ∷ [];
  disk = record d { pending = false; journal = some j };
  exit = done tt;
}

unfoldable pub remove_journal : Action (Unit {0})
remove_journal d = atomic (record d { journal = none })

unfoldable pub remove_pending : Action (Unit {0})
remove_pending d = atomic (record d { pending = false })

abbrev conflict_message : Bytes
conflict_message = text "recovery found newer user bytes; no file was overwritten"

unfoldable pub conflict {ℓ} : {A : Type ℓ} → Action A
conflict = throw conflict_message

-- `if (bad) throw …;`
unfoldable pub throw_when : Bool → Bytes → Action (Unit {0})
throw_when true message = throw message
throw_when false message = pure tt

-- Only the first copy to a destination is kept (`destinations.insert`).
unfoldable pub first_copies : List ℕ → List FileCopy → List FileCopy
first_copies seen [] = []
first_copies seen (c ∷ copies) = elim (any (λ i. i == c.index) seen) [
  | true ↦ first_copies seen copies
  | false ↦ c ∷ first_copies (c.index ∷ seen) copies
]

-- The journal that the constructor of `FileOperation` makes.
unfoldable pub file_operation : (Bytes → Bytes) → Option Bytes → Bytes → List FileCopy → Journal
file_operation sha before after copies = record {
  phase = prepared;
  before = before;
  before_sha256 = elim before [ none ↦ none | some bytes ↦ some (sha bytes) ];
  after = after;
  after_sha256 = sha after;
  copies = first_copies [] copies;
}

module _ (cut : ℕ) (sha : Bytes → Bytes) where
  -- `O_CREAT | O_EXCL`; a crash inside the write leaves a prefix
  unfoldable pub durable_write : Slot → Bytes → Action (Unit {0})
  durable_write slot bytes d = elim (get slot d) [
    | some old ↦ fail_at d (text "create durable file")
    | none ↦ record {
      trace = put slot (some (take cut bytes)) d ∷ put slot (some bytes) d ∷ [];
      disk = put slot (some bytes) d;
      exit = done tt;
    }
  ]

  -- `std::filesystem::copy_file` of a retained source to its staging file
  unfoldable pub copy_file : ℕ → Action (Unit {0})
  copy_file i d = elim (d.retained i) [
    | none ↦ fail_at d (text "copy source")
    | some bytes ↦ durable_write (staged i) bytes d
  ]

  unfoldable pub prepare_copies : List FileCopy → Action (Unit {0})
  prepare_copies [] = pure tt
  prepare_copies (c ∷ copies) = do
    copy_file c.index
    bytes ← read_bytes (staged c.index)
    throw_when (not (bytes_eq (sha bytes) c.sha256)) (text "source changed while copying")
    rename_exclusive (staged c.index) (published c.index)
    prepare_copies copies

  unfoldable pub write_backup : Option Bytes → Action (Unit {0})
  write_backup none = pure tt
  write_backup (some before) = durable_write backup before

  unfoldable pub prepare : Journal → Action (Unit {0})
  prepare j = do
    atomic_json j
    write_backup j.before
    prepare_copies j.copies
    durable_write temporary j.after

  unfoldable pub publish : Option Bytes → Action (Unit {0})
  publish none = rename_exclusive temporary target
  publish (some before) = exchange_files temporary target

  unfoldable pub check_displaced : Option Bytes → Action (Unit {0})
  check_displaced none = pure tt
  check_displaced (some before) = do
    bytes ← read_bytes temporary
    throw_when (not (bytes_eq bytes before))
        (text "external editor changed the displaced article; recover before retrying")

  unfoldable pub replace : Journal → Action (Unit {0})
  replace j = do
    now ← current target
    throw_when (not (opt_eq now j.before))
        (text "article changed after preview/read; inspect and approve again")
    atomic_json (record j { phase = replacing })
    publish j.before
    check_displaced j.before
    written ← current target
    throw_when (not (opt_eq written (some j.after))) conflict_message
    atomic_json (record j { phase = replaced })

  unfoldable pub keep_archived : Bytes → Option Bytes → Action (Unit {0})
  keep_archived bytes none = durable_write (archived (sha bytes)) bytes
  keep_archived bytes (some old) =
      throw_when (not (bytes_eq old bytes)) (text "displaced recovery archive has changed")

  unfoldable pub preserve_bytes : Option Bytes → Bytes → Option Bytes → Action (Unit {0})
  preserve_bytes before after none = pure tt
  preserve_bytes before after (some bytes) =
      if opt_eq (some bytes) before || bytes_eq bytes after
      then pure tt
      else do old ← current (archived (sha bytes)); keep_archived bytes old

  unfoldable pub preserve_displaced : Option Bytes → Bytes → Action (Unit {0})
  preserve_displaced before after = do bytes ← current temporary; preserve_bytes before after bytes

  unfoldable pub finish : Journal → Action (Unit {0})
  finish j = do preserve_displaced j.before j.after; durable_remove temporary; remove_journal

  -- `if (displaced && *displaced != after) restore = displaced;`
  unfoldable pub restored : Option Bytes → Bytes → Option Bytes → Option Bytes
  restored before after none = before
  restored before after (some displaced) =
      if bytes_eq displaced after then before else some displaced

  -- Recovery bytes that are neither ours nor what is to be restored.
  unfoldable pub foreign : Option Bytes → Bytes → Option Bytes → Bool
  foreign restore after none = false
  foreign restore after (some bytes) =
      not (bytes_eq bytes after) && not (opt_eq (some bytes) restore)

  -- A second external save survives: the files are exchanged back only if ours is still there.
  unfoldable pub undo_exchange : Option Bytes → Bytes → Bytes → Action (Unit {0})
  undo_exchange restore after bytes = if bytes_eq bytes after then pure tt else do
    now ← current target
    (if opt_eq now restore then exchange_files recovery target else pure tt)
    conflict

  unfoldable pub undo_removal : Bytes → Bytes → Action (Unit {0})
  undo_removal after bytes = if bytes_eq bytes after then pure tt else do
    now ← current target
    (if opt_eq now none then rename_exclusive recovery target else pure tt)
    conflict

  unfoldable pub put_back : Bytes → Option Bytes → Action (Unit {0})
  put_back after (some restore) = do
    durable_remove recovery
    durable_write recovery restore
    exchange_files recovery target
    bytes ← read_bytes recovery
    undo_exchange (some restore) after bytes
    durable_remove recovery
  put_back after none = do
    rename_exclusive target recovery
    bytes ← read_bytes recovery
    undo_removal after bytes
    durable_remove recovery

  unfoldable pub roll_back_to : Bytes → Option Bytes → Action (Unit {0})
  roll_back_to after restore = do
    left ← current recovery
    throw_when (foreign restore after left) conflict_message
    now ← current target
    (if opt_eq now (some after)
        then put_back after restore
        else throw_when (not (opt_eq now restore)) conflict_message)

  unfoldable pub roll_back : Phase → Journal → Action (Unit {0})
  roll_back prepared j = pure tt
  roll_back replacing j = do
    displaced ← current temporary
    roll_back_to j.after (restored j.before j.after displaced)
  roll_back replaced j = do
    displaced ← current temporary
    roll_back_to j.after (restored j.before j.after displaced)

  unfoldable pub remove_published : FileCopy → Option Bytes → Action (Unit {0})
  remove_published c none = pure tt
  remove_published c (some bytes) = do
    throw_when (not (bytes_eq (sha bytes) c.sha256)) conflict_message
    durable_remove (published c.index)

  unfoldable pub remove_copies : Bool → List FileCopy → Action (Unit {0})
  remove_copies committed [] = pure tt
  remove_copies committed (c ∷ copies) = do
    durable_remove (staged c.index)
    bytes ← current (published c.index)
    (if committed then pure tt else remove_published c bytes)
    remove_copies committed copies

  -- A short backup is a prefix of the recorded bytes.
  unfoldable pub check_backup : Bytes → Option Bytes → Action (Unit {0})
  check_backup before none = pure tt
  check_backup before (some bytes) = throw_when (not (starts_with before bytes)) conflict_message

  unfoldable pub remove_backup : Option Bytes → Action (Unit {0})
  remove_backup none = pure tt
  remove_backup (some before) = do
    bytes ← current backup
    check_backup before bytes
    durable_remove backup

  unfoldable pub digests_ok : Journal → Bool
  digests_ok j = bytes_eq (sha j.after) j.after_sha256 && before_ok j.before j.before_sha256
    where
      before_ok : Option Bytes → Option Bytes → Bool
      before_ok none digest = true
      before_ok (some before) digest = opt_eq (some (sha before)) digest

  unfoldable pub recover_journal : Bool → Journal → Action (Unit {0})
  recover_journal committed j = do
    throw_when (not (digests_ok j))
        (text "journal content digest mismatch; preserve journal for manual recovery")
    (if committed then preserve_displaced j.before j.after else roll_back j.phase j)
    remove_copies committed j.copies
    (if committed then pure tt else remove_backup j.before)
    durable_remove temporary
    durable_remove recovery
    remove_journal
    remove_pending
