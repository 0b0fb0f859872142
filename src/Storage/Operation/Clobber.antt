-- ===== src/Storage/Operation/Clobber.antt =====
-- Recovery never overwrites an article that the operation did not write (recover_journal).
use wiki.Base.{
  ℕ, ◌≡◌, refl, sym, subst, ◌⊎◌, inl, inr, Bool, true, false, not, ◌||◌, Option, none, some, List,
  [], ◌∷◌, Bytes, if◌then◌else◌, bytes_eq, opt_eq, Bool-cases, Option-cases, starts_with,
}
use wiki.Storage.Disk.{
  Phase, prepared, replacing, replaced, FileCopy, Journal, Disk, Action, pure, put, temporary,
  recovery, archived, staged, ◌>>◌,
}
use wiki.Storage.Disk.Holds.{Holds, Holds-bind}
use wiki.Storage.Operation.{
  durable_remove, durable_write, throw_when, preserve_displaced, preserve_bytes, keep_archived,
  roll_back, roll_back_to, foreign, remove_copies, remove_published, check_backup, remove_backup,
  remove_journal, remove_pending, digests_ok, recover_journal,
}

-- The article is what it was.
abbrev pub Kept : Option Bytes → Disk → Type 0
Kept article d = d.article ≡ article

-- However the action runs and ends, the article stays as it was.
abbrev Spares : Option Bytes → Action (Unit {0}) → Type 0
Spares article m =
    (d : Disk) → Kept article d → Holds (Kept article) (Kept article) (λ _. Kept article) (m d)

Spares-throw_when :
    (a : Option Bytes) (bad : Bool) (message : Bytes) → Spares a (throw_when bad message)
unfolding throw_when
Spares-throw_when a true message d h = record { visited = tt; ends = h }
Spares-throw_when a false message d h = record { visited = tt; ends = h }

Spares-write_archived :
    (cut : ℕ) (sha : Bytes → Bytes) (a : Option Bytes) (digest bytes : Bytes)
    → Spares a (durable_write cut sha (archived digest) bytes)
unfolding durable_write
Spares-write_archived cut sha a digest bytes d h = elim (Option-cases (d.archive digest)) [
  | inl e ↦ rw (e, durable_write) record { visited = (h, (h, tt)); ends = h }
  | inr (old, e) ↦ rw (e, durable_write) record { visited = tt; ends = h }
]

Spares-preserve_bytes :
    (cut : ℕ) (sha : Bytes → Bytes) (a before : Option Bytes) (after : Bytes) (found : Option Bytes)
    → Spares a (preserve_bytes cut sha before after found)
unfolding preserve_bytes keep_archived
Spares-preserve_bytes cut sha a before after none d h = record { visited = tt; ends = h }
Spares-preserve_bytes cut sha a before after (some bytes) d h =
    elim (Bool-cases (opt_eq (some bytes) before || bytes_eq bytes after)) [
      | inl e ↦ rw e record { visited = tt; ends = h }
      | inr e ↦ rw e (kept cut sha a bytes (d.archive (sha bytes)) d h)
    ]
  where
    kept :
        (cut : ℕ) (sha : Bytes → Bytes) (a : Option Bytes) (bytes : Bytes) (old : Option Bytes)
        → Spares a (keep_archived cut sha bytes old)
    kept cut sha a bytes none d h = Spares-write_archived cut sha a (sha bytes) bytes d h
    kept cut sha a bytes (some old) d h = Spares-throw_when a (not (bytes_eq old bytes)) _ d h

Spares-remove_published :
    (cut : ℕ) (sha : Bytes → Bytes) (a : Option Bytes) (c : FileCopy) (found : Option Bytes)
    → Spares a (remove_published cut sha c found)
unfolding remove_published durable_remove
Spares-remove_published cut sha a c none d h = record { visited = tt; ends = h }
Spares-remove_published cut sha a c (some bytes) d h =
    Holds-bind (throw_when (not (bytes_eq (sha bytes) c.sha256)) _) _ d
      (Spares-throw_when a (not (bytes_eq (sha bytes) c.sha256)) _ d h)
      (λ u e k. record { visited = (k, tt); ends = k })

Spares-remove_copies :
    (cut : ℕ) (sha : Bytes → Bytes) (a : Option Bytes) (committed : Bool) (copies : List FileCopy)
    → Spares a (remove_copies cut sha committed copies)
unfolding remove_copies durable_remove
Spares-remove_copies cut sha a committed [] d h = record { visited = tt; ends = h }
Spares-remove_copies cut sha a true (c ∷ copies) d h =
    let H = Spares-remove_copies cut sha a true copies (put (staged c.index) none d) h in
    record { visited = (h, H.visited); ends = H.ends }
Spares-remove_copies cut sha a false (c ∷ copies) d h =
    let H =
      Holds-bind (remove_published cut sha c (d.published_files c.index)) _
        (put (staged c.index) none d)
        (Spares-remove_published cut sha a c (d.published_files c.index)
          (put (staged c.index) none d) h)
        (λ u e k. Spares-remove_copies cut sha a false copies e k) in
    record { visited = (h, H.visited); ends = H.ends }

Spares-remove_backup :
    (cut : ℕ) (sha : Bytes → Bytes) (a before : Option Bytes)
    → Spares a (remove_backup cut sha before)
unfolding remove_backup durable_remove check_backup
Spares-remove_backup cut sha a none d h = record { visited = tt; ends = h }
Spares-remove_backup cut sha a (some before) d h =
    Holds-bind (check_backup cut sha before d.backup_file) _ d
      (checked cut sha a before d.backup_file d h) (λ u e k. record { visited = (k, tt); ends = k })
  where
    checked :
        (cut : ℕ) (sha : Bytes → Bytes) (a : Option Bytes) (before : Bytes) (found : Option Bytes)
        → Spares a (check_backup cut sha before found)
    checked cut sha a before none d h = record { visited = tt; ends = h }
    checked cut sha a before (some bytes) d h =
        Spares-throw_when a (not (starts_with before bytes)) _ d h

-- The removals at the end of every recovery.
Spares-cleanup :
    (cut : ℕ) (sha : Bytes → Bytes) (a : Option Bytes) (committed : Bool) (j : Journal)
    → Spares a (do
      remove_copies cut sha committed j.copies
      (if committed then pure tt else remove_backup cut sha j.before)
      durable_remove temporary
      durable_remove recovery
      remove_journal
      remove_pending)
unfolding durable_remove remove_journal remove_pending
Spares-cleanup cut sha a committed j d h =
    Holds-bind (remove_copies cut sha committed j.copies) _ d
      (Spares-remove_copies cut sha a committed j.copies d h)
      (λ u e k.
        Holds-bind (if committed then pure tt else remove_backup cut sha j.before) _ e
          (backed_up cut sha a committed j.before e k)
          (λ v f l. record { visited = (l, (l, (l, (l, tt)))); ends = l }))
  where
    backed_up :
        (cut : ℕ) (sha : Bytes → Bytes) (a : Option Bytes) (committed : Bool)
        (before : Option Bytes)
        → Spares a (if committed then pure tt else remove_backup cut sha before)
    backed_up cut sha a true before d h = record { visited = tt; ends = h }
    backed_up cut sha a false before d h = Spares-remove_backup cut sha a before d h

-- Bytes that are not what the operation wrote are left alone.
Spares-roll_back_to :
    (cut : ℕ) (sha : Bytes → Bytes) (a : Option Bytes) (after : Bytes) (restore : Option Bytes)
    → opt_eq a (some after) ≡ false
    → Spares a (roll_back_to cut sha after restore)
unfolding roll_back_to
Spares-roll_back_to cut sha a after restore e d h =
    Holds-bind (throw_when (foreign cut sha restore after d.recovery_file) _) _ d
      (Spares-throw_when a (foreign cut sha restore after d.recovery_file) _ d h)
      (λ u x k.
        let other : opt_eq x.article (some after) ≡ false =
          subst (λ v. opt_eq v (some after) ≡ false) (sym k) e in
        rw other (Spares-throw_when a (not (opt_eq x.article restore)) _ x k))

Spares-roll_back :
    (cut : ℕ) (sha : Bytes → Bytes) (a : Option Bytes) (p : Phase) (j : Journal)
    → opt_eq a (some j.after) ≡ false
    → Spares a (roll_back cut sha p j)
unfolding roll_back
Spares-roll_back cut sha a prepared j e d h = record { visited = tt; ends = h }
Spares-roll_back cut sha a replacing j e d h = Spares-roll_back_to cut sha a j.after _ e d h
Spares-roll_back cut sha a replaced j e d h = Spares-roll_back_to cut sha a j.after _ e d h

-- On any disk, recovery of a committed operation leaves the article as it is, and so does recovery
-- without a commit where the article is not what the operation wrote: in every state and at the end,
-- also after an error. A save of the user is never overwritten.
pub recover_journal-Kept :
    (cut : ℕ) (sha : Bytes → Bytes) (committed : Bool) (j : Journal) (d : Disk)
    → (committed ≡ true) ⊎ (opt_eq d.article (some j.after) ≡ false)
    → Holds
        (Kept d.article)
        (Kept d.article)
        (λ _. Kept d.article)
        (recover_journal cut sha committed j d)
unfolding recover_journal preserve_displaced
recover_journal-Kept cut sha committed j d h =
    Holds-bind (throw_when (not (digests_ok cut sha j)) _) _ d
      (Spares-throw_when d.article (not (digests_ok cut sha j)) _ d refl)
      (λ u e k.
        Holds-bind
          (if committed
            then preserve_displaced cut sha j.before j.after
            else roll_back cut sha j.phase j)
          _ e (recovered cut sha d.article committed j h e k)
          (λ v f l. Spares-cleanup cut sha d.article committed j f l))
  where
    recovered :
        (cut : ℕ) (sha : Bytes → Bytes) (a : Option Bytes) (committed : Bool) (j : Journal)
        → (committed ≡ true) ⊎ (opt_eq a (some j.after) ≡ false)
        → Spares a (
            if committed
            then preserve_displaced cut sha j.before j.after
            else roll_back cut sha j.phase j)
    recovered cut sha a true j e d h =
        Spares-preserve_bytes cut sha a j.before j.after d.temporary_file d h
    recovered cut sha a false j (inl e) d h = cc
    recovered cut sha a false j (inr e) d h = Spares-roll_back cut sha a j.phase j e d h
