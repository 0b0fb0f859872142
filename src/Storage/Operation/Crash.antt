-- ===== src/Storage/Operation/Crash.antt =====
-- The states that a crash of FileOperation::prepare and FileOperation::replace can leave.
use wiki.Base.{
  ℕ, ◌≡◌, refl, sym, ap, ◌∙◌, ◌⊎◌, inl, inr, Bool, true, false, not, ◌==◌, Option, none, some, List,
  [], ◌∷◌, Bytes, All, starts_with, starts_with-take, starts_with_refl, take, bytes_eq,
  bytes_eq_lem, Bool-cases, Option-cases, arith,
}
use wiki.Storage.Disk.{Phase, FileCopy, Journal, Disk, Run, update, temporary, staged, published}
use wiki.Storage.Disk.Holds.{Holds, Holds-bind, Holds-map}
use wiki.Storage.Operation.{
  atomic_json, read_bytes, rename_exclusive, durable_write, copy_file, prepare_copies, write_backup,
  prepare, throw_when,
}
use wiki.Storage.Operation.Cleanup.{IsCopy}
use wiki.Storage.Operation.Recovered.{IsBackup, IsInterrupted}

-- The copies on the disk have the digests that belong to their paths.
unfoldable pub HasDigests : (Bytes → Bytes) → (ℕ → Bytes) → Disk → Type 0
HasDigests sha digest d = (i : ℕ) → IsCopy sha (digest i) (d.published_files i)

-- What `prepare` keeps, from the moment that the journal is on the disk.
pub record IsPreparing (sha : Bytes → Bytes) (digest : ℕ → Bytes) (j : Journal) (d : Disk)
    : Type 0 where
  pub article_same : d.article ≡ j.before
  pub recovery_none : d.recovery_file ≡ none
  pub backup_same : IsBackup j.before d.backup_file
  pub digests : HasDigests sha digest d
  pub journal_same : d.journal ≡ some j

abbrev Preparing : (Bytes → Bytes) → (ℕ → Bytes) → Journal → Run (Unit {0}) → Type 0
Preparing sha digest j =
    Holds (IsPreparing sha digest j) (IsPreparing sha digest j) (λ _. IsPreparing sha digest j)

saved :
    (sha : Bytes → Bytes) (digest : ℕ → Bytes) (j : Journal) (b bytes : Bytes) (d : Disk)
    (v : Option Bytes)
    → starts_with b bytes ≡ true
    → IsPreparing sha digest (record j { before = some b }) (record d { backup_file = v })
    → IsPreparing sha digest (record j { before = some b }) (record d { backup_file = some bytes })
unfolding IsBackup HasDigests
saved sha digest j b bytes d v s h = record {
  article_same = h.article_same;
  recovery_none = h.recovery_none;
  backup_same = s;
  digests = h.digests;
  journal_same = h.journal_same;
}

write_backup_lem :
    (cut : ℕ) (sha : Bytes → Bytes) (digest : ℕ → Bytes) (j : Journal) (before : Option Bytes)
    (d : Disk) (v : Option Bytes)
    → IsPreparing sha digest (record j { before = before }) (record d { backup_file = v })
    → Preparing sha digest
        (record j { before = before })
        (write_backup cut sha before (record d { backup_file = v }))
unfolding write_backup durable_write
write_backup_lem cut sha digest j none d v h = record { visited = tt; ends = h }
write_backup_lem cut sha digest j (some b) d (some old) h = record { visited = tt; ends = h }
write_backup_lem cut sha digest j (some b) d none h =
    let whole : IsPreparing sha digest (record j { before = some b })
        (record d { backup_file = some b }) =
      saved sha digest j b b d none (starts_with_refl b) h in
    record {
      visited = (saved sha digest j b (take cut b) d none (starts_with-take cut b) h, (whole, tt));
      ends = whole;
    }

-- Steps on the temporary and the staging files keep it.
restaged :
    (sha : Bytes → Bytes) (digest : ℕ → Bytes) (j : Journal) (d : Disk) (s : ℕ → Option Bytes)
    (t : Option Bytes) (p : Bool)
    → IsPreparing sha digest j d
    → IsPreparing sha digest j (record d { staged_files = s; temporary_file = t; pending = p })
unfolding HasDigests
restaged sha digest j d s t p h = record {
  article_same = h.article_same;
  recovery_none = h.recovery_none;
  backup_same = h.backup_same;
  digests = h.digests;
  journal_same = h.journal_same;
}

write_staged_lem :
    (cut : ℕ) (sha : Bytes → Bytes) (digest : ℕ → Bytes) (j : Journal) (i : ℕ) (bytes : Bytes)
    (d : Disk)
    → IsPreparing sha digest j d
    → Preparing sha digest j (durable_write cut sha (staged i) bytes d)
unfolding durable_write
write_staged_lem cut sha digest j i bytes d h = elim (Option-cases (d.staged_files i)) [
  | inl e ↦
      rw (e, durable_write)
        (let step : (v : Option Bytes)
              → IsPreparing sha digest j (record d { staged_files = update d.staged_files i v }) =
            λ v. restaged sha digest j d (update d.staged_files i v) d.temporary_file d.pending h in
          record {
            visited = (step (some (take cut bytes)), (step (some bytes), tt));
            ends = step (some bytes);
          })
  | inr (old, e) ↦ rw (e, durable_write) record { visited = tt; ends = h }
]

copy_file_lem :
    (cut : ℕ) (sha : Bytes → Bytes) (digest : ℕ → Bytes) (j : Journal) (i : ℕ) (d : Disk)
    → IsPreparing sha digest j d
    → Preparing sha digest j (copy_file cut sha i d)
unfolding copy_file
copy_file_lem cut sha digest j i d h = elim (Option-cases (d.retained i)) [
  | inl e ↦ rw (e, copy_file) record { visited = tt; ends = h }
  | inr (bytes, e) ↦ rw (e, copy_file) (write_staged_lem cut sha digest j i bytes d h)
]

read_staged_lem :
    (P : Disk → Type 0) (i : ℕ) (d : Disk)
    → P d
    → Holds P P (λ bytes e. P e × (e.staged_files i ≡ some bytes)) (read_bytes (staged i) d)
unfolding read_bytes
read_staged_lem P i d h = elim (Option-cases (d.staged_files i)) [
  | inl e ↦ rw (e, read_bytes) record { visited = tt; ends = h }
  | inr (bytes, e) ↦ rw (e, read_bytes) record { visited = tt; ends = (h, e) }
]

throw_when_lem :
    (P R : Disk → Type 0) (bad : Bool) (message : Bytes) (d : Disk)
    → P d
    → R d
    → Holds P P (λ _ e. P e × (R e × (bad ≡ false))) (throw_when bad message d)
unfolding throw_when
throw_when_lem P R true message d p r = record { visited = tt; ends = p }
throw_when_lem P R false message d p r = record { visited = tt; ends = (p, (r, refl)) }

HasDigests-update :
    (sha : Bytes → Bytes) (digest : ℕ → Bytes) (d : Disk) (i : ℕ) (bytes : Bytes)
    → HasDigests sha digest d
    → sha bytes ≡ digest i
    → (k : ℕ) → IsCopy sha (digest k) (update d.published_files i (some bytes) k)
unfolding HasDigests IsCopy
HasDigests-update sha digest d i bytes h e k = elim (Bool-cases (k == i)) [
  | inl t ↦ rw t (e ∙ ap digest (sym (==_lem k i t)))
  | inr t ↦ rw t (h k)
]
  where
    ==_lem : (a b : ℕ) → (a == b) ≡ true → a ≡ b
    ==_lem a b t = ground arith

publish_copy_lem :
    (sha : Bytes → Bytes) (digest : ℕ → Bytes) (j : Journal) (i : ℕ) (bytes : Bytes) (d : Disk)
    → IsPreparing sha digest j d
    → d.staged_files i ≡ some bytes
    → sha bytes ≡ digest i
    → Preparing sha digest j (rename_exclusive (staged i) (published i) d)
unfolding rename_exclusive HasDigests
publish_copy_lem sha digest j i bytes d h e g = elim (Option-cases (d.published_files i)) [
  | inl f ↦
      rw (e, f, rename_exclusive)
        (let after : IsPreparing sha digest j (record d {
          staged_files = update d.staged_files i none;
          published_files = update d.published_files i (some bytes);
        }) =
            record {
              article_same = h.article_same;
              recovery_none = h.recovery_none;
              backup_same = h.backup_same;
              digests = HasDigests-update sha digest d i bytes h.digests g;
              journal_same = h.journal_same;
            } in
          record { visited = (after, tt); ends = after })
  | inr (old, f) ↦ rw (e, f, rename_exclusive) record { visited = tt; ends = h }
]

not-false : (b : Bool) → not b ≡ false → b ≡ true
not-false true h = refl
not-false false h = sym h

abbrev pub AgreesWith : (ℕ → Bytes) → List FileCopy → Type 0
AgreesWith digest = All (λ (c : FileCopy). c.sha256 ≡ digest c.index)

prepare_copies_lem :
    (cut : ℕ) (sha : Bytes → Bytes) (digest : ℕ → Bytes) (j : Journal) (copies : List FileCopy)
    (d : Disk)
    → AgreesWith digest copies
    → IsPreparing sha digest j d
    → Preparing sha digest j (prepare_copies cut sha copies d)
unfolding prepare_copies
prepare_copies_lem cut sha digest j [] d a h = record { visited = tt; ends = h }
prepare_copies_lem cut sha digest j (c ∷ copies) d (g, a) h =
    let P = IsPreparing sha digest j in
    Holds-bind (copy_file cut sha c.index) _ d (copy_file_lem cut sha digest j c.index d h)
      (λ _ e k.
        Holds-bind (read_bytes (staged c.index)) _ e (read_staged_lem P c.index e k)
          (λ bytes f (l, found).
            Holds-bind (throw_when (not (bytes_eq (sha bytes) c.sha256)) _) _ f
              (throw_when_lem P (λ x. x.staged_files c.index ≡ some bytes)
                (not (bytes_eq (sha bytes) c.sha256)) _ f l found)
              (λ _ x (m, (staged_bytes, same)).
                Holds-bind (rename_exclusive (staged c.index) (published c.index)) _ x
                  (publish_copy_lem sha digest j c.index bytes x m staged_bytes (
                    bytes_eq_lem (sha bytes) c.sha256
                      (not-false (bytes_eq (sha bytes) c.sha256) same)
                    ∙ g))
                  (λ _ y n. prepare_copies_lem cut sha digest j copies y a n))))

write_temporary_lem :
    (cut : ℕ) (sha : Bytes → Bytes) (digest : ℕ → Bytes) (j : Journal) (bytes : Bytes) (d : Disk)
    (v : Option Bytes)
    → IsPreparing sha digest j (record d { temporary_file = v })
    → Holds
        (IsPreparing sha digest j)
        (IsPreparing sha digest j)
        (λ _ e. IsPreparing sha digest j e × (e.temporary_file ≡ some bytes))
        (durable_write cut sha temporary bytes (record d { temporary_file = v }))
unfolding durable_write
write_temporary_lem cut sha digest j bytes d (some old) h = record { visited = tt; ends = h }
write_temporary_lem cut sha digest j bytes d none h =
    let step : (t : Option Bytes) → IsPreparing sha digest j (record d { temporary_file = t }) =
      λ t.
        restaged sha digest j (record d { temporary_file = none }) d.staged_files t d.pending h in
    record {
      visited = (step (some (take cut bytes)), (step (some bytes), tt));
      ends = (step (some bytes), refl);
    }

-- The disk that an operation may start on: the article as it was read, and no files of its own.
pub record IsFresh (sha : Bytes → Bytes) (digest : ℕ → Bytes) (j : Journal) (d : Disk)
    : Type 0 where
  pub article_same : d.article ≡ j.before
  pub recovery_none : d.recovery_file ≡ none
  pub backup_none : d.backup_file ≡ none
  pub digests : HasDigests sha digest d
  pub journal_none : d.journal ≡ none

-- Without a journal the article is as before; with one, it is that of an interrupted operation.
unfoldable pub IsRecoverable : (Bytes → Bytes) → Journal → Disk → Type 0
IsRecoverable sha j d =
    ((d.journal ≡ none) × (d.article ≡ j.before))
    ⊎ ((p : Phase) × ((d.journal ≡ some (record j { phase = p }))
          × IsInterrupted sha (record j { phase = p }) d))

pub prepare_lem :
    (cut : ℕ) (sha : Bytes → Bytes) (digest : ℕ → Bytes) (j : Journal) (d : Disk)
    → AgreesWith digest j.copies
    → IsFresh sha digest j d
    → Holds
        (λ x. ((x.journal ≡ none) × (x.article ≡ j.before)) ⊎ IsPreparing sha digest j x)
        (IsPreparing sha digest j)
        (λ _ e. IsPreparing sha digest j e × (e.temporary_file ≡ some j.after))
        (prepare cut sha j d)
unfolding prepare atomic_json IsBackup HasDigests
prepare_lem cut sha digest j d a h =
    let start : IsPreparing sha digest j (record d { pending = false; journal = some j }) = record {
      article_same = h.article_same;
      recovery_none = h.recovery_none;
      backup_same = IsBackup-none j.before d.backup_file h.backup_none;
      digests = h.digests;
      journal_same = refl;
    } in
    let H =
      Holds-map _ (λ x k. inr k) (λ u x k. k)
        (Holds-bind (write_backup cut sha j.before) _
          (record d { pending = false; journal = some j })
          (write_backup_lem cut sha digest j j.before
            (record d { pending = false; journal = some j }) d.backup_file start)
          (λ _ e k.
            Holds-bind (prepare_copies cut sha j.copies) _ e
              (prepare_copies_lem cut sha digest j j.copies e a k)
              (λ _ f l. write_temporary_lem cut sha digest j j.after f f.temporary_file l))) in
    record {
      visited = (
        inl (h.journal_none, h.article_same),
        (inl (h.journal_none, h.article_same), (inr start, H.visited)),
      );
      ends = H.ends;
    }
  where
    IsBackup-none : (before found : Option Bytes) → found ≡ none → IsBackup before found
    IsBackup-none none found e = tt
    IsBackup-none (some b) none e = tt
    IsBackup-none (some b) (some x) e = cc
