-- ===== src/Storage/Operation/Recovered.antt =====
-- What recovery leaves of an operation that was not committed (recover_journal).
use wiki.Base.{
  ℕ, ◌≡◌, refl, sym, subst, ap, ◌∙◌, ◌⊎◌, inl, inr, true, false, Option, none, some, Bytes, All,
  All-map, starts_with,
}
use wiki.Storage.Disk.{Journal, Disk}
use wiki.Storage.Disk.Holds.{Holds, Holds-bind, Holds-map}
use wiki.Storage.Operation.{
  durable_remove, throw_when, roll_back, remove_copies, check_backup, remove_backup, remove_journal,
  remove_pending, digests_ok, recover_journal,
}
use wiki.Storage.Operation.Recoverable.{
  Never, IsWhole, IsRestored, IsArticle, IsRecovery, roll_back_lem,
}
use wiki.Storage.Operation.Cleanup.{Keeps, AreCopies, IsGone, remove_copies_lem}

-- A backup is absent, or a prefix of what was to be saved.
unfoldable pub IsBackup : Option Bytes → Option Bytes → Type 0
IsBackup none found = Unit
IsBackup (some before) none = Unit
IsBackup (some before) (some bytes) = starts_with before bytes ≡ true

-- The files of an operation that a crash interrupted, before the commit.
pub record IsInterrupted (sha : Bytes → Bytes) (j : Journal) (d : Disk) : Type 0 where
  pub article_ok : IsArticle j.phase j.before j.after d.article d.temporary_file
  pub recovery_ok : IsRecovery j.before j.after d.article d.recovery_file
  pub backup_ok : IsBackup j.before d.backup_file
  pub copies_ok : AreCopies sha d j.copies

-- The article is as before, and the operation has no temporary file, copy or journal left, nor a backup
-- where it had made one.
pub record IsRolledBack (j : Journal) (d : Disk) : Type 0 where
  pub article_before : d.article ≡ j.before
  pub no_temporary : d.temporary_file ≡ none
  pub no_recovery : d.recovery_file ≡ none
  pub no_backup : (j.before ≡ none) ⊎ (d.backup_file ≡ none)
  pub no_journal : d.journal ≡ none
  pub no_pending : d.pending ≡ false
  pub no_copies : All (IsGone d) j.copies

remove_backup_lem :
    (cut : ℕ) (sha : Bytes → Bytes) (before : Option Bytes) (d : Disk) (found : Option Bytes)
    → d.backup_file ≡ found
    → IsBackup before found
    → Holds
        (Keeps d.article)
        Never
        (λ _ e.
          (e ≡ record d { backup_file = e.backup_file })
          × ((before ≡ none) ⊎ (e.backup_file ≡ none)))
        (remove_backup cut sha before d)
unfolding remove_backup check_backup IsBackup throw_when durable_remove Keeps
remove_backup_lem cut sha none d found e h = record { visited = tt; ends = (refl, inl refl) }
remove_backup_lem cut sha (some b) d none e h =
    rw (e) record { visited = (refl, tt); ends = (refl, inr refl) }
remove_backup_lem cut sha (some b) d (some bytes) e h =
    rw (e, h) record { visited = (refl, tt); ends = (refl, inr refl) }

pub recover_journal_lem :
    (cut : ℕ) (sha : Bytes → Bytes) (j : Journal) (d : Disk)
    → digests_ok cut sha j ≡ true
    → IsInterrupted sha j d
    → Holds
        (IsWhole j.before j.after)
        Never
        (λ _ e. IsRolledBack j e)
        (recover_journal cut sha false j d)
unfolding recover_journal throw_when IsRestored AreCopies Keeps IsWhole durable_remove
    remove_journal remove_pending
recover_journal_lem cut sha j d ok h = rw ok (
    Holds-bind (roll_back cut sha j.phase j) _ d
      (roll_back_lem cut sha j.phase j d h.article_ok h.recovery_ok)
      (λ u e r.
        let a : e.article ≡ j.before = ap (λ (x : Disk). x.article) r in
        let c : AreCopies sha e j.copies =
          subst (λ x. AreCopies sha x j.copies) (sym r) h.copies_ok in
        Holds-bind (remove_copies cut sha false j.copies) _ e
          (Holds-map (remove_copies cut sha false j.copies e) (λ x k. inr (k ∙ a)) (λ v x k. k)
            (remove_copies_lem cut sha j.copies e c))
          (λ v f (m, none_left).
            let b : f.article ≡ j.before = ap (λ (x : Disk). x.article) m.same ∙ a in
            let k : f.backup_file ≡ d.backup_file =
              ap (λ (x : Disk). x.backup_file) m.same ∙ ap (λ (x : Disk). x.backup_file) r in
            Holds-bind (remove_backup cut sha j.before) _ f
              (Holds-map (remove_backup cut sha j.before f) (λ x q. inr (q ∙ b)) (λ w x q. q)
                (remove_backup_lem cut sha j.before f d.backup_file k h.backup_ok))
              (λ w g (q, gone).
                let whole : g.article ≡ j.before = ap (λ (x : Disk). x.article) q ∙ b in
                let gone_too : All (IsGone g) j.copies =
                  subst (λ (y : Disk). All (IsGone y) j.copies) (sym q)
                    (All-map (IsGone f) (IsGone (record f { backup_file = g.backup_file }))
                      (λ c k. record { no_staged = k.no_staged; no_published = k.no_published })
                      j.copies none_left) in
                record {
                  visited = (inr whole, (inr whole, (inr whole, (inr whole, tt))));
                  ends = record {
                    article_before = whole;
                    no_temporary = refl;
                    no_recovery = refl;
                    no_backup = gone;
                    no_journal = refl;
                    no_pending = refl;
                    no_copies =
                        All-map (IsGone g) _
                          (λ c k. record { no_staged = k.no_staged; no_published = k.no_published })
                          j.copies gone_too;
                  };
                }))))
