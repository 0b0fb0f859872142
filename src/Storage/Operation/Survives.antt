-- ===== src/Storage/Operation/Survives.antt =====
-- A crash at any step of an operation, then recovery (FileOperation, recover_journal).
use wiki.Base.{
  ℕ, ◌≡◌, refl, sym, subst, ◌⊎◌, inl, inr, Bool, true, false, ◌||◌, ◌==◌, Option, none, some, List,
  [], ◌∷◌, Bytes, if◌then◌else◌, All, All-map, any, bytes_eq_refl, opt_eq_refl, Bool-cases, arith,
}
use wiki.Storage.Disk.{Phase, FileCopy, Journal, Disk, ◌>>=◌}
use wiki.Storage.Disk.Holds.{Holds, Holds-map, Holds-weaken}
use wiki.Storage.Operation.{
  first_copies, file_operation, prepare, replace, digests_ok, recover_journal,
}
use wiki.Storage.Operation.Recoverable.{IsWhole, Never}
use wiki.Storage.Operation.Recovered.{IsRolledBack, recover_journal_lem}
use wiki.Storage.Operation.Cleanup.{IsCopy}
use wiki.Storage.Operation.Crash.{AgreesWith, IsRecoverable, HasDigests}
use wiki.Storage.Operation.Replace.{write_lem}

-- The digest that the copy to a destination has to have.
unfoldable pub digest_of : List FileCopy → ℕ → Bytes
digest_of [] i = []
digest_of (c ∷ copies) i = if i == c.index then c.sha256 else digest_of copies i

abbrev Unseen : List ℕ → FileCopy → Type 0
Unseen seen c = any (λ i. i == c.index) seen ≡ false

||-false-right : (a b : Bool) → a || b ≡ false → b ≡ false
||-false-right a b h = ground arith

||-false-left : (a b : Bool) → a || b ≡ false → a ≡ false
||-false-left a b h = ground arith

Unseen-first_copies :
    (seen : List ℕ) (copies : List FileCopy) → All (Unseen seen) (first_copies seen copies)
unfolding first_copies
Unseen-first_copies seen [] = tt
Unseen-first_copies seen (c ∷ copies) = elim (Bool-cases (any (λ i. i == c.index) seen)) [
  | inl e ↦ rw (e, first_copies) (Unseen-first_copies seen copies)
  | inr e ↦
      rw (e, first_copies)
        (
          e,
          All-map (Unseen (c.index ∷ seen)) (Unseen seen)
              (λ (x : FileCopy) h. ||-false-right (c.index == x.index) _ h)
              (first_copies (c.index ∷ seen) copies) (Unseen-first_copies (c.index ∷ seen) copies),
        )
]

==_swap : (a b : ℕ) → (a == b) ≡ false → (b == a) ≡ false
==_swap a b h = ground arith

AgreesWith-cons :
    (c : FileCopy) (seen : List ℕ) (digest : ℕ → Bytes) (copies : List FileCopy)
    → All (Unseen (c.index ∷ seen)) copies
    → AgreesWith digest copies
    → AgreesWith (λ i. if i == c.index then c.sha256 else digest i) copies
AgreesWith-cons c seen digest [] u a = tt
AgreesWith-cons c seen digest (x ∷ copies) (v, u) (b, a) = (
  rw (==_swap c.index x.index (||-false-left (c.index == x.index) _ v)) b,
  AgreesWith-cons c seen digest copies u a,
)

AgreesWith-first_copies :
    (seen : List ℕ) (copies : List FileCopy)
    → AgreesWith (digest_of (first_copies seen copies)) (first_copies seen copies)
unfolding first_copies digest_of
AgreesWith-first_copies seen [] = tt
AgreesWith-first_copies seen (c ∷ copies) = elim (Bool-cases (any (λ i. i == c.index) seen)) [
  | inl e ↦ rw (e, first_copies) (AgreesWith-first_copies seen copies)
  | inr e ↦
      let r = first_copies (c.index ∷ seen) copies in
      rw (e, first_copies)
        (
          rw (==_refl c.index) refl,
          AgreesWith-cons c seen (digest_of r) r (Unseen-first_copies (c.index ∷ seen) copies)
              (AgreesWith-first_copies (c.index ∷ seen) copies),
        )
]
  where
    ==_refl : (i : ℕ) → (i == i) ≡ true
    ==_refl i = ground arith

-- The disk that an operation starts on: the article as it was read, and none of these files yet.
pub record IsUntouched (before : Option Bytes) (d : Disk) : Type 0 where
  pub article_same : d.article ≡ before
  pub no_recovery : d.recovery_file ≡ none
  pub no_backup : d.backup_file ≡ none
  pub no_copies : (i : ℕ) → d.published_files i ≡ none
  pub no_journal : d.journal ≡ none

-- Where a crash leaves no journal, the article is as before. Where it leaves one, recovery without the mark of
-- a commit returns, never leaves the article half written, restores it and ends as `IsRolledBack` says.
unfoldable pub Survives : ℕ → (Bytes → Bytes) → Option Bytes → Bytes → Disk → Type 0
Survives cut sha before after d =
    ((d.journal ≡ none) × (d.article ≡ before))
    ⊎ ((k : Journal) × ((d.journal ≡ some k)
          × Holds (IsWhole before after) Never (λ _ e. (e.article ≡ before) × IsRolledBack k e)
              (recover_journal cut sha false k d)))

digests_ok-file_operation :
    (cut : ℕ) (sha : Bytes → Bytes) (before : Option Bytes) (after : Bytes) (copies : List FileCopy)
    (p : Phase)
    → digests_ok cut sha (record (file_operation sha before after copies) { phase = p }) ≡ true
unfolding digests_ok file_operation
digests_ok-file_operation cut sha none after copies p = rw (bytes_eq_refl (sha after)) refl
digests_ok-file_operation cut sha (some b) after copies p =
    rw (bytes_eq_refl (sha after), opt_eq_refl (some (sha b))) refl

IsRecoverable-Survives :
    (cut : ℕ) (sha : Bytes → Bytes) (before : Option Bytes) (after : Bytes) (copies : List FileCopy)
    (d : Disk)
    → IsRecoverable sha (file_operation sha before after copies) d
    → Survives cut sha before after d
unfolding IsRecoverable Survives file_operation
IsRecoverable-Survives cut sha before after copies d (inl h) = inl h
IsRecoverable-Survives cut sha before after copies d (inr (p, (h, i))) =
    let k : Journal = record (file_operation sha before after copies) { phase = p } in
    inr (
      k,
      (
        h,
        Holds-map (recover_journal cut sha false k d) (λ x w. w) (λ u e r. (r.article_before, r))
            (recover_journal_lem cut sha k d
              (digests_ok-file_operation cut sha before after copies p) i),
      ),
    )

-- From a disk with the article as it was read and no recovery file, backup, published copy or journal: every state that a crash of
-- `prepare` and `replace` can leave, whatever is cut off an interrupted write, survives; so does the state
-- after an error; and where both return, the article is the new one and the state survives. Surviving
-- means that there is no journal and the article is as before, or that recovery without the mark of a
-- commit returns, keeps the article whole in all of its states, restores it, and leaves no temporary
-- file, no journal, no staged or published copy of a source, and no backup where there was an article.
pub crash-recover_journal :
    (cut again : ℕ) (sha : Bytes → Bytes) (before : Option Bytes) (after : Bytes)
    (copies : List FileCopy) (d : Disk)
    → IsUntouched before d
    → Holds
        (Survives again sha before after)
        (Survives again sha before after)
        (λ _ e. Survives again sha before after e × (e.article ≡ some after))
        ((prepare cut sha (file_operation sha before after copies) >>= λ _.
            replace cut sha (file_operation sha before after copies))
          d)
unfolding file_operation HasDigests IsCopy
crash-recover_journal cut again sha before after copies d h =
    let j = file_operation sha before after copies in
    let safe : (e : Disk) → IsRecoverable sha j e → Survives again sha before after e =
      λ e. IsRecoverable-Survives again sha before after copies e in
    Holds-map _ safe (λ u e w. (safe e w.recoverable, w.article_after))
      (Holds-weaken _ (λ e r. r) safe
        (write_lem cut sha (digest_of (first_copies [] copies)) j d
          (AgreesWith-first_copies [] copies)
          record {
            article_same = h.article_same;
            recovery_none = h.no_recovery;
            backup_none = h.no_backup;
            digests = λ i. subst (IsCopy sha _) (sym (h.no_copies i)) tt;
            journal_none = h.no_journal;
          }))
