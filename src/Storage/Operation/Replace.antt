-- ===== src/Storage/Operation/Replace.antt =====
-- The states that a crash of FileOperation::replace can leave.
use wiki.Base.{
  ℕ, ◌≡◌, refl, sym, subst, inl, inr, Bool, true, false, Option, none, some, List, Bytes, All-map,
  bytes_eq_refl, opt_eq,
}
use wiki.Storage.Disk.{Phase, prepared, replacing, replaced, FileCopy, Journal, Disk, ◌>>=◌}
use wiki.Storage.Disk.Holds.{Holds, Holds-bind, Holds-weaken}
use wiki.Storage.Operation.{
  atomic_json, read_bytes, rename_exclusive, exchange_files, publish, check_displaced, replace,
  throw_when, prepare,
}
use wiki.Storage.Operation.Recoverable.{IsArticle, IsRecovery}
use wiki.Storage.Operation.Cleanup.{IsCopy, AreCopies}
use wiki.Storage.Operation.Recovered.{IsBackup}
use wiki.Storage.Operation.Crash.{
  HasDigests, IsPreparing, AgreesWith, IsRecoverable, IsFresh, prepare_lem,
}

AreCopies-HasDigests :
    (sha : Bytes → Bytes) (digest : ℕ → Bytes) (d : Disk) (copies : List FileCopy)
    → HasDigests sha digest d
    → AgreesWith digest copies
    → AreCopies sha d copies
unfolding AreCopies HasDigests
AreCopies-HasDigests sha digest d copies h =
    All-map (λ (c : FileCopy). c.sha256 ≡ digest c.index)
      (λ (c : FileCopy). IsCopy sha c.sha256 (d.published_files c.index))
      (λ (c : FileCopy) e.
        subst (λ x. IsCopy sha x (d.published_files c.index)) (sym e) (h c.index))
      copies

-- A state during `replace`, by its phase, its article and what was displaced.
interrupted :
    (sha : Bytes → Bytes) (j : Journal) (p : Phase) (d : Disk) (article displaced : Option Bytes)
    (pending : Bool)
    → IsArticle p j.before j.after article displaced
    → IsBackup j.before d.backup_file
    → AreCopies sha d j.copies
    → IsRecoverable sha j (record d {
      article = article;
      temporary_file = displaced;
      recovery_file = none;
      pending = pending;
      journal = some (record j { phase = p });
    })
unfolding IsRecoverable AreCopies IsRecovery
interrupted sha j p d article displaced pending a b c =
    inr (p, (refl, record { article_ok = a; recovery_ok = inl refl; backup_ok = b; copies_ok = c }))

-- What `replace` has done when it returns.
pub record IsWritten (sha : Bytes → Bytes) (j : Journal) (d : Disk) : Type 0 where
  pub recoverable : IsRecoverable sha j d
  pub article_after : d.article ≡ some j.after
  pub displaced_before : d.temporary_file ≡ j.before
  pub phase_replaced : d.journal ≡ some (record j { phase = replaced })

replace_on :
    (cut : ℕ) (sha : Bytes → Bytes) (j : Journal) (before : Option Bytes) (d : Disk)
    → IsBackup before d.backup_file
    → AreCopies sha d j.copies
    → Holds
        (IsRecoverable sha (record j { before = before }))
        (λ _. ⊥)
        (λ _. IsWritten sha (record j { before = before }))
        (replace cut sha
          (record j { before = before; phase = prepared })
          (record d {
            article = before;
            temporary_file = some j.after;
            recovery_file = none;
            journal = some (record j { before = before; phase = prepared });
          }))
unfolding replace throw_when atomic_json publish check_displaced rename_exclusive exchange_files
    read_bytes IsArticle AreCopies opt_eq
replace_on cut sha j none d b c =
    let step : (p : Phase) (article displaced : Option Bytes) (pending : Bool)
        → IsArticle p none j.after article displaced
        → IsRecoverable sha (record j { before = none })
            (record d {
              article = article;
              temporary_file = displaced;
              recovery_file = none;
              pending = pending;
              journal = some (record j { before = none; phase = p });
            }) =
      λ p article displaced pending a.
        interrupted sha (record j { before = none }) p d article displaced pending a b c in
    rw (bytes_eq_refl j.after) record {
      visited = (
        step prepared none (some j.after) false refl,
        (
          step prepared none (some j.after) true refl,
          (
            step replacing none (some j.after) false (inl (refl, refl)),
            (
              step replacing (some j.after) none false (inr (refl, refl)),
              (
                step replacing (some j.after) none false (inr (refl, refl)),
                (
                  step replacing (some j.after) none true (inr (refl, refl)),
                  (step replaced (some j.after) none false (refl, refl), tt),
                ),
              ),
            ),
          ),
        ),
      );
      ends = record {
        recoverable = step replaced (some j.after) none false (refl, refl);
        article_after = refl;
        displaced_before = refl;
        phase_replaced = refl;
      };
    }
replace_on cut sha j (some x) d b c =
    let step : (p : Phase) (article displaced : Option Bytes) (pending : Bool)
        → IsArticle p (some x) j.after article displaced
        → IsRecoverable sha (record j { before = (some x) })
            (record d {
              article = article;
              temporary_file = displaced;
              recovery_file = none;
              pending = pending;
              journal = some (record j { before = (some x); phase = p });
            }) =
      λ p article displaced pending a.
        interrupted sha (record j { before = (some x) }) p d article displaced pending a b c in
    rw (bytes_eq_refl x, bytes_eq_refl x, bytes_eq_refl j.after)
      record {
        visited = (
          step prepared (some x) (some j.after) false refl,
          (
            step prepared (some x) (some j.after) true refl,
            (
              step replacing (some x) (some j.after) false (inl (refl, refl)),
              (
                step replacing (some j.after) (some x) false (inr (refl, refl)),
                (
                  step replacing (some j.after) (some x) false (inr (refl, refl)),
                  (
                    step replacing (some j.after) (some x) true (inr (refl, refl)),
                    (step replaced (some j.after) (some x) false (refl, refl), tt),
                  ),
                ),
              ),
            ),
          ),
        );
        ends = record {
          recoverable = step replaced (some j.after) (some x) false (refl, refl);
          article_after = refl;
          displaced_before = refl;
          phase_replaced = refl;
        };
      }

IsPreparing-IsRecoverable :
    (sha : Bytes → Bytes) (digest : ℕ → Bytes) (j : Journal) (d : Disk)
    → AgreesWith digest j.copies
    → IsPreparing sha digest (record j { phase = prepared }) d
    → IsRecoverable sha j d
unfolding IsRecoverable IsArticle IsRecovery
IsPreparing-IsRecoverable sha digest j d a h = inr (
  prepared,
  (
    h.journal_same,
    record {
      article_ok = h.article_same;
      recovery_ok = inl h.recovery_none;
      backup_ok = h.backup_same;
      copies_ok = AreCopies-HasDigests sha digest d j.copies h.digests a;
    },
  ),
)

replace_lem :
    (cut : ℕ) (sha : Bytes → Bytes) (digest : ℕ → Bytes) (j : Journal) (d : Disk)
    → AgreesWith digest j.copies
    → IsPreparing sha digest (record j { phase = prepared }) d
    → d.temporary_file ≡ some j.after
    → Holds
        (IsRecoverable sha j)
        (λ _. ⊥)
        (λ _. IsWritten sha j)
        (replace cut sha (record j { phase = prepared }) d)
replace_lem cut sha digest j d a h t =
    let c : AreCopies sha d j.copies = AreCopies-HasDigests sha digest d j.copies h.digests a in
    let R : Disk → Type 0 = λ x.
      Holds (IsRecoverable sha j) (λ _. ⊥) (λ _. IsWritten sha j)
        (replace cut sha (record j { phase = prepared }) x) in
    subst (λ x. R (record d { article = x })) (sym h.article_same)
      (subst (λ x. R (record d { article = j.before; temporary_file = x })) (sym t)
        (subst
          (λ x.
            R (record d { article = j.before; temporary_file = some j.after; recovery_file = x }))
          (sym h.recovery_none)
          (subst
            (λ x. R (record d {
              article = j.before;
              temporary_file = some j.after;
              recovery_file = none;
              journal = x;
            }))
            (sym h.journal_same) (replace_on cut sha j j.before d h.backup_same c))))

-- A crash during `prepare` and `replace` leaves a recoverable disk, whatever ends them.
pub write_lem :
    (cut : ℕ) (sha : Bytes → Bytes) (digest : ℕ → Bytes) (j : Journal) (d : Disk)
    → AgreesWith digest j.copies
    → IsFresh sha digest (record j { phase = prepared }) d
    → Holds
        (IsRecoverable sha j)
        (IsRecoverable sha j)
        (λ _. IsWritten sha j)
        ((prepare cut sha (record j { phase = prepared }) >>= λ _.
            replace cut sha (record j { phase = prepared }))
          d)
unfolding IsRecoverable
write_lem cut sha digest j d a h =
    Holds-bind (prepare cut sha (record j { phase = prepared })) _ d
      (Holds-weaken _
        (λ x k. elim k [
          | inl (n, b) ↦ inl (n, b)
          | inr p ↦ IsPreparing-IsRecoverable sha digest j x a p
        ])
        (λ x p. IsPreparing-IsRecoverable sha digest j x a p)
        (prepare_lem cut sha digest (record j { phase = prepared }) d a h))
      (λ u e (p, t).
        Holds-weaken _ (λ x k. k) (λ x b. absurd b) (replace_lem cut sha digest j e a p t))
