-- ===== src/Storage/Operation/Recoverable.antt =====
-- Recovery of an operation that was interrupted (recover_journal): it ends, and it restores the article.
use wiki.Base.{
  ◌≡◌, refl, sym, subst, ◌⊎◌, inl, inr, ℕ, false, Option, none, some, Bytes, bytes_eq,
  bytes_eq_refl, opt_eq, opt_eq_refl, opt_eq_lem, Bool-cases, some-cancel,
}
use wiki.Storage.Disk.{Phase, prepared, replacing, replaced, Journal, Disk}
use wiki.Storage.Disk.Holds.{Holds}
use wiki.Storage.Operation.{
  read_bytes, durable_remove, exchange_files, rename_exclusive, throw_when, durable_write,
  undo_exchange, undo_removal, put_back, roll_back_to, foreign, restored, roll_back,
}

-- The article is never half written: it is what the operation wrote, or what was there before.
unfoldable pub IsWhole : Option Bytes → Bytes → Disk → Type 0
IsWhole before after d = (d.article ≡ some after) ⊎ (d.article ≡ before)

abbrev pub Never : Disk → Type 0
Never d = ⊥

-- Only the article and the recovery file change, and the article is restored.
unfoldable pub IsRestored : Option Bytes → Disk → Unit {0} → Disk → Type 0
IsRestored before d _ e = e ≡ record d { article = before; recovery_file = e.recovery_file }

put_back-some :
    (cut : ℕ) (sha : Bytes → Bytes) (after r : Bytes) (d : Disk)
    → Holds
        (IsWhole (some r) after)
        Never
        (IsRestored (some r) d)
        (put_back cut sha after (some r) (record d { article = some after }))
unfolding put_back durable_remove durable_write exchange_files read_bytes undo_exchange throw_when
    IsWhole IsRestored
put_back-some cut sha after r d =
    rw (bytes_eq_refl after) record {
      visited = (inl refl, (inl refl, (inl refl, (inr refl, (inr refl, tt)))));
      ends = refl;
    }

put_back-none :
    (cut : ℕ) (sha : Bytes → Bytes) (after : Bytes) (d : Disk)
    → Holds
        (IsWhole none after)
        Never
        (IsRestored none d)
        (put_back cut sha after none (record d { article = some after; recovery_file = none }))
unfolding put_back durable_remove rename_exclusive read_bytes undo_removal throw_when IsWhole
    IsRestored
put_back-none cut sha after d =
    rw (bytes_eq_refl after) record { visited = (inr refl, (inr refl, tt)); ends = refl }

-- What the article, the displaced file and the recovery file can be in an interrupted operation.
unfoldable pub IsArticle : Phase → Option Bytes → Bytes → Option Bytes → Option Bytes → Type 0
IsArticle prepared before after article displaced = article ≡ before
IsArticle replacing before after article displaced =
    ((article ≡ before) × (displaced ≡ some after))
    ⊎ ((article ≡ some after) × (displaced ≡ before))
IsArticle replaced before after article displaced = (article ≡ some after) × (displaced ≡ before)

unfoldable pub IsRecovery : Option Bytes → Bytes → Option Bytes → Option Bytes → Type 0
IsRecovery before after article left =
    (left ≡ none) ⊎ ((left ≡ before) ⊎ ((article ≡ before) × (left ≡ some after)))

restored-before :
    (before : Option Bytes) (after : Bytes)
    → (cut : ℕ) (sha : Bytes → Bytes) → restored cut sha before after before ≡ before
unfolding restored
restored-before none after cut sha = refl
restored-before (some b) after cut sha = elim (Bool-cases (bytes_eq b after)) [
  | inl e ↦ rw e refl
  | inr e ↦ rw e refl
]

restored-after :
    (before : Option Bytes) (after : Bytes)
    → (cut : ℕ) (sha : Bytes → Bytes) → restored cut sha before after (some after) ≡ before
unfolding restored
restored-after before after cut sha = rw (bytes_eq_refl after) refl

foreign-IsRecovery :
    (cut : ℕ) (sha : Bytes → Bytes) (before : Option Bytes) (after : Bytes)
    (article left : Option Bytes)
    → IsRecovery before after article left
    → foreign cut sha before after left ≡ false
unfolding foreign IsRecovery
foreign-IsRecovery cut sha before after article none h = refl
foreign-IsRecovery cut sha before after article (some l) (inl e) = cc
foreign-IsRecovery cut sha before after article (some l) (inr (inl e)) =
    rw (sym e, opt_eq_refl (some l))
      elim (Bool-cases (bytes_eq l after)) [ inl x ↦ rw x refl | inr x ↦ rw x refl ]
foreign-IsRecovery cut sha before after article (some l) (inr (inr (e, f))) =
    rw (some-cancel f, bytes_eq_refl after) refl

put_back_lem :
    (cut : ℕ) (sha : Bytes → Bytes) (after : Bytes) (before : Option Bytes) (d : Disk)
    → d.article ≡ some after
    → IsRecovery before after d.article d.recovery_file
    → Holds (IsWhole before after) Never (IsRestored before d) (put_back cut sha after before d)
unfolding IsRecovery
put_back_lem cut sha after (some r) d h i =
    subst
      (λ v.
        Holds (IsWhole (some r) after) Never (IsRestored (some r) d)
          (put_back cut sha after (some r) (record d { article = v })))
      (sym h) (put_back-some cut sha after r d)
put_back_lem cut sha after none d h i =
    let left : d.recovery_file ≡ none = elim i [
      | inl e ↦ e
      | inr (inl e) ↦ e
      | inr (inr (e, f)) ↦ cc
    ] in
    subst
      (λ v.
        Holds (IsWhole none after) Never (IsRestored none d)
          (put_back cut sha after none (record d { article = v })))
      (sym h)
      (subst
        (λ w.
          Holds (IsWhole none after) Never (IsRestored none d)
            (put_back cut sha after none (record d { article = some after; recovery_file = w })))
        (sym left) (put_back-none cut sha after d))

roll_back_to_lem :
    (cut : ℕ) (sha : Bytes → Bytes) (after : Bytes) (before : Option Bytes) (d : Disk)
    → IsRecovery before after d.article d.recovery_file
    → (d.article ≡ some after) ⊎ (d.article ≡ before)
    → Holds (IsWhole before after) Never (IsRestored before d) (roll_back_to cut sha after before d)
unfolding roll_back_to throw_when IsRestored
roll_back_to_lem cut sha after before d r h =
    rw (foreign-IsRecovery cut sha before after d.article d.recovery_file r)
      elim (Bool-cases (opt_eq d.article (some after))) [
        | inl e ↦ rw e (put_back_lem cut sha after before d (opt_eq_lem d.article (some after) e) r)
        | inr e ↦
            rw e
              let kept : d.article ≡ before = elim h [
                | inl x ↦ cc (opt_eq_refl (some after))
                | inr x ↦ x
              ] in
                rw (sym kept, opt_eq_refl d.article) record { visited = tt; ends = refl }
      ]

restored-displaced :
    (cut : ℕ) (sha : Bytes → Bytes) (j : Journal) (d : Disk)
    → d.temporary_file ≡ j.before
    → restored cut sha j.before j.after d.temporary_file ≡ j.before
restored-displaced cut sha j d t =
    subst (λ x. restored cut sha j.before j.after x ≡ j.before) (sym t)
      (restored-before j.before j.after cut sha)

pub roll_back_lem :
    (cut : ℕ) (sha : Bytes → Bytes) (phase : Phase) (j : Journal) (d : Disk)
    → IsArticle phase j.before j.after d.article d.temporary_file
    → IsRecovery j.before j.after d.article d.recovery_file
    → Holds (IsWhole j.before j.after) Never (IsRestored j.before d) (roll_back cut sha phase j d)
unfolding IsArticle roll_back IsRestored
roll_back_lem cut sha prepared j d a r = rw (sym a) record { visited = tt; ends = refl }
roll_back_lem cut sha replacing j d (inl (a, t)) r =
    let e : restored cut sha j.before j.after d.temporary_file ≡ j.before =
      subst (λ x. restored cut sha j.before j.after x ≡ j.before) (sym t)
        (restored-after j.before j.after cut sha) in
    rw e (roll_back_to_lem cut sha j.after j.before d r (inr a))
roll_back_lem cut sha replacing j d (inr (a, t)) r =
    rw (restored-displaced cut sha j d t) (roll_back_to_lem cut sha j.after j.before d r (inl a))
roll_back_lem cut sha replaced j d (a, t) r =
    rw (restored-displaced cut sha j d t) (roll_back_to_lem cut sha j.after j.before d r (inl a))
