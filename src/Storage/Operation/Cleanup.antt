-- ===== src/Storage/Operation/Cleanup.antt =====
-- Recovery removes the copies of the sources that the operation made (remove_copies, remove_backup).
use wiki.Base.{
  ◌≡◌, refl, sym, subst, ◌∙◌, ◌⊎◌, inl, inr, ℕ, true, false, ◌==◌, Option, none, some, List, [],
  ◌∷◌, Bytes, All, All-map, Bool-cases, bytes_eq_refl, arith, ap,
}
use wiki.Storage.Disk.{FileCopy, Disk, ◌>>=◌, update}
use wiki.Storage.Disk.Holds.{Holds, Holds-bind, Holds-map}
use wiki.Storage.Operation.{durable_remove, throw_when, remove_published, remove_copies}
use wiki.Storage.Operation.Recoverable.{Never}

-- A published copy is absent, or has the digest that was recorded.
unfoldable pub IsCopy : (Bytes → Bytes) → Bytes → Option Bytes → Type 0
IsCopy sha digest none = Unit
IsCopy sha digest (some bytes) = sha bytes ≡ digest

unfoldable pub AreCopies : (Bytes → Bytes) → Disk → List FileCopy → Type 0
AreCopies sha d = All (λ (c : FileCopy). IsCopy sha c.sha256 (d.published_files c.index))

-- `e` is `d` after copies were removed: nothing else changed, and every copy, staged or published, is as
-- it was or gone.
pub record IsCleaned (d e : Disk) : Type 0 where
  pub same : e ≡ record d { staged_files = e.staged_files; published_files = e.published_files }
  pub left : (i : ℕ) → (e.published_files i ≡ none) ⊎ (e.published_files i ≡ d.published_files i)
  pub unstaged : (i : ℕ) → (e.staged_files i ≡ none) ⊎ (e.staged_files i ≡ d.staged_files i)

-- Neither the staged nor the published copy is there.
pub record IsGone (e : Disk) (c : FileCopy) : Type 0 where
  pub no_staged : e.staged_files c.index ≡ none
  pub no_published : e.published_files c.index ≡ none

IsCleaned-then : (a b c : Disk) → IsCleaned a b → IsCleaned b c → IsCleaned a c
IsCleaned-then a b c h k = record {
  same =
      subst
        (λ (x : Disk).
          c ≡ record x { staged_files = c.staged_files; published_files = c.published_files })
        h.same k.same;
  left = λ i. elim (k.left i) [
    | inl e ↦ inl e
    | inr e ↦ elim (h.left i) [ inl f ↦ inl (e ∙ f) | inr f ↦ inr (e ∙ f) ]
  ];
  unstaged = λ i. elim (k.unstaged i) [
    | inl e ↦ inl e
    | inr e ↦ elim (h.unstaged i) [ inl f ↦ inl (e ∙ f) | inr f ↦ inr (e ∙ f) ]
  ];
}

IsCleaned-none :
    (d e : Disk) (i : ℕ) → IsCleaned d e → d.published_files i ≡ none → e.published_files i ≡ none
IsCleaned-none d e i h g = elim (h.left i) [ inl f ↦ f | inr f ↦ f ∙ g ]

IsCleaned-no_staged :
    (d e : Disk) (i : ℕ) → IsCleaned d e → d.staged_files i ≡ none → e.staged_files i ≡ none
IsCleaned-no_staged d e i h g = elim (h.unstaged i) [ inl f ↦ f | inr f ↦ f ∙ g ]

-- The states on the way keep the article.
unfoldable pub Keeps : Option Bytes → Disk → Type 0
Keeps article d = d.article ≡ article

update-left :
    (f : ℕ → Option Bytes) (i j : ℕ) → (update f i none j ≡ none) ⊎ (update f i none j ≡ f j)
update-left f i j = elim (Bool-cases (j == i)) [ inl e ↦ inl (rw e refl) | inr e ↦ inr (rw e refl) ]

update-at : (f : ℕ → Option Bytes) (i : ℕ) → update f i none i ≡ none
update-at f i = rw (==_refl i) refl
  where
    ==_refl : (i : ℕ) → (i == i) ≡ true
    ==_refl i = ground arith

AreCopies-IsCleaned :
    (sha : Bytes → Bytes) (d e : Disk) (copies : List FileCopy)
    → IsCleaned d e
    → AreCopies sha d copies
    → AreCopies sha e copies
unfolding AreCopies IsCopy
AreCopies-IsCleaned sha d e copies h =
    All-map (λ (c : FileCopy). IsCopy sha c.sha256 (d.published_files c.index))
      (λ (c : FileCopy). IsCopy sha c.sha256 (e.published_files c.index))
      (λ (c : FileCopy) g. elim (h.left c.index) [
        | inl f ↦ subst (IsCopy sha c.sha256) (sym f) (IsCopy-absent sha c.sha256)
        | inr f ↦ subst (IsCopy sha c.sha256) (sym f) g
      ])
      copies
  where
    IsCopy-absent : (sha : Bytes → Bytes) (digest : Bytes) → IsCopy sha digest none
    IsCopy-absent sha digest = tt

remove_published_lem :
    (cut : ℕ) (sha : Bytes → Bytes) (c : FileCopy) (d : Disk) (found : Option Bytes)
    → d.published_files c.index ≡ found
    → IsCopy sha c.sha256 found
    → Holds
        (Keeps d.article)
        Never
        (λ _ e. IsCleaned d e × (e.published_files c.index ≡ none))
        (remove_published cut sha c found d)
unfolding remove_published IsCopy throw_when durable_remove Keeps
remove_published_lem cut sha c d none h i = record {
  visited = tt;
  ends = (record { same = refl; left = λ i. inr refl; unstaged = λ i. inr refl }, h);
}
remove_published_lem cut sha c d (some bytes) h i =
    rw (i, bytes_eq_refl c.sha256)
      record {
        visited = (refl, tt);
        ends = (
          record {
            same = refl;
            left = update-left d.published_files c.index;
            unstaged = λ i. inr refl;
          },
          update-at d.published_files c.index,
        );
      }

-- Every copy that the operation staged or published is removed.
pub remove_copies_lem :
    (cut : ℕ) (sha : Bytes → Bytes) (copies : List FileCopy) (d : Disk)
    → AreCopies sha d copies
    → Holds
        (Keeps d.article)
        Never
        (λ _ e. IsCleaned d e × All (IsGone e) copies)
        (remove_copies cut sha false copies d)
unfolding remove_copies AreCopies Keeps durable_remove
remove_copies_lem cut sha [] d h = record {
  visited = tt;
  ends = (record { same = refl; left = λ i. inr refl; unstaged = λ i. inr refl }, tt);
}
remove_copies_lem cut sha (c ∷ copies) d (g, h) =
    let d1 : Disk = record d { staged_files = update d.staged_files c.index none } in
    let first : IsCleaned d d1 = record {
      same = refl;
      left = λ i. inr refl;
      unstaged = update-left d.staged_files c.index;
    } in
    let H : Holds (Keeps d.article) Never
        (λ (u : Unit {0}) (e : Disk). IsCleaned d e × (IsGone e c × All (IsGone e) copies))
        ((remove_published cut sha c (d.published_files c.index) >>= λ u.
            remove_copies cut sha false copies)
          d1) =
      Holds-bind (remove_published cut sha c (d.published_files c.index))
        (λ u. remove_copies cut sha false copies) d1
        (remove_published_lem cut sha c d1 (d.published_files c.index) refl g)
        (λ u e (k, n).
          let staged_gone : e.staged_files c.index ≡ none =
            IsCleaned-no_staged d1 e c.index k (update-at d.staged_files c.index) in
          Holds-map (remove_copies cut sha false copies e)
            (λ x same. same ∙ ap (λ (y : Disk). y.article) k.same)
            (λ v f (m, all). (
              IsCleaned-then d e f (IsCleaned-then d d1 e first k) m,
              (
                record {
                  no_staged = IsCleaned-no_staged e f c.index m staged_gone;
                  no_published = IsCleaned-none e f c.index m n;
                },
                all,
              ),
            ))
            (remove_copies_lem cut sha copies e (AreCopies-IsCleaned sha d1 e copies k h))) in
    record { visited = (refl, H.visited); ends = H.ends }
