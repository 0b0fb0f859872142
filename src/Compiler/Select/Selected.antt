-- ===== src/Compiler/Select/Selected.antt =====
-- The candidates of `select_evidence` stand for the rows that fit (libs/compiler/src/compiler.cpp).
use wiki.Base.{
  ◌≡◌, refl, sym, ap, subst, ◌∙◌, ◌⊎◌, inl, inr, Bool, true, false, not, ◌||◌, List, [], ◌∷◌, ◌++◌,
  Bytes, ok, ◌==◌, if◌then◌else◌, if-true, if-false, is_empty, All, All-append, All-map, Any,
  Bool-cases, >>=-eq-ok, ok-cancel, arith,
}
use wiki.Domain.Unicode.{Unicode}
use wiki.Domain.Types.{TextStatus}
use wiki.Compiler.Select.{
  SourceRow, CandidatePage, is_selectable, parse_text_status, is_model_ready, candidate_of,
  is_requested, consider, collect, has_match,
}

-- Native text needs no review; text of OCR was reviewed.
abbrev pub IsReady : TextStatus → Type 0
IsReady status = (status ≡ TextStatus.native) ⊎ (status ≡ TextStatus.reviewed)

is_model_ready-IsReady : (status : TextStatus) → is_model_ready status ≡ true → IsReady status
unfolding is_model_ready
is_model_ready-IsReady TextStatus.native h = inl refl
is_model_ready-IsReady TextStatus.reviewed h = inr refl
is_model_ready-IsReady TextStatus.ocr_unreviewed h = cc
is_model_ready-IsReady TextStatus.failed h = cc

IsReady-is_model_ready : (status : TextStatus) → IsReady status → is_model_ready status ≡ true
unfolding is_model_ready
IsReady-is_model_ready TextStatus.native h = refl
IsReady-is_model_ready TextStatus.reviewed h = refl
IsReady-is_model_ready TextStatus.ocr_unreviewed (inl h) = cc
IsReady-is_model_ready TextStatus.ocr_unreviewed (inr h) = cc
IsReady-is_model_ready TextStatus.failed (inl h) = cc
IsReady-is_model_ready TextStatus.failed (inr h) = cc

module _ (u : Unicode) (title : Bytes) (requested : List Bytes) where
  -- A candidate that stands for a row which the query returns and the filters admit.
  pub record Stands (c : CandidatePage) (row : SourceRow) : Type 0 where
    pub status : TextStatus
    pub parsed : parse_text_status row.text_status ≡ ok status
    pub ready : IsReady status
    pub visible : is_empty row.text ≡ false
    pub asked : is_requested u title requested row ≡ true
    pub admitted : (has_match c ≡ true) ⊎ (is_empty requested ≡ false)
    pub same : c ≡ candidate_of u title requested row status

  -- The tests of a row whose status was read
  offer : (status : TextStatus) (row : SourceRow) → List CandidatePage
  offer status row =
      let candidate = candidate_of u title requested row status in
      if not (is_model_ready status) || is_empty row.text
      then []
      else if not (candidate.relevance_score == 0) || not (is_empty requested)
      then candidate ∷ []
      else []

  offer-Stands :
      (status : TextStatus) (row : SourceRow)
      → parse_text_status row.text_status ≡ ok status
      → is_requested u title requested row ≡ true
      → All (λ c. Stands c row) (offer status row)
  unfolding offer has_match
  offer-Stands status row parsed asked =
      let candidate = candidate_of u title requested row status in
      elim (Bool-cases (not (is_model_ready status) || is_empty row.text)) [
        | inl unfit ↦ rw unfit tt
        | inr fit ↦
            elim (Bool-cases (not (candidate.relevance_score == 0) || not (is_empty requested))) [
              | inr low ↦ rw fit (rw low tt)
              | inl good ↦ rw fit (
                  rw good (
                    record {
                      status = status;
                      parsed = parsed;
                      ready =
                          is_model_ready-IsReady status
                            (neither (is_model_ready status) (is_empty row.text) fit).0;
                      visible = (neither (is_model_ready status) (is_empty row.text) fit).1;
                      asked = asked;
                      admitted =
                          one_of (not (candidate.relevance_score == 0)) (is_empty requested) good;
                      same = refl;
                    },
                    tt,
                  ))
            ]
      ]
    where
      neither : (a b : Bool) → (not a || b) ≡ false → (a ≡ true) × (b ≡ false)
      neither a b h = ground arith

      one_of : (a b : Bool) → (a || not b) ≡ true → (a ≡ true) ⊎ (b ≡ false)
      one_of true b h = inl refl
      one_of false true h = cc
      one_of false false h = inr refl

  consider-Stands :
      (row : SourceRow) {cs : List CandidatePage}
      → consider u title requested row ≡ ok cs
      → All (λ c. Stands c row) cs
  unfolding consider offer
  consider-Stands row {cs} h = elim (Bool-cases (is_requested u title requested row)) [
    | inl asked ↦
        let (status, parsed, last) =
          >>=-eq-ok (parse_text_status row.text_status) _
            (if-true (is_requested u title requested row) _ _ asked h) in
        subst (All (λ c. Stands c row)) (ok-cancel last) (offer-Stands status row parsed asked)
    | inr other ↦
        subst (All (λ c. Stands c row))
          (ok-cancel (if-false (is_requested u title requested row) _ _ other h)) tt
  ]

  -- The candidates stand for rows of the list.
  pub collect-Stands :
      (R : SourceRow → Type 0) (rows : List SourceRow) {cs : List CandidatePage}
      → All R rows
      → collect u title requested rows ≡ ok cs
      → All (λ c. (row : SourceRow) × R row × Stands c row) cs
  unfolding collect
  collect-Stands R [] tt_ h =
      subst (All (λ c. (row : SourceRow) × R row × Stands c row)) (ok-cancel h) tt
  collect-Stands R (row ∷ rows) (r, rs) h =
      let (first, considered, h1) = >>=-eq-ok (consider u title requested row) _ h in
      let (rest, collected, last) = >>=-eq-ok (collect u title requested rows) _ h1 in
      subst (All (λ c. (row : SourceRow) × R row × Stands c row)) (ok-cancel last) (
        All-append (λ c. (row : SourceRow) × R row × Stands c row) first rest
          (All-map (λ c. Stands c row) (λ c. (row : SourceRow) × R row × Stands c row)
            (λ c s. (row, r, s)) first (consider-Stands row considered))
          (collect-Stands R rows rs collected))

  -- A row that is usable and asked for, and that matches the title where no source is named
  pub record Fits (row : SourceRow) (status : TextStatus) : Type 0 where
    pub selectable : is_selectable row ≡ true
    pub parsed : parse_text_status row.text_status ≡ ok status
    pub ready : IsReady status
    pub visible : is_empty row.text ≡ false
    pub asked : is_requested u title requested row ≡ true
    pub admitted :
        (has_match (candidate_of u title requested row status) ≡ true)
        ⊎ (is_empty requested ≡ false)

  offer-Fits :
      (row : SourceRow) (status : TextStatus)
      → Fits row status
      → offer status row ≡ candidate_of u title requested row status ∷ []
  unfolding offer has_match
  offer-Fits row status f = elim f.admitted [
    | inl e ↦ rw (IsReady-is_model_ready status f.ready, f.visible) (rw e refl)
    | inr e ↦
        let candidate = candidate_of u title requested row status in
        rw (IsReady-is_model_ready status f.ready, f.visible)
          (rw (or_not (not (candidate.relevance_score == 0)) (is_empty requested) e) refl)
  ]
    where
      or_not : (a b : Bool) → b ≡ false → (a || not b) ≡ true
      or_not a b h = ground arith

  consider-Fits :
      (row : SourceRow) (status : TextStatus)
      → Fits row status
      → consider u title requested row ≡ ok (candidate_of u title requested row status ∷ [])
  unfolding consider offer
  consider-Fits row status f = rw (f.asked, f.parsed) (ap ok (offer-Fits row status f))

  Any-append :
      {A : Type 0} (P : A → Type 0) (xs ys : List A) → Any P xs ⊎ Any P ys → Any P (xs ++ ys)
  Any-append P [] ys (inl h) = absurd h
  Any-append P [] ys (inr h) = h
  Any-append P (x ∷ xs) ys (inl (inl p)) = inl p
  Any-append P (x ∷ xs) ys (inl (inr h)) = inr (Any-append P xs ys (inl h))
  Any-append P (x ∷ xs) ys (inr h) = inr (Any-append P xs ys (inr h))

  pub collect-Fits :
      (row : SourceRow) (status : TextStatus) (rows : List SourceRow) {cs : List CandidatePage}
      → Fits row status
      → Any (λ r. r ≡ row) rows
      → collect u title requested rows ≡ ok cs
      → Any (λ c. c ≡ candidate_of u title requested row status) cs
  unfolding collect
  collect-Fits row status [] f m h = absurd m
  collect-Fits row status (r ∷ rows) f m h =
      let (first, considered, h1) = >>=-eq-ok (consider u title requested r) _ h in
      let (rest, collected, last) = >>=-eq-ok (collect u title requested rows) _ h1 in
      subst (Any (λ c. c ≡ candidate_of u title requested row status)) (ok-cancel last) (
        Any-append (λ c. c ≡ candidate_of u title requested row status) first rest
          (part first rest m considered (λ k. collect-Fits row status rows f k collected)))
    where
      part :
          (first rest : List CandidatePage)
          → (r ≡ row) ⊎ Any (λ x. x ≡ row) rows
          → consider u title requested r ≡ ok first
          → (Any (λ x. x ≡ row) rows
              → Any (λ c. c ≡ candidate_of u title requested row status) rest)
          → Any (λ c. c ≡ candidate_of u title requested row status) first
            ⊎ Any (λ c. c ≡ candidate_of u title requested row status) rest
      part first rest (inl e) considered later = inl (
          subst (Any (λ c. c ≡ candidate_of u title requested row status))
            (ok-cancel (
              sym (consider-Fits row status f)
              ∙ subst (λ x. consider u title requested x ≡ ok first) e considered))
            (inl refl))
      part first rest (inr k) considered later = inr (later k)
