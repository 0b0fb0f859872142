-- ===== src/Vault/Markers/Replace.antt =====
-- Replacing the managed region touches no byte outside it.
use mathlib.Core.Option
use wiki.Base.{
  ℕ, suc, ◌+◌, ◌≡◌, refl, sym, ap, ap₂, ◌∙◌, subst, inl, inr, true, Option, none, some, [], ◌∷◌,
  ◌++◌, append_assoc, arith, Bytes, ok, >>=-eq-ok, ok-cancel, some-cancel, none-ne-some, throw_if,
  leb, if-cases, Bool-cases, length, take, drop, take-append-drop, take-length-append,
  drop-length-append, drop-drop, take-add, starts_with, find, find_from,
}
use wiki.Vault.Markers.{is_found, found_or, starts_before, blank_line, replace_managed_content}

starts_with-append : (s t : Bytes) → starts_with s t ≡ true → s ≡ t ++ drop (length t) s
unfolding starts_with
starts_with-append s [] h = refl
starts_with-append [] (d ∷ t) h = cc
starts_with-append (c ∷ s) (d ∷ t) h = ground (arith, starts_with-append s t)

map-eq-some :
    {A B : Type 0} (o : Option A) (f : A → B) {b : B}
    → Option.map f o ≡ some b
    → (a : A) × (o ≡ some a) × (f a ≡ b)
map-eq-some none f h = absurd (none-ne-some h)
map-eq-some (some a) f h = (a, refl, some-cancel h)

-- What is found stands there.
find-starts_with :
    (s needle : Bytes) (i : ℕ) → find s needle ≡ some i → starts_with (drop i s) needle ≡ true
unfolding find
find-starts_with [] needle i h = elim (Bool-cases (starts_with [] needle)) [
  | inl e ↦ subst (λ i. starts_with (drop i []) needle ≡ true) (some-cancel (rw e at h)) e
  | inr e ↦ absurd (none-ne-some (rw e at h))
]
find-starts_with (c ∷ s) needle i h = elim (Bool-cases (starts_with (c ∷ s) needle)) [
  | inl e ↦ subst (λ i. starts_with (drop i (c ∷ s)) needle ≡ true) (some-cancel (rw e at h)) e
  | inr e ↦
      let (j, f, k) = map-eq-some (find s needle) suc (rw e at h) in
      subst (λ i. starts_with (drop i (c ∷ s)) needle ≡ true) k (find-starts_with s needle j f)
]

-- The text from the place where `needle` is found.
find-split :
    (s needle : Bytes) (i : ℕ)
    → find s needle ≡ some i
    → (rest : Bytes) × (drop i s ≡ needle ++ rest)
find-split s needle i h = (
  drop (length needle) (drop i s),
  starts_with-append (drop i s) needle (find-starts_with s needle i h),
)

find_from-find :
    (s needle : Bytes) (pos i : ℕ)
    → find_from s needle pos ≡ some i
    → (j : ℕ) × (i ≡ pos + j) × (find (drop pos s) needle ≡ some j)
unfolding find_from
find_from-find s needle pos i h = elim (if-cases (leb pos (length s)) h) [
  | inl e ↦ let (j, f, k) = map-eq-some (find (drop pos s) needle) (λ i. pos + i) e in (j, sym k, f)
  | inr e ↦ absurd (none-ne-some e)
]

found_or-eq-ok : (o : Option ℕ) (message : Bytes) (i : ℕ) → found_or o message ≡ ok i → o ≡ some i
unfolding found_or
found_or-eq-ok none message i h = cc
found_or-eq-ok (some j) message i h = ap some (ok-cancel h)

-- The article, cut at both markers, and the article that replaces it.
pub record Replaced (existing start_text end_text managed result : Bytes) : Type 0 where
  pub before : Bytes
  pub region : Bytes
  pub after : Bytes
  pub old : existing ≡ before ++ (start_text ++ (region ++ (end_text ++ after)))
  pub new :
      result
      ≡ before ++ (start_text ++ (blank_line ++ (managed ++ (blank_line ++ (end_text ++ after)))))

cut :
    (s start_text end_text managed : Bytes) (start finish : ℕ)
    → find s start_text ≡ some start
    → find_from s end_text (start + length start_text) ≡ some finish
    → Replaced s start_text end_text managed (
        take (start + length start_text) s
        ++ (blank_line ++ (managed ++ (blank_line ++ drop finish s))))
cut s start_text end_text managed start finish h k =
    let (rest, e) = find-split s start_text start h in
    let (j, at, f) = find_from-find s end_text (start + length start_text) finish k in
    let (after, g) = find-split (drop (start + length start_text) s) end_text j f in
    let inner : drop (start + length start_text) s ≡ rest =
      drop-drop start (length start_text) s
      ∙ ap (drop (length start_text)) e
      ∙ drop-length-append start_text rest in
    let tail : drop finish s ≡ end_text ++ after =
      ap (λ n. drop n s) at ∙ drop-drop (start + length start_text) j s ∙ g in
    let front : take (start + length start_text) s ≡ take start s ++ start_text =
      take-add start (length start_text) s
      ∙ ap (λ t. take start s ++ take (length start_text) t) e
      ∙ ap (λ t. take start s ++ t) (take-length-append start_text rest) in
    let region : rest ≡ take j rest ++ (end_text ++ after) =
      sym (take-append-drop j rest) ∙ ap (λ t. take j rest ++ t) (ap (drop j) (sym inner) ∙ g) in
    record {
      before = take start s;
      region = take j rest;
      after = after;
      old =
          sym (take-append-drop start s)
          ∙ ap (λ t. take start s ++ t) (e ∙ ap (λ t. start_text ++ t) region);
      new =
          ap₂ (λ a b. a ++ (blank_line ++ (managed ++ (blank_line ++ b)))) front tail
          ∙ append_assoc (take start s) start_text _;
    }

-- Whatever is approved, the bytes before the start marker, both markers and the bytes after the end
-- marker stay as the user left them: only what stands between the markers is exchanged, for the
-- managed content between blank lines.
pub replace_managed_content-Replaced :
    (existing start_text end_text managed result : Bytes)
    → replace_managed_content existing start_text end_text managed ≡ ok result
    → Replaced existing start_text end_text managed result
unfolding replace_managed_content
replace_managed_content-Replaced existing start_text end_text managed result h =
    let (start, a, h1) = >>=-eq-ok (found_or (find existing start_text) _) _ h in
    let (t1, b, h2) =
      >>=-eq-ok (throw_if (is_found (find_from existing start_text (start + length start_text))) _)
        _ h1 in
    let (finish, c, h3) =
      >>=-eq-ok (found_or (find_from existing end_text (start + length start_text)) _) _ h2 in
    let (t2, d, h4) =
      >>=-eq-ok (throw_if (is_found (find_from existing end_text (finish + length end_text))) _) _
        h3 in
    let (t3, e, h5) = >>=-eq-ok (throw_if (starts_before (find existing end_text) start) _) _ h4 in
    subst (Replaced existing start_text end_text managed) (ok-cancel h5) (
      cut existing start_text end_text managed start finish (found_or-eq-ok _ _ start a)
        (found_or-eq-ok _ _ finish c))
