-- ===== src/Domain/Sha256/Chunks.antt =====
-- The digest of a file does not depend on the chunks that it is read in, and no block is overrun.
use wiki.Base.{
  ℕ, zero, suc, ◌/◌, ◌+◌, ◌-◌, ◌*◌, ◌%◌, ◌^◌, ◌≤◌, ◌<◌, ◌≡◌, refl, sym, ap, subst, ◌∙◌, inl, inr,
  List, [], ◌∷◌, ◌++◌, length, length-append, length-replicate, replicate, ltb, ◌==◌, All,
  Bool-cases, arith,
}
use wiki.Domain.Sha256.{
  Hasher, new_hasher, push, push_all, update, length_bytes, last_blocks, digest_word, finish,
  sha256_text, update_chunks, sha256_file,
}

push_all-append :
    (h : Hasher) (xs ys : List ℕ) → push_all h (xs ++ ys) ≡ push_all (push_all h xs) ys
unfolding push_all
push_all-append h [] ys = refl
push_all-append h (x ∷ xs) ys = push_all-append (push h x) xs ys

counted : Hasher → ℕ → Hasher
counted h n = record h { total_bytes = n }

push-counted : (h : Hasher) (n x : ℕ) → push (counted h n) x ≡ counted (push h x) n
unfolding push counted
push-counted h n x = elim (Bool-cases (length (h.block ++ x ∷ []) == 64)) [
  | inl e ↦ rw e refl
  | inr e ↦ rw e refl
]

push_all-counted :
    (h : Hasher) (n : ℕ) (xs : List ℕ) → push_all (counted h n) xs ≡ counted (push_all h xs) n
unfolding push_all
push_all-counted h n [] = refl
push_all-counted h n (x ∷ xs) =
    ap (λ g. push_all g xs) (push-counted h n x) ∙ push_all-counted (push h x) n xs

update-counted :
    (h : Hasher) (xs : List ℕ)
    → update h xs ≡ counted (push_all h xs) ((h.total_bytes + length xs) % 2 ^ 64)
unfolding update counted
update-counted h xs = push_all-counted h ((h.total_bytes + length xs) % 2 ^ 64) xs

total-append :
    (t : ℕ) (xs ys : List ℕ)
    → ((t + length xs) % 2 ^ 64 + length ys) % 2 ^ 64 ≡ (t + length (xs ++ ys)) % 2 ^ 64
total-append t xs ys = rw (length-append xs ys) (omega arith)

update-append : (h : Hasher) (xs ys : List ℕ) → update (update h xs) ys ≡ update h (xs ++ ys)
unfolding counted
update-append h xs ys =
    let p = push_all h xs in
    let n = (h.total_bytes + length xs) % 2 ^ 64 in
    let k = (n + length ys) % 2 ^ 64 in
    ap (λ g. update g ys) (update-counted h xs)
    ∙ update-counted (counted p n) ys
    ∙ ap (λ g. counted g k) (push_all-counted p n ys)
    ∙ ap (λ g. counted g k) (sym (push_all-append h xs ys))
    ∙ ap (counted (push_all h (xs ++ ys))) (total-append h.total_bytes xs ys)
    ∙ sym (update-counted h (xs ++ ys))

-- The bytes of the chunks, one after the other.
unfoldable pub join : List (List ℕ) → List ℕ
join [] = []
join (chunk ∷ chunks) = chunk ++ join chunks

update-nil : (h : Hasher) → h.total_bytes < 2 ^ 64 → update h [] ≡ h
unfolding update push_all
update-nil h small = ap (λ n. record h { total_bytes = n }) (omega (arith, small))

update-small : (h : Hasher) (xs : List ℕ) → (update h xs).total_bytes < 2 ^ 64
unfolding counted
update-small h xs =
    subst (λ (g : Hasher). g.total_bytes < 2 ^ 64) (sym (update-counted h xs)) (omega arith)

update_chunks-join :
    (h : Hasher) (chunks : List (List ℕ))
    → h.total_bytes < 2 ^ 64
    → update_chunks h chunks ≡ update h (join chunks)
unfolding update_chunks join
update_chunks-join h [] small = sym (update-nil h small)
update_chunks-join h ([] ∷ chunks) small = update_chunks-join h chunks small
update_chunks-join h ((x ∷ xs) ∷ chunks) small =
    update_chunks-join (update h (x ∷ xs)) chunks (update-small h (x ∷ xs))
    ∙ update-append h (x ∷ xs) (join chunks)

-- In whatever chunks a file is read, its digest is that of its bytes as one text.
pub sha256_file-join : (chunks : List (List ℕ)) → sha256_file chunks ≡ sha256_text (join chunks)
unfolding sha256_file sha256_text
sha256_file-join chunks = ap finish (update_chunks-join new_hasher chunks (omega arith))

push-block : (h : Hasher) (x : ℕ) → length h.block < 64 → length (push h x).block < 64
unfolding push
push-block h x small = elim (Bool-cases (length (h.block ++ x ∷ []) == 64)) [
  | inl e ↦ rw e (omega arith)
  | inr e ↦ rw e (ground (arith, length-append h.block (x ∷ []), small))
]

push_all-block :
    (h : Hasher) (xs : List ℕ) → length h.block < 64 → length (push_all h xs).block < 64
unfolding push_all
push_all-block h [] small = small
push_all-block h (x ∷ xs) small = push_all-block (push h x) xs (push-block h x small)

length-pad :
    (n : ℕ) (block : List ℕ)
    → length block ≤ n
    → length (block ++ replicate (n - length block) 0) ≡ n
length-pad n block small =
    rw
      (
        length-append block (replicate (n - length block) 0),
        length-replicate {A = ℕ} (n - length block) 0,
      )
      (omega (arith, small))

last_blocks-length :
    (h : Hasher) → length h.block < 64 → All (λ (block : List ℕ). length block ≡ 64) (last_blocks h)
unfolding last_blocks length_bytes
last_blocks-length h small =
    let one_more : length (h.block ++ 128 ∷ []) ≡ length h.block + 1 =
      length-append h.block (128 ∷ []) in
    elim (Bool-cases (ltb 56 (length (h.block ++ 128 ∷ [])))) [
      | inl e ↦
          rw e (length-pad 64 (h.block ++ 128 ∷ []) (omega (arith, one_more, small)), (refl, tt))
      | inr e ↦
          let bits = h.total_bytes * 8 % 2 ^ 64 in
          let padded : length
                (h.block ++ 128 ∷ [] ++ replicate (56 - length (h.block ++ 128 ∷ [])) 0)
              ≡ 56 =
            length-pad 56 (h.block ++ 128 ∷ []) (ground arith) in
          rw e (
            length-append (h.block ++ 128 ∷ [] ++ replicate (56 - length (h.block ++ 128 ∷ [])) 0)
                  (length_bytes bits)
                ∙ ap (λ n. n + 8) padded,
            tt,
          )
    ]

length-digest_word : (n w : ℕ) → length (digest_word n w) ≡ n
unfolding digest_word
length-digest_word zero w = refl
length-digest_word (suc n) w =
    length-append (digest_word n (w / 16)) (_ ∷ [])
    ∙ ap (λ k. k + 1) (length-digest_word n (w / 16))
    ∙ omega arith

length-finish : (h : Hasher) → length (finish h) ≡ 64
unfolding finish
length-finish h = simp (length-append, length-digest_word)

-- After any bytes `block_` is not full, `finish` pads to blocks of 64 bytes exactly, so that no write
-- leaves the array, and the digest has 64 digits.
pub finish-bounds :
    (bytes : List ℕ)
    → (length (update new_hasher bytes).block < 64)
      × All (λ (block : List ℕ). length block ≡ 64) (last_blocks (update new_hasher bytes))
      × (length (sha256_text bytes) ≡ 64)
unfolding update sha256_text
finish-bounds bytes =
    let small =
      push_all-block (record new_hasher { total_bytes = (0 + length bytes) % 2 ^ 64 }) bytes
        (omega arith) in
    (small, last_blocks-length _ small, length-finish (update new_hasher bytes))
