-- ===== src/Vault/Diff/Script.antt =====
-- Both texts can be read back from the edits of a diff (libs/vault/src/rendering.cpp).
use wiki.Base.{◌≡◌, List, [], ◌∷◌, ◌++◌, Bytes}
use wiki.Vault.Diff.{Edit, keep, remove, add}

-- The lines of the old side and of the new side.
unfoldable pub old_side : List Edit → List Bytes
old_side [] = []
old_side (keep l ∷ es) = l ∷ old_side es
old_side (remove l ∷ es) = l ∷ old_side es
old_side (add l ∷ es) = old_side es

unfoldable pub new_side : List Edit → List Bytes
new_side [] = []
new_side (keep l ∷ es) = l ∷ new_side es
new_side (remove l ∷ es) = new_side es
new_side (add l ∷ es) = l ∷ new_side es

abbrev Sides : List Edit → List Bytes → List Bytes → Type 0
Sides es old fresh = (old_side es ≡ old) × (new_side es ≡ fresh)

-- The lines of a text, one after the other, are the text.
unfoldable pub join_lines : List Bytes → Bytes
join_lines [] = []
join_lines (l ∷ ls) = l ++ join_lines ls
