-- ===== src/Base/Text.antt =====
-- `std::string` and `std::string_view`: a text is the list of its bytes.
use Prim.Native.Nat.{ℕ, zero, suc, ◌+◌, ◌/◌, ◌%◌}
use Prim.Native.Char.{code}
use Prim.Native.String.{String}
use mathlib.Core.Bool.{Bool, true, false, ◌&&◌}
use mathlib.Core.Path.{◌≡◌, refl}
use native.Mathlib.Omega.{arith}
use mathlib.Core.List.{List, [], ◌∷◌}
use mathlib.Core.Option.{Option, none, some}
use mathlib.Core.Option
use wiki.Base.Tests.{ltb, leb, ◌==◌, if◌then◌else◌}
use wiki.Base.Lists.{length, take, drop}

abbrev pub Bytes : Type 0
Bytes = List ℕ

-- The code points of a literal; these are its bytes when the text is ASCII.
abbrev pub codes : String → Bytes
codes String.[] = []
codes (String.◌∷◌ c s) = code c ∷ codes s

-- A literal whose bytes no proof has to see.
unfoldable pub text : String → Bytes
text s = codes s

unfoldable pub bytes_eq : Bytes → Bytes → Bool
bytes_eq [] [] = true
bytes_eq [] (d ∷ t) = false
bytes_eq (c ∷ s) [] = false
bytes_eq (c ∷ s) (d ∷ t) = c == d && bytes_eq s t

-- `text.starts_with(prefix)`
unfoldable pub starts_with : Bytes → Bytes → Bool
starts_with s [] = true
starts_with [] (d ∷ t) = false
starts_with (c ∷ s) (d ∷ t) = c == d && starts_with s t

-- `text.find(needle)`; `none` is `npos`
unfoldable pub find : Bytes → Bytes → Option ℕ
unfolding starts_with
find [] needle = if starts_with [] needle then some 0 else none
find (c ∷ s) needle = if starts_with (c ∷ s) needle then some 0 else Option.map suc (find s needle)

-- `text.find(needle, pos)`
unfoldable pub find_from : Bytes → Bytes → ℕ → Option ℕ
unfolding find
find_from s needle pos =
    if leb pos (length s) then Option.map (λ i. pos + i) (find (drop pos s) needle) else none

-- `text.find_first_of(set) != npos`
unfoldable pub has_any : Bytes → Bytes → Bool
has_any [] set = false
has_any (c ∷ s) set = if mem set then true else has_any s set
  where
    mem : Bytes → Bool
    mem [] = false
    mem (d ∷ t) = if c == d then true else mem t

-- `std::to_string(n)`; the fuel `n + 1` is above the number of digits
decimal_loop : ℕ → ℕ → Bytes → Bytes
decimal_loop zero n out = out
decimal_loop (suc f) n out =
    let rest = decimal_loop f (n / 10) ((48 + n % 10) ∷ out) in
    if ltb n 10 then (48 + n) ∷ out else rest

unfoldable pub to_decimal : ℕ → Bytes
unfolding decimal_loop
to_decimal n = decimal_loop (n + 1) n []

-- Nothing is found where it does not begin here and is not found later.
pub find-cons-none :
    (c : ℕ) (s needle : Bytes)
    → starts_with (c ∷ s) needle ≡ false
    → find s needle ≡ none
    → find (c ∷ s) needle ≡ none
unfolding find
find-cons-none c s needle h k = rw (h, k) refl

pub bytes_eq_lem : (s t : Bytes) → bytes_eq s t ≡ true → s ≡ t
unfolding bytes_eq
bytes_eq_lem [] [] h = refl
bytes_eq_lem [] (d ∷ t) h = cc
bytes_eq_lem (c ∷ s) [] h = cc
bytes_eq_lem (c ∷ s) (d ∷ t) h = ground (arith, bytes_eq_lem s t)

pub bytes_eq_refl : (s : Bytes) → bytes_eq s s ≡ true
unfolding bytes_eq
bytes_eq_refl [] = refl
bytes_eq_refl (c ∷ s) = ground (arith, bytes_eq_refl s)

-- `==` of two `std::optional<std::string>`
unfoldable pub opt_eq : Option Bytes → Option Bytes → Bool
opt_eq none none = true
opt_eq none (some b) = false
opt_eq (some a) none = false
opt_eq (some a) (some b) = bytes_eq a b

pub opt_eq_lem : (a b : Option Bytes) → opt_eq a b ≡ true → a ≡ b
unfolding opt_eq
opt_eq_lem none none h = refl
opt_eq_lem none (some b) h = cc
opt_eq_lem (some a) none h = cc
opt_eq_lem (some a) (some b) h = cc (bytes_eq_lem a b h)

pub opt_eq_refl : (a : Option Bytes) → opt_eq a a ≡ true
unfolding opt_eq
opt_eq_refl none = refl
opt_eq_refl (some a) = bytes_eq_refl a

pub starts_with-take : (n : ℕ) (s : Bytes) → starts_with s (take n s) ≡ true
unfolding starts_with
starts_with-take zero [] = refl
starts_with-take zero (c ∷ s) = refl
starts_with-take (suc n) [] = refl
starts_with-take (suc n) (c ∷ s) = ground (arith, starts_with-take n s)

pub starts_with_refl : (s : Bytes) → starts_with s s ≡ true
unfolding starts_with
starts_with_refl [] = refl
starts_with_refl (c ∷ s) = ground (arith, starts_with_refl s)
