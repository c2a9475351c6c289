-- ===== src/Prelude/Text.antt =====
-- Go strings and byte slices: lists of bytes, compared by `==`.
use Prim.Native.Nat.{ℕ, zero, suc, ◌+◌, ◌/◌, ◌%◌}
use Prim.Native.Char.{code}
use Prim.Native.String.{String}
use mathlib.Core.Path.{◌≡◌, refl}
use mathlib.Core.Logic.{◌↔◌}
use mathlib.Core.Bool.{Bool, true, false, ◌&&◌, ◌||◌}
use mathlib.Core.List.{List, [], ◌∷◌}
use native.Mathlib.Omega.{arith}
use re_casa_os_user_service.Prelude.Tests.{◌==◌, ltb, leb, if◌then◌else◌}

abbrev pub Bytes : Type 0
Bytes = List ℕ

-- The bytes of an ASCII literal.
abbrev pub codes : String → Bytes
codes String.[] = []
codes (String.◌∷◌ c s) = code c ∷ codes s

unfoldable pub bytes_eq : Bytes → Bytes → Bool
bytes_eq [] [] = true
bytes_eq [] (b ∷ bs) = false
bytes_eq (a ∷ as') [] = false
bytes_eq (a ∷ as') (b ∷ bs) = a == b && bytes_eq as' bs

pub bytes_eq_iff : (s t : Bytes) → (bytes_eq s t ≡ true) ↔ (s ≡ t)
unfolding bytes_eq
bytes_eq_iff [] [] = ground arith
bytes_eq_iff [] (b ∷ bs) = ground arith
bytes_eq_iff (a ∷ as') [] = ground arith
bytes_eq_iff (a ∷ as') (b ∷ bs) = ground (arith, bytes_eq_iff as' bs)

pub bytes_eq_refl : (s : Bytes) → bytes_eq s s ≡ true
bytes_eq_refl s = (bytes_eq_iff s s).1 refl

pub bytes_eq→eq : (s t : Bytes) → bytes_eq s t ≡ true → s ≡ t
bytes_eq→eq s t = (bytes_eq_iff s t).0

abbrev pub is_empty : Bytes → Bool
is_empty [] = true
is_empty (b ∷ bs) = false

-- strings.Contains(s, one byte), strings.ContainsAny, strings.Count(s, one byte).
unfoldable pub contains_byte : ℕ → Bytes → Bool
contains_byte c [] = false
contains_byte c (b ∷ bs) = b == c || contains_byte c bs

unfoldable pub has_prefix : Bytes → Bytes → Bool
has_prefix s [] = true
has_prefix [] (p ∷ ps) = false
has_prefix (b ∷ bs) (p ∷ ps) = b == p && has_prefix bs ps

-- Lexicographic order of byte strings, which is the order of SQLite's BINARY collation.
unfoldable pub bytes_lt : Bytes → Bytes → Bool
bytes_lt [] [] = false
bytes_lt [] (b ∷ bs) = true
bytes_lt (a ∷ as') [] = false
bytes_lt (a ∷ as') (b ∷ bs) = if a == b then bytes_lt as' bs else leb a b

-- strconv.Itoa, on fuel: a number below 2 ^ 64 has at most 20 digits.
unfoldable pub itoa_digits : ℕ → ℕ → Bytes → Bytes
itoa_digits zero n rest = rest
itoa_digits (suc fuel) n rest =
    let more = itoa_digits fuel (n / 10) ((48 + n % 10) ∷ rest) in
    if ltb n 10 then (48 + n) ∷ rest else more

unfoldable pub itoa : ℕ → Bytes
unfolding itoa_digits
itoa n = itoa_digits 20 n []
