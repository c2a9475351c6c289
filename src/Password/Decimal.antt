-- ===== src/Password/Decimal.antt =====
-- The decimal numbers that pkg/password/password.go prints and reads.
use re_casa_os_user_service.Prelude.{
  ℕ, Bytes, true, false, some, ◌≡◌, refl, arith, itoa, itoa_digits, suc, contains_byte, [], ◌*◌,
  ◌<◌, ◌/◌, ltb, zero, is_empty, ◌^◌, ◌+◌, ◌%◌, ◌∷◌,
}
use re_casa_os_user_service.Password.{parse_digits, parse_uint, starts_with_zero}

-- The numbers that fit into as many digits.
abbrev pub digits_bound : ℕ → ℕ
digits_bound zero = 1
digits_bound (suc f) = 10 * digits_bound f

parse_digits-itoa :
    (f n : ℕ) (rest : Bytes)
    → n < digits_bound (suc f)
    → parse_digits 0 (itoa_digits (suc f) n rest) ≡ parse_digits n rest
unfolding parse_digits itoa_digits
parse_digits-itoa zero n rest h = ground arith
parse_digits-itoa (suc f) n rest h =
    ground (arith, parse_digits-itoa f (n / 10) ((48 + n % 10) ∷ rest))

itoa_positive :
    (f n : ℕ) (rest : Bytes)
    → 0 < n
    → n < digits_bound (suc f)
    → (starts_with_zero (itoa_digits (suc f) n rest) ≡ false)
      × (is_empty (itoa_digits (suc f) n rest) ≡ false)
unfolding itoa_digits starts_with_zero
itoa_positive zero n rest p h = (ground arith, ground arith)
itoa_positive (suc f) n rest p h =
    let ih = itoa_positive f (n / 10) ((48 + n % 10) ∷ rest) in
    (ground (arith, ih), ground (arith, ih))

itoa_no_sign :
    (c f n : ℕ) (rest : Bytes)
    → c < 48
    → contains_byte c rest ≡ false
    → contains_byte c (itoa_digits (suc f) n rest) ≡ false
unfolding itoa_digits contains_byte
itoa_no_sign c zero n rest p h = ground (arith, h)
itoa_no_sign c (suc f) n rest p h =
    ground (arith, h, itoa_no_sign c f (n / 10) ((48 + n % 10) ∷ rest) p)

-- No byte below the digits is in a decimal number.
pub contains_byte-itoa : (c n : ℕ) → c < 48 → contains_byte c (itoa n) ≡ false
unfolding itoa contains_byte
contains_byte-itoa c n p = itoa_no_sign c 19 n [] p refl

parse_done : (n : ℕ) → parse_digits n [] ≡ some n
unfolding parse_digits
parse_done n = refl

-- A positive number below 10 ^ 20 that fits into `bits` bits is read back from its decimal print.
pub parse_uint-itoa :
    (n bits : ℕ)
    → 0 < n
    → n < digits_bound 20
    → ltb n (2 ^ bits) ≡ true
    → parse_uint (itoa n) bits ≡ some n
unfolding parse_uint itoa
parse_uint-itoa n bits p h fits =
    let (z, e) = itoa_positive 19 n [] p h in
    ground (arith, z, e, fits, parse_digits-itoa 19 n [] h, parse_done n)
