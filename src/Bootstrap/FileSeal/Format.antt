-- ===== src/Bootstrap/FileSeal/Format.antt =====
-- The contents of the seal of pkg/userbootstrap/file_seal.go read back.
use re_casa_os_user_service.Prelude.{
  ℕ, Bytes, ◌≡◌, [], ◌∷◌, true, false, refl, drop, length, contains_byte, ◌<◌, ◌+◌, ◌≤◌, take, ◌++◌,
  arith, ap, ◌||◌, ◌&&◌, ◌==◌, suc, ◌∙◌, zero, sym, length-append, ==_iff, has_prefix,
}
use re_casa_os_user_service.Files.{done}
use re_casa_os_user_service.Bootstrap.Identifier.{
  valid_installation_id, all_hex, is_hex, byte_at, slice,
}
use re_casa_os_user_service.Bootstrap.FileSeal.{
  newline, trim_last, print_seal, parse_seal, seal_id, seal_format_prefix,
}

all_hex-append : (a b : Bytes) → all_hex (a ++ b) ≡ all_hex a && all_hex b
unfolding all_hex
all_hex-append [] b = refl
all_hex-append (x ∷ a) b = ground (arith, all_hex-append a b)

hex_no_newline : (s : Bytes) → all_hex s ≡ true → contains_byte newline s ≡ false
unfolding all_hex contains_byte is_hex
hex_no_newline [] h = refl
hex_no_newline (c ∷ s) h = ground (arith, hex_no_newline s)

contains_byte_split :
    (c n : ℕ) (s : Bytes)
    → contains_byte c s ≡ contains_byte c (take n s) || contains_byte c (drop n s)
unfolding contains_byte
contains_byte_split c zero s = refl
contains_byte_split c (suc n) [] = refl
contains_byte_split c (suc n) (b ∷ s) = ground (arith, contains_byte_split c n s)

-- The byte at an index in range, and what follows it.
contains_byte_at :
    (c n : ℕ) (s : Bytes)
    → n < length s
    → contains_byte c (drop n s) ≡ (byte_at s n == c) || contains_byte c (drop (suc n) s)
unfolding contains_byte
contains_byte_at c n [] h = absurd (omega arith)
contains_byte_at c zero (b ∷ s) h = refl
contains_byte_at c (suc n) (b ∷ s) h = contains_byte_at c n s (omega arith)

drop-nil : (k : ℕ) → drop {A = ℕ} k [] ≡ []
drop-nil zero = refl
drop-nil (suc k) = refl

drop-drop : (m n : ℕ) (s : Bytes) → drop m (drop n s) ≡ drop (n + m) s
drop-drop m zero s = ap (λ k. drop k s) (omega arith)
drop-drop m (suc n) [] = drop-nil m ∙ sym (drop-nil (suc n + m))
drop-drop m (suc n) (b ∷ s) =
    drop-drop m n s ∙ ap (λ k. drop k (b ∷ s)) {x = suc (n + m)} (omega arith)

drop_all : (n : ℕ) (s : Bytes) → length s ≤ n → drop n s ≡ []
drop_all zero [] h = refl
drop_all zero (b ∷ s) h = absurd (omega arith)
drop_all (suc n) [] h = refl
drop_all (suc n) (b ∷ s) h = drop_all n s (omega arith)

-- A valid id has no newline: it is five groups of hex digits and four dashes.
-- A group of hex digits at the index `a`, and what follows it.
group_no_newline :
    (a n : ℕ) (s : Bytes)
    → all_hex (slice a n s) ≡ true
    → contains_byte newline (drop a s) ≡ contains_byte newline (drop (a + n) s)
group_no_newline a n s h =
    contains_byte_split newline n (drop a s)
    ∙ ap (λ b. b || contains_byte newline (drop n (drop a s))) (hex_no_newline (slice a n s) h)
    ∙ ap (contains_byte newline) (drop-drop n a s)

valid_parts :
    (i : Bytes)
    → valid_installation_id i ≡ true
    → (length i ≡ 36)
      × (byte_at i 8 ≡ b'-')
      × (byte_at i 13 ≡ b'-')
      × (byte_at i 18 ≡ b'-')
      × (byte_at i 23 ≡ b'-')
      × (all_hex (slice 0 8 i ++ (slice 9 4 i ++ (slice 14 4 i ++ (slice 19 4 i ++ slice 24 12 i))))
          ≡ true)
unfolding valid_installation_id
valid_parts i h = (
  ground (arith, h),
  ground (arith, h),
  ground (arith, h),
  ground (arith, h),
  ground (arith, h),
  ground (arith, h),
)

hex_groups :
    (a b c d e : Bytes)
    → all_hex (a ++ (b ++ (c ++ (d ++ e)))) ≡ true
    → (all_hex a ≡ true)
      × (all_hex b ≡ true)
      × (all_hex c ≡ true)
      × (all_hex d ≡ true)
      × (all_hex e ≡ true)
hex_groups a b c d e h = ground (
  arith,
  all_hex-append a (b ++ (c ++ (d ++ e))),
  all_hex-append b (c ++ (d ++ e)),
  all_hex-append c (d ++ e),
  all_hex-append d e,
)

pub valid_no_newline :
    (i : Bytes) → valid_installation_id i ≡ true → contains_byte newline i ≡ false
unfolding contains_byte
valid_no_newline i h =
    let (len, d8, d13, d18, d23, hex) = valid_parts i h in
    let (ha, hb, hc, hd, he) =
      hex_groups (slice 0 8 i) (slice 9 4 i) (slice 14 4 i) (slice 19 4 i) (slice 24 12 i) hex in
    ground (
      arith,
      group_no_newline 0 8 i ha,
      contains_byte_at newline 8 i (omega arith),
      d8,
      group_no_newline 9 4 i hb,
      contains_byte_at newline 13 i (omega arith),
      d13,
      group_no_newline 14 4 i hc,
      contains_byte_at newline 18 i (omega arith),
      d18,
      group_no_newline 19 4 i hd,
      contains_byte_at newline 23 i (omega arith),
      d23,
      group_no_newline 24 12 i he,
      drop_all 36 i (omega arith),
    )

pub trim_last-append : (c : ℕ) (s : Bytes) → trim_last c (s ++ (c ∷ [])) ≡ s
unfolding trim_last
trim_last-append c [] = ground (arith, (==_iff c c).1 refl)
trim_last-append c (b ∷ []) = ground (arith, (==_iff c c).1 refl)
trim_last-append c (b ∷ b' ∷ s) = ap (λ x. b ∷ x) (trim_last-append c (b' ∷ s))

-- A seal that is printed for a valid id reads back as that id.
pub parse_seal-print_seal :
    (i : Bytes) → valid_installation_id i ≡ true → parse_seal (print_seal i) ≡ done i
unfolding parse_seal print_seal seal_id has_prefix contains_byte
parse_seal-print_seal i h =
    ap seal_id (trim_last-append newline (seal_format_prefix ++ i))
    ∙ ground (arith, h, valid_no_newline i h)

pub take_all : (n : ℕ) (s : Bytes) → length s ≤ n → take n s ≡ s
take_all zero [] h = refl
take_all zero (b ∷ s) h = absurd (omega arith)
take_all (suc n) [] h = refl
take_all (suc n) (b ∷ s) h = ap (λ x. b ∷ x) (take_all n s (omega arith))

-- The reader's limit of 128 bytes is enough for it.
pub take-print_seal :
    (i : Bytes) → valid_installation_id i ≡ true → take 128 (print_seal i) ≡ print_seal i
unfolding print_seal
take-print_seal i h =
    take_all 128 (print_seal i) (omega (arith, length-append i (newline ∷ []), (valid_parts i h).0))
