-- ===== src/Auth/Header.antt =====
-- route/auth.go: the one Authorization header and the token in it.
-- A Go string is its bytes. A multi-byte space around the header, which TrimSpace would find, is
-- no token character, so the loop over the token refuses it with the same error.
pub mod Shape
use re_casa_os_user_service.Prelude.{
  ℕ, suc, ◌+◌, ◌*◌, ◌^◌, Bytes, codes, Bool, true, false, not, Option, some, ◌&&◌, ◌||◌, List, [],
  ◌∷◌, ltb, leb, ◌==◌, is_empty, length, drop, if◌then◌else◌,
}
use re_casa_os_user_service.Store.{Result, ok, err, invalid_authorization_header}

abbrev pub max_authorization_header_bytes : ℕ
max_authorization_header_bytes = 8 * 2 ^ 10

unfoldable pub is_space : ℕ → Bool
is_space b = (leb 9 b && leb b 13) || b == 32

-- strings.TrimSpace(raw) != raw
unfoldable pub ends_in_space : Bytes → Bool
ends_in_space [] = false
ends_in_space (b ∷ []) = is_space b
ends_in_space (b ∷ c ∷ bs) = ends_in_space (c ∷ bs)

unfoldable pub starts_with_space : Bytes → Bool
starts_with_space [] = false
starts_with_space (b ∷ bs) = is_space b

-- strings.ContainsAny(raw, ",\r\n\x00")
unfoldable pub is_forbidden : ℕ → Bool
is_forbidden b = b == b',' || b == 13 || b == 10 || b == 0

unfoldable pub exists_byte : (ℕ → Bool) → Bytes → Bool
exists_byte p [] = false
exists_byte p (b ∷ bs) = p b || exists_byte p bs

unfoldable pub all_bytes : (ℕ → Bool) → Bytes → Bool
all_bytes p [] = true
all_bytes p (b ∷ bs) = p b && all_bytes p bs

unfoldable pub to_lower : ℕ → ℕ
to_lower b = if leb b'A' b && leb b b'Z' then b + 32 else b

-- strings.EqualFold of the first bytes with an ASCII word in lower case.
unfoldable pub has_fold_prefix : Bytes → Bytes → Bool
has_fold_prefix s [] = true
has_fold_prefix [] (p ∷ ps) = false
has_fold_prefix (b ∷ bs) (p ∷ ps) = to_lower b == p && has_fold_prefix bs ps

unfoldable pub is_token_byte : ℕ → Bool
is_token_byte b =
    (leb b'a' b && leb b b'z')
    || (leb b'A' b && leb b b'Z')
    || (leb b'0' b && leb b b'9')
    || b == b'-'
    || b == b'_'
    || b == b'.'

unfoldable pub count_byte : ℕ → Bytes → ℕ
count_byte c [] = 0
count_byte c (b ∷ bs) = let n = count_byte c bs in if b == c then suc n else n

unfoldable pub is_malformed : Bytes → Bool
is_malformed raw =
    is_empty raw
    || ltb max_authorization_header_bytes (length raw)
    || starts_with_space raw
    || ends_in_space raw
    || exists_byte is_forbidden raw

-- The bytes behind "Bearer ", which want that space and one more byte.
unfoldable pub after_bearer : Bytes → Result Bytes
after_bearer [] = err invalid_authorization_header
after_bearer (b ∷ []) = err invalid_authorization_header
after_bearer (b ∷ c ∷ bs) = if b == 32 then ok (c ∷ bs) else err invalid_authorization_header

unfoldable pub strip_scheme : Bytes → Result Bytes
strip_scheme raw =
    if has_fold_prefix raw (codes "bearer") then after_bearer (drop 6 raw) else ok raw

abbrev pub is_blank : ℕ → Bool
is_blank b = b == 32 || b == 9

unfoldable pub check_token : Bytes → Result Bytes
check_token token =
    if is_empty token
      || ltb max_authorization_header_bytes (length token)
      || not (count_byte b'.' token == 2)
      || exists_byte is_blank token
    then err invalid_authorization_header
    else if all_bytes is_token_byte token
    then ok token
    else err invalid_authorization_header

abbrev then_check : Result Bytes → Result Bytes
then_check (ok token) = check_token token
then_check (err e) = err e

unfoldable pub token_of : Bytes → Result Bytes
token_of raw =
    if is_malformed raw then err invalid_authorization_header else then_check (strip_scheme raw)

-- The values of the header; `none` is a nil request.
unfoldable pub authorization_token : Option (List Bytes) → Result Bytes
authorization_token (some (raw ∷ [])) = token_of raw
authorization_token _ = err invalid_authorization_header
