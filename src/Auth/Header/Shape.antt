-- ===== src/Auth/Header/Shape.antt =====
-- Which Authorization headers route/auth.go accepts.
use re_casa_os_user_service.Prelude.{
  Option, List, Bytes, ◌≡◌, some, ◌∷◌, [], is_empty, false, length, ◌≤◌, true, arith, none, refl,
}
use re_casa_os_user_service.Auth.Header.{
  authorization_token, token_of, check_token, strip_scheme, max_authorization_header_bytes,
  count_byte, all_bytes, is_token_byte,
}
use re_casa_os_user_service.Store.{ok}

-- The header is there exactly once, and its token is not empty, not over the limit, has exactly two
-- dots and consists of base64url bytes and dots.
pub authorization_token_shape :
    (values : Option (List Bytes)) (t : Bytes)
    → authorization_token values ≡ ok t
    → (raw : Bytes) × (values ≡ some (raw ∷ []))
      × (is_empty t ≡ false)
      × (length t ≤ max_authorization_header_bytes)
      × (count_byte b'.' t ≡ 2)
      × (all_bytes is_token_byte t ≡ true)
unfolding authorization_token token_of check_token strip_scheme
authorization_token_shape none t h = absurd (ground arith)
authorization_token_shape (some []) t h = absurd (ground arith)
authorization_token_shape (some (raw ∷ a ∷ bs)) t h = absurd (ground arith)
authorization_token_shape (some (raw ∷ [])) t h =
    (raw, refl, ground arith, ground arith, ground arith, ground arith)
