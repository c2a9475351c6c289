-- ===== src/Password/Bounds.antt =====
-- What pkg/password/password.go accepts and produces.
use re_casa_os_user_service.Prelude.{Bytes, ◌≡◌, some, false, arith}
use re_casa_os_user_service.Password.{parse, parse_parts, Kdf, ParsedHash, invalid_parameters}

-- A hash that parses has costs and lengths within the allowed ranges: memory, iterations and
-- parallelism as read from it, and the lengths of its decoded salt and digest.
pub parse_bounded :
    (k : Kdf) (encoded : Bytes) (p : ParsedHash)
    → parse k encoded ≡ some p
    → invalid_parameters p.parameters ≡ false
unfolding parse parse_parts
parse_bounded k encoded p h = ground (arith, h)
