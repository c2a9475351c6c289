-- ===== src/Tokens.antt =====
-- pkg/authsecurity/session.go and token.go: minting and validating session tokens.
-- The JWT library, SHA-256, the random source and the elliptic curve are not part of this
-- repository: they are the fields of `Jwt` and `Crypto`.
use re_casa_os_user_service.Prelude.{
  ℕ, ◌+◌, ◌*◌, ◌^◌, Bytes, codes, Bool, not, Option, none, some, ◌&&◌, ◌||◌, ltb, ◌==◌, is_some,
  is_empty, bytes_eq, length, if◌then◌else◌,
}
use re_casa_os_user_service.Prelude.Int.{ℤ, pos, is_negative}
use re_casa_os_user_service.Model.{hour}
use re_casa_os_user_service.Store.{
  draw, M, Result, ok, err, invalid_session_token, random_failure, lift, or_err, ◌>>=◌, ◌>>◌,
  refuse_if, time_now,
}

abbrev pub access_token_issuer : Bytes
access_token_issuer = codes "casaos"

abbrev pub refresh_token_issuer : Bytes
refresh_token_issuer = codes "refresh"

abbrev pub access_token_lifetime : ℕ
access_token_lifetime = 3 * hour

abbrev pub refresh_token_lifetime : ℕ
refresh_token_lifetime = 7 * 24 * hour

abbrev pub max_token_size : ℕ
max_token_size = 8 * 2 ^ 10

pub record SessionClaims : Type 0 where
  pub issuer : Bytes
  pub subject : Bytes
  pub id : Bytes
  pub issued_at : Option ℕ
  pub not_before : Option ℕ
  pub expires_at : Option ℕ
  pub username : Bytes
  pub user_id : ℕ
  pub token_version : ℤ

pub data SigningMethod : Type 0 where
  es256 other_method : SigningMethod

-- An ECDSA public key: its curve is P-256, both coordinates are there, and they lie on the curve.
pub record PublicKey : Type 0 where
  pub is_p256 : Bool
  pub has_point : Bool
  pub on_curve : Bool
  pub fingerprint : ℕ

-- `sign` is SignedString with the private key of a public key; `parse` is ParseWithClaims under the
-- methods ES256, with the key function, the current time and the token.
pub record Jwt : Type 0 where
  pub sign : PublicKey → SessionClaims → Option Bytes
  pub parse : (SigningMethod → Option PublicKey) → ℕ → Bytes → Option SessionClaims
  pub numeric_date : ℕ → ℕ

-- What the service is started with: its key pair (nil is `none`), the libraries, and the bytes
-- that each read of the random source gives, hex encoded.
pub record Crypto : Type 0 where
  pub jwt : Jwt
  pub private_key : Option PublicKey
  pub public_key : Option PublicKey
  pub random_id : ℕ → Option Bytes
  pub sha256_hex : Bytes → Bytes

abbrev id_or_error : Option Bytes → Result Bytes
id_or_error none = err random_failure
id_or_error (some i) = ok i

unfoldable pub new_token_id : Crypto → M Bytes
new_token_id c = draw (λ n. id_or_error (c.random_id n))

unfoldable pub minted_claims : Jwt → Bytes → ℕ → ℕ → Bytes → Bytes → ℕ → ℕ → SessionClaims
minted_claims j username user_id token_version token_id issuer lifetime at = record {
  issuer = issuer;
  subject = username;
  id = token_id;
  issued_at = some (j.numeric_date at);
  not_before = some (j.numeric_date at);
  expires_at = some (j.numeric_date (at + lifetime));
  username = username;
  user_id = user_id;
  token_version = pos token_version;
}

abbrev pub sign_with : Crypto → PublicKey → SessionClaims → Result Bytes
sign_with c k claims = elim (c.jwt.sign k claims) [
  | none ↦ err invalid_session_token
  | some t ↦ ok t
]

unfoldable pub mint_session_token : Crypto → Bytes → ℕ → ℕ → Bytes → Bytes → ℕ → M Bytes
mint_session_token c username user_id token_version token_id issuer lifetime = do
  refuse_if (is_empty username || user_id == 0 || is_empty token_id) invalid_session_token
  key ← or_err c.private_key invalid_session_token
  at ← time_now
  lift (
      sign_with c key
        (minted_claims c.jwt username user_id token_version token_id issuer lifetime at))

unfoldable pub mint_access_token : Crypto → Bytes → ℕ → ℕ → Bytes → M Bytes
mint_access_token c username user_id token_version token_id =
    mint_session_token c username user_id token_version token_id access_token_issuer
      access_token_lifetime

unfoldable pub mint_refresh_token : Crypto → Bytes → ℕ → ℕ → Bytes → M Bytes
mint_refresh_token c username user_id token_version token_id =
    mint_session_token c username user_id token_version token_id refresh_token_issuer
      refresh_token_lifetime

-- The key function: only ES256, only a key on P-256.
unfoldable pub key_for : Option PublicKey → SigningMethod → Option PublicKey
key_for _ other_method = none
key_for none es256 = none
key_for (some k) es256 = if k.is_p256 && k.has_point && k.on_curve then some k else none

unfoldable pub claims_rejected : Bytes → SessionClaims → Bool
claims_rejected issuer c =
    not (bytes_eq c.issuer issuer)
    || is_empty c.id
    || c.user_id == 0
    || is_empty c.username
    || not (bytes_eq c.subject c.username)
    || is_negative c.token_version
    || not (is_some c.expires_at)
    || not (is_some c.issued_at)
    || not (is_some c.not_before)

abbrev pub check_claims : Bytes → Option SessionClaims → Result SessionClaims
check_claims issuer none = err invalid_session_token
check_claims issuer (some c) = if claims_rejected issuer c then err invalid_session_token else ok c

unfoldable pub validate_session_token :
    Jwt → Option PublicKey → Bytes → ℕ → Bytes → Result SessionClaims
validate_session_token j key issuer now token =
    if is_empty token || ltb max_token_size (length token)
    then err invalid_session_token
    else check_claims issuer (j.parse (key_for key) now token)

unfoldable pub validate_session_access_token : Crypto → ℕ → Bytes → Result SessionClaims
validate_session_access_token c now token =
    validate_session_token c.jwt c.public_key access_token_issuer now token

unfoldable pub validate_session_refresh_token : Crypto → ℕ → Bytes → Result SessionClaims
validate_session_refresh_token c now token =
    validate_session_token c.jwt c.public_key refresh_token_issuer now token
