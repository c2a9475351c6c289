-- ===== src/UserConfig/Key.antt =====
-- pkg/userconfig/store.go: ValidateKey, and the pattern that the handlers of route/v1/user.go check
-- before it.
use re_casa_os_user_service.Prelude.{
  ℕ, Bytes, Bool, true, false, leb, suc, ◌==◌, ◌∷◌, ◌≡◌, if◌then◌else◌, ◌&&◌, arith, ◌||◌, ltb,
  has_prefix, not, [], length, is_empty, codes, refl,
}
use re_casa_os_user_service.Files.{Answer, failed, done, invalid_key}

abbrev pub max_key_bytes : ℕ
max_key_bytes = 64

-- strings.Contains(key, "..")
unfoldable pub has_parent : Bytes → Bool
has_parent [] = false
has_parent (a ∷ s) = (a == b'.' && has_prefix s (codes ".")) || has_parent s

abbrev pub is_separator : ℕ → Bool
is_separator c = c == b'/' || c == b'\\'

unfoldable pub has_separator : Bytes → Bool
has_separator [] = false
has_separator (c ∷ s) = is_separator c || has_separator s

abbrev pub is_letter_or_digit : ℕ → Bool
is_letter_or_digit c =
    (leb b'a' c && leb c b'z') || (leb b'A' c && leb c b'Z') || (leb b'0' c && leb c b'9')

abbrev pub is_mark : ℕ → Bool
is_mark c = c == b'-' || c == b'_' || c == b'.'

-- The loop, at the index `index`.
unfoldable pub allowed_from : ℕ → Bytes → Bool
allowed_from index [] = true
allowed_from index (c ∷ s) =
    let rest = allowed_from (suc index) s in
    if is_letter_or_digit c || (ltb 0 index && is_mark c) then rest else false

unfoldable pub validate_key : Bytes → Answer (Unit {0})
validate_key key =
    if is_empty key || ltb max_key_bytes (length key) || has_parent key || has_separator key
    then failed invalid_key
    else if allowed_from 0 key
    then done tt
    else failed invalid_key

-- `customConfigKeyPattern`: ^[A-Za-z0-9][A-Za-z0-9._-]{0,63}$
unfoldable pub all_key_bytes : Bytes → Bool
all_key_bytes [] = true
all_key_bytes (c ∷ s) = (is_letter_or_digit c || is_mark c) && all_key_bytes s

unfoldable pub custom_config_key_pattern : Bytes → Bool
custom_config_key_pattern [] = false
custom_config_key_pattern (c ∷ s) = is_letter_or_digit c && leb (length s) 63 && all_key_bytes s

allowed_rest : (i : ℕ) (s : Bytes) → allowed_from (suc i) s ≡ all_key_bytes s
unfolding allowed_from all_key_bytes
allowed_rest i [] = refl
allowed_rest i (c ∷ s) = ground (arith, allowed_rest (suc i) s)

no_separator : (s : Bytes) → all_key_bytes s ≡ true → has_separator s ≡ false
unfolding has_separator all_key_bytes
no_separator [] h = refl
no_separator (c ∷ s) h = ground (arith, h, no_separator s)

-- ValidateKey accepts exactly the keys that fit the pattern of the handlers and hold no two dots in a
-- row; its test for separators refuses nothing more.
pub validate_key_lem :
    (key : Bytes)
    → validate_key key ≡ (
        if custom_config_key_pattern key && not (has_parent key)
        then done tt
        else failed invalid_key)
unfolding validate_key custom_config_key_pattern allowed_from has_separator
validate_key_lem [] = refl
validate_key_lem (c ∷ s) = ground (arith, allowed_rest 0 s, no_separator s)
