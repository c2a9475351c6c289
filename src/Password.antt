-- ===== src/Password.antt =====
-- pkg/password/password.go: the PHC strings of Argon2id.
-- Argon2id, the base64 codec and the random source of the salts are parameters, in `Kdf`.
pub mod Bounds
pub mod Decimal
pub mod RoundTrip
mod Tests
use re_casa_os_user_service.Prelude.{
  ℕ, ◌+◌, ◌-◌, ◌*◌, ◌^◌, Bytes, codes, Bool, true, false, not, Option, none, some, ◌&&◌, ◌||◌, List,
  [], ◌∷◌, ◌++◌, ltb, leb, ◌==◌, is_empty, bytes_eq, length, if◌then◌else◌, itoa,
}
use re_casa_os_user_service.Store.{Result, ok, err, invalid_hash, password_mismatch, random_failure}

pub record Parameters : Type 0 where
  pub memory : ℕ
  pub iterations : ℕ
  pub parallelism : ℕ
  pub salt_length : ℕ
  pub key_length : ℕ

abbrev pub default_parameters : Parameters
default_parameters = record {
  memory = 64 * 1024;
  iterations = 3;
  parallelism = 4;
  salt_length = 16;
  key_length = 32;
}

abbrev pub version : ℕ
version = 19

-- argon2.IDKey, and RawStdEncoding (Strict when it decodes).
pub record Kdf : Type 0 where
  pub id_key : Bytes → Bytes → ℕ → ℕ → ℕ → ℕ → Bytes
  pub encode : Bytes → Bytes
  pub decode : Bytes → Option Bytes
  pub salts : ℕ → Option Bytes

pub record ParsedHash : Type 0 where
  pub parameters : Parameters
  pub salt : Bytes
  pub digest : Bytes

unfoldable pub outside : ℕ → ℕ → ℕ → Bool
outside lo hi n = ltb n lo || ltb hi n

unfoldable pub invalid_parameters : Parameters → Bool
invalid_parameters p =
    outside (19 * 1024) (128 * 1024) p.memory
    || outside 1 5 p.iterations
    || outside 1 8 p.parallelism
    || outside 16 64 p.salt_length
    || outside 16 64 p.key_length

-- strings.Split by one byte.
abbrev pub cons_first : ℕ → List Bytes → List Bytes
cons_first b [] = (b ∷ []) ∷ []
cons_first b (p ∷ ps) = (b ∷ p) ∷ ps

unfoldable pub split_by : ℕ → Bytes → List Bytes
split_by sep [] = [] ∷ []
split_by sep (b ∷ bs) =
    let rest = split_by sep bs in if b == sep then [] ∷ rest else cons_first b rest

-- strconv.ParseUint in base 10: digits only, and below 2 ^ bits.
unfoldable pub parse_digits : ℕ → Bytes → Option ℕ
parse_digits n [] = some n
parse_digits n (b ∷ bs) =
    let rest = parse_digits (n * 10 + (b - 48)) bs in if leb 48 b && leb b 57 then rest else none

abbrev pub below : ℕ → Option ℕ → Option ℕ
below bound none = none
below bound (some n) = if ltb n bound then some n else none

unfoldable pub starts_with_zero : Bytes → Bool
starts_with_zero [] = false
starts_with_zero (b ∷ bs) = b == 48

unfoldable pub parse_uint : Bytes → ℕ → Option ℕ
parse_uint value bits =
    if is_empty value || (ltb 1 (length value) && starts_with_zero value)
    then none
    else below (2 ^ bits) (parse_digits 0 value)

-- A field such as "m=65536".
unfoldable pub parse_field : ℕ → ℕ → Bytes → Option ℕ
parse_field name bits [] = none
parse_field name bits (a ∷ []) = none
parse_field name bits (a ∷ b ∷ value) =
    if a == name && b == b'=' then parse_uint value bits else none

pub record Costs : Type 0 where
  pub memory : ℕ
  pub iterations : ℕ
  pub parallelism : ℕ

infixl 5 ◌>>=◌
abbrev pub ◌>>=◌ : {A B : Type 0} → Option A → (A → Option B) → Option B
none >>= f = none
some a >>= f = f a

unfoldable pub parse_costs : List Bytes → Option Costs
parse_costs (m ∷ t ∷ p ∷ []) = do
  memory ← parse_field b'm' 32 m
  iterations ← parse_field b't' 32 t
  parallelism ← parse_field b'p' 8 p
  some (record { memory = memory; iterations = iterations; parallelism = parallelism })
parse_costs _ = none

abbrev pub parsed_of : Costs → Bytes → Bytes → ParsedHash
parsed_of c salt digest = record {
  parameters = record {
    memory = c.memory;
    iterations = c.iterations;
    parallelism = c.parallelism;
    salt_length = length salt;
    key_length = length digest;
  };
  salt = salt;
  digest = digest;
}

module _ (k : Kdf) where
  unfoldable pub parse_parts : List Bytes → Option ParsedHash
  parse_parts (empty ∷ name ∷ v ∷ costs ∷ salt ∷ digest ∷ []) =
      if not (is_empty empty)
        || not (bytes_eq name (codes "argon2id"))
        || not (bytes_eq v (codes "v=19"))
      then none
      else (do
        c ← parse_costs (split_by b',' costs)
        s ← k.decode salt
        d ← k.decode digest
        let p = parsed_of c s d
        if invalid_parameters p.parameters then none else some p)
  parse_parts _ = none

  unfoldable pub parse : Bytes → Option ParsedHash
  parse encoded = parse_parts (split_by b'$' encoded)

  unfoldable pub derive_key : Bytes → Bytes → Parameters → ℕ → Bytes
  derive_key plaintext salt p n = k.id_key plaintext salt p.iterations p.memory p.parallelism n

  abbrev verify_parsed : Bytes → Option ParsedHash → Result (Unit {0})
  verify_parsed plaintext none = err invalid_hash
  verify_parsed plaintext (some p) =
      if bytes_eq (derive_key plaintext p.salt p.parameters (length p.digest)) p.digest
      then ok tt
      else err password_mismatch

  unfoldable pub verify : Bytes → Bytes → Result (Unit {0})
  verify encoded plaintext = verify_parsed plaintext (parse encoded)

  abbrev pub params_eq : Parameters → Parameters → Bool
  params_eq p q =
      p.memory == q.memory
      && p.iterations == q.iterations
      && p.parallelism == q.parallelism
      && p.salt_length == q.salt_length
      && p.key_length == q.key_length

  unfoldable pub needs_rehash : Bytes → Bool
  needs_rehash encoded = elim (parse encoded) [
    | none ↦ true
    | some p ↦ not (params_eq p.parameters default_parameters)
  ]

  unfoldable pub is_argon2id : Bytes → Bool
  is_argon2id encoded = elim (parse encoded) [ none ↦ false | some p ↦ true ]

  -- fmt.Sprintf("$argon2id$v=%d$m=%d,t=%d,p=%d$%s$%s", ...)
  unfoldable pub phc_string : Parameters → Bytes → Bytes → Bytes
  phc_string p salt digest =
      codes "$argon2id$v="
      ++ (itoa version
          ++ (codes "$m="
              ++ (itoa p.memory
                  ++ (codes ",t="
                      ++ (itoa p.iterations
                          ++ (codes ",p="
                              ++ (itoa p.parallelism
                                  ++ (codes "$"
                                      ++ (k.encode salt ++ (codes "$" ++ k.encode digest))))))))))

  -- `random` is what the random source gives for the salt.
  unfoldable pub hash_with_reader : Bytes → Parameters → Option Bytes → Result Bytes
  hash_with_reader plaintext p random =
      if invalid_parameters p then err invalid_hash else elim random [
        | none ↦ err random_failure
        | some salt ↦ ok (phc_string p salt (derive_key plaintext salt p p.key_length))
      ]

  unfoldable pub hash : Bytes → Option Bytes → Result Bytes
  hash plaintext random = hash_with_reader plaintext default_parameters random
