-- ===== src/Password/Tests.antt =====
-- A run of pkg/password/password.go with an encoding that has the laws of base64 that the code needs.
use re_casa_os_user_service.Prelude.{
  ℕ, Bytes, codes, ◌≡◌, refl, some, [], ◌∷◌, false, arith, ◌-◌, length, contains_byte, suc, ◌+◌,
  zero, ap,
}
use re_casa_os_user_service.Store.{ok}
use re_casa_os_user_service.Password.{
  Kdf, phc_string, verify, hash_with_reader, parse, default_parameters, derive_key,
  invalid_parameters, outside,
}
use re_casa_os_user_service.Password.RoundTrip.{KdfLaws, verify-hash}

zeros : ℕ → Bytes
zeros zero = []
zeros (suc n) = 0 ∷ zeros n

length-zeros : (n : ℕ) → length (zeros n) ≡ n
unfolding zeros
length-zeros zero = refl
length-zeros (suc n) = ap suc (length-zeros n)

-- Every byte moves above '$', and back.
shifted : Bytes → Bytes
shifted [] = []
shifted (b ∷ s) = (b + 37) ∷ shifted s

unshifted : Bytes → Bytes
unshifted [] = []
unshifted (b ∷ s) = (b - 37) ∷ unshifted s

unshifted-shifted : (s : Bytes) → unshifted (shifted s) ≡ s
unfolding shifted unshifted
unshifted-shifted [] = refl
unshifted-shifted (b ∷ s) = ground (arith, unshifted-shifted s)

no_dollar_in : (s : Bytes) → contains_byte b'$' (shifted s) ≡ false
unfolding shifted contains_byte
no_dollar_in [] = refl
no_dollar_in (b ∷ s) = ground (arith, no_dollar_in s)

abbrev zero_kdf : Kdf
zero_kdf = record {
  id_key = λ p s t m l n. zeros n;
  encode = shifted;
  decode = λ s. some (unshifted s);
  salts = λ n. some (codes "0123456789abcdef");
}

zero_laws : KdfLaws zero_kdf
zero_laws = record {
  decode-encode = λ s. ap some (unshifted-shifted s);
  no_dollar = no_dollar_in;
  length-id_key = λ p s t m l n. length-zeros n;
}

abbrev salt : Bytes
salt = codes "0123456789abcdef"

abbrev plaintext : Bytes
plaintext = codes "correct-horse-battery-stable-101"

abbrev encoded : Bytes
encoded =
    phc_string zero_kdf default_parameters salt
      (derive_key zero_kdf plaintext salt default_parameters 32)

hashed : hash_with_reader zero_kdf plaintext default_parameters (some salt) ≡ ok encoded
unfolding hash_with_reader invalid_parameters outside
hashed = refl

verify-hash_example :
    (verify zero_kdf encoded plaintext ≡ ok tt)
    × (parse zero_kdf encoded
        ≡ some (record {
          parameters = default_parameters;
          salt = salt;
          digest =
              derive_key zero_kdf plaintext salt default_parameters default_parameters.key_length;
        }))
verify-hash_example =
    verify-hash zero_kdf default_parameters plaintext salt encoded zero_laws refl hashed
