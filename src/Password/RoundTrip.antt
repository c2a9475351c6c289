-- ===== src/Password/RoundTrip.antt =====
-- What pkg/password/password.go hashes, it verifies.
use mathlib.Core.List.{append_assoc}
use re_casa_os_user_service.Prelude.{
  ℕ, Bytes, false, some, ◌≡◌, refl, arith, codes, contains_byte, length, ◌∷◌, ◌++◌, [], itoa, ◌∙◌,
  ◌<◌, ◌==◌, ap, itoa_digits, bytes_eq, ◌^◌, Bool-cases, inl, inr, sym, bytes_eq_refl,
}
use re_casa_os_user_service.Password.{
  split_by, Kdf, parse_costs, hash_with_reader, Parameters, parse_field, verify, version, parse,
  parse_parts, phc_string, invalid_parameters, derive_key, outside,
}
use re_casa_os_user_service.Password.Decimal.{contains_byte-itoa, parse_uint-itoa}
use re_casa_os_user_service.Store.{ok}

-- What the code relies on of Argon2id and of base64.
pub record KdfLaws (k : Kdf) : Type 0 where
  pub decode-encode : (s : Bytes) → k.decode (k.encode s) ≡ some s
  pub no_dollar : (s : Bytes) → contains_byte b'$' (k.encode s) ≡ false
  pub length-id_key : (p s : Bytes) (t m l n : ℕ) → length (k.id_key p s t m l n) ≡ n

split-append :
    (sep : ℕ) (a rest : Bytes)
    → contains_byte sep a ≡ false
    → split_by sep (a ++ (sep ∷ rest)) ≡ a ∷ split_by sep rest
unfolding split_by contains_byte
split-append sep [] rest h = ground arith
split-append sep (b ∷ a) rest h = ground (arith, h, split-append sep a rest)

split-last : (sep : ℕ) (a : Bytes) → contains_byte sep a ≡ false → split_by sep a ≡ a ∷ []
unfolding split_by contains_byte
split-last sep [] h = refl
split-last sep (b ∷ a) h = ground (arith, h, split-last sep a)

contains_byte-append :
    (c : ℕ) (a b : Bytes)
    → contains_byte c a ≡ false
    → contains_byte c b ≡ false
    → contains_byte c (a ++ b) ≡ false
unfolding contains_byte
contains_byte-append c [] b h h' = h'
contains_byte-append c (x ∷ a) b h h' = ground (arith, h, h', contains_byte-append c a b)

field_plain : (c b n : ℕ) → c < 48 → b == c ≡ false → contains_byte c (b ∷ b'=' ∷ itoa n) ≡ false
unfolding contains_byte
field_plain c b n lt h = ground (arith, h, contains_byte-itoa c n lt)

comma_plain : (s : Bytes) → contains_byte b'$' s ≡ false → contains_byte b'$' (b',' ∷ s) ≡ false
unfolding contains_byte
comma_plain s h = h

module _ (m t p : ℕ) where
  costs_text : Bytes
  costs_text = codes "m=" ++ (itoa m ++ (codes ",t=" ++ (itoa t ++ (codes ",p=" ++ itoa p))))

  abbrev field_m : Bytes
  field_m = b'm' ∷ b'=' ∷ itoa m

  abbrev field_t : Bytes
  field_t = b't' ∷ b'=' ∷ itoa t

  abbrev field_p : Bytes
  field_p = b'p' ∷ b'=' ∷ itoa p

  costs_split : split_by b',' costs_text ≡ field_m ∷ field_t ∷ field_p ∷ []
  unfolding costs_text
  costs_split =
      split-append b',' field_m (field_t ++ (b',' ∷ field_p))
        (field_plain b',' b'm' m (omega arith) refl)
      ∙ ap (λ r. field_m ∷ r)
          (split-append b',' field_t field_p (field_plain b',' b't' t (omega arith) refl)
            ∙ ap (λ r. field_t ∷ r)
                (split-last b',' field_p (field_plain b',' b'p' p (omega arith) refl)))

  costs_plain : contains_byte b'$' costs_text ≡ false
  unfolding costs_text
  costs_plain =
      contains_byte-append b'$' field_m (b',' ∷ (field_t ++ (b',' ∷ field_p)))
        (field_plain b'$' b'm' m (omega arith) refl)
        (comma_plain (field_t ++ (b',' ∷ field_p)) (
          contains_byte-append b'$' field_t (b',' ∷ field_p)
            (field_plain b'$' b't' t (omega arith) refl)
            (comma_plain field_p (field_plain b'$' b'p' p (omega arith) refl))))

  costs_append :
      (r : Bytes)
      → costs_text ++ r
        ≡ codes "m=" ++ (itoa m ++ (codes ",t=" ++ (itoa t ++ (codes ",p=" ++ (itoa p ++ r)))))
  unfolding costs_text
  costs_append r = simp append_assoc

  parse_costs-fields :
      0 < m
      → 0 < t
      → 0 < p
      → m < 2 ^ 32
      → t < 2 ^ 32
      → p < 2 ^ 8
      → parse_costs (field_m ∷ field_t ∷ field_p ∷ [])
        ≡ some (record { memory = m; iterations = t; parallelism = p })
  unfolding parse_costs parse_field
  parse_costs-fields pm pt pp hm ht hp =
      let em = parse_uint-itoa m 32 pm (omega arith) (ground arith) in
      let et = parse_uint-itoa t 32 pt (omega arith) (ground arith) in
      let ep = parse_uint-itoa p 8 pp (omega arith) (ground arith) in ground (arith, em, et, ep)

itoa-version : itoa version ≡ codes "19"
unfolding itoa itoa_digits
itoa-version = refl

module _ (k : Kdf) (laws : KdfLaws k) (p : Parameters) (salt digest : Bytes) where
  abbrev costs : Bytes
  costs = costs_text p.memory p.iterations p.parallelism

  phc_shape :
      phc_string k p salt digest
      ≡ b'$'
        ∷ (codes "argon2id"
            ++ (b'$'
                ∷ (codes "v=19"
                    ++ (b'$' ∷ (costs ++ (b'$' ∷ (k.encode salt ++ (b'$' ∷ k.encode digest))))))))
  unfolding phc_string
  phc_shape =
      rw
        (
          itoa-version,
          costs_append p.memory p.iterations p.parallelism
              (b'$' ∷ (k.encode salt ++ (b'$' ∷ k.encode digest))),
        )
        refl

  phc_split :
      split_by b'$' (phc_string k p salt digest)
      ≡ [] ∷ codes "argon2id" ∷ codes "v=19" ∷ costs ∷ k.encode salt ∷ k.encode digest ∷ []
  unfolding contains_byte
  phc_split =
      ap (split_by b'$') phc_shape
      ∙ split-append b'$' [] _ refl
      ∙ ap (λ r. [] ∷ r)
          (split-append b'$' (codes "argon2id") _ refl
            ∙ ap (λ r. codes "argon2id" ∷ r)
                (split-append b'$' (codes "v=19") _ refl
                  ∙ ap (λ r. codes "v=19" ∷ r)
                      (split-append b'$' costs _ (costs_plain p.memory p.iterations p.parallelism)
                        ∙ ap (λ r. costs ∷ r)
                            (split-append b'$' (k.encode salt) _ (laws.no_dollar salt)
                              ∙ ap (λ r. k.encode salt ∷ r)
                                  (split-last b'$' (k.encode digest) (laws.no_dollar digest))))))

  parts :
      invalid_parameters p ≡ false
      → length salt ≡ p.salt_length
      → length digest ≡ p.key_length
      → parse_costs (split_by b',' costs)
        ≡ some
            (record { memory = p.memory; iterations = p.iterations; parallelism = p.parallelism })
      → parse_parts k
          ([] ∷ codes "argon2id" ∷ codes "v=19" ∷ costs ∷ k.encode salt ∷ k.encode digest ∷ [])
        ≡ some (record { parameters = p; salt = salt; digest = digest })
  unfolding parse_parts bytes_eq
  parts h es ed ec =
      ground (arith, h, es, ed, ec, laws.decode-encode salt, laws.decode-encode digest)

  costs_read :
      invalid_parameters p ≡ false
      → parse_costs (split_by b',' costs)
        ≡ some
            (record { memory = p.memory; iterations = p.iterations; parallelism = p.parallelism })
  unfolding invalid_parameters outside
  costs_read h =
      ap parse_costs (costs_split p.memory p.iterations p.parallelism)
      ∙ parse_costs-fields p.memory p.iterations p.parallelism (ground (arith, h))
          (ground (arith, h)) (ground (arith, h)) (ground (arith, h)) (ground (arith, h))
          (ground (arith, h))

  parse-phc :
      invalid_parameters p ≡ false
      → length salt ≡ p.salt_length
      → length digest ≡ p.key_length
      → parse k (phc_string k p salt digest)
        ≡ some (record { parameters = p; salt = salt; digest = digest })
  unfolding parse
  parse-phc h es ed = ap (parse_parts k) phc_split ∙ parts h es ed (costs_read h)

-- A hash made under parameters in the allowed ranges from a salt of the asked length verifies the
-- plaintext it was made from, and reads back as the same parameters and salt.
pub verify-hash :
    (k : Kdf) (p : Parameters) (plaintext salt encoded : Bytes)
    → KdfLaws k
    → length salt ≡ p.salt_length
    → hash_with_reader k plaintext p (some salt) ≡ ok encoded
    → (verify k encoded plaintext ≡ ok tt)
      × (parse k encoded
          ≡ some (record {
            parameters = p;
            salt = salt;
            digest = derive_key k plaintext salt p p.key_length;
          }))
unfolding hash_with_reader verify derive_key
verify-hash k p plaintext salt encoded laws es h = elim (Bool-cases (invalid_parameters p)) [
  | inl bad ↦ absurd (ground (arith, bad, h))
  | inr good ↦
      let digest = derive_key k plaintext salt p p.key_length in
      let ed = laws.length-id_key plaintext salt p.iterations p.memory p.parallelism p.key_length in
      let read = parse-phc k laws p salt digest good es ed in
      let made : phc_string k p salt digest ≡ encoded = ground (arith, good, h) in
      let again = sym (ap (parse k) made) ∙ read in
      (ground (arith, again, ed, bytes_eq_refl digest), again)
]
