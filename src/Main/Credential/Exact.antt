-- ===== src/Main/Credential/Exact.antt =====
-- main.go: readCredential returns exactly the secret of the file.
use re_casa_os_user_service.Prelude.{
  ℕ, contains_byte, Bytes, ◌<◌, ◌≡◌, length, ◌++◌, ◌≤◌, false, ◌⊎◌, take, ◌||◌, inl, ◌∷◌, ap, suc,
  ◌∙◌, [], subst, arith, inr, sym, refl, zero, ◌+◌, Bool, true, length-append, not, leb, ◌↔◌,
}
use re_casa_os_user_service.Main.Credential.{
  carriage_return, forbidden, private_info, CredentialSource, secret_of, read_credential,
  changed_file,
}
use re_casa_os_user_service.Bootstrap.FileSeal.{trim_last, newline}
use re_casa_os_user_service.Bootstrap.FileSeal.Format.{trim_last-append, take_all}
use re_casa_os_user_service.Files.{
  Info, done, open_to_others, then_done, owned_by, reject, invalid_credential, reject_done,
  bind_done, done-injective,
}

-- The file holds the secret and at most one line ending.
pub data HoldsSecret : Bytes → Bytes → Type 0 where
  bare : {s : Bytes} → HoldsSecret s s
  with_newline : {s : Bytes} → HoldsSecret s (s ++ (newline ∷ []))
  with_return : {s : Bytes} → HoldsSecret s (s ++ (carriage_return ∷ []))
  with_both : {s : Bytes} → HoldsSecret s ((s ++ (carriage_return ∷ [])) ++ (newline ∷ []))

trim_last-absent : (c : ℕ) (s : Bytes) → contains_byte c s ≡ false → trim_last c s ≡ s
unfolding contains_byte trim_last
trim_last-absent c [] h = refl
trim_last-absent c (b ∷ []) h = ground (arith, h)
trim_last-absent c (b ∷ b' ∷ s) h =
    ap (λ x. b ∷ x) (trim_last-absent c (b' ∷ s) (ground (arith, h)))

trim_last-cases : (c : ℕ) (s : Bytes) → (s ≡ trim_last c s) ⊎ (s ≡ trim_last c s ++ (c ∷ []))
unfolding trim_last
trim_last-cases c [] = inl refl
trim_last-cases c (b ∷ []) = ground arith
trim_last-cases c (b ∷ b' ∷ s) = elim (trim_last-cases c (b' ∷ s)) [
  | inl p ↦ inl (ap (λ x. b ∷ x) p)
  | inr p ↦ inr (ap (λ x. b ∷ x) p)
]

contains_byte-append :
    (c : ℕ) (s t : Bytes) → contains_byte c (s ++ t) ≡ contains_byte c s || contains_byte c t
unfolding contains_byte
contains_byte-append c [] t = refl
contains_byte-append c (b ∷ s) t = ground (arith, contains_byte-append c s t)

take_short : (n : ℕ) (s : Bytes) → length (take (suc n) s) ≤ n → take (suc n) s ≡ s
take_short n [] h = refl
take_short zero (b ∷ s) h = absurd (omega arith)
take_short (suc n) (b ∷ s) h = ap (λ x. b ∷ x) (take_short n s (omega arith))

holds-trim_last : (f : Bytes) → HoldsSecret (trim_last carriage_return (trim_last newline f)) f
holds-trim_last f = elim (trim_last-cases newline f) [
  | inl p ↦ elim (trim_last-cases carriage_return (trim_last newline f)) [
    | inl q ↦
        subst (HoldsSecret (trim_last carriage_return (trim_last newline f))) (sym (p ∙ q)) bare
    | inr q ↦
        subst (HoldsSecret (trim_last carriage_return (trim_last newline f))) (sym (p ∙ q))
          with_return
  ]
  | inr p ↦ elim (trim_last-cases carriage_return (trim_last newline f)) [
    | inl q ↦
        subst (HoldsSecret (trim_last carriage_return (trim_last newline f)))
          (sym (p ∙ ap (λ x. x ++ (newline ∷ [])) q)) with_newline
    | inr q ↦
        subst (HoldsSecret (trim_last carriage_return (trim_last newline f)))
          (sym (p ∙ ap (λ x. x ++ (newline ∷ [])) q)) with_both
  ]
]

-- A secret: not empty, at most 1024 bytes, no NUL and no line ending.
pub record IsSecret (s : Bytes) : Type 0 where
  pub nonempty : 0 < length s
  pub bounded : length s ≤ 1024
  pub no_nul : contains_byte 0 s ≡ false
  pub no_return : contains_byte carriage_return s ≡ false
  pub no_newline : contains_byte newline s ≡ false

trimmed :
    (s f : Bytes)
    → IsSecret s
    → HoldsSecret s f
    → trim_last carriage_return (trim_last newline f) ≡ s
unfolding contains_byte
trimmed s f q bare =
    ap (trim_last carriage_return) (trim_last-absent newline s q.no_newline)
    ∙ trim_last-absent carriage_return s q.no_return
trimmed s f q with_newline =
    ap (trim_last carriage_return) (trim_last-append newline s)
    ∙ trim_last-absent carriage_return s q.no_return
trimmed s f q with_return =
    ap (trim_last carriage_return) (
      trim_last-absent newline (s ++ (carriage_return ∷ []))
        (ground (arith, contains_byte-append newline s (carriage_return ∷ []), q.no_newline)))
    ∙ trim_last-append carriage_return s
trimmed s f q with_both =
    ap (trim_last carriage_return) (trim_last-append newline (s ++ (carriage_return ∷ [])))
    ∙ trim_last-append carriage_return s

secret_lem : (s : Bytes) → forbidden s ≡ false → IsSecret s
secret_lem [] h = absurd (ground (arith, h))
secret_lem (b ∷ s) h = record {
  nonempty = omega arith;
  bounded = ground (arith, h);
  no_nul = ground (arith, h);
  no_return = ground (arith, h);
  no_newline = ground (arith, h);
}

secret_allowed : (s : Bytes) → IsSecret s → forbidden s ≡ false
secret_allowed [] q = absurd (omega (arith, q.nonempty))
secret_allowed (b ∷ s) q = ground (arith, q.bounded, q.no_nul, q.no_return, q.no_newline)

holds_length : (s f : Bytes) → HoldsSecret s f → length f ≤ length s + 2
holds_length s f bare = omega arith
holds_length s f with_newline = omega (arith, length-append s (newline ∷ []))
holds_length s f with_return = omega (arith, length-append s (carriage_return ∷ []))
holds_length s f with_both = omega (
  arith,
  length-append (s ++ (carriage_return ∷ [])) (newline ∷ []),
  length-append s (carriage_return ∷ []),
)

within : (n k : ℕ) → not (leb n k) ≡ false → n ≤ k
within n k h = ground (arith, h)

pub secret_of_sound :
    (f s : Bytes) → secret_of (take 1027 f) ≡ done s → IsSecret s × HoldsSecret s f
unfolding secret_of
secret_of_sound f s z =
    let (short, rest) =
      then_done (reject (not (leb (length (take 1027 f)) 1026)) invalid_credential) _ s z in
    let (allowed, last) = then_done _ _ s rest in
    let same = take_short 1026 f (within _ 1026 (reject_done _ invalid_credential short)) in
    let trimmed_s =
      ap (λ x. trim_last carriage_return (trim_last newline x)) (sym same) ∙ done-injective last in
    (
      subst IsSecret (done-injective last)
          (secret_lem _ (reject_done _ invalid_credential allowed)),
      subst (λ x. HoldsSecret x f) trimmed_s (holds-trim_last f),
    )

pub secret_of_complete :
    (f s : Bytes) → IsSecret s → HoldsSecret s f → secret_of (take 1027 f) ≡ done s
unfolding secret_of
secret_of_complete f s q h =
    let short = holds_length s f h in
    let whole = take_all 1027 f (omega (arith, short, q.bounded)) in
    let t = ap (λ x. trim_last carriage_return (trim_last newline x)) whole ∙ trimmed s f q h in
    ground (arith, ap length whole, short, q.bounded, t, secret_allowed s q)

-- An object that only its owner may use, of the right kind.
pub record IsPrivate (wrong_kind : Info → Bool) (owner : ℕ) (i : Info) : Type 0 where
  pub plain : i.is_symlink ≡ false
  pub right_kind : wrong_kind i ≡ false
  pub closed : open_to_others i ≡ false
  pub owned : owned_by owner i ≡ true

private_info_sound :
    (w : Info → Bool) (owner : ℕ) (i : Info)
    → private_info w owner i ≡ done tt
    → IsPrivate w owner i
unfolding private_info
private_info_sound w owner i z =
    let (a, rest) = then_done (reject (i.is_symlink || w i) invalid_credential) _ tt z in
    let (b, c) = then_done _ _ tt rest in
    let p = reject_done _ invalid_credential a in
    record {
      plain = ground (arith, p);
      right_kind = ground (arith, p);
      closed = reject_done _ invalid_credential b;
      owned = ground (arith, reject_done _ invalid_credential c);
    }

private_info_complete :
    (w : Info → Bool) (owner : ℕ) (i : Info)
    → IsPrivate w owner i
    → private_info w owner i ≡ done tt
unfolding private_info
private_info_complete w owner i q = ground (arith, q.plain, q.right_kind, q.closed, q.owned)

-- The directory is private, and the file is, and stays the same while it is opened.
pub record Guarded (owner : ℕ) (c : CredentialSource) : Type 0 where
  pub absolute : c.is_absolute ≡ true
  pub directory : Info
  pub found_directory : c.directory ≡ done directory
  pub private_directory : IsPrivate (λ x. not x.is_dir) owner directory
  pub before : Info
  pub found : c.before ≡ done before
  pub private_file : IsPrivate (λ x. not x.is_regular) owner before
  pub opened : c.open_file ≡ done tt
  pub after : Info
  pub found_after : c.after ≡ done after
  pub unchanged : changed_file before after ≡ false

read_credential_sound :
    (owner : ℕ) (c : CredentialSource) (s : Bytes)
    → read_credential owner c ≡ done s
    → Guarded owner c × (f : Bytes) × (c.contents ≡ done f) × IsSecret s × HoldsSecret s f
unfolding read_credential
read_credential_sound owner c s z =
    let (absolute, r1) = then_done (reject (not c.is_absolute) invalid_credential) _ s z in
    let (i, found_i, r2) = bind_done _ _ s r1 in
    let (private_i, r3) = then_done _ _ s r2 in
    let (b, found_b, r4) = bind_done _ _ s r3 in
    let (private_b, r5) = then_done _ _ s r4 in
    let (opened, r6) = then_done _ _ s r5 in
    let (a, found_a, r7) = bind_done _ _ s r6 in
    let (same, r8) = then_done _ _ s r7 in
    let (f, read, r9) = bind_done _ _ s r8 in
    let (q, h) = secret_of_sound f s r9 in
    (
      record {
        absolute = ground (arith, reject_done _ invalid_credential absolute);
        directory = i;
        found_directory = found_i;
        private_directory = private_info_sound _ owner i private_i;
        before = b;
        found = found_b;
        private_file = private_info_sound _ owner b private_b;
        opened = opened;
        after = a;
        found_after = found_a;
        unchanged = reject_done _ invalid_credential same;
      },
      f,
      read,
      q,
      h,
    )

read_credential_complete :
    (owner : ℕ) (c : CredentialSource) (s f : Bytes)
    → Guarded owner c
    → c.contents ≡ done f
    → IsSecret s
    → HoldsSecret s f
    → read_credential owner c ≡ done s
unfolding read_credential
read_credential_complete owner c s f g read q h = ground (
  arith,
  g.absolute,
  g.found_directory,
  private_info_complete _ owner g.directory g.private_directory,
  g.found,
  private_info_complete _ owner g.before g.private_file,
  g.opened,
  g.found_after,
  g.unchanged,
  read,
  secret_of_complete f s q h,
)

-- A credential is accepted exactly if its directory and its file are private to the owner and the file is
-- the same after it was opened, and what is returned is exactly the secret in it: 1 to 1024 bytes
-- without NUL or line ending, after which the file has at most one line ending.
pub read_credential_lem :
    (owner : ℕ) (c : CredentialSource) (s : Bytes)
    → (read_credential owner c ≡ done s)
      ↔ (Guarded owner c × (f : Bytes) × (c.contents ≡ done f) × IsSecret s × HoldsSecret s f)
read_credential_lem owner c s = (
  read_credential_sound owner c s,
  λ (g, f, read, q, h). read_credential_complete owner c s f g read q h,
)
