-- ===== src/Files/Disk/Ensures.antt =====
-- What an action brings about if it returns: one rule for each way to build it.
use re_casa_os_user_service.Prelude.{
  ℕ, Bytes, ◌≡◌, some, true, false, Option, sym, ◌∙◌, arith, refl, ◌++◌, if◌then◌else◌, ap, subst,
  Bool,
}
use re_casa_os_user_service.Files.{done, failed, done-injective, failure, Answer, FileError}
use re_casa_os_user_service.Files.Disk.{
  Disk, ◌>>=◌, Action, attempt, continue, write_file, chmod_file, Entry, call, touch, written,
  set_dir, placed, called, lift, pure, fail,
}
use re_casa_os_user_service.Files.Disk.Seen.{seen, seen-set_dir}
use re_casa_os_user_service.Files.Disk.Leaves.{Leaves-touch, Gives, Leaves}

-- Started where `Pre` holds, if `m` returns, what it returns and the disk have `Post`.
pub record Ensures {A : Type 0} (Pre : Disk → Type 0) (Post : A → Disk → Type 0) (m : Action A)
    : Type 0 where
  pub at : (d : Disk) → Pre d → (a : A) → (m d).0 ≡ done a → Post a (m d).1

pub Ensures-bind :
    {A B : Type 0} (Pre : Disk → Type 0) (Mid : A → Disk → Type 0) (Post : B → Disk → Type 0)
    (m : Action A) (f : A → Action B)
    → Ensures Pre Mid m
    → ((a : A) → Ensures (Mid a) Post (f a))
    → Ensures Pre Post (m >>= f)
unfolding ◌>>=◌
Ensures-bind Pre Mid Post m f km kf = record {
  at = λ d p b.
      elim (m d).0
          as (λ r.
            r ≡ (m d).0 → (continue f r (m d).1).0 ≡ done b → Post b (continue f r (m d).1).1) [
              | done a ↦ λ e z. (kf a).at (m d).1 (km.at d p a (sym e)) b z
              | failed x ↦ λ e z. absurd (ground (arith, z))
            ]
        refl;
}

pub Ensures-attempt :
    {A : Type 0} (Pre : Disk → Type 0) (Post : A → Disk → Type 0) (m : Action A)
    → Ensures Pre Post m
    → Ensures Pre (λ r d. (a : A) → r ≡ done a → Post a d) (attempt m)
unfolding attempt
Ensures-attempt Pre Post m k = record { at = λ d p r z a e. k.at d p a (done-injective z ∙ e) }

pub Ensures-call :
    {A : Type 0} (Pre : Disk → Type 0) (Post : A → Disk → Type 0) (m : Action A)
    → ((d : Disk) → Pre d → Pre (called d))
    → Ensures Pre Post m
    → Ensures Pre Post (call m)
unfolding call
Ensures-call Pre Post m c k = record {
  at = λ d p a.
      elim (d.fails d.calls)
        as (λ b.
          (if b then (failed failure, called d) else m (called d)).0 ≡ done a
          → Post a (if b then (failed failure, called d) else m (called d)).1) [
            | true ↦ λ z. absurd (ground (arith, z))
            | false ↦ λ z. k.at (called d) (c d p) a z
          ];
}

pub Ensures-touch :
    (h n : Bytes) (o : Option Entry) → Ensures (λ d. seen h n d ≡ o) (λ u d. seen h n d ≡ o) touch
Ensures-touch h n o = record { at = λ d p u z. (Leaves-touch {h = h} {n = n}).at d ∙ p }

pub Ensures-write_file :
    (h : Bytes) (e : Entry) (s : Bytes)
    → Ensures
        (λ d. Unit {0})
        (λ x d. (seen h e.name d ≡ some x) × (x ≡ record e { contents = e.contents ++ s }))
        (write_file h e s)
unfolding write_file
Ensures-write_file h e s = record {
  at = λ d p x z.
      elim (d.fails d.calls)
          as (λ b.
            (if b
                then failed failure
                else done (record e { contents = e.contents ++ written b d s }))
              ≡ done x
            → (seen h e.name (
                  set_dir h
                    (placed (record e { contents = e.contents ++ written b d s }) (d.dirs h))
                    (called d))
                ≡ some x)
              × (x ≡ record e { contents = e.contents ++ s })) [
                | true ↦ λ z'. absurd (ground (arith, z'))
                | false ↦ λ z'. (
                  seen-set_dir h (record e { contents = e.contents ++ s }) (d.dirs h) (called d)
                      ∙ ap some (done-injective z'),
                  sym (done-injective z'),
                )
              ]
        z;
}

pub Ensures-chmod_file :
    (h : Bytes) (e : Entry) (mode : ℕ)
    → Ensures
        (λ d. Unit {0})
        (λ x d.
          (seen h e.name d ≡ some x) × (x ≡ record e { info = record e.info { perm = mode } }))
        (chmod_file h e mode)
unfolding chmod_file
Ensures-chmod_file h e mode =
    Ensures-call (λ d. Unit {0}) _ _ (λ d p. p)
      (record {
        at = λ d p x z. (
          seen-set_dir h (record e { info = record e.info { perm = mode } }) (d.dirs h) d
              ∙ ap some (done-injective z),
          sym (done-injective z),
        );
      })

pub Ensures-lift :
    {A : Type 0} (Pre : Disk → Type 0) (r : Answer A) → Ensures Pre (λ a d. r ≡ done a) (lift r)
unfolding lift
Ensures-lift Pre r = record { at = λ d p a z. z }

pub Ensures-Gives :
    {A : Type 0} (Pre : Disk → Type 0) (Q : A → Type 0) (m : Action A)
    → Gives Q m
    → Ensures Pre (λ a d. Q a) m
Ensures-Gives Pre Q m k = record { at = λ d p a z. k.at d a z }

module _ (h n : Bytes) (o : Option Entry) where
  pub Ensures-Leaves :
      {A : Type 0} (m : Action A)
      → Leaves h n m
      → Ensures (λ d. seen h n d ≡ o) (λ a d. seen h n d ≡ o) m
  Ensures-Leaves m k = record { at = λ d p a z. k.at d ∙ p }

pub Ensures-skip :
    {A B : Type 0} (Post : B → Disk → Type 0) (m : Action A) (f : A → Action B)
    → ((a : A) → Ensures (λ d. Unit {0}) Post (f a))
    → Ensures (λ d. Unit {0}) Post (m >>= f)
Ensures-skip Post m f k =
    Ensures-bind (λ d. Unit {0}) (λ a d. Unit {0}) Post m f (record { at = λ d p a z. tt }) k

pub Ensures-given :
    {A : Type 0} (P : Type 0) (Post : A → Disk → Type 0) (m : Action A)
    → (P → Ensures (λ d. Unit {0}) Post m)
    → Ensures (λ d. P) Post m
Ensures-given P Post m k = record { at = λ d p. (k p).at d tt }

pub Ensures-weaken :
    {A : Type 0} {Pre : Disk → Type 0} (Mid : A → Disk → Type 0) {Post : A → Disk → Type 0}
    (m : Action A)
    → Ensures Pre Mid m
    → ((a : A) (d : Disk) → Mid a d → Post a d)
    → Ensures Pre Post m
Ensures-weaken Mid m k f = record { at = λ d p a z. f a (m d).1 (k.at d p a z) }

pub Ensures-pure :
    {A : Type 0} (Post : A → Disk → Type 0) (a : A) → Ensures (λ d. Post a d) Post (pure a)
unfolding pure
Ensures-pure Post a = record { at = λ d p x z. subst (λ y. Post y d) (done-injective z) p }

-- What is known of a file that the action leaves alone stays known.
pub Ensures-kept :
    {A : Type 0} (h n : Bytes) (P : Option Entry → Type 0) (m : Action A)
    → Leaves h n m
    → Ensures (λ d. P (seen h n d)) (λ a d. P (seen h n d)) m
Ensures-kept h n P m k = record { at = λ d p a z. subst P (sym (k.at d)) p }

pub Ensures-weaken_pre :
    {A : Type 0} {Pre Pre' : Disk → Type 0} {Post : A → Disk → Type 0}
    → ((d : Disk) → Pre' d → Pre d)
    → (m : Action A) → Ensures Pre Post m
    → Ensures Pre' Post m
Ensures-weaken_pre f m k = record { at = λ d p a z. k.at d (f d p) a z }

-- An action that only decides.
pub Ensures-decide :
    {Pre : Disk → Type 0} {Post : Unit {0} → Disk → Type 0} (b : Bool) (e : FileError)
    → ((d : Disk) → Pre d → b ≡ true → Post tt d)
    → Ensures Pre Post (if b then pure tt else fail e)
unfolding pure fail
Ensures-decide true e k = record { at = λ d p u z. k d p refl }
Ensures-decide false e k = record { at = λ d p u z. absurd (ground (arith, z)) }
