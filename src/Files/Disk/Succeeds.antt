-- ===== src/Files/Disk/Succeeds.antt =====
-- Actions that return, on a disk where no call fails.
use re_casa_os_user_service.Prelude.{ℕ, refl, subst, ◌≡◌, Bytes, false, if◌then◌else◌, sym, List}
use re_casa_os_user_service.Files.{Answer, done, failed, failure}
use re_casa_os_user_service.Files.Disk.{
  Disk, Action, ◌>>=◌, lift, touch, call, pure, attempt, called, continue, Entry,
}

abbrev pub Quiet : Disk → Type 0
Quiet d = (n : ℕ) → d.fails n ≡ false

-- Started where `Pre` holds, `m` returns, and what it returns and the disk have `Post`.
pub record Succeeds {A : Type 0} (Pre : Disk → Type 0) (Post : A → Disk → Type 0) (m : Action A)
    : Type 0 where
  pub at : (d : Disk) → Pre d → (a : A) × ((m d).0 ≡ done a) × Post a (m d).1

pub Succeeds-bind :
    {A B : Type 0} (Pre : Disk → Type 0) (Mid : A → Disk → Type 0) (Post : B → Disk → Type 0)
    (m : Action A) (f : A → Action B)
    → Succeeds Pre Mid m
    → ((a : A) → Succeeds (Mid a) Post (f a))
    → Succeeds Pre Post (m >>= f)
unfolding ◌>>=◌
Succeeds-bind Pre Mid Post m f km kf = record {
  at = λ d p.
      let (a, e, q) = km.at d p in
      let (b, e', r) = (kf a).at (m d).1 q in
      (
        b,
        subst (λ x. (continue f x (m d).1).0 ≡ done b) (sym e) e',
        subst (λ x. Post b (continue f x (m d).1).1) (sym e) r,
      );
}

pub Succeeds-pure :
    {A : Type 0} (Post : A → Disk → Type 0) (a : A) → Succeeds (Post a) Post (pure a)
unfolding pure
Succeeds-pure Post a = record { at = λ d p. (a, refl, p) }

pub Succeeds-lift :
    {A : Type 0} (P : Disk → Type 0) (r : Answer A) (a : A)
    → r ≡ done a
    → Succeeds P (λ b d. P d × (b ≡ a)) (lift r)
unfolding lift
Succeeds-lift P r a e = record { at = λ d p. (a, e, (p, refl)) }

pub Succeeds-attempt :
    {A : Type 0} (Pre : Disk → Type 0) (Post : A → Disk → Type 0) (m : Action A)
    → Succeeds Pre Post m
    → Succeeds Pre (λ r d. (a : A) × (r ≡ done a) × Post a d) (attempt m)
unfolding attempt
Succeeds-attempt Pre Post m k = record {
  at = λ d p. let (a, e, q) = k.at d p in ((m d).0, refl, (a, e, q));
}

-- A call, whose disk counts one call more.
pub Succeeds-call :
    {A : Type 0} (Pre : Disk → Type 0) (Post : A → Disk → Type 0) (m : Action A)
    → ((d : Disk) → Pre d → Quiet d × Pre (called d))
    → Succeeds Pre Post m
    → Succeeds Pre Post (call m)
unfolding call
Succeeds-call Pre Post m c k = record {
  at = λ d p.
      let (quiet, p') = c d p in
      let (a, e, q) = k.at (called d) p' in
      (
        a,
        subst (λ b. (if b then (failed failure, called d) else m (called d)).0 ≡ done a)
            (sym (quiet d.calls)) e,
        subst (λ b. Post a (if b then (failed failure, called d) else m (called d)).1)
            (sym (quiet d.calls)) q,
      );
}

-- What is known of the directories stays known when nothing is written.
pub Succeeds-touch :
    (P : (Bytes → List Entry) → Type 0)
    → Succeeds (λ d. Quiet d × P d.dirs) (λ u d. Quiet d × P d.dirs) touch
unfolding touch
Succeeds-touch P =
    Succeeds-call _ _ _ (λ d (q, p). (q, (q, p))) (Succeeds-pure (λ u d. Quiet d × P d.dirs) tt)
