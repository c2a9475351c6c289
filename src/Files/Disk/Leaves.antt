-- ===== src/Files/Disk/Leaves.antt =====
-- Actions that leave the file of some name in some directory alone: one rule for each call.
use re_casa_os_user_service.Prelude.{
  ℕ, Bytes, ◌≡◌, none, false, Option, arith, inl, refl, subst, sym, ◌∙◌, some, inr, ◌++◌,
  Option-cases, if◌then◌else◌, true, take, Bool,
}
use re_casa_os_user_service.Files.Disk.{
  pure, continue, ◌>>=◌, Action, Disk, lift, attempt, ignore, lookup, call, fail, Entry, called,
  touch, create_excl, remove_file, chmod_file, lstat, draw_nonce, write_file, new_file, created,
  written, renamed, rename_file, read_file, open_nofollow, linked, link_file,
}
use re_casa_os_user_service.Files.{
  Answer, Answer-cases, FileError, done, failed, failure, done-injective,
}
use re_casa_os_user_service.Files.Disk.Seen.{
  Elsewhere, seen, seen-renamed, seen-without, seen-placed,
}

pub record Gives {A : Type 0} (Q : A → Type 0) (m : Action A) : Type 0 where
  pub at : (d : Disk) (a : A) → (m d).0 ≡ done a → Q a

pub Gives-bind :
    {A B : Type 0} (R : A → Type 0) (Q : B → Type 0) (m : Action A) (f : A → Action B)
    → Gives R m
    → ((a : A) → R a → Gives Q (f a))
    → Gives Q (m >>= f)
unfolding ◌>>=◌
Gives-bind {A} {B} R Q m f km kf = record {
  at = λ d b.
      elim (m d).0 as (λ r. (r ≡ (m d).0) → (continue f r (m d).1).0 ≡ done b → Q b) [
        | done a ↦ λ e z. (kf a (km.at d a (sym e))).at (m d).1 b z
        | failed x ↦ λ e z. ground (arith, z)
      ]
        refl;
}

pub Gives-any : {A : Type 0} (m : Action A) → Gives (λ a. Unit {0}) m
Gives-any m = record { at = λ d a e. tt }

pub Gives-call : {A : Type 0} (Q : A → Type 0) (m : Action A) → Gives Q m → Gives Q (call m)
unfolding call
Gives-call Q m k = record {
  at = λ d a.
      elim (d.fails d.calls)
        as (λ b. (if b then (failed failure, called d) else m (called d)).0 ≡ done a → Q a) [
          | true ↦ λ z. ground (arith, z)
          | false ↦ λ z. k.at (called d) a z
        ];
}

pub Gives-attempt :
    {A : Type 0} (Q : A → Type 0) (m : Action A)
    → Gives Q m
    → Gives (λ r. (a : A) → r ≡ done a → Q a) (attempt m)
unfolding attempt
Gives-attempt Q m k = record { at = λ d r z a e. k.at d a (done-injective z ∙ e) }

-- `m` leaves that file as it is, whether it returns or fails.
pub record Leaves {A : Type 0} (h n : Bytes) (m : Action A) : Type 0 where
  pub at : (d : Disk) → seen h n (m d).1 ≡ seen h n d

module _ {h n : Bytes} {A : Type 0} where
  pub Leaves-pure : (a : A) → Leaves h n (pure a)
  unfolding pure
  Leaves-pure a = record { at = λ d. refl }

  pub Leaves-fail : (e : FileError) → Leaves h n (fail {A = A} e)
  unfolding fail
  Leaves-fail e = record { at = λ d. refl }

  pub Leaves-lift : (r : Answer A) → Leaves h n (lift r)
  unfolding lift
  Leaves-lift r = record { at = λ d. refl }

  pub Leaves-attempt : (m : Action A) → Leaves h n m → Leaves h n (attempt m)
  unfolding attempt
  Leaves-attempt m k = record { at = λ d. k.at d }

  pub Leaves-ignore : (m : Action A) → Leaves h n m → Leaves h n (ignore m)
  unfolding ignore
  Leaves-ignore m k = record { at = λ d. k.at d }

  -- What `m` returns, if it does, has `Q`.
  pub Leaves-bind :
      {B : Type 0} (Q : A → Type 0) (m : Action A) (f : A → Action B)
      → Leaves h n m
      → Gives Q m
      → ((a : A) → Q a → Leaves h n (f a))
      → Leaves h n (m >>= f)
  unfolding ◌>>=◌
  Leaves-bind {B} Q m f km kq kf = record {
    at = λ d. elim (Answer-cases (m d).0) [
      | inl (a, e) ↦
          subst (λ r. seen h n (continue f r (m d).1).1 ≡ seen h n d) (sym e)
            ((kf a (kq.at d a e)).at (m d).1 ∙ km.at d)
      | inr (x, e) ↦ subst (λ r. seen h n (continue f r (m d).1).1 ≡ seen h n d) (sym e) (km.at d)
    ];
  }

  pub Leaves-then :
      {B : Type 0} (m : Action A) (f : A → Action B)
      → Leaves h n m
      → ((a : A) → Leaves h n (f a))
      → Leaves h n (m >>= f)
  Leaves-then m f km kf =
      Leaves-bind (λ a. Unit {0}) m f km (record { at = λ d a e. tt }) (λ a u. kf a)

  pub Leaves-call : (m : Action A) → Leaves h n m → Leaves h n (call m)
  unfolding call seen
  Leaves-call m k = record { at = λ d. ground (arith, k.at (called d)) }

module _ {h n : Bytes} where
  pub Leaves-touch : Leaves h n touch
  unfolding touch
  Leaves-touch = Leaves-call (pure tt) (Leaves-pure tt)

  pub Leaves-lstat : (h' n' : Bytes) → Leaves h n (lstat h' n')
  unfolding lstat
  Leaves-lstat h' n' = Leaves-call _ (record { at = λ d. ground (arith) })

  pub Leaves-draw_nonce : Leaves h n draw_nonce
  unfolding draw_nonce seen
  Leaves-draw_nonce = record { at = λ d. refl }

  Leaves-created :
      (euid : ℕ) (h' n' : Bytes) (r : Option Entry)
      → Elsewhere h n h' n'
      → Leaves h n (created euid h' n' r)
  unfolding created seen
  Leaves-created euid h' n' (some e) o = record { at = λ d. refl }
  Leaves-created euid h' n' none o = record {
    at = λ d. seen-placed h n h' (new_file euid d n') d o;
  }

  pub Leaves-create_excl :
      (euid : ℕ) (h' n' : Bytes) → Elsewhere h n h' n' → Leaves h n (create_excl euid h' n')
  unfolding create_excl
  Leaves-create_excl euid h' n' o =
      Leaves-call _
        (record { at = λ d. (Leaves-created euid h' n' (lookup n' (d.dirs h')) o).at d })

  pub Leaves-write_file :
      (h' : Bytes) (e : Entry) (s : Bytes)
      → Elsewhere h n h' e.name
      → Leaves h n (write_file h' e s)
  unfolding write_file seen
  Leaves-write_file h' e s o = record {
    at = λ d.
        seen-placed h n h' (record e { contents = e.contents ++ written (d.fails d.calls) d s })
          (called d) o;
  }

  pub Leaves-chmod_file :
      (h' : Bytes) (e : Entry) (mode : ℕ)
      → Elsewhere h n h' e.name
      → Leaves h n (chmod_file h' e mode)
  unfolding chmod_file
  Leaves-chmod_file h' e mode o = Leaves-call _ (record {
    at = λ d. seen-placed h n h' (record e { info = record e.info { perm = mode } }) d o;
  })

  pub Leaves-remove_file : (h' n' : Bytes) → Elsewhere h n h' n' → Leaves h n (remove_file h' n')
  unfolding remove_file
  Leaves-remove_file h' n' o = Leaves-call _ (record {
    at = λ d. elim (Option-cases (lookup n' (d.dirs h'))) [
      | inl e ↦ ground (arith, e)
      | inr (x, e) ↦ ground (arith, e, seen-without h n h' n' d o)
    ];
  })

  Leaves-renamed :
      (h' from to : Bytes) (r : Option Entry)
      → Elsewhere h n h' from
      → Elsewhere h n h' to
      → Leaves h n (renamed h' from to r)
  unfolding renamed
  Leaves-renamed h' from to none o o' = record { at = λ d. refl }
  Leaves-renamed h' from to (some e) o o' = record {
    at = λ d. seen-renamed h n h' from (record e { name = to }) d o o';
  }

  pub Leaves-rename_file :
      (h' from to : Bytes)
      → Elsewhere h n h' from
      → Elsewhere h n h' to
      → Leaves h n (rename_file h' from to)
  unfolding rename_file
  Leaves-rename_file h' from to o o' =
      Leaves-call _
        (record { at = λ d. (Leaves-renamed h' from to (lookup from (d.dirs h')) o o').at d })

  Leaves-linked :
      (h' to : Bytes) (taken r : Option Entry)
      → Elsewhere h n h' to
      → Leaves h n (linked h' to taken r)
  unfolding linked seen
  Leaves-linked h' to taken none o = record { at = λ d. refl }
  Leaves-linked h' to (some x) (some e) o = record { at = λ d. refl }
  Leaves-linked h' to none (some e) o = record {
    at = λ d. seen-placed h n h' (record e { name = to }) d o;
  }

  pub Leaves-link_file :
      (h' from to : Bytes) → Elsewhere h n h' to → Leaves h n (link_file h' from to)
  unfolding link_file
  Leaves-link_file h' from to o = Leaves-call _ (record {
    at = λ d. (Leaves-linked h' to (lookup to (d.dirs h')) (lookup from (d.dirs h')) o).at d;
  })

  pub Leaves-open_nofollow : (h' n' : Bytes) → Leaves h n (open_nofollow h' n')
  unfolding open_nofollow
  Leaves-open_nofollow h' n' = Leaves-call _ (record { at = λ d. ground arith })

  pub Leaves-read_file : (e : Entry) (k : ℕ) → Leaves h n (read_file e k)
  unfolding read_file
  Leaves-read_file e k = Leaves-call _ (Leaves-pure (take k e.contents))

pub Leaves-if :
    {h n : Bytes} {A : Type 0} (b : Bool) (m k : Action A)
    → Leaves h n m
    → Leaves h n k
    → Leaves h n (if b then m else k)
Leaves-if true m k p q = p
Leaves-if false m k p q = q
