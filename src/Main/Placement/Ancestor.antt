-- ===== src/Main/Placement/Ancestor.antt =====
-- main.go: what resolveThroughExistingAncestor resolves is the longest existing ancestor.
use re_casa_os_user_service.Prelude.{
  ℕ, ◌≡◌, Bytes, ◌++◌, Option, some, [], ◌∷◌, ap, arith, sym, refl, suc, none, ◌∙◌, subst, length,
  zero, false,
}
use re_casa_os_user_service.Files.{Answer, Info, done, failed, missing, bind_done, done-injective}
use re_casa_os_user_service.Main.Placement.{
  Components, PathSystem, probe_loop, probe_step, path_parent, resolved, path_name,
  resolve_through_existing_ancestor, finished, is_root,
}

-- The path is an ancestor that exists and a rest, of which each part that starts at the ancestor is
-- missing; the answer is what the ancestor resolves to, and the rest.
pub record LongestAncestor (sys : PathSystem) (p r : Components) : Type 0 where
  pub ancestor : Components
  pub suffix : Components
  pub split : p ≡ ancestor ++ suffix
  pub info : Info
  pub found : sys.lstat ancestor ≡ done info
  pub target : Components
  pub resolves : sys.eval_symlinks ancestor ≡ done target
  pub result : r ≡ target ++ suffix
  pub missing_below :
      (c : Bytes) (x y : Components)
      → suffix ≡ (c ∷ x) ++ y
      → sys.lstat (ancestor ++ (c ∷ x)) ≡ failed missing

parent_and_name :
    (c : Bytes) (p : Components) → path_parent (c ∷ p) ++ (path_name (c ∷ p) ∷ []) ≡ c ∷ p
unfolding path_parent path_name
parent_and_name c [] = refl
parent_and_name c (c' ∷ p) = ap (λ x. c ∷ x) (parent_and_name c' p)

append_assoc : (a b c : Components) → (a ++ b) ++ c ≡ a ++ (b ++ c)
append_assoc [] b c = refl
append_assoc (x ∷ a) b c = ap (λ z. x ∷ z) (append_assoc a b c)

append-nil : (a : Components) → a ++ [] ≡ a
append-nil [] = refl
append-nil (x ∷ a) = ap (λ z. x ∷ z) (append-nil a)

cons_head : {a b : Bytes} {x y : Components} → a ∷ x ≡ b ∷ y → a ≡ b
cons_head q = ground (arith, q)

cons_tail : {a b : Bytes} {x y : Components} → a ∷ x ≡ b ∷ y → x ≡ y
cons_tail q = ground (arith, q)

some_done :
    {a b : Answer Components} → ◌≡◌ {A = Option (Answer Components)} (some a) (some b) → a ≡ b
some_done q = ground (arith, q)

-- A loop that did not end gives a failure.
finished_done :
    {o : Option (Answer Components)} {r : Components} → finished o ≡ done r → o ≡ some (done r)
finished_done {o = some a} z = ap some z
finished_done {o = none} z = absurd (ground (arith, z))

-- The path of the next turn, with what is missing then.
next_path :
    (c : Bytes) (p m : Components) → path_parent (c ∷ p) ++ (path_name (c ∷ p) ∷ m) ≡ (c ∷ p) ++ m
next_path c p m =
    sym (append_assoc (path_parent (c ∷ p)) (path_name (c ∷ p) ∷ []) m)
    ∙ ap (λ x. x ++ m) (parent_and_name c p)

module _ (sys : PathSystem) where
  -- All of `m` is missing below `p`.
  abbrev MissingBelow : Components → Components → Type 0
  MissingBelow p m =
      (c : Bytes) (x y : Components) → m ≡ (c ∷ x) ++ y → sys.lstat (p ++ (c ∷ x)) ≡ failed missing

  missing_next :
      (c : Bytes) (p m : Components)
      → sys.lstat (c ∷ p) ≡ failed missing
      → MissingBelow (c ∷ p) m
      → MissingBelow (path_parent (c ∷ p)) (path_name (c ∷ p) ∷ m)
  missing_next c p m e h c' [] y q =
      ap (λ n. sys.lstat (path_parent (c ∷ p) ++ (n ∷ []))) (sym (cons_head q))
      ∙ ap sys.lstat (parent_and_name c p)
      ∙ e
  missing_next c p m e h c' (x ∷ xs) y q =
      ap (λ n. sys.lstat (path_parent (c ∷ p) ++ (n ∷ x ∷ xs))) (sym (cons_head q))
      ∙ ap sys.lstat (next_path c p (x ∷ xs))
      ∙ h x xs y (cons_tail q)

  step_longest :
      (p m r : Components) (found : Answer Info) (rest : Option (Answer Components))
      → sys.lstat p ≡ found
      → MissingBelow p m
      → (sys.lstat p ≡ failed missing
          → is_root p ≡ false
          → rest ≡ some (done r)
          → LongestAncestor sys (p ++ m) r)
      → probe_step sys p m found rest ≡ some (done r)
      → LongestAncestor sys (p ++ m) r
  unfolding probe_step
  step_longest p m r (done i) rest e h k z =
      let (t, q, last) = bind_done (sys.eval_symlinks p) _ r (some_done z) in
      record {
        ancestor = p;
        suffix = m;
        split = refl;
        info = i;
        found = e;
        target = t;
        resolves = q;
        result = sym (done-injective last);
        missing_below = h;
      }
  step_longest [] m r (failed missing) rest e h k z = absurd (ground (arith, z))
  step_longest (c ∷ p) m r (failed missing) rest e h k z = k e refl z
  step_longest p m r (failed x) rest e h k z = absurd (ground (arith, z))

  loop_longest :
      (n : ℕ) (p m r : Components)
      → MissingBelow p m
      → probe_loop sys n p m ≡ some (done r)
      → LongestAncestor sys (p ++ m) r
  unfolding probe_loop
  loop_longest zero p m r h z = absurd (ground (arith, z))
  loop_longest (suc n) [] m r h z =
      step_longest [] m r (sys.lstat []) _ refl h (λ e f q. absurd (ground (arith, f))) z
  loop_longest (suc n) (c ∷ p) m r h z =
      step_longest (c ∷ p) m r (sys.lstat (c ∷ p)) _ refl h
        (λ e f q.
          subst (λ x. LongestAncestor sys x r) (next_path c p m)
            (loop_longest n (path_parent (c ∷ p)) (path_name (c ∷ p) ∷ m) r (missing_next c p m e h)
              q))
        z

-- A path that is resolved is the longest existing ancestor, resolved, and the missing rest of it.
pub resolved_longest :
    (sys : PathSystem) (p r : Components) → resolved sys (done p) ≡ done r → LongestAncestor sys p r
unfolding resolved resolve_through_existing_ancestor
resolved_longest sys p r z =
    subst (λ x. LongestAncestor sys x r) (append-nil p)
      (loop_longest sys (suc (length p)) p [] r (λ c x y q. absurd (ground (arith, q)))
        (finished_done z))
