-- ===== src/Main/Placement/Loop.antt =====
-- main.go: the loop of resolveThroughExistingAncestor ends, and with the longest existing ancestor.
use re_casa_os_user_service.Prelude.{
  ℕ, Bytes, length, some, ◌<◌, Option, ◌∷◌, [], ◌≡◌, ◌≤◌, ap, arith, suc, ◌∙◌, refl, sym, zero,
}
use re_casa_os_user_service.Files.{Answer, Info, failed, done, failure, missing}
use re_casa_os_user_service.Main.Placement.{
  Components, PathSystem, probe_loop, resolve_through_existing_ancestor, path_parent, probe_step,
  resolved, enough_turns, rejoined, path_name, finished,
}

length-path_parent : (c : Bytes) (p : Components) → length (path_parent (c ∷ p)) ≡ length p
unfolding path_parent
length-path_parent c [] = refl
length-path_parent c (c' ∷ p) = ap suc (length-path_parent c' p)

module _ (sys : PathSystem) where
  step_ends :
      (p m : Components) (r : Answer Info) (a : Answer Components)
      → (b : Answer Components) × (probe_step sys p m r (some a) ≡ some b)
  unfolding probe_step
  step_ends p m (done i) a = (rejoined m (sys.eval_symlinks p), refl)
  step_ends [] m (failed missing) a = (failed failure, refl)
  step_ends (c ∷ p) m (failed missing) a = (a, refl)
  step_ends p m (failed e) a = (failed e, refl)

  root_ends :
      (m : Components) (r : Answer Info) (x y : Option (Answer Components))
      → (b : Answer Components) × (probe_step sys [] m r x ≡ some b)
        × (probe_step sys [] m r y ≡ some b)
  unfolding probe_step
  root_ends m (done i) x y = (rejoined m (sys.eval_symlinks []), refl, refl)
  root_ends m (failed missing) x y = (failed failure, refl, refl)
  root_ends m (failed e) x y = (failed e, refl, refl)

  -- With more turns than there are components the loop ends, always in the same way.
  loop_ends :
      (n k : ℕ) (p m : Components)
      → length p < n
      → length p < k
      → (a : Answer Components) × (probe_loop sys n p m ≡ some a) × (probe_loop sys k p m ≡ some a)
  unfolding probe_loop
  loop_ends zero k p m h h' = absurd (omega arith)
  loop_ends (suc n) zero p m h h' = absurd (omega arith)
  loop_ends (suc n) (suc k) [] m h h' = root_ends m (sys.lstat []) _ _
  loop_ends (suc n) (suc k) (c ∷ p) m h h' =
      let (a, x, y) =
        loop_ends n k (path_parent (c ∷ p)) (path_name (c ∷ p) ∷ m)
          (omega (arith, length-path_parent c p)) (omega (arith, length-path_parent c p)) in
      let (b, z) = step_ends (c ∷ p) m (sys.lstat (c ∷ p)) a in
      (
        b,
        ap (probe_step sys (c ∷ p) m (sys.lstat (c ∷ p))) x ∙ z,
        ap (probe_step sys (c ∷ p) m (sys.lstat (c ∷ p))) y ∙ z,
      )

-- The loop ends after at most one turn more than the path has components, and more turns give the
-- same answer.
pub resolve_terminates :
    (sys : PathSystem) (fuel : ℕ) (a : Answer Components)
    → enough_turns a ≤ fuel
    → resolve_through_existing_ancestor sys fuel a ≡ some (resolved sys a)
unfolding resolve_through_existing_ancestor resolved
resolve_terminates sys fuel (failed e) h = refl
resolve_terminates sys fuel (done p) h =
    let (a, x, y) = loop_ends sys fuel (suc (length p)) p [] (omega arith) (omega arith) in
    x ∙ sym (ap (λ r. some (finished r)) y)
