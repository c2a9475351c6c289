-- ===== src/Main/Placement/Outside.antt =====
-- main.go: requireSealOutsideDatabase accepts exactly the seals that are not below the database.
use re_casa_os_user_service.Prelude.{
  Bool, exists_where, ◌≡◌, bytes_eq, ◌++◌, false, true, ◌↔◌, ◌∷◌, arith, [], ap, bytes_eq_refl,
  Bool-cases, sym, refl, ◌∙◌, inl, bytes_eq→eq, inr,
}
use re_casa_os_user_service.Files.{Answer, done, bind_done, reject_done, invalid_seal}
use re_casa_os_user_service.Main.Placement.{
  Components, PathSystem, relative_path, require_seal_outside_database, stays_inside, resolved,
  parent_name,
}

-- No component of the path is "..".
abbrev pub has_parent_name : Components → Bool
has_parent_name p = exists_where (λ c. bytes_eq c parent_name) p

relative-inside : (d rest : Components) → relative_path d (d ++ rest) ≡ rest
unfolding relative_path
relative-inside [] rest = refl
relative-inside (b ∷ d) rest = ground (arith, bytes_eq_refl b, relative-inside d rest)

inside_parts :
    (d s : Components)
    → stays_inside (relative_path d s) ≡ true
    → (rest : Components) × (s ≡ d ++ rest)
unfolding relative_path stays_inside
inside_parts [] s h = (s, refl)
inside_parts (b ∷ d) [] h = absurd (ground (arith, h, bytes_eq_refl parent_name))
inside_parts (b ∷ d) (t ∷ s) h = elim (Bool-cases (bytes_eq b t)) [
  | inl e ↦
      (let (rest, q) = inside_parts d s (ground (arith, e, h)) in
        (rest, ap (λ x. x ∷ s) (sym (bytes_eq→eq b t e)) ∙ ap (λ x. b ∷ x) q))
  | inr e ↦ absurd (ground (arith, e, h, bytes_eq_refl parent_name))
]

tail_has_parent_name :
    (d rest : Components) → has_parent_name (d ++ rest) ≡ false → has_parent_name rest ≡ false
unfolding exists_where
tail_has_parent_name [] rest h = h
tail_has_parent_name (b ∷ d) rest h = tail_has_parent_name d rest (ground (arith, h))

proper_stays : (p : Components) → has_parent_name p ≡ false → stays_inside p ≡ true
unfolding stays_inside exists_where
proper_stays [] h = refl
proper_stays (c ∷ p) h = ground (arith, h)

-- The path `s` is `d` or below it.
abbrev pub IsBelow : Components → Components → Type 0
IsBelow s d = (rest : Components) × (s ≡ d ++ rest)

outside_lem :
    (d s : Components)
    → has_parent_name s ≡ false
    → (stays_inside (relative_path d s) ≡ false) ↔ (¬ IsBelow s d)
outside_lem d s h = (
  λ e (rest, q). ground (
    arith,
    e,
    ap (λ x. stays_inside (relative_path d x)) q,
    ap stays_inside (relative-inside d rest),
    proper_stays rest (tail_has_parent_name d rest (ap has_parent_name (sym q) ∙ h)),
  ),
  λ n. elim (Bool-cases (stays_inside (relative_path d s))) [
    | inl e ↦ absurd (n (inside_parts d s e))
    | inr e ↦ e
  ],
)

-- Both paths resolve, and the seal's is neither the database directory nor below it.
abbrev pub IsOutside : PathSystem → Answer Components → Answer Components → Type 0
IsOutside sys database seal =
    (d : Components) × (resolved sys database ≡ done d)
    × (s : Components) × (resolved sys seal ≡ done s)
    × (¬ IsBelow s d)

-- The check accepts exactly the seals that lie, after all symbolic links are resolved, neither at nor
-- below the database directory, if the system resolves to paths without "..".
pub require_seal_outside_database_lem :
    (sys : PathSystem) (database seal : Answer Components)
    → ((s : Components) → resolved sys seal ≡ done s → has_parent_name s ≡ false)
    → (require_seal_outside_database sys database seal ≡ done tt) ↔ IsOutside sys database seal
unfolding require_seal_outside_database
require_seal_outside_database_lem sys database seal h = (
  λ z.
      let (d, p, r1) = bind_done _ _ tt z in
      let (s, q, r2) = bind_done _ _ tt r1 in
      (d, p, s, q, (outside_lem d s (h s q)).0 (reject_done _ invalid_seal r2)),
  λ (d, p, s, q, n). ground (arith, p, q, (outside_lem d s (h s q)).1 n),
)
